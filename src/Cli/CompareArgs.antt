-- ===== src/Cli/CompareArgs.antt =====
-- cmd/ednsdiag/main.go: `parseCompareArgs`.
pub mod Laws
use encrypted_dns_skill.Base.{
  ℤ, pos, Bool, true, false, not, ◌&&◌, ◌||◌, List, [], ◌∷◌, ◌++◌, ltb, ltℤ, if◌then◌else◌, length,
}
use encrypted_dns_skill.Capability.{proxy_supported}
use encrypted_dns_skill.Cli.Flags.{FlagValue, Consumed, consume_flags, parse_domain_and_type}
use encrypted_dns_skill.Cli.Target.{parse_compare_target, identity}
use encrypted_dns_skill.Compare.{milliseconds}
use encrypted_dns_skill.Dns.Name.{from_option}
use encrypted_dns_skill.Dns.Tables.{is_supported_record_type}
use encrypted_dns_skill.Errors.{
  Error, unsupported_record_type, max_attempts_range, too_few_targets, attempt_timeout_range,
  unknown_option, invalid_duration, invalid_count, attempt_exceeds_total, duplicate_target,
  proxy_target, targets_exceed_attempts, total_timeout_range, Fallible, ok, err, ◌>>=◌, ◌>>◌,
  refuse_if,
}
use encrypted_dns_skill.Model.{CompareTarget, CompareOptions}
use encrypted_dns_skill.Platform.{Platform}
use encrypted_dns_skill.Proxy.{validate_proxy_url}
use encrypted_dns_skill.Text.{Text, codes, text_eq, is_empty}

-- The options, the total timeout and the identities of the targets seen so far.
pub record CompareArgs : Type 0 where
  pub options : CompareOptions
  pub total_timeout : ℤ
  pub seen : List Text

abbrev pub compare_defaults : CompareArgs
compare_defaults = record {
  options = record {
    name = [];
    record_type = codes "A";
    targets = [];
    attempt_timeout = milliseconds 5_000;
    max_attempts = pos 4;
    proxy = [];
  };
  total_timeout = milliseconds 30_000;
  seen = [];
}

-- `seenTargets[identity]`
unfoldable pub is_seen : List Text → Text → Bool
is_seen [] id = false
is_seen (s ∷ l) id = text_eq s id || is_seen l id

-- The loop over the targets, for an explicit proxy.
unfoldable pub check_proxy_targets : List CompareTarget → Fallible (Unit {0})
check_proxy_targets [] = ok tt
check_proxy_targets (t ∷ ts) =
    if not (proxy_supported t.protocol)
    then err (proxy_target t.protocol)
    else check_proxy_targets ts

-- The case `target`, on a target that was parsed.
unfoldable pub add_target : Text → CompareArgs → CompareTarget → Fallible CompareArgs
add_target value s target =
    if is_seen s.seen (identity target)
    then err (duplicate_target value)
    else ok (record s {
      options = record (s.options) { targets = s.options.targets ++ target ∷ [] };
      seen = identity target ∷ s.seen;
    })

module _ (P : Platform) where
  -- The switch over the key of a flag.
  unfoldable pub apply_compare_flag : FlagValue → CompareArgs → Fallible CompareArgs
  apply_compare_flag flag s =
      if text_eq flag.key (codes "target")
      then (parse_compare_target P flag.value >>= add_target flag.value s)
      else if text_eq flag.key (codes "timeout")
      then (from_option (P.parse_duration flag.value) (invalid_duration flag.value) >>= λ parsed.
          ok (record s { total_timeout = parsed }))
      else if text_eq flag.key (codes "attempt-timeout")
      then (from_option (P.parse_duration flag.value) (invalid_duration flag.value) >>= λ parsed.
          ok (record s { options = record (s.options) { attempt_timeout = parsed } }))
      else if text_eq flag.key (codes "max-attempts")
      then (from_option (P.atoi flag.value) (invalid_count flag.value) >>= λ parsed.
          ok (record s { options = record (s.options) { max_attempts = parsed } }))
      else if text_eq flag.key (codes "proxy")
      then ok (record s { options = record (s.options) { proxy = flag.value } })
      else err (unknown_option flag.key)

  unfoldable pub apply_compare_flags : List FlagValue → CompareArgs → Fallible CompareArgs
  apply_compare_flags [] s = ok s
  apply_compare_flags (flag ∷ flags) s = apply_compare_flag flag s >>= apply_compare_flags flags

  -- The tests behind the loop, in their order.
  unfoldable pub check_compare_args : CompareArgs → Fallible (Unit {0})
  check_compare_args s = do
    let o = s.options
    refuse_if (not (is_supported_record_type P o.record_type))
        (unsupported_record_type o.record_type)
    refuse_if (ltb (length o.targets) 2) too_few_targets
    refuse_if (ltℤ o.max_attempts (pos 2) || ltℤ (pos 8) o.max_attempts) max_attempts_range
    refuse_if (ltℤ o.max_attempts (pos (length o.targets))) targets_exceed_attempts
    refuse_if (ltℤ s.total_timeout (milliseconds 250) || ltℤ (milliseconds 60_000) s.total_timeout)
        total_timeout_range
    refuse_if
        (ltℤ o.attempt_timeout (milliseconds 250) || ltℤ (milliseconds 30_000) o.attempt_timeout)
        attempt_timeout_range
    refuse_if (ltℤ s.total_timeout o.attempt_timeout) attempt_exceeds_total
    validate_proxy_url P o.proxy
    if is_empty o.proxy then ok tt else check_proxy_targets o.targets

  unfoldable pub parse_compare_args : List Text → Fallible CompareArgs
  parse_compare_args args = do
    consumed ← consume_flags args
    s ← apply_compare_flags consumed.flags compare_defaults
    (name, record_type) ← parse_domain_and_type P consumed.positionals (codes "compare")
    let s' = record s { options = record (s.options) { name = name; record_type = record_type } }
    check_compare_args s'
    ok s'
