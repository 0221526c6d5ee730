-- ===== src/Cli/QueryArgs.antt =====
-- cmd/ednsdiag/main.go: `parseQueryArgs`.
pub mod Laws
use encrypted_dns_skill.Base.{ℤ, pos, Bool, not, ◌&&◌, ◌||◌, List, [], ◌∷◌, ltℤ, if◌then◌else◌}
use encrypted_dns_skill.Capability.{known_protocol, proxy_supported}
use encrypted_dns_skill.Cli.Flags.{FlagValue, Consumed, consume_flags, parse_domain_and_type}
use encrypted_dns_skill.Cli.Target.{check_method}
use encrypted_dns_skill.Compare.{milliseconds}
use encrypted_dns_skill.Dns.Name.{from_option}
use encrypted_dns_skill.Dns.Tables.{is_supported_record_type}
use encrypted_dns_skill.Errors.{
  Error, unsupported_record_type, unknown_option, invalid_duration, timeout_range, unknown_protocol,
  proxy_not_applicable, Fallible, ok, err, ◌>>=◌, ◌>>◌, refuse_if,
}
use encrypted_dns_skill.Model.{QueryOptions}
use encrypted_dns_skill.Platform.{Platform, to_lower}
use encrypted_dns_skill.Provider.{find_provider}
use encrypted_dns_skill.Proxy.{validate_proxy_url}
use encrypted_dns_skill.Text.{Text, codes, text_eq, is_empty}

-- The options and the timeout, as the loop over the flags leaves them.
pub record QueryArgs : Type 0 where
  pub options : QueryOptions
  pub timeout : ℤ

abbrev pub query_defaults : QueryArgs
query_defaults = record {
  options = record {
    name = [];
    record_type = codes "A";
    protocol = codes "doh";
    provider = codes "cloudflare";
    method = codes "post";
    proxy = [];
  };
  timeout = milliseconds 5_000;
}

module _ (P : Platform) where
  -- The switch over the key of a flag.
  unfoldable pub apply_query_flag : FlagValue → QueryArgs → Fallible QueryArgs
  apply_query_flag flag s =
      if text_eq flag.key (codes "protocol")
      then ok (record s { options = record (s.options) { protocol = to_lower P flag.value } })
      else if text_eq flag.key (codes "provider")
      then ok (record s { options = record (s.options) { provider = to_lower P flag.value } })
      else if text_eq flag.key (codes "method")
      then ok (record s { options = record (s.options) { method = to_lower P flag.value } })
      else if text_eq flag.key (codes "timeout")
      then (from_option (P.parse_duration flag.value) (invalid_duration flag.value) >>= λ parsed.
          ok (record s { timeout = parsed }))
      else if text_eq flag.key (codes "proxy")
      then ok (record s { options = record (s.options) { proxy = flag.value } })
      else err (unknown_option flag.key)

  -- The loop over the flags.
  unfoldable pub apply_query_flags : List FlagValue → QueryArgs → Fallible QueryArgs
  apply_query_flags [] s = ok s
  apply_query_flags (flag ∷ flags) s = apply_query_flag flag s >>= apply_query_flags flags

  -- The tests behind the loop, in their order.
  unfoldable pub check_query_args : QueryArgs → Fallible (Unit {0})
  check_query_args s = do
    refuse_if (ltℤ s.timeout (milliseconds 250) || ltℤ (milliseconds 30_000) s.timeout)
        timeout_range
    refuse_if (not (is_supported_record_type P s.options.record_type))
        (unsupported_record_type s.options.record_type)
    refuse_if (not (known_protocol s.options.protocol)) (unknown_protocol s.options.protocol)
    provider ← find_provider P s.options.provider
    check_method s.options.protocol s.options.method
    validate_proxy_url P s.options.proxy
    refuse_if (not (is_empty s.options.proxy) && not (proxy_supported s.options.protocol))
        proxy_not_applicable

  unfoldable pub parse_query_args : List Text → Fallible QueryArgs
  parse_query_args args = do
    consumed ← consume_flags args
    s ← apply_query_flags consumed.flags query_defaults
    (name, record_type) ← parse_domain_and_type P consumed.positionals (codes "query")
    let s' = record s { options = record (s.options) { name = name; record_type = record_type } }
    check_query_args s'
    ok s'
