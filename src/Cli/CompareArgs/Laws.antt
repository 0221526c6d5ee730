-- ===== src/Cli/CompareArgs/Laws.antt =====
-- What `parseCompareArgs` accepts.
use encrypted_dns_skill.Base.{
  ◌≤◌, pos, ◌≤ℤ◌, true, false, ◌||◌, List, [], ◌∷◌, ◌++◌, map, ◌≡◌, ◌⊎◌, refl, sym, ◌∙◌, inl, inr,
  arith, if◌then◌else◌, Bool-cases, length, All, All-append,
}
use encrypted_dns_skill.Capability.{proxy_supported}
use encrypted_dns_skill.Cli.CompareArgs.{
  CompareArgs, compare_defaults, is_seen, check_proxy_targets, add_target, apply_compare_flag,
  apply_compare_flags, check_compare_args, parse_compare_args,
}
use encrypted_dns_skill.Cli.Flags.{FlagValue, consume_flags, parse_domain_and_type}
use encrypted_dns_skill.Cli.Target.{parse_compare_target, identity}
use encrypted_dns_skill.Cli.Target.Laws.{IsValidTarget, parse_compare_target-IsValidTarget}
use encrypted_dns_skill.Compare.{milliseconds}
use encrypted_dns_skill.Dns.Name.{from_option}
use encrypted_dns_skill.Dns.Tables.{is_supported_record_type}
use encrypted_dns_skill.Errors.{ok}
use encrypted_dns_skill.Errors.Laws.{Fallible-cases, err-ne-ok, ok-injective, >>=-eq-ok}
use encrypted_dns_skill.Model.{CompareTarget}
use encrypted_dns_skill.Platform.{Platform}
use encrypted_dns_skill.Proxy.{validate_proxy_url}
use encrypted_dns_skill.Text.{Text, codes, text_eq, is_empty}
use encrypted_dns_skill.Text.Equality.{text_eq_sym}
use mathlib.Core.List.{map-append}
use mathlib.Core.Path.{subst}

-- No two targets have one identity.
abbrev pub Distinct : List CompareTarget → Type 0
Distinct [] = Unit
Distinct (t ∷ ts) = (is_seen (map identity ts) (identity t) ≡ false) × Distinct ts

-- What the loop over the flags keeps: every target is valid, no two are the same, and the
-- identities that were seen are those of the targets.
record IsGathered (P : Platform) (s : CompareArgs) : Type 0 where
  valid : All (IsValidTarget P) s.options.targets
  distinct : Distinct s.options.targets
  seen : (id : Text) → is_seen s.seen id ≡ is_seen (map identity s.options.targets) id

is_seen-append :
    (l m : List Text) (id : Text) → is_seen (l ++ m) id ≡ (is_seen l id || is_seen m id)
unfolding is_seen
is_seen-append [] m id = refl
is_seen-append (x ∷ l) m id = ground (arith, is_seen-append l m id)

Distinct-append :
    (ts : List CompareTarget) (t : CompareTarget)
    → Distinct ts
    → is_seen (map identity ts) (identity t) ≡ false
    → Distinct (ts ++ t ∷ [])
unfolding is_seen
Distinct-append [] t d h = (refl, tt)
Distinct-append (x ∷ ts) t (fresh, d) h = (
  rw (map-append, is_seen-append) (ground (arith, text_eq_sym (identity x) (identity t))),
  Distinct-append ts t d (ground arith),
)

seen_after :
    {P : Platform} (s : CompareArgs) (t : CompareTarget)
    → IsGathered P s
    → (id : Text)
    → is_seen (identity t ∷ s.seen) id ≡ is_seen (map identity (s.options.targets ++ t ∷ [])) id
unfolding is_seen
seen_after s t g id = rw (map-append, is_seen-append) (ground (arith, g.seen id))

IsGathered-add :
    (P : Platform) (value : Text) (s : CompareArgs) (t : CompareTarget) {s' : CompareArgs}
    → IsGathered P s
    → IsValidTarget P t
    → add_target value s t ≡ ok s'
    → IsGathered P s'
unfolding add_target
IsGathered-add P value s t g v h = elim (Bool-cases (is_seen s.seen (identity t))) [
  | inl old ↦ absurd (err-ne-ok _ _ (rw (old, add_target) at h))
  | inr new ↦ subst (IsGathered P) (ok-injective (rw (new, add_target) at h)) (record {
    valid = All-append (IsValidTarget P) s.options.targets (t ∷ []) g.valid (v, tt);
    distinct = Distinct-append s.options.targets t g.distinct (sym (g.seen (identity t)) ∙ new);
    seen = seen_after s t g;
  })
]

module _ (P : Platform) where
  apply_compare_flag-IsGathered :
      (flag : FlagValue) (s : CompareArgs) {s' : CompareArgs}
      → IsGathered P s
      → apply_compare_flag P flag s ≡ ok s'
      → IsGathered P s'
  unfolding apply_compare_flag from_option
  apply_compare_flag-IsGathered flag s {s'} g h =
      elim (Bool-cases (text_eq flag.key (codes "target"))) [
        | inl t ↦
            let (target, parsed, added) =
              >>=-eq-ok (parse_compare_target P flag.value) (add_target flag.value s)
                (rw (t, apply_compare_flag) at h) in
            IsGathered-add P flag.value s target g
              (parse_compare_target-IsValidTarget P flag.value parsed) added
        | inr t ↦
            let same : s'.options.targets ≡ s.options.targets = ground arith in
            let seen : s'.seen ≡ s.seen = ground arith in
            record {
              valid = rw same g.valid;
              distinct = rw same g.distinct;
              seen = rw (same, seen) g.seen;
            }
      ]

  apply_compare_flags-IsGathered :
      (flags : List FlagValue) (s : CompareArgs) {s' : CompareArgs}
      → IsGathered P s
      → apply_compare_flags P flags s ≡ ok s'
      → IsGathered P s'
  unfolding apply_compare_flags
  apply_compare_flags-IsGathered [] s g h = subst (IsGathered P) (ok-injective h) g
  apply_compare_flags-IsGathered (flag ∷ flags) s g h =
      let (t, first, rest) =
        >>=-eq-ok (apply_compare_flag P flag s) (apply_compare_flags P flags) h in
      apply_compare_flags-IsGathered flags t (apply_compare_flag-IsGathered flag s g first) rest

  compare_defaults-IsGathered : IsGathered P compare_defaults
  compare_defaults-IsGathered = record { valid = tt; distinct = tt; seen = λ id. refl }

check_proxy_targets_sound :
    (ts : List CompareTarget) {u : Unit {0}}
    → check_proxy_targets ts ≡ ok u
    → All (λ t. proxy_supported t.protocol ≡ true) ts
unfolding check_proxy_targets
check_proxy_targets_sound [] h = tt
check_proxy_targets_sound (t ∷ ts) h = elim (Bool-cases (proxy_supported t.protocol)) [
  | inl y ↦ (y, check_proxy_targets_sound ts (rw (y, check_proxy_targets) at h))
  | inr n ↦ absurd (err-ne-ok _ _ (rw (n, check_proxy_targets) at h))
]

-- Options that the command may compare with.
pub record IsValidCompare (P : Platform) (s : CompareArgs) : Type 0 where
  pub type_supported : is_supported_record_type P s.options.record_type ≡ true
  pub enough_targets : 2 ≤ length s.options.targets
  pub few_targets : length s.options.targets ≤ 8
  pub within_attempts : pos (length s.options.targets) ≤ℤ s.options.max_attempts
  pub total_not_short : milliseconds 250 ≤ℤ s.total_timeout
  pub total_not_long : s.total_timeout ≤ℤ milliseconds 60_000
  pub attempt_not_short : milliseconds 250 ≤ℤ s.options.attempt_timeout
  pub attempt_not_long : s.options.attempt_timeout ≤ℤ milliseconds 30_000
  pub attempt_within_total : s.options.attempt_timeout ≤ℤ s.total_timeout
  pub targets_valid : All (IsValidTarget P) s.options.targets
  pub targets_distinct : Distinct s.options.targets
  pub proxy_valid : validate_proxy_url P s.options.proxy ≡ ok tt
  pub proxy_usable :
      (s.options.proxy ≡ []) ⊎ All (λ t. proxy_supported t.protocol ≡ true) s.options.targets

module _ (P : Platform) where
  proxy_usable_of :
      (proxy : Text) (ts : List CompareTarget)
      → (if is_empty proxy then ok tt else check_proxy_targets ts) ≡ ok tt
      → (proxy ≡ []) ⊎ All (λ t. proxy_supported t.protocol ≡ true) ts
  proxy_usable_of [] ts h = inl refl
  proxy_usable_of (c ∷ proxy) ts h = inr (check_proxy_targets_sound ts h)

  check_compare_args_sound :
      (s : CompareArgs) {u : Unit {0}}
      → IsGathered P s
      → check_compare_args P s ≡ ok u
      → IsValidCompare P s
  unfolding check_compare_args
  check_compare_args_sound s g h = record {
    type_supported = ground arith;
    enough_targets = ground arith;
    few_targets = ground arith;
    within_attempts = ground arith;
    total_not_short = ground arith;
    total_not_long = ground arith;
    attempt_not_short = ground arith;
    attempt_not_long = ground arith;
    attempt_within_total = ground arith;
    targets_valid = g.valid;
    targets_distinct = g.distinct;
    proxy_valid = ground arith;
    proxy_usable = proxy_usable_of s.options.proxy s.options.targets (ground arith);
  }

  abbrev with_question : Text → Text → CompareArgs → CompareArgs
  with_question name rtype s = record s {
    options = record (s.options) { name = name; record_type = rtype };
  }

  -- Every command line that `parseCompareArgs` accepts gives 2 to 8 targets, no more than the
  -- attempts allowed, with known protocols, built-in providers and methods that apply, no two of
  -- them the same; a total timeout of 250 ms to 60 s, an attempt timeout of 250 ms to 30 s that does
  -- not exceed it; and a valid proxy, only where every target is of DoH or DoT.
  pub parse_compare_args-IsValidCompare :
      (args : List Text) {s : CompareArgs} → parse_compare_args P args ≡ ok s → IsValidCompare P s
  unfolding parse_compare_args
  parse_compare_args-IsValidCompare args {s} h = elim (Fallible-cases (consume_flags args)) [
    | inr (e, q) ↦ absurd (err-ne-ok _ _ (rw (q, parse_compare_args) at h))
    | inl (c, q) ↦ elim (Fallible-cases (apply_compare_flags P c.flags compare_defaults)) [
      | inr (e, q2) ↦ absurd (err-ne-ok _ _ (rw (q, q2, parse_compare_args) at h))
      | inl (t, q2) ↦
          elim (Fallible-cases (parse_domain_and_type P c.positionals (codes "compare"))) [
            | inr (e, q3) ↦ absurd (err-ne-ok _ _ (rw (q, q2, q3, parse_compare_args) at h))
            | inl ((name, rtype), q3) ↦
                let g =
                  apply_compare_flags-IsGathered P c.flags compare_defaults
                    (compare_defaults-IsGathered P) q2 in
                let (u, checked, same) =
                  >>=-eq-ok (check_compare_args P (with_question name rtype t))
                    (λ _. ok (with_question name rtype t))
                    (rw (q, q2, q3, parse_compare_args) at h) in
                subst (IsValidCompare P) (ok-injective same) (
                  check_compare_args_sound (with_question name rtype t)
                    (record { valid = g.valid; distinct = g.distinct; seen = g.seen }) checked)
          ]
    ]
  ]

  -- The name and the type of the options are those that the positionals give.
  pub parse_compare_args-question :
      (args : List Text) {s : CompareArgs}
      → parse_compare_args P args ≡ ok s
      → (positionals : List Text) × (parse_domain_and_type P positionals (codes "compare")
          ≡ ok (s.options.name, s.options.record_type))
  unfolding parse_compare_args
  parse_compare_args-question args {s} h = elim (Fallible-cases (consume_flags args)) [
    | inr (e, q) ↦ absurd (err-ne-ok _ _ (rw (q, parse_compare_args) at h))
    | inl (c, q) ↦ elim (Fallible-cases (apply_compare_flags P c.flags compare_defaults)) [
      | inr (e, q2) ↦ absurd (err-ne-ok _ _ (rw (q, q2, parse_compare_args) at h))
      | inl (t, q2) ↦
          elim (Fallible-cases (parse_domain_and_type P c.positionals (codes "compare"))) [
            | inr (e, q3) ↦ absurd (err-ne-ok _ _ (rw (q, q2, q3, parse_compare_args) at h))
            | inl ((name, rtype), q3) ↦
                let (u, checked, same) =
                  >>=-eq-ok (check_compare_args P (with_question name rtype t))
                    (λ _. ok (with_question name rtype t))
                    (rw (q, q2, q3, parse_compare_args) at h) in
                let e : with_question name rtype t ≡ s = ok-injective same in
                (
                  c.positionals,
                  subst
                      (λ x.
                        parse_domain_and_type P c.positionals (codes "compare")
                        ≡ ok (x.options.name, x.options.record_type))
                      e q3,
                )
          ]
    ]
  ]
