-- ===== src/Cli/QueryArgs/Laws.antt =====
-- What `parseQueryArgs` accepts.
use encrypted_dns_skill.Base.{
  ◌≤ℤ◌, true, false, not, ◌&&◌, List, ◌≡◌, ◌⊎◌, inl, inr, arith, Bool-cases,
}
use encrypted_dns_skill.Capability.{known_protocol, proxy_supported, validate_http_method}
use encrypted_dns_skill.Cli.Flags.{consume_flags, parse_domain_and_type}
use encrypted_dns_skill.Cli.QueryArgs.{
  QueryArgs, query_defaults, apply_query_flags, check_query_args, parse_query_args,
}
use encrypted_dns_skill.Cli.Target.{check_method}
use encrypted_dns_skill.Compare.{milliseconds}
use encrypted_dns_skill.Dns.Tables.{is_supported_record_type}
use encrypted_dns_skill.Errors.{ok}
use encrypted_dns_skill.Errors.Laws.{Fallible-cases, err-ne-ok, ok-injective, >>=-eq-ok}
use mathlib.Core.Path.{subst}
use encrypted_dns_skill.Platform.{Platform}
use encrypted_dns_skill.Provider.{Provider, find_provider}
use encrypted_dns_skill.Proxy.{validate_proxy_url}
use encrypted_dns_skill.Text.{Text, codes, text_eq, is_empty}
use encrypted_dns_skill.Text.Equality.{text_eq_sound}

-- A protocol and a method that may stand together.
pub IsApplicable : Text → Text → Type 0
IsApplicable protocol method =
    (method ≡ codes "post")
    ⊎ ((method ≡ codes "get") × ((protocol ≡ codes "doh") ⊎ (protocol ≡ codes "doh3")))

pub validate_http_method_sound :
    (protocol method : Text) {u : Unit {0}}
    → validate_http_method protocol method ≡ ok u
    → IsApplicable protocol method
unfolding validate_http_method IsApplicable
validate_http_method_sound protocol method h = ground (
  arith,
  text_eq_sound method (codes "post"),
  text_eq_sound method (codes "get"),
  text_eq_sound protocol (codes "doh"),
  text_eq_sound protocol (codes "doh3"),
)

pub check_method_sound :
    (protocol method : Text) {u : Unit {0}}
    → check_method protocol method ≡ ok u
    → IsApplicable protocol method
unfolding check_method
check_method_sound protocol method h =
    elim (Fallible-cases (validate_http_method protocol method)) [
      | inl (u, q) ↦ validate_http_method_sound protocol method q
      | inr (e, q) ↦
          elim (Bool-cases
            (not (text_eq method (codes "get")) && not (text_eq method (codes "post")))) [
              | inl t ↦ absurd (err-ne-ok _ _ (rw (q, t, check_method) at h))
              | inr t ↦ absurd (err-ne-ok _ _ (rw (q, t, check_method) at h))
            ]
    ]

-- Options that the command may run a query with.
pub record IsValidQuery (P : Platform) (s : QueryArgs) : Type 0 where
  pub provider : Provider
  pub not_too_short : milliseconds 250 ≤ℤ s.timeout
  pub not_too_long : s.timeout ≤ℤ milliseconds 30_000
  pub type_supported : is_supported_record_type P s.options.record_type ≡ true
  pub protocol_known : known_protocol s.options.protocol ≡ true
  pub provider_found : find_provider P s.options.provider ≡ ok provider
  pub method_applicable : IsApplicable s.options.protocol s.options.method
  pub proxy_valid : validate_proxy_url P s.options.proxy ≡ ok tt
  pub proxy_usable :
      (not (is_empty s.options.proxy) && not (proxy_supported s.options.protocol)) ≡ false

abbrev with_question : Text → Text → QueryArgs → QueryArgs
with_question name rtype s = record s {
  options = record (s.options) { name = name; record_type = rtype };
}

module _ (P : Platform) where
  check_query_args_sound :
      (s : QueryArgs) {u : Unit {0}} → check_query_args P s ≡ ok u → IsValidQuery P s
  unfolding check_query_args
  check_query_args_sound s h = elim (Fallible-cases (find_provider P s.options.provider)) [
    | inr (e, q) ↦ absurd (ground arith)
    | inl (p, q) ↦ record {
      provider = p;
      not_too_short = ground arith;
      not_too_long = ground arith;
      type_supported = ground arith;
      protocol_known = ground arith;
      provider_found = q;
      method_applicable =
          check_method_sound s.options.protocol s.options.method {u = tt} (ground arith);
      proxy_valid = ground arith;
      proxy_usable = ground arith;
    }
  ]

  -- Every command line that `parseQueryArgs` accepts gives a timeout of 250 ms to 30 s, a supported
  -- record type, a known protocol, a built-in provider, the method POST or, for DoH and DoH3, GET,
  -- and a proxy that is valid and is given for DoH and DoT alone.
  pub parse_query_args-IsValidQuery :
      (args : List Text) {s : QueryArgs} → parse_query_args P args ≡ ok s → IsValidQuery P s
  unfolding parse_query_args
  parse_query_args-IsValidQuery args {s} h = elim (Fallible-cases (consume_flags args)) [
    | inr (e, q) ↦ absurd (err-ne-ok _ _ (rw (q, parse_query_args) at h))
    | inl (c, q) ↦ elim (Fallible-cases (apply_query_flags P c.flags query_defaults)) [
      | inr (e, q2) ↦ absurd (err-ne-ok _ _ (rw (q, q2, parse_query_args) at h))
      | inl (t, q2) ↦
          elim (Fallible-cases (parse_domain_and_type P c.positionals (codes "query"))) [
            | inr (e, q3) ↦ absurd (err-ne-ok _ _ (rw (q, q2, q3, parse_query_args) at h))
            | inl ((name, rtype), q3) ↦
                let (u, checked, same) =
                  >>=-eq-ok (check_query_args P (with_question name rtype t))
                    (λ _. ok (with_question name rtype t))
                    (rw (q, q2, q3, parse_query_args) at h) in
                subst (IsValidQuery P) (ok-injective same) (check_query_args_sound _ checked)
          ]
    ]
  ]

  -- The name and the type of the options are those that the positionals give.
  pub parse_query_args-question :
      (args : List Text) {s : QueryArgs}
      → parse_query_args P args ≡ ok s
      → (positionals : List Text) × (parse_domain_and_type P positionals (codes "query")
          ≡ ok (s.options.name, s.options.record_type))
  unfolding parse_query_args
  parse_query_args-question args {s} h = elim (Fallible-cases (consume_flags args)) [
    | inr (e, q) ↦ absurd (err-ne-ok _ _ (rw (q, parse_query_args) at h))
    | inl (c, q) ↦ elim (Fallible-cases (apply_query_flags P c.flags query_defaults)) [
      | inr (e, q2) ↦ absurd (err-ne-ok _ _ (rw (q, q2, parse_query_args) at h))
      | inl (t, q2) ↦
          elim (Fallible-cases (parse_domain_and_type P c.positionals (codes "query"))) [
            | inr (e, q3) ↦ absurd (err-ne-ok _ _ (rw (q, q2, q3, parse_query_args) at h))
            | inl ((name, rtype), q3) ↦
                let (u, checked, same) =
                  >>=-eq-ok (check_query_args P (with_question name rtype t))
                    (λ _. ok (with_question name rtype t))
                    (rw (q, q2, q3, parse_query_args) at h) in
                let e : with_question name rtype t ≡ s = ok-injective same in
                (
                  c.positionals,
                  subst
                      (λ x.
                        parse_domain_and_type P c.positionals (codes "query")
                        ≡ ok (x.options.name, x.options.record_type))
                      e q3,
                )
          ]
    ]
  ]
