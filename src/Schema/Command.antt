-- ===== src/Schema/Command.antt =====
-- cmd/ednsdiag/main.go and schemas/result-v1.schema.json: the documents that the commands `query`,
-- `probe` and `compare` print for the arguments that they accept.
use encrypted_dns_skill.Base.{
  ℕ, ◌<◌, true, false, List, [], ◌∷◌, map, Option, ◌≡◌, ◌↔◌, refl, sym, ap, inl, inr, arith, All,
  length, Bool-cases, Option-cases,
}
use encrypted_dns_skill.Capability.{known_protocol}
use mathlib.Core.Path.{subst}
use encrypted_dns_skill.Cli.CompareArgs.{CompareArgs, parse_compare_args}
use encrypted_dns_skill.Cli.CompareArgs.Laws.{
  parse_compare_args-IsValidCompare, parse_compare_args-question,
}
use encrypted_dns_skill.Cli.Flags.{parse_domain_and_type}
use encrypted_dns_skill.Cli.QueryArgs.{QueryArgs, parse_query_args}
use encrypted_dns_skill.Cli.QueryArgs.Laws.{
  parse_query_args-IsValidQuery, parse_query_args-question,
}
use encrypted_dns_skill.Cli.Target.Laws.{IsValidTarget}
use encrypted_dns_skill.Compare.{compare_with_query}
use encrypted_dns_skill.Compare.Classes.{real_queries}
use encrypted_dns_skill.Compare.Schedule.{finishes}
use encrypted_dns_skill.Dns.Query.{Random}
use encrypted_dns_skill.Dns.Tables.{record_type, is_supported_record_type}
use encrypted_dns_skill.Errors.{Error, ok}
use encrypted_dns_skill.Errors.Laws.{err-ne-ok, ok-injective}
use encrypted_dns_skill.Json.Encode.{result_json, compare_json}
use encrypted_dns_skill.Model.{CompareTarget}
use encrypted_dns_skill.Platform.{Platform, to_upper}
use encrypted_dns_skill.Query.{query_with_exchange, probe}
use encrypted_dns_skill.Query.Laws.Completed.{HasClass}
use encrypted_dns_skill.Schema.{is_listed, conforms}
use encrypted_dns_skill.Schema.Carried.{record_type-listed}
use encrypted_dns_skill.Schema.Compare.{IsNoProtocolError, compare-conforms_iff}
use encrypted_dns_skill.Schema.Query.{query-conforms_iff}
use encrypted_dns_skill.Schema.Replies.{UnpacksBodies}
use encrypted_dns_skill.Schema.Result.{query_types, result_v1}
use encrypted_dns_skill.Text.{Text, codes, text_eq, is_ascii, upper_byte}
use encrypted_dns_skill.Transport.Network.{Network, network_exchange}

-- `strings.ToUpper` of a text that is not ASCII gives one that it leaves as it is.
abbrev pub UppersOnce : Platform → Type 0
UppersOnce P = (s : Text) → is_ascii s ≡ false → to_upper P (P.unicode_upper s) ≡ P.unicode_upper s

upper_ascii :
    (s : Text)
    → is_ascii s ≡ true
    → (is_ascii (map upper_byte s) ≡ true) × (map upper_byte (map upper_byte s) ≡ map upper_byte s)
unfolding is_ascii upper_byte
upper_ascii [] h = (refl, refl)
upper_ascii (c ∷ s) h = ground (arith, upper_ascii s)

module _ (P : Platform) (once : UppersOnce P) where
  to_upper-to_upper : (s : Text) → to_upper P (to_upper P s) ≡ to_upper P s
  unfolding to_upper
  to_upper-to_upper s = elim (Bool-cases (is_ascii s)) [
    | inr q ↦ rw q (once s q)
    | inl q ↦ let (ascii, same) = upper_ascii s q in rw (q, ascii) same
  ]

  upper-listed :
      (t : Text)
      → is_supported_record_type P (to_upper P t) ≡ true
      → is_listed query_types (to_upper P t) ≡ true
  unfolding is_supported_record_type
  upper-listed t h = elim (Option-cases (record_type (to_upper P t))) [
    | inr (n, q) ↦ record_type-listed (to_upper P t) q
    | inl q ↦ let k = rw (to_upper-to_upper t, q) at h in cc
  ]

  -- A type that the command line gives is spelled in capitals.
  parsed-typed :
      (positionals : List Text) (command name rtype : Text)
      → parse_domain_and_type P positionals command ≡ ok (name, rtype)
      → is_supported_record_type P rtype ≡ true
      → is_listed query_types rtype ≡ true
  unfolding parse_domain_and_type query_types text_eq
  parsed-typed [] command name rtype h k = absurd (err-ne-ok _ _ h)
  parsed-typed (d ∷ []) command name rtype h k =
      let e : codes "A" ≡ rtype = ap (λ p. p.1) (ok-injective h) in rw (sym e) refl
  parsed-typed (d ∷ t ∷ []) command name rtype h k =
      let e : to_upper P t ≡ rtype = ap (λ p. p.1) (ok-injective h) in
      subst (λ x. is_listed query_types x ≡ true) e (upper-listed t (rw (sym e) at k))
  parsed-typed (d ∷ t ∷ u ∷ l) command name rtype h k = absurd (err-ne-ok _ _ h)

  query_args-typed :
      (args : List Text) {s : QueryArgs}
      → parse_query_args P args ≡ ok s
      → is_listed query_types s.options.record_type ≡ true
  query_args-typed args h =
      let (positionals, q) = parse_query_args-question P args h in
      parsed-typed positionals (codes "query") _ _ q
        (parse_query_args-IsValidQuery P args h).type_supported

  compare_args-typed :
      (args : List Text) {s : CompareArgs}
      → parse_compare_args P args ≡ ok s
      → is_listed query_types s.options.record_type ≡ true
  compare_args-typed args h =
      let (positionals, q) = parse_compare_args-question P args h in
      parsed-typed positionals (codes "compare") _ _ q
        (parse_compare_args-IsValidCompare P args h).type_supported

known_targets :
    (P : Platform) (ts : List CompareTarget)
    → All (IsValidTarget P) ts
    → All (λ t. known_protocol t.protocol ≡ true) ts
known_targets P [] h = tt
known_targets P (t ∷ ts) (v, h) = (v.protocol_known, known_targets P ts h)

module _ {M : Type 0} (P : Platform) (f : Error → Text) (once : UppersOnce P)
    (unpacks : UnpacksBodies P) where
  -- For every command line that `query` and `probe` accept, and whatever the network does, the JSON
  -- value of the result, that of `Query` and that of `Probe`, conforms to the schema result-v1 if
  -- and only if its error is not of the class `protocol`. The package dnsmessage is taken to unpack
  -- each body as the struct of its type, with 16-bit numbers and bytes in their ranges, and
  -- `strings.ToUpper` to leave what it gave for a text that is not ASCII.
  pub query_document-conforms :
      (N : Network M) (random : Random) (arguments : List Text) {s : QueryArgs}
      → parse_query_args P arguments ≡ ok s
      → let ex = network_exchange P N in
        let r = query_with_exchange P random s.options ex in
        ((conforms result_v1 (result_json f r) ≡ true) ↔ ¬ HasClass (codes "protocol") r.error)
        × ((conforms result_v1 (result_json f (probe P random s.options ex)) ≡ true)
            ↔ ¬ HasClass (codes "protocol") r.error)
  query_document-conforms N random arguments {s} h =
      let valid = parse_query_args-IsValidQuery P arguments h in
      query-conforms_iff P N f unpacks random s.options valid.protocol_known
        (query_args-typed P once arguments h)

  -- For every command line that `compare` accepts, whatever the networks do, and in whatever order
  -- the goroutines of all the targets finish, the JSON value of the result of the comparison
  -- conforms to the schema result-v1 if and only if no attempt has an error of the class
  -- `protocol`. The package dnsmessage is taken to unpack each body as the struct of its type, with
  -- 16-bit numbers and bytes in their ranges, and `strings.ToUpper` to leave what it gave for a
  -- text that is not ASCII.
  pub compare_document-conforms :
      (networks : ℕ → Network M) (random : Random) (randoms : ℕ → Random) (context : Option Error)
      (schedule : List ℕ) (arguments : List Text) {s : CompareArgs}
      → parse_compare_args P arguments ≡ ok s
      → ((i : ℕ) → i < length s.options.targets → finishes schedule i ≡ true)
      → let queries = real_queries P randoms (λ i. network_exchange P (networks i)) in
        let c = compare_with_query P random context s.options schedule queries in
        (conforms result_v1 (compare_json f c) ≡ true) ↔ All IsNoProtocolError c.attempts
  compare_document-conforms networks random randoms context schedule arguments {s} h covers =
      let valid = parse_compare_args-IsValidCompare P arguments h in
      compare-conforms_iff P networks f unpacks random randoms context s.options schedule covers
        (known_targets P s.options.targets valid.targets_valid)
        (compare_args-typed P once arguments h)
