-- ===== src/Schema/Single.antt =====
-- The result of one query: when its JSON value conforms to the schema.
use encrypted_dns_skill.Base.{
  ℕ, IsNatural, true, false, List, [], ◌∷◌, Option, none, some, ◌≡◌, ◌≢◌, ◌↔◌, ◌⊎◌, refl, arith,
  All, Option-cases,
}
use encrypted_dns_skill.Dns.Tables.{is_some}
use encrypted_dns_skill.Errors.{Error}
use encrypted_dns_skill.Json.{string, array, Fields, has_key, all_items, all_fields, items_of}
use encrypted_dns_skill.Json.Encode.{field_unless, is_nil, result_json, error_field, answer_json}
use encrypted_dns_skill.Model.{AnswerRecord, ErrorInfo, Result}
use encrypted_dns_skill.Query.Laws.Completed.{IsSettled}
use encrypted_dns_skill.Schema.{conforms, conforms_property, is_listed}
use encrypted_dns_skill.Schema.Answers.{IsAnswer, answer_conforms, strings-conform}
use encrypted_dns_skill.Schema.Parts.{
  are_answers, query-conforms, resolver-conforms, transport-conforms, error-conforms, dns-conforms,
  unless-all,
}
use encrypted_dns_skill.Schema.Result.{
  query_types, protocols, answer_schema, error_classes, completed_properties, settled_schema,
  single_properties, single_schema, compare_schema, result_v1,
}
use encrypted_dns_skill.Text.{Text, codes, text_eq}

abbrev pub HasListedClass : Option ErrorInfo → Type 0
HasListedClass none = Unit
HasListedClass (some e) = is_listed error_classes e.class ≡ true

-- Each answer has one of the forms; a nil slice has none.
abbrev pub AllAnswers : Option (List AnswerRecord) → Type 0
AllAnswers none = Unit
AllAnswers (some l) = All (λ r. (name : Text) × (ttl : ℕ) × IsAnswer name ttl r) l

-- What the schema wants of a result, beside an array of answers.
pub record IsReportable (r : Result) : Type 0 where
  pub version : r.schema_version ≡ 1
  pub operated : (r.operation ≡ codes "query") ⊎ (r.operation ≡ codes "probe")
  pub settled : IsSettled r
  pub classed : HasListedClass r.error
  pub typed : is_listed query_types r.query.qtype ≡ true
  pub carried : is_listed protocols r.transport.protocol ≡ true
  pub aged : IsNatural r.transport.http_age_seconds
  pub unvalidated : r.dns.client_validated_dnssec ≡ false
  pub answered : AllAnswers r.dns.answers

answers_listed :
    (l : List AnswerRecord)
    → AllAnswers (some l)
    → all_items (conforms answer_schema) (items_of answer_json l) ≡ true
answers_listed [] h = refl
answers_listed (r ∷ l) ((name, ttl, a), h) = ground (arith, answer_conforms a, answers_listed l h)

are_answers_iff : (o : Option (List AnswerRecord)) → AllAnswers o → are_answers o ≡ is_some o
are_answers_iff none h = refl
are_answers_iff (some l) h = answers_listed l h

module _ (f : Error → Text) where
  abbrev tail : List Text → Option ErrorInfo → Fields
  tail warnings e =
      field_unless (is_nil warnings) (codes "warnings") (array (items_of string warnings))
        (error_field f e)

  pub error_field-all :
      (e : Option ErrorInfo)
      → HasListedClass e
      → all_fields (conforms_property single_properties true) (error_field f e) ≡ true
  unfolding conforms single_properties text_eq
  error_field-all none h = refl
  error_field-all (some e) h = ground (arith, error-conforms f e)

  tail-all :
      (warnings : List Text) (e : Option ErrorInfo)
      → HasListedClass e
      → all_fields (conforms_property single_properties true) (tail warnings e) ≡ true
  unfolding conforms single_properties text_eq
  tail-all warnings e h =
      unless-all _ (is_nil warnings) _ _ _ (ground (arith, strings-conform warnings))
        (error_field-all e h)

  has_key-tail :
      (warnings : List Text) (e : Option ErrorInfo)
      → has_key (tail warnings e) (codes "error") ≡ is_some e
  unfolding has_key text_eq
  has_key-tail [] none = refl
  has_key-tail [] (some e) = refl
  has_key-tail (w ∷ ws) none = refl
  has_key-tail (w ∷ ws) (some e) = refl

  -- Keys that the `if` does not name are no matter to it.
  tail-open :
      (warnings : List Text) (e : Option ErrorInfo)
      → all_fields (conforms_property completed_properties false) (tail warnings e) ≡ true
  unfolding conforms completed_properties text_eq
  tail-open [] none = refl
  tail-open [] (some e) = refl
  tail-open (w ∷ ws) none = refl
  tail-open (w ∷ ws) (some e) = refl

  settled-conforms : (r : Result) → IsSettled r → conforms settled_schema (result_json f r) ≡ true
  unfolding conforms settled_schema completed_properties result_json has_key text_eq
  settled-conforms r h =
      ground (arith, h, tail-open r.warnings r.error, has_key-tail r.warnings r.error)

  pub single-conforms :
      (r : Result)
      → IsReportable r
      → conforms single_schema (result_json f r) ≡ is_some r.dns.answers
  unfolding conforms single_schema single_properties result_json has_key text_eq
  single-conforms r h = ground (
    arith,
    query-conforms r.query,
    resolver-conforms r.resolver,
    transport-conforms r.transport h.aged,
    dns-conforms r.dns h.unvalidated,
    are_answers_iff r.dns.answers h.answered,
    tail-all r.warnings r.error h.classed,
    settled-conforms r h.settled,
  )

  has_key-tail_attempts :
      (warnings : List Text) (e : Option ErrorInfo)
      → has_key (tail warnings e) (codes "attempts") ≡ false
  unfolding has_key text_eq
  has_key-tail_attempts [] none = refl
  has_key-tail_attempts [] (some e) = refl
  has_key-tail_attempts (w ∷ ws) none = refl
  has_key-tail_attempts (w ∷ ws) (some e) = refl

  not_comparison : (r : Result) → conforms compare_schema (result_json f r) ≡ false
  unfolding conforms compare_schema result_json has_key text_eq
  not_comparison r = ground (arith, has_key-tail_attempts r.warnings r.error)

  -- The JSON value of a result that is reportable conforms to the schema result-v1 if and only if
  -- its answers are not a nil slice.
  pub result-conforms :
      (r : Result)
      → IsReportable r
      → (conforms result_v1 (result_json f r) ≡ true) ↔ (r.dns.answers ≢ none)
  unfolding conforms result_v1
  result-conforms r h =
      ground (arith, single-conforms r h, not_comparison r, Option-cases r.dns.answers)
