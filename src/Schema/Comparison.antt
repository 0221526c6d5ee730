-- ===== src/Schema/Comparison.antt =====
-- The result of a comparison: when its JSON value conforms to the schema.
use encrypted_dns_skill.Base.{
  ◌≤◌, true, false, List, [], ◌∷◌, Option, none, some, ◌≡◌, ◌≢◌, ◌↔◌, refl, arith, All, length,
  Option-cases,
}
use encrypted_dns_skill.Dns.Tables.{is_some}
use encrypted_dns_skill.Errors.{Error}
use encrypted_dns_skill.Json.{has_key, all_items, all_fields, count_items, items_of}
use encrypted_dns_skill.Json.Encode.{result_json, compare_json, error_field}
use encrypted_dns_skill.Model.{ErrorInfo, Result, CompareResult}
use encrypted_dns_skill.Schema.{conforms, conforms_property, is_listed}
use encrypted_dns_skill.Schema.Parts.{query-conforms, summary-conforms, error-conforms}
use encrypted_dns_skill.Schema.Single.{IsReportable, HasListedClass, single-conforms}
use encrypted_dns_skill.Schema.Result.{
  query_types, completed_properties, settled_schema, single_schema, compare_properties,
  compare_schema, result_v1,
}
use encrypted_dns_skill.Text.{Text, codes, text_eq}

-- What the schema wants of a comparison, beside an array of answers in each attempt.
pub record IsReportableComparison (c : CompareResult) : Type 0 where
  pub version : c.schema_version ≡ 1
  pub operated : c.operation ≡ codes "compare"
  pub settled : (c.completed ≡ true) ↔ (c.error ≡ none)
  pub classed : HasListedClass c.error
  pub typed : is_listed query_types c.query.qtype ≡ true
  pub few : length c.attempts ≤ 8
  pub reportable : All IsReportable c.attempts

-- The attempts whose answers are no nil slice.
abbrev pub HasAnswers : Result → Type 0
HasAnswers r = r.dns.answers ≢ none

module _ (f : Error → Text) where
  count_attempts : (l : List Result) → count_items (items_of (result_json f) l) ≡ length l
  count_attempts [] = refl
  count_attempts (r ∷ l) = ground (arith, count_attempts l)

  attempts-conform :
      (l : List Result)
      → All IsReportable l
      → (all_items (conforms single_schema) (items_of (result_json f) l) ≡ true) ↔ All HasAnswers l
  attempts-conform [] h = (λ e. tt, λ a. refl)
  attempts-conform (r ∷ l) (h, hs) =
      ground (arith, single-conforms f r h, attempts-conform l hs, Option-cases r.dns.answers)

  error_field-compare :
      (e : Option ErrorInfo)
      → HasListedClass e
      → all_fields (conforms_property compare_properties true) (error_field f e) ≡ true
  unfolding conforms compare_properties text_eq
  error_field-compare none h = refl
  error_field-compare (some e) h = ground (arith, error-conforms f e)

  error_field-open :
      (e : Option ErrorInfo)
      → all_fields (conforms_property completed_properties false) (error_field f e) ≡ true
  unfolding conforms completed_properties text_eq
  error_field-open none = refl
  error_field-open (some e) = refl

  has_key-error : (e : Option ErrorInfo) → has_key (error_field f e) (codes "error") ≡ is_some e
  unfolding has_key text_eq
  has_key-error none = refl
  has_key-error (some e) = refl

  has_key-error_resolver :
      (e : Option ErrorInfo) → has_key (error_field f e) (codes "resolver") ≡ false
  unfolding has_key text_eq
  has_key-error_resolver none = refl
  has_key-error_resolver (some e) = refl

  settled_comparison :
      (c : CompareResult)
      → (c.completed ≡ true) ↔ (c.error ≡ none)
      → conforms settled_schema (compare_json f c) ≡ true
  unfolding conforms settled_schema completed_properties compare_json has_key text_eq
  settled_comparison c h = ground (arith, h, error_field-open c.error, has_key-error c.error)

  not_single : (c : CompareResult) → conforms single_schema (compare_json f c) ≡ false
  unfolding conforms single_schema compare_json has_key text_eq
  not_single c = ground (arith, has_key-error_resolver c.error)

  compare_schema_iff :
      (c : CompareResult)
      → IsReportableComparison c
      → (conforms compare_schema (compare_json f c) ≡ true) ↔ All HasAnswers c.attempts
  unfolding conforms compare_schema compare_properties compare_json has_key text_eq
  compare_schema_iff c h = ground (
    arith,
    query-conforms c.query,
    summary-conforms c.summary,
    error_field-compare c.error h.classed,
    settled_comparison c h.settled,
    count_attempts c.attempts,
    attempts-conform c.attempts h.reportable,
    has_key-error c.error,
  )

  -- The JSON value of a comparison that is reportable conforms to the schema result-v1 if and only
  -- if no attempt's answers are a nil slice.
  pub comparison-conforms :
      (c : CompareResult)
      → IsReportableComparison c
      → (conforms result_v1 (compare_json f c) ≡ true) ↔ All HasAnswers c.attempts
  unfolding conforms result_v1
  comparison-conforms c h = ground (arith, not_single c, compare_schema_iff c h)
