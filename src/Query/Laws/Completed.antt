-- ===== src/Query/Laws/Completed.antt =====
-- A result is completed if and only if it has no error, and its answers are a nil slice, which
-- JSON shows as `null`, if and only if its error is of the class `protocol`.
use encrypted_dns_skill.Base.{
  ℕ, ℤ, pos, negsuc, true, false, ◌≡◌, ◌≢◌, ◌↔◌, refl, Option, none, some, inl, inr, arith,
}
use encrypted_dns_skill.Dns.Age.{apply_http_age, age_answers}
use encrypted_dns_skill.Dns.Query.{Random}
use encrypted_dns_skill.Dns.Response.{parse_response, info_of}
use encrypted_dns_skill.Dns.Response.Laws.{parse_response-IsReply}
use encrypted_dns_skill.Errors.{Error}
use encrypted_dns_skill.Errors.Laws.{Fallible-cases}
use encrypted_dns_skill.Model.{QueryOptions, QueryInfo, DnsInfo, ErrorInfo, Result}
use encrypted_dns_skill.Platform.{Platform}
use encrypted_dns_skill.Query.{Exchange, finish, query_with_exchange, failed}
use encrypted_dns_skill.Query.Laws.Shape.{
  IsFresh, IsEarly, input, unsupported, transport, Shape, refused, parsed, query-Shape,
}
use encrypted_dns_skill.Text.{Text, Bytes, codes}

-- Completed and without an error, or with an error and not completed.
abbrev pub IsSettled : Result → Type 0
IsSettled r = (r.completed ≡ true) ↔ (r.error ≡ none)

-- The error, if there is one, is of the class.
abbrev pub HasClass : Text → Option ErrorInfo → Type 0
HasClass class none = ⊥
HasClass class (some e) = e.class ≡ class

abbrev pub NilOnProtocol : Result → Type 0
NilOnProtocol r = (r.dns.answers ≡ none) ↔ HasClass (codes "protocol") r.error

-- Completed, or failed with one of the four classes of a query.
pub data IsClassified (r : Result) : Type 0 where
  completed : r.completed ≡ true → IsClassified r
  input_error : r.completed ≡ false → HasClass (codes "input") r.error → IsClassified r
  unsupported_error : r.completed ≡ false → HasClass (codes "unsupported") r.error → IsClassified r
  transport_error : r.completed ≡ false → HasClass (codes "transport") r.error → IsClassified r
  protocol_error : r.completed ≡ false → HasClass (codes "protocol") r.error → IsClassified r

-- The three laws of a result.
record Lawful (r : Result) : Type 0 where
  settled : IsSettled r
  nil_on_protocol : NilOnProtocol r
  classified : IsClassified r

early-ne-protocol : {class : Text} → IsEarly class → class ≢ codes "protocol"
early-ne-protocol (input e) = ground arith
early-ne-protocol (unsupported e) = ground arith
early-ne-protocol (transport e) = ground arith

failed-Lawful :
    (class : Text) (e : Error) (s : Result) → IsEarly class → IsFresh s → Lawful (failed class e s)
unfolding failed
failed-Lawful class e s early h = record {
  settled = ground arith;
  nil_on_protocol = ground (arith, early-ne-protocol early);
  classified = classify early;
}
  where
    classify : IsEarly class → IsClassified (failed class e s)
    classify (input q) = input_error h.incomplete q
    classify (unsupported q) = unsupported_error h.incomplete q
    classify (transport q) = transport_error h.incomplete q

apply_http_age-some :
    (d : DnsInfo) (age : ℤ) → d.answers ≢ none → (apply_http_age d age).answers ≢ none
unfolding apply_http_age age_answers
apply_http_age-some d (negsuc n) h = h
apply_http_age-some d (pos n) h = ground arith

module _ (P : Platform) where
  finish-Lawful :
      (w : Bytes) (id : ℕ) (q : QueryInfo) (s : Result)
      → IsFresh s
      → Lawful (finish P (parse_response P w id q) s)
  unfolding finish failed info_of
  finish-Lawful w id q s h = elim (Fallible-cases (parse_response P w id q)) [
    | inr (e, k) ↦
        rw (k, finish)
          (record {
            settled = ground arith;
            nil_on_protocol = ground arith;
            classified = protocol_error h.incomplete refl;
          })
    | inl (d, k) ↦
        let reply = (parse_response-IsReply P w id q d).0 k in
        let kept =
          apply_http_age-some d s.transport.http_age_seconds (ground (arith, reply.info)) in
        rw (k, finish)
          (record {
            settled = ground arith;
            nil_on_protocol = ground (arith, kept);
            classified = completed refl;
          })
  ]

  Shape-Lawful : {r : Result} → Shape P r → Lawful r
  Shape-Lawful (refused class e s early fresh q) = rw q (failed-Lawful class e s early fresh)
  Shape-Lawful (parsed w id query s fresh q) = rw q (finish-Lawful w id query s fresh)

  module _ (random : Random) (o : QueryOptions) (ex : Exchange) where
    query-Lawful : Lawful (query_with_exchange P random o ex)
    query-Lawful = Shape-Lawful (query-Shape P random o ex)

    -- For every platform, choice of the ID, options and exchange, the result of a query is
    -- completed if and only if it has no error.
    pub query-IsSettled : IsSettled (query_with_exchange P random o ex)
    query-IsSettled = query-Lawful.settled

    -- The answers of a query's result are a nil slice if and only if its error is of the class
    -- `protocol`. JSON shows such answers as `null`, where the schema result-v1 wants an array.
    pub query_nil_answers : NilOnProtocol (query_with_exchange P random o ex)
    query_nil_answers = query-Lawful.nil_on_protocol

    -- The result of a query is completed, or its error is of one of the classes `input`,
    -- `unsupported`, `transport` and `protocol`.
    pub query-IsClassified : IsClassified (query_with_exchange P random o ex)
    query-IsClassified = query-Lawful.classified
