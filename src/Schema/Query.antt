-- ===== src/Schema/Query.antt =====
-- The result of `Query`: for which options, and when, its JSON value conforms to the schema.
use encrypted_dns_skill.Base.{true, Option, none, some, ◌≡◌, ◌↔◌, refl, inl, inr}
use encrypted_dns_skill.Capability.{known_protocol}
use encrypted_dns_skill.Dns.Query.{Random}
use encrypted_dns_skill.Errors.{Error}
use encrypted_dns_skill.Json.Encode.{result_json}
use encrypted_dns_skill.Model.{QueryOptions, ErrorInfo, Result}
use encrypted_dns_skill.Platform.{Platform}
use encrypted_dns_skill.Query.{Exchange, query_with_exchange, probe}
use encrypted_dns_skill.Query.Laws.Completed.{
  HasClass, IsClassified, completed, input_error, unsupported_error, transport_error,
  protocol_error, query-IsSettled, query_nil_answers, query-IsClassified, IsSettled,
}
use encrypted_dns_skill.Schema.{is_listed, conforms}
use encrypted_dns_skill.Schema.Replies.{UnpacksBodies}
use encrypted_dns_skill.Schema.Result.{query_types, error_classes, result_v1}
use encrypted_dns_skill.Schema.Single.{HasListedClass, IsReportable, result-conforms}
use encrypted_dns_skill.Text.{Text, codes, text_eq}
use encrypted_dns_skill.Transport.Network.{Network, network_exchange}
use encrypted_dns_skill.Transport.Network.Dispatch.{network_exchange-IsReport}
use encrypted_dns_skill.Schema.Carried.{Reports, query-IsCarried}

pub HasClass-listed :
    (class : Text) (o : Option ErrorInfo)
    → is_listed error_classes class ≡ true
    → HasClass class o
    → HasListedClass o
HasClass-listed class none l h = tt
HasClass-listed class (some e) l h = rw h l

pub classified-listed : (r : Result) → IsSettled r → IsClassified r → HasListedClass r.error
unfolding error_classes text_eq
classified-listed r s (completed q) = rw (s.0 q) tt
classified-listed r s (input_error q h) = HasClass-listed _ r.error refl h
classified-listed r s (unsupported_error q h) = HasClass-listed _ r.error refl h
classified-listed r s (transport_error q h) = HasClass-listed _ r.error refl h
classified-listed r s (protocol_error q h) = HasClass-listed _ r.error refl h

module _ (P : Platform) (ex : Exchange) (unpacks : UnpacksBodies P) (reports : Reports P ex)
    (random : Random) (o : QueryOptions) (known : known_protocol o.protocol ≡ true)
    (typed : is_listed query_types o.record_type ≡ true) where
  -- The result of a query is all that the schema wants, beside an array of answers.
  pub query-IsReportable : IsReportable (query_with_exchange P random o ex)
  query-IsReportable =
      let h = query-IsCarried P unpacks ex reports o known random typed in
      let settled = query-IsSettled P random o ex in
      record {
        version = h.version;
        operated = inl h.operated;
        settled = settled;
        classed = classified-listed _ settled (query-IsClassified P random o ex);
        typed = h.typed;
        carried = h.carried;
        aged = h.aged;
        unvalidated = h.unvalidated;
        answered = h.answered;
      }

  pub probe-IsReportable : IsReportable (probe P random o ex)
  unfolding probe
  probe-IsReportable =
      let h = query-IsReportable in
      record {
        version = h.version;
        operated = inr refl;
        settled = h.settled;
        classed = h.classed;
        typed = h.typed;
        carried = h.carried;
        aged = h.aged;
        unvalidated = h.unvalidated;
        answered = h.answered;
      }

module _ {M : Type 0} (P : Platform) (N : Network M) (f : Error → Text)
    (unpacks : UnpacksBodies P) where
  -- Whatever the network does, for options with a known protocol and a record type that is spelled
  -- as the schema spells it, the JSON value of the result of a query, and of a probe, conforms to
  -- the schema result-v1 if and only if the error is not of the class `protocol`. The package
  -- dnsmessage is taken to unpack each body as the struct of its type, with 16-bit numbers and
  -- bytes in their ranges.
  pub query-conforms_iff :
      (random : Random) (o : QueryOptions)
      → known_protocol o.protocol ≡ true
      → is_listed query_types o.record_type ≡ true
      → let r = query_with_exchange P random o (network_exchange P N) in
        ((conforms result_v1 (result_json f r) ≡ true) ↔ ¬ HasClass (codes "protocol") r.error)
        × ((conforms result_v1 (result_json f (probe P random o (network_exchange P N))) ≡ true)
            ↔ ¬ HasClass (codes "protocol") r.error)
  unfolding probe
  query-conforms_iff random o known typed =
      let ex = network_exchange P N in
      let reports = network_exchange-IsReport P N in
      let nil = query_nil_answers P random o ex in
      let h = query-IsReportable P ex unpacks reports random o known typed in
      let k = probe-IsReportable P ex unpacks reports random o known typed in
      let (c1, c2) = result-conforms f _ h in
      let (d1, d2) = result-conforms f _ k in
      (
        (λ c e. c1 c (nil.1 e), λ n. c2 (λ e. n (nil.0 e))),
        (λ c e. d1 c (nil.1 e), λ n. d2 (λ e. n (nil.0 e))),
      )
