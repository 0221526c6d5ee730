-- ===== src/Dns/Answer/Laws.antt =====
-- Answers: reading a field that was set, and a CAA record, which is parsed from its bytes.
use encrypted_dns_skill.Base.{
  ℕ, true, false, [], ◌∷◌, ◌++◌, some, ◌≡◌, ◌≢◌, refl, sym, inl, inr, Bool-cases, arith, leb,
  length, take_append, drop_append, length-append,
}
use encrypted_dns_skill.Dns.Answer.{
  get_field, put_field, caa_fields, unknown_fields, body_fields, normalize_answer,
}
use encrypted_dns_skill.Dns.Message.{Resource, ResourceHeader, unknown}
use encrypted_dns_skill.Dns.Tables.{caa_type, record_types, type_name_in, type_name, trim_root}
use encrypted_dns_skill.Errors.{ok}
use encrypted_dns_skill.Model.{Value, string, uint8, uint32, AnswerRecord}
use encrypted_dns_skill.Platform.{Platform}
use encrypted_dns_skill.Text.{Text, Bytes, codes, text_eq}
use encrypted_dns_skill.Text.Equality.{text_eq_refl, text_eq_sound, text_eq_ne}

pub get-put_self :
    (k : Text) (v : Value) (r : AnswerRecord) → get_field k (put_field k v r) ≡ some v
unfolding get_field put_field
get-put_self k v [] = rw (text_eq_refl k)
get-put_self k v ((j, w) ∷ r) = elim (Bool-cases (text_eq k j)) [
  | inl q ↦ rw (q, get_field, q)
  | inr q ↦ rw (q, get_field, q) (get-put_self k v r)
]

pub get-put_ne :
    (k j : Text) (v : Value) (r : AnswerRecord)
    → k ≢ j
    → get_field k (put_field j v r) ≡ get_field k r
unfolding get_field put_field
get-put_ne k j v [] ne = rw (text_eq_ne k j ne)
get-put_ne k j v ((i, w) ∷ r) ne = elim (Bool-cases (text_eq j i)) [
  | inl q ↦
      let e : text_eq k i ≡ false = rw (sym (text_eq_sound j i q)) (text_eq_ne k j ne) in
      rw (q, get_field, e)
  | inr q ↦ ground (arith, get-put_ne k j v r ne)
]

-- An unknown resource of the type CAA whose data are the flags, the length of the tag, the tag and
-- the value gives a record with these flags, this tag and this value, beside the name, the type
-- and the TTL of its header.
pub normalize_caa :
    (P : Platform) (header : ResourceHeader) (flags : ℕ) (tag value : Bytes)
    → header.rtype ≡ caa_type
    → let resource : Resource = record {
      header = header;
      body = unknown (flags ∷ length tag ∷ (tag ++ value));
    } in
      (r : AnswerRecord) × (normalize_answer P resource ≡ ok r)
      × (get_field (codes "name") r ≡ some (string (trim_root P header.name)))
      × (get_field (codes "type") r ≡ some (string (codes "CAA")))
      × (get_field (codes "ttl") r ≡ some (uint32 header.ttl))
      × (get_field (codes "flags") r ≡ some (uint8 flags))
      × (get_field (codes "tag") r ≡ some (string tag))
      × (get_field (codes "value") r ≡ some (string value))
unfolding normalize_answer body_fields unknown_fields caa_fields get_field put_field text_eq
    type_name type_name_in record_types
normalize_caa P header flags tag value t =
    let fits : leb (length tag) (length (tag ++ value)) ≡ true =
      ground (arith, length-append {0} tag value) in
    rw (t, fits, take_append tag value, drop_append tag value)
      (_, refl, refl, refl, refl, refl, refl, refl)
