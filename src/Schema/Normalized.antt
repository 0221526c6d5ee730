-- ===== src/Schema/Normalized.antt =====
-- internal/edns/dns.go: the answers that `normalizeAnswer` and `applyHTTPAge` give have the forms
-- of `Answers`.
use encrypted_dns_skill.Base.{
  ℕ, ◌≤◌, ◌-◌, List, [], ◌∷◌, map, ◌≡◌, arith, All, ◌==◌, leb, Bool-cases, inl, inr, length, drop,
  take,
}
use encrypted_dns_skill.Dns.Age.{age_ttl, age_answer}
use encrypted_dns_skill.Dns.Answer.{
  get_field, put_field, param_value, add_svcb_fields, caa_fields, unknown_fields, soa_fields,
  body_fields, normalize_answer,
}
use encrypted_dns_skill.Dns.Message.{
  Resource, Body, SvcParam, a, aaaa, cname, mx, txt, ns, ptr, soa, srv, svcb, https, unknown, other,
}
use encrypted_dns_skill.Dns.Tables.{caa_type, record_types, type_name_in, type_name, trim_root}
use encrypted_dns_skill.Errors.{ok}
use encrypted_dns_skill.Errors.Laws.{err-ne-ok, ok-injective}
use encrypted_dns_skill.Model.{AnswerRecord}
use encrypted_dns_skill.Platform.{Platform}
use encrypted_dns_skill.Schema.Answers.{
  headed, IsAnswer, a_answer, aaaa_answer, cname_answer, ptr_answer, mx_answer, txt_answer,
  ns_answer, soa_answer, caa_answer, srv_answer, svcb_answer, https_answer,
}
use encrypted_dns_skill.Text.{Text, text_eq}
use mathlib.Core.Path.{subst}

-- A body that dnsmessage unpacks under a header of the type: the struct of that type, whose
-- `uint16` fields are below 65536 and whose bytes are below 256.
abbrev pub IsBody : ℕ → Body → Type 0
IsBody t (a l) = t ≡ 1
IsBody t (aaaa l) = t ≡ 28
IsBody t (cname n) = t ≡ 5
IsBody t (mx p n) = (t ≡ 15) × (p ≤ 65535)
IsBody t (txt l) = t ≡ 16
IsBody t (ns n) = t ≡ 2
IsBody t (ptr n) = t ≡ 12
IsBody t (soa s) = t ≡ 6
IsBody t (srv p w port n) = (t ≡ 33) × (p ≤ 65535) × (w ≤ 65535) × (port ≤ 65535)
IsBody t (svcb p n ps) = (t ≡ 64) × (p ≤ 65535) × All (λ v. v.key ≤ 65535) ps
IsBody t (https p n ps) = (t ≡ 65) × (p ≤ 65535) × All (λ v. v.key ≤ 65535) ps
IsBody t (unknown l) = All (λ x. x ≤ 255) l
IsBody t other = Unit

module _ (P : Platform) where
  param_value-bounded :
      (ps : List SvcParam)
      → All (λ v. v.key ≤ 65535) ps
      → All (λ v. v.key_value ≤ 65535) (map (param_value P) ps)
  unfolding param_value
  param_value-bounded [] h = tt
  param_value-bounded (p ∷ ps) h = (h.0, param_value-bounded ps h.1)

  module _ (name : Text) (ttl t : ℕ) where
    unknown-IsAnswer :
        (l : List ℕ) {r : AnswerRecord}
        → All (λ x. x ≤ 255) l
        → unknown_fields P (headed name (type_name t) ttl []) t l ≡ ok r
        → IsAnswer name ttl r
    unfolding unknown_fields caa_fields put_field text_eq type_name type_name_in record_types
    unknown-IsAnswer [] b h = absurd (err-ne-ok _ _ h)
    unknown-IsAnswer (x ∷ []) b h = absurd (err-ne-ok _ _ h)
    unknown-IsAnswer (flags ∷ n ∷ l) b h = elim (Bool-cases (t == caa_type)) [
      | inr q ↦ absurd (err-ne-ok _ _ (rw (q, unknown_fields) at h))
      | inl q ↦ elim (Bool-cases (leb n (length l))) [
        | inr k ↦ absurd (err-ne-ok _ _ (rw (q, k, unknown_fields, caa_fields) at h))
        | inl k ↦
            let e : t ≡ 257 = ground arith in
            subst (IsAnswer name ttl) (ok-injective (rw (e, k, unknown_fields, caa_fields) at h))
              (caa_answer flags (take n l) (drop n l) b.0)
      ]
    ]

    body-IsAnswer :
        (body : Body) {r : AnswerRecord}
        → IsBody t body
        → body_fields P (headed name (type_name t) ttl []) t body ≡ ok r
        → IsAnswer name ttl r
    unfolding body_fields put_field text_eq soa_fields add_svcb_fields type_name type_name_in
        record_types
    body-IsAnswer (a l) q h = subst (IsAnswer name ttl) (ok-injective (rw q at h)) (a_answer _)
    body-IsAnswer (aaaa l) q h =
        subst (IsAnswer name ttl) (ok-injective (rw q at h)) (aaaa_answer _)
    body-IsAnswer (cname n) q h =
        subst (IsAnswer name ttl) (ok-injective (rw q at h)) (cname_answer _)
    body-IsAnswer (ptr n) q h = subst (IsAnswer name ttl) (ok-injective (rw q at h)) (ptr_answer _)
    body-IsAnswer (ns n) q h = subst (IsAnswer name ttl) (ok-injective (rw q at h)) (ns_answer _)
    body-IsAnswer (txt l) q h = subst (IsAnswer name ttl) (ok-injective (rw q at h)) (txt_answer _)
    body-IsAnswer (mx p n) (q, bp) h =
        subst (IsAnswer name ttl) (ok-injective (rw q at h)) (mx_answer p _ bp)
    body-IsAnswer (soa s) q h =
        subst (IsAnswer name ttl) (ok-injective (rw q at h)) (soa_answer _ _ _ _ _ _ _)
    body-IsAnswer (srv p w port n) (q, bp, bw, bport) h =
        subst (IsAnswer name ttl) (ok-injective (rw q at h)) (srv_answer p w port _ bp bw bport)
    body-IsAnswer (svcb p n ps) (q, bp, bk) h =
        subst (IsAnswer name ttl) (ok-injective (rw q at h))
          (svcb_answer p _ _ bp (param_value-bounded ps bk))
    body-IsAnswer (https p n ps) (q, bp, bk) h =
        subst (IsAnswer name ttl) (ok-injective (rw q at h))
          (https_answer p _ _ bp (param_value-bounded ps bk))
    body-IsAnswer (unknown l) q h = unknown-IsAnswer l q h
    body-IsAnswer other q h = absurd (err-ne-ok _ _ h)

  pub normalize_answer-IsAnswer :
      (x : Resource) {r : AnswerRecord}
      → IsBody x.header.rtype x.body
      → normalize_answer P x ≡ ok r
      → IsAnswer (trim_root P x.header.name) x.header.ttl r
  unfolding normalize_answer
  normalize_answer-IsAnswer x q h =
      body-IsAnswer (trim_root P x.header.name) x.header.ttl x.header.rtype x.body q h

aged_headed :
    (age : ℕ) (name t : Text) (ttl : ℕ) (rest : AnswerRecord)
    → age_answer age (headed name t ttl rest) ≡ headed name t (ttl - age) rest
unfolding age_answer age_ttl get_field put_field text_eq
aged_headed age name t ttl rest = elim (Bool-cases (leb ttl age)) [
  | inl q ↦ let e : 0 ≡ ttl - age = ground arith in rw (q, age_ttl, e)
  | inr q ↦ rw (q, age_ttl)
]

-- Aging changes the TTL alone.
pub age_answer-IsAnswer :
    {name : Text} {ttl : ℕ} {r : AnswerRecord} (age : ℕ)
    → IsAnswer name ttl r
    → IsAnswer name (ttl - age) (age_answer age r)
age_answer-IsAnswer age (a_answer x) = rw (aged_headed age) (a_answer x)
age_answer-IsAnswer age (aaaa_answer x) = rw (aged_headed age) (aaaa_answer x)
age_answer-IsAnswer age (cname_answer x) = rw (aged_headed age) (cname_answer x)
age_answer-IsAnswer age (ptr_answer x) = rw (aged_headed age) (ptr_answer x)
age_answer-IsAnswer age (mx_answer p x h) = rw (aged_headed age) (mx_answer p x h)
age_answer-IsAnswer age (txt_answer l) = rw (aged_headed age) (txt_answer l)
age_answer-IsAnswer age (ns_answer x) = rw (aged_headed age) (ns_answer x)
age_answer-IsAnswer age (soa_answer x y s1 s2 s3 s4 s5) =
    rw (aged_headed age) (soa_answer x y s1 s2 s3 s4 s5)
age_answer-IsAnswer age (caa_answer f t v h) = rw (aged_headed age) (caa_answer f t v h)
age_answer-IsAnswer age (srv_answer p w o x h k l) = rw (aged_headed age) (srv_answer p w o x h k l)
age_answer-IsAnswer age (svcb_answer p x l h k) = rw (aged_headed age) (svcb_answer p x l h k)
age_answer-IsAnswer age (https_answer p x l h k) = rw (aged_headed age) (https_answer p x l h k)
