-- ===== src/Frame/Connect.antt =====
-- `readCONNECTResponse`: what is read of the answer of a proxy, and what is left for the tunnel.
use encrypted_dns_skill.Base.{
  ℕ, ◌≤◌, ◌<◌, true, false, [], ◌∷◌, ◌++◌, ◌≡◌, ◌≢◌, refl, sym, ap, ◌∙◌, inl, inr, arith, ltb,
  length, length-append, append_assoc, Bool-cases,
}
use encrypted_dns_skill.Errors.{Error, Fallible, ok}
use encrypted_dns_skill.Errors.Laws.{err-ne-ok}
use encrypted_dns_skill.Frame.{
  Reader, read_header, read_connect_response, header_end, max_header_size,
}
use encrypted_dns_skill.Text.{Bytes, has_suffix}
use mathlib.Core.List.{cons-ne-nil}

-- From `before` on, `more` was read: it ends the header, no shorter part of it does, and the
-- header is within its limit.
record Ends (before more : Bytes) : Type 0 where
  ended : has_suffix (before ++ more) header_end ≡ true
  within : length (before ++ more) ≤ max_header_size
  first :
      (p q : Bytes) → more ≡ p ++ q → p ≢ [] → q ≢ [] → has_suffix (before ++ p) header_end ≡ false

-- The parts of one byte.
one_parts : (c : ℕ) (p q : Bytes) → c ∷ [] ≡ p ++ q → p ≢ [] → q ≢ [] → ⊥
one_parts c [] q e hp hq = hp refl
one_parts c (d ∷ []) [] e hp hq = hq refl
one_parts c (d ∷ []) (x ∷ q) e hp hq = cc
one_parts c (d ∷ d' ∷ p) q e hp hq = cc

first_more :
    (before : Bytes) (c : ℕ) (more : Bytes)
    → has_suffix (before ++ c ∷ []) header_end ≡ false
    → Ends (before ++ c ∷ []) more
    → (p q : Bytes) → c ∷ more ≡ p ++ q
    → p ≢ []
    → q ≢ []
    → has_suffix (before ++ p) header_end ≡ false
first_more before c more h e [] q k hp hq = absurd (hp refl)
first_more before c more h e (d ∷ []) q k hp hq = let same : c ≡ d = cc in rw same at h
first_more before c more h e (d ∷ d' ∷ p) q k hp hq =
    let same : c ≡ d = cc in
    let tail : more ≡ (d' ∷ p) ++ q = cc in
    rw (← same) (rw append_assoc at (e.first (d' ∷ p) q tail (cons-ne-nil d' p) hq))

Ends-one :
    (before : Bytes) (c : ℕ)
    → has_suffix (before ++ c ∷ []) header_end ≡ true
    → length before < max_header_size
    → Ends before (c ∷ [])
Ends-one before c h k = record {
  ended = h;
  within = omega (arith, length-append {0} before (c ∷ []));
  first = λ p q e hp hq. absurd (one_parts c p q e hp hq);
}

Ends-more :
    (before : Bytes) (c : ℕ) (more : Bytes)
    → has_suffix (before ++ c ∷ []) header_end ≡ false
    → Ends (before ++ c ∷ []) more
    → Ends before (c ∷ more)
Ends-more before c more h e = record {
  ended = rw append_assoc at e.ended;
  within = rw append_assoc at e.within;
  first = first_more before c more h e;
}

read_header_sound :
    (s : Bytes) (stop : Error) (before : Bytes) {header rest : Bytes}
    → read_header s stop before ≡ ok (header, rest)
    → (more : Bytes) × (header ≡ before ++ more) × (s ≡ more ++ rest) × Ends before more
unfolding read_header
read_header_sound [] stop before h = elim (Bool-cases (ltb (length before) max_header_size)) [
  | inl t ↦ absurd (err-ne-ok _ _ (rw (t, read_header) at h))
  | inr t ↦ absurd (err-ne-ok _ _ (rw (t, read_header) at h))
]
read_header_sound (c ∷ s) stop before {header} {rest} h =
    elim (Bool-cases (ltb (length before) max_header_size)) [
      | inr t ↦ absurd (err-ne-ok _ _ (rw (t, read_header) at h))
      | inl t ↦ elim (Bool-cases (has_suffix (before ++ c ∷ []) header_end)) [
        | inl u ↦
            let good : ◌≡◌ {A = Fallible (Bytes × Bytes)} (ok (before ++ c ∷ [], s))
                (ok (header, rest)) =
              rw (t, u, read_header) at h in
            (c ∷ [], ground arith, ground arith, Ends-one before c u (ground arith))
        | inr u ↦
            let (more, e1, e2, ends) =
              read_header_sound s stop (before ++ c ∷ []) (rw (t, u, read_header) at h) in
            (
              c ∷ more,
              e1 ∙ append_assoc before (c ∷ []) more,
              ap (◌∷◌ c) e2,
              Ends-more before c more u ends,
            )
      ]
    ]

-- The header that is handed to `http.ReadResponse` is the front of the bytes that the proxy sent,
-- and no byte behind it is taken from the tunnel. It ends with an empty line, at most 32768 bytes
-- from its start.
pub read_connect_response_sound :
    (r : Reader) (header rest : Bytes)
    → read_connect_response r ≡ ok (header, rest)
    → (r.bytes ≡ header ++ rest) × (has_suffix header header_end ≡ true) × (length header ≤ 32768)
unfolding read_connect_response
read_connect_response_sound r header rest h =
    let (more, e1, e2, ends) = read_header_sound r.bytes r.stop [] h in
    (e2 ∙ ap (λ x. x ++ rest) (sym e1), rw e1 ends.ended, rw e1 ends.within)

-- The reading of a header stops at the first empty line: no shorter front of it, but for the
-- empty one, ends with an empty line.
pub read_connect_response_first :
    (r : Reader) (header rest p q : Bytes)
    → read_connect_response r ≡ ok (header, rest)
    → header ≡ p ++ q
    → p ≢ []
    → q ≢ []
    → has_suffix p header_end ≡ false
unfolding read_connect_response
read_connect_response_first r header rest p q h e hp hq =
    let (more, e1, e2, ends) = read_header_sound r.bytes r.stop [] h in
    ends.first p q (sym e1 ∙ e) hp hq
