-- ===== src/Frame/RoundTrip.antt =====
-- A message that was framed is read back, and what is read was framed.
use encrypted_dns_skill.Base.{
  ℕ, zero, suc, ◌+◌, ◌*◌, ◌/◌, ◌%◌, ◌≤◌, ◌<◌, true, false, [], ◌∷◌, ◌++◌, ◌≡◌, ◌≢◌, refl, ap, ◌∙◌,
  inl, inr, arith, leb, ◌==◌, length, take, take_append, drop_append, take-append-drop,
  length-append, All, Bool-cases,
}
use encrypted_dns_skill.Errors.{Error, Fallible, ok}
use encrypted_dns_skill.Errors.Laws.{Fallible-cases, err-ne-ok}
use mathlib.Core.Path.{subst}
use encrypted_dns_skill.Frame.{Reader, read_full, read_dns_frame, frame_of, uint16_of}
use encrypted_dns_skill.Text.{Bytes}

read_full_append :
    (s rest : Bytes) (stop : Error)
    → read_full (length s) (record { bytes = s ++ rest; stop = stop })
      ≡ ok (s, record { bytes = rest; stop = stop })
unfolding read_full
read_full_append s rest stop =
    let fits : leb (length s) (length (s ++ rest)) ≡ true =
      ground (arith, length-append {0} s rest) in
    rw (fits, take_append s rest, drop_append s rest)

-- A message of 1 to 65535 bytes that was framed is read back as it is, and what stands behind it
-- is left to read.
pub read_dns_frame-frame_of :
    (wire rest : Bytes) (stop : Error)
    → 1 ≤ length wire
    → length wire ≤ 65535
    → read_dns_frame (record { bytes = frame_of wire ++ rest; stop = stop })
      ≡ ok (wire, record { bytes = rest; stop = stop })
unfolding read_dns_frame frame_of
read_dns_frame-frame_of wire rest stop low high =
    let size : length wire % 65536 / 256 * 256 + length wire % 256 ≡ length wire = omega arith in
    let nonzero : (length wire == 0) ≡ false = ground arith in
    let head =
      read_full_append (length wire % 65536 / 256 ∷ length wire % 256 ∷ []) (wire ++ rest) stop in
    rw (head, read_dns_frame) (rw (size, nonzero) (rw (read_full_append wire rest stop)))

length-take_le : (n : ℕ) (s : Bytes) → n ≤ length s → length (take n s) ≡ n
length-take_le zero s h = refl
length-take_le (suc n) [] h = absurd (omega arith)
length-take_le (suc n) (c ∷ s) h = ap suc (length-take_le n s (omega arith))

read_full_sound :
    (n : ℕ) (r : Reader) {s : Bytes} {r' : Reader}
    → read_full n r ≡ ok (s, r')
    → (length s ≡ n) × (r.bytes ≡ s ++ r'.bytes)
unfolding read_full
read_full_sound n r h = ground (arith, length-take_le n r.bytes, take-append-drop n r.bytes)

-- The frame of a message whose length two bytes spell.
frame_of_spelled :
    (high low : ℕ) (m : Bytes)
    → high < 256
    → low < 256
    → length m ≡ high * 256 + low
    → frame_of m ≡ high ∷ low ∷ m
unfolding frame_of
frame_of_spelled high low m hh hl e =
    let e1 : length m % 65536 / 256 ≡ high = omega arith in
    let e2 : length m % 256 ≡ low = omega arith in cc

two_bytes : (s : Bytes) → length s ≡ 2 → (a : ℕ) × (b : ℕ) × (s ≡ a ∷ b ∷ [])
two_bytes [] h = absurd (omega arith)
two_bytes (a ∷ []) h = absurd (omega arith)
two_bytes (a ∷ b ∷ []) h = (a, b, refl)
two_bytes (a ∷ b ∷ c ∷ s) h = absurd (omega arith)

read_parts :
    (r : Reader) (m : Bytes) (r' : Reader) (a b : ℕ) (t : Bytes)
    → r.bytes ≡ a ∷ b ∷ t
    → All (λ c. c < 256) r.bytes
    → length m ≡ a * 256 + b
    → length m ≢ 0
    → t ≡ m ++ r'.bytes
    → (1 ≤ length m) × (length m ≤ 65535) × (r.bytes ≡ frame_of m ++ r'.bytes)
read_parts r m r' a b t e small len nonzero behind =
    let facts : All (λ c. c < 256) (a ∷ b ∷ t) = subst (All (λ c. c < 256)) e small in
    let ha : a < 256 = facts.0 in
    let hb : b < 256 = facts.1.0 in
    (
      omega arith,
      omega arith,
      rw (frame_of_spelled a b m ha hb len) (e ∙ ap (λ x. a ∷ b ∷ x) behind),
    )

-- What `readDNSFrame` returns is a message of 1 to 65535 bytes whose frame is the front of the
-- bytes of the reader; the rest is left to read.
pub read_dns_frame_sound :
    (r : Reader) (m : Bytes) (r' : Reader)
    → All (λ c. c < 256) r.bytes
    → read_dns_frame r ≡ ok (m, r')
    → (1 ≤ length m) × (length m ≤ 65535) × (r.bytes ≡ frame_of m ++ r'.bytes)
unfolding read_dns_frame
read_dns_frame_sound r m r' small h = elim (Fallible-cases (read_full 2 r)) [
  | inr (e, q) ↦ absurd (err-ne-ok _ _ (rw (q, read_dns_frame) at h))
  | inl ((s, t), q) ↦
      let (two, front) = read_full_sound 2 r q in
      let (a, b, e) = two_bytes s two in
      elim (Bool-cases (uint16_of s == 0)) [
        | inl z ↦ absurd (err-ne-ok _ _ (rw (q, z, read_dns_frame) at h))
        | inr z ↦ elim (Fallible-cases (read_full (uint16_of s) t)) [
          | inr (e', k) ↦ absurd (err-ne-ok _ _ (rw (q, z, k, read_dns_frame) at h))
          | inl ((m', t'), k) ↦
              let good : ◌≡◌ {A = Fallible (Bytes × Reader)} (ok (m', t')) (ok (m, r')) =
                rw (q, z, k, read_dns_frame) at h in
              let (len, behind) = read_full_sound (uint16_of s) t k in
              read_parts r m r' a b t.bytes (rw e at front) small (ground arith) (ground arith)
                (ground arith)
        ]
      ]
]
