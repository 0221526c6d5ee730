-- ===== src/Frame/Progress.antt =====
-- `writeAll` over a writer that makes progress.
use encrypted_dns_skill.Base.{
  ℕ, zero, suc, ◌+◌, ◌≤◌, ◌||◌, false, [], ◌∷◌, ◌++◌, ◌≡◌, sym, ap, ◌∙◌, none, arith, ltb, ◌==◌,
  length, take, drop, take-append-drop, length-drop, append_assoc, append-nil,
}
use encrypted_dns_skill.Frame.{
  Writer, write_loop, write_all, frame_of, write_dns_frame, max_dns_message_size,
}
use encrypted_dns_skill.Text.{Bytes}

-- A writer that accepts at every call one byte of the payload at least.
abbrev pub IsWilling : Writer → Type 0
IsWilling w = (call n : ℕ) → 1 ≤ n → (k : ℕ) × (w call n ≡ (k, none)) × (1 ≤ k) × (k ≤ n)

write_loop-whole :
    (w : Writer) (fuel call : ℕ) (payload sent : Bytes)
    → IsWilling w
    → length payload ≤ fuel
    → write_loop w fuel call payload sent ≡ record { sent = sent ++ payload; error = none }
unfolding write_loop
write_loop-whole w fuel call [] sent willing h =
    ap (λ s. record { sent = s; error = none }) (sym (append-nil sent))
write_loop-whole w zero call (c ∷ p) sent willing h = absurd (omega arith)
write_loop-whole w (suc fuel) call (c ∷ p) sent willing h =
    let l = c ∷ p in
    let (n, q, low, high) = willing call (length l) (omega arith) in
    let positive : (n == 0) ≡ false = ground arith in
    let left : length (drop n l) ≤ fuel = omega (arith, length-drop {0} n l) in
    let whole : (sent ++ take n l) ++ drop n l ≡ sent ++ l =
      append_assoc sent (take n l) (drop n l) ∙ ap (λ t. sent ++ t) (take-append-drop n l) in
    rw (q, ap (λ r. r.0) q, positive, write_loop)
      (write_loop-whole w fuel (call + 1) (drop n l) (sent ++ take n l) willing left
        ∙ ap (λ s. record { sent = s; error = none }) whole)

-- Over a writer that accepts one byte at least at every call, however little, `writeDNSFrame`
-- returns no error for a message of 1 to 65535 bytes, and has written the whole frame.
pub write_dns_frame-whole :
    (w : Writer) (wire : Bytes)
    → IsWilling w
    → 1 ≤ length wire
    → length wire ≤ 65535
    → write_dns_frame w wire ≡ record { sent = frame_of wire; error = none }
unfolding write_dns_frame write_all
write_dns_frame-whole w wire willing low high =
    let fits : (length wire == 0 || ltb max_dns_message_size (length wire)) ≡ false =
      ground arith in
    rw (fits, write_dns_frame)
      (write_loop-whole w (length (frame_of wire)) 0 (frame_of wire) [] willing (omega arith))
