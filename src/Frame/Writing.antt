-- ===== src/Frame/Writing.antt =====
-- `writeAll` and `writeDNSFrame`: what has been written when they return.
use encrypted_dns_skill.Base.{
  ℕ, zero, suc, ◌+◌, ◌≤◌, ◌<◌, ◌||◌, [], ◌∷◌, ◌++◌, ◌≡◌, ◌≢◌, ◌⊎◌, refl, sym, ap, ◌∙◌, Option, none,
  some, inl, inr, arith, ltb, ◌==◌, length, take, drop, take-append-drop, length-drop, append_assoc,
  Bool-cases,
}
use mathlib.Core.Path.{subst}
use encrypted_dns_skill.Errors.{Error}
use encrypted_dns_skill.Frame.{
  Writer, Written, write_loop, write_all, frame_of, write_dns_frame, max_dns_message_size,
}
use encrypted_dns_skill.Text.{Bytes}

-- What was written is the front of the payload, and the whole of it where no error is returned.
pub record IsWritten (payload : Bytes) (r : Written) : Type 0 where
  pub unsent : Bytes
  pub split : payload ≡ r.sent ++ unsent
  pub finished : r.error ≡ none → unsent ≡ []

-- A call succeeds or fails.
outcome-cases :
    (r : ℕ × Option Error)
    → ((n : ℕ) × (r ≡ (n, none))) ⊎ ((n : ℕ) × (e : Error) × (r ≡ (n, some e)))
outcome-cases (n, none) = inl (n, refl)
outcome-cases (n, some e) = inr (n, e, refl)

-- A call that fails has written the front of what was left.
front-IsWritten :
    (n : ℕ) (e : Error) (sent payload : Bytes)
    → IsWritten (sent ++ payload) (record { sent = sent ++ take n payload; error = some e })
front-IsWritten n e sent payload = record {
  unsent = drop n payload;
  split = sym (
      append_assoc sent (take n payload) (drop n payload)
      ∙ ap (λ t. sent ++ t) (take-append-drop n payload));
  finished = ground arith;
}

write_loop-IsWritten :
    (w : Writer) (fuel call : ℕ) (payload sent : Bytes)
    → length payload ≤ fuel
    → IsWritten (sent ++ payload) (write_loop w fuel call payload sent)
unfolding write_loop
write_loop-IsWritten w fuel call [] sent h = record {
  unsent = [];
  split = refl;
  finished = λ _. refl;
}
write_loop-IsWritten w zero call (c ∷ p) sent h = absurd (omega arith)
write_loop-IsWritten w (suc fuel) call (c ∷ p) sent h =
    elim (outcome-cases (w call (length (c ∷ p)))) [
      | inr (n, e, q) ↦ rw (q, ap (λ r. r.0) q, write_loop) (front-IsWritten n e sent (c ∷ p))
      | inl (n, q) ↦ elim (Bool-cases (n == 0)) [
        | inl t ↦
            rw (q, ap (λ r. r.0) q, t, write_loop)
              (record { unsent = c ∷ p; split = refl; finished = ground arith })
        | inr t ↦
            let l = c ∷ p in
            let positive : 1 ≤ n = ground arith in
            let left : length (drop n l) ≤ fuel = omega (arith, length-drop {0} n l) in
            let whole : (sent ++ take n l) ++ drop n l ≡ sent ++ l =
              append_assoc sent (take n l) (drop n l)
              ∙ ap (λ t. sent ++ t) (take-append-drop n l) in
            rw (q, ap (λ r. r.0) q, t, write_loop)
              (subst (λ x. IsWritten x (write_loop w fuel (call + 1) (drop n l) (sent ++ take n l)))
                whole (write_loop-IsWritten w fuel (call + 1) (drop n l) (sent ++ take n l) left))
      ]
    ]

-- Fuel for one round per byte is enough: more of it changes nothing.
write_loop_fuel :
    (w : Writer) (fuel total call : ℕ) (payload sent : Bytes)
    → length payload ≤ fuel
    → fuel ≤ total
    → write_loop w total call payload sent ≡ write_loop w fuel call payload sent
unfolding write_loop
write_loop_fuel w fuel total call [] sent h k = refl
write_loop_fuel w zero total call (c ∷ p) sent h k = absurd (omega arith)
write_loop_fuel w (suc fuel) zero call (c ∷ p) sent h k = absurd (omega arith)
write_loop_fuel w (suc fuel) (suc total) call (c ∷ p) sent h k =
    elim (outcome-cases (w call (length (c ∷ p)))) [
      | inr (n, e, q) ↦ rw (q, write_loop)
      | inl (n, q) ↦ elim (Bool-cases (n == 0)) [
        | inl t ↦ rw (q, ap (λ r. r.0) q, t, write_loop)
        | inr t ↦
            let positive : 1 ≤ n = ground arith in
            let left : length (drop n (c ∷ p)) ≤ fuel = omega (arith, length-drop {0} n (c ∷ p)) in
            rw (q, ap (λ r. r.0) q, t, write_loop)
              (write_loop_fuel w fuel total (call + 1) (drop n (c ∷ p)) (sent ++ take n (c ∷ p))
                left (omega arith))
      ]
    ]

-- `writeAll` needs no more rounds than the payload has bytes: with at least so much fuel the loop
-- returns the same.
pub write_all_fuel :
    (w : Writer) (payload : Bytes) (fuel : ℕ)
    → length payload ≤ fuel
    → write_loop w fuel 0 payload [] ≡ write_all w payload
unfolding write_all
write_all_fuel w payload fuel h =
    write_loop_fuel w (length payload) fuel 0 payload [] (omega arith) h

-- Whatever the writer accepts at each call: of a message of 1 to 65535 bytes, what
-- `writeDNSFrame` has written when it returns is a front of the frame, which is the length in two
-- bytes and the message, and it is the whole frame where no error is returned. Any
-- other message is refused with an error before a byte is written.
pub write_dns_frame-IsWritten :
    (w : Writer) (wire : Bytes)
    → ((1 ≤ length wire)
        × (length wire ≤ 65535)
        × IsWritten (frame_of wire) (write_dns_frame w wire))
      ⊎ (((length wire ≡ 0) ⊎ (65535 < length wire))
          × ((write_dns_frame w wire).sent ≡ [])
          × ((write_dns_frame w wire).error ≢ none))
unfolding write_dns_frame write_all
write_dns_frame-IsWritten w wire =
    elim (Bool-cases (length wire == 0 || ltb max_dns_message_size (length wire))) [
      | inl t ↦ inr (ground arith, rw (t, write_dns_frame), rw (t, write_dns_frame) (ground arith))
      | inr t ↦ inl (
        ground arith,
        ground arith,
        rw (t, write_dns_frame) (write_loop-IsWritten w _ 0 (frame_of wire) [] (omega arith)),
      )
    ]
