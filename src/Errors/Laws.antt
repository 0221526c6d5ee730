-- ===== src/Errors/Laws.antt =====
-- Inversion of chains of fallible steps.
use encrypted_dns_skill.Base.{Bool, true, false, ◌≡◌, refl, ◌⊎◌, inl, inr}
use encrypted_dns_skill.Errors.{Error, Fallible, ok, err, ◌>>=◌, ◌>>◌, refuse_if}

pub Fallible-cases {ℓ} :
    {A : Type ℓ} (m : Fallible A) → ((a : A) × (m ≡ ok a)) ⊎ ((e : Error) × (m ≡ err e))
Fallible-cases (ok a) = inl (a, refl)
Fallible-cases (err e) = inr (e, refl)

-- A successful bind has a successful first step.
pub >>=-eq-ok {ℓ κ} :
    {A : Type ℓ} {B : Type κ} (step : Fallible A) (next : A → Fallible B) {last : B}
    → (step >>= next) ≡ ok last
    → (value : A) × (step ≡ ok value) × (next value ≡ ok last)
>>=-eq-ok (err failure) next h = cc
>>=-eq-ok (ok value) next h = (value, refl, h)

-- A test that is passed.
pub refuse_if-eq-ok {ℓ} :
    {B : Type ℓ} (refused : Bool) (e : Error) (k : Fallible B) {b : B}
    → (refuse_if refused e >> k) ≡ ok b
    → (refused ≡ false) × (k ≡ ok b)
refuse_if-eq-ok true e k h = cc
refuse_if-eq-ok false e k h = (refl, h)

pub err-ne-ok {ℓ} : {A : Type ℓ} (e : Error) (a : A) → err e ≡ ok a → ⊥
err-ne-ok e a h = cc

pub ok-injective {ℓ} : {A : Type ℓ} {a b : A} → ◌≡◌ {A = Fallible A} (ok a) (ok b) → a ≡ b
ok-injective h = cc
