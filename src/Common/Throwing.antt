-- ===== src/Common/Throwing.antt =====
-- A call that returns a value or throws.
use mathlib.Core.Path.{◌≡◌, refl, ap}
use mathlib.Core.Logic.{◌⊎◌, inl, inr}

pub data Result {ℓ κ} (E : Type κ) (A : Type ℓ) : Type (ℓ ⊔ κ) where
  ok : A → Result E A
  err : E → Result E A

pub Result-cases {ℓ κ} :
    {E : Type κ} {A : Type ℓ} (r : Result E A) → ((a : A) × (r ≡ ok a)) ⊎ ((e : E) × (r ≡ err e))
Result-cases (ok a) = inl (a, refl)
Result-cases (err e) = inr (e, refl)

unwrap {ℓ ℓ'} : {E : Type ℓ} {A : Type ℓ'} → A → Result E A → A
unwrap d (ok a) = a
unwrap d (err e) = d

pub ok-injective {ℓ ℓ'} :
    {E : Type ℓ} {A : Type ℓ'} {a b : A} → ◌≡◌ {A = Result E A} (ok a) (ok b) → a ≡ b
unfolding unwrap
ok-injective {a = a} h = ap (unwrap a) h
