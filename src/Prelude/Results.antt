-- ===== src/Prelude/Results.antt =====
-- A result that is a value or an error, for Go's `(T, error)`.
use mathlib.Core.Path.{◌≡◌, refl}
use mathlib.Core.Logic.{◌⊎◌, inl, inr}

pub data Result {ℓ κ} (E : Type ℓ) (A : Type κ) : Type (ℓ ⊔ κ) where
  ok : A → Result E A
  err : E → Result E A

abbrev pub ok? {ℓ κ} : {E : Type ℓ} {A : Type κ} → Result E A → Type 0
ok? (ok a) = Unit
ok? (err e) = ⊥

pub Result-cases :
    {E A : Type 0} → (r : Result E A) → ((a : A) × (r ≡ ok a)) ⊎ ((e : E) × (r ≡ err e))
Result-cases (ok a) = inl (a, refl)
Result-cases (err e) = inr (e, refl)
