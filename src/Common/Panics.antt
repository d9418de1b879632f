-- ===== src/Common/Panics.antt =====
-- The result of a function that may panic.
use mathlib.Core.Path.{◌≡◌, refl}
use mathlib.Core.Logic.{◌⊎◌, inl, inr}

pub data Checked {ℓ} (A : Type ℓ) : Type ℓ where
  panic : Checked A
  ok : A → Checked A

pub Checked-cases {ℓ} : {A : Type ℓ} (c : Checked A) → (c ≡ panic) ⊎ ((a : A) × (c ≡ ok a))
Checked-cases panic = inl refl
Checked-cases (ok a) = inr (a, refl)
