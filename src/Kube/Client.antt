-- ===== src/Kube/Client.antt =====
-- What the API server answers, as internal/kube/error.go and create_or_update.go tell it apart.
use cosmos_operator.Common.{Text, Bool, true, false, Option, none, some, ◌≡◌, refl, ◌⊎◌, inl, inr}

-- The reasons that the source asks for; any other error is its text.
pub data ApiError : Type 0 where
  not_found : ApiError
  already_exists : ApiError
  other : Text → ApiError

-- What a `Get` or a `List` returns.
pub data Answer {ℓ} (A : Type ℓ) : Type ℓ where
  found : A → Answer A
  failed : ApiError → Answer A

pub Answer-cases {ℓ} :
    {A : Type ℓ} (a : Answer A) → ((v : A) × (a ≡ found v)) ⊎ ((e : ApiError) × (a ≡ failed e))
Answer-cases (found v) = inl (v, refl)
Answer-cases (failed e) = inr (e, refl)

unfoldable pub is_not_found : Option ApiError → Bool
is_not_found (some ApiError.not_found) = true
is_not_found _ = false

unfoldable pub is_already_exists : Option ApiError → Bool
is_already_exists (some ApiError.already_exists) = true
is_already_exists _ = false

unfoldable pub ignore_not_found : Option ApiError → Option ApiError
ignore_not_found (some ApiError.not_found) = none
ignore_not_found e = e

unfoldable pub ignore_already_exists : Option ApiError → Option ApiError
ignore_already_exists (some ApiError.already_exists) = none
ignore_already_exists e = e
