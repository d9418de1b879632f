-- ===== src/Common/Slices/Elements.antt =====
-- What a slice holds after a write and after an append.
use Prim.Native.Nat.{ℕ, zero, suc, ◌≤◌, ◌<◌}
use mathlib.Core.Path.{◌≡◌, refl, ap}
use mathlib.Core.Logic.{inl, inr}
use mathlib.Core.List.{List, [], ◌∷◌, ◌++◌}
use native.Mathlib.Omega.{arith}
use cosmos_operator.Common.Tests.{ltb, Bool-cases, ltb→lt}
use cosmos_operator.Common.Lists.{length, take, length-append}
use cosmos_operator.Common.Slices.{Slice, write_at, elements, append_element}

module _ {ℓ} {A : Type ℓ} where
  pub take-write_at :
      (n i : ℕ) (a : A) (xs : List A) → take n (write_at i a xs) ≡ write_at i a (take n xs)
  take-write_at zero i a xs = ground arith
  take-write_at (suc n) i a [] = refl
  take-write_at (suc n) zero a (x ∷ xs) = refl
  take-write_at (suc n) (suc i) a (x ∷ xs) = ap (◌∷◌ x) (take-write_at n i a xs)

  pub length-write_at : (i : ℕ) (a : A) (xs : List A) → length (write_at i a xs) ≡ length xs
  length-write_at i a [] = refl
  length-write_at zero a (x ∷ xs) = refl
  length-write_at (suc i) a (x ∷ xs) = omega (arith, length-write_at i a xs)

  pub take-suc-write_at :
      (i : ℕ) (a : A) (xs : List A)
      → i < length xs
      → take (suc i) (write_at i a xs) ≡ take i xs ++ (a ∷ [])
  take-suc-write_at i a [] h = absurd (omega arith)
  take-suc-write_at zero a (x ∷ xs) h = refl
  take-suc-write_at (suc i) a (x ∷ xs) h = ap (◌∷◌ x) (take-suc-write_at i a xs (omega arith))

  pub take_all : (n : ℕ) (xs : List A) → length xs ≡ n → take n xs ≡ xs
  take_all zero [] e = refl
  take_all zero (x ∷ xs) e = absurd (omega arith)
  take_all (suc n) [] e = refl
  take_all (suc n) (x ∷ xs) e = ap (◌∷◌ x) (take_all n xs (omega arith))

  pub append_assoc : (xs ys zs : List A) → (xs ++ ys) ++ zs ≡ xs ++ (ys ++ zs)
  append_assoc [] ys zs = refl
  append_assoc (x ∷ xs) ys zs = ap (◌∷◌ x) (append_assoc xs ys zs)

  pub append_nil : (xs : List A) → xs ++ [] ≡ xs
  append_nil [] = refl
  append_nil (x ∷ xs) = ap (◌∷◌ x) (append_nil xs)

  length-take_of_le : (n : ℕ) (xs : List A) → n ≤ length xs → length (take n xs) ≡ n
  length-take_of_le zero xs h = refl
  length-take_of_le (suc n) [] h = absurd (omega arith)
  length-take_of_le (suc n) (x ∷ xs) h = omega (arith, length-take_of_le n xs)

  -- The length lies within the capacity.
  abbrev pub IsWithin : Slice A → Type 0
  IsWithin s = s.len ≤ length s.array

  pub append_element-elements :
      (a : A) (s : Slice A)
      → IsWithin s
      → (elements (append_element a s) ≡ elements s ++ (a ∷ [])) × IsWithin (append_element a s)
  append_element-elements a s h = elim (Bool-cases (ltb s.len (length s.array))) [
    | inl e ↦ rw e (
      take-suc-write_at s.len a s.array (ltb→lt s.len (length s.array) e),
      omega (arith, length-write_at s.len a s.array, ltb→lt s.len (length s.array) e),
    )
    | inr e ↦
        let xs = elements s ++ (a ∷ []) in
        let e' : length xs ≡ suc s.len =
          omega (arith, length-append (elements s) (a ∷ []), length-take_of_le s.len s.array h) in
        rw e (take_all (suc s.len) xs e', omega arith)
  ]
