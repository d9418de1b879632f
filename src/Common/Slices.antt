-- ===== src/Common/Slices.antt =====
-- A Go slice that shares its array with another one. `array` is the array up to its capacity, `len`
-- the slice's length, and `other` what the other slice sees of its own array, which is the same one
-- until an append past the capacity moves the slice to a new array.
pub mod Elements
use Prim.Native.Nat.{ℕ, zero, suc}
use mathlib.Core.Bool.{Bool, true, false}
use mathlib.Core.List.{List, [], ◌∷◌, ◌++◌}
use cosmos_operator.Common.Tests.{ltb, if◌then◌else◌}
use cosmos_operator.Common.Lists.{length, take}

pub record Slice {ℓ} (A : Type ℓ) : Type ℓ where
  pub array : List A
  pub len : ℕ
  pub other : List A
  pub shared : Bool

module _ {ℓ} {A : Type ℓ} where
  abbrev pub write_at : ℕ → A → List A → List A
  write_at i a [] = []
  write_at zero a (x ∷ xs) = a ∷ xs
  write_at (suc i) a (x ∷ xs) = x ∷ write_at i a xs

  -- A slice over the whole array of another one.
  abbrev pub share : List A → Slice A
  share xs = record { array = xs; len = length xs; other = xs; shared = true }

  abbrev pub elements : Slice A → List A
  elements s = take s.len s.array

  -- `s[i] = a`.
  abbrev pub set_element : ℕ → A → Slice A → Slice A
  set_element i a s = record s {
    array = write_at i a s.array;
    other = if s.shared then write_at i a s.other else s.other;
  }

  -- `append(s, a)`: in place below the capacity, or else to a new array.
  abbrev pub append_element : A → Slice A → Slice A
  append_element a s =
      if ltb s.len (length s.array)
      then record (set_element s.len a s) { len = suc s.len }
      else record s { array = elements s ++ (a ∷ []); len = suc s.len; shared = false }
