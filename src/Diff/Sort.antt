-- ===== src/Diff/Sort.antt =====
-- `sortByOrdinal` and `toObjects` of internal/diff: the order of the result, and what stays.
use cosmos_operator.Common.{
  List, [], ◌∷◌, ◌≡◌, refl, Option, none, some, arith, ObjectKey, key_eq, key_eq_iff, if◌then◌else◌,
  ◌≤ℤ◌,
}
use cosmos_operator.Kube.Meta.{Object, object_key}
use cosmos_operator.Diff.{
  Resource, resource_key, ordinal, insert_by_ordinal, sort_by_ordinal, to_object, to_objects,
}
use cosmos_operator.Diff.Sets.{pick, IsDistinct}

module _ {ℓ} {B : Type ℓ} where
  -- The first object with a key.
  abbrev pub find_object : ObjectKey → List (Object B) → Option (Object B)
  find_object k [] = none
  find_object k (o ∷ os) = if key_eq (object_key o) k then some o else find_object k os

  abbrev pub map_option : (Resource B → Object B) → Option (Resource B) → Option (Object B)
  map_option f none = none
  map_option f (some r) = some (f r)

  -- No ordinal exceeds that of the resource.
  abbrev pub IsLowest : Resource B → List (Resource B) → Type 0
  IsLowest r [] = Unit
  IsLowest r (s ∷ ss) = (ordinal r ≤ℤ ordinal s) × IsLowest r ss

  abbrev pub IsOrdered : List (Resource B) → Type 0
  IsOrdered [] = Unit
  IsOrdered (r ∷ rs) = IsLowest r rs × IsOrdered rs

  IsLowest-trans :
      (r s : Resource B) (rs : List (Resource B))
      → ordinal r ≤ℤ ordinal s
      → IsLowest s rs
      → IsLowest r rs
  IsLowest-trans r s [] h l = tt
  IsLowest-trans r s (t ∷ rs) h l = (omega arith, IsLowest-trans r s rs h l.1)

  IsLowest-insert_by_ordinal :
      (q r : Resource B) (rs : List (Resource B))
      → ordinal q ≤ℤ ordinal r
      → IsLowest q rs
      → IsLowest q (insert_by_ordinal r rs)
  unfolding insert_by_ordinal
  IsLowest-insert_by_ordinal q r [] h l = (h, tt)
  IsLowest-insert_by_ordinal q r (s ∷ rs) h l =
      ground (arith, IsLowest-insert_by_ordinal q r rs h l.1)

  insert_by_ordinal-IsOrdered :
      (r : Resource B) (rs : List (Resource B)) → IsOrdered rs → IsOrdered (insert_by_ordinal r rs)
  unfolding insert_by_ordinal
  insert_by_ordinal-IsOrdered r [] h = (tt, tt)
  insert_by_ordinal-IsOrdered r (s ∷ rs) h = ground (
    arith,
    insert_by_ordinal-IsOrdered r rs h.1,
    IsLowest-insert_by_ordinal s r rs,
    IsLowest-trans r s rs,
  )

  pub sort_by_ordinal-IsOrdered : (rs : List (Resource B)) → IsOrdered (sort_by_ordinal rs)
  unfolding sort_by_ordinal
  sort_by_ordinal-IsOrdered [] = tt
  sort_by_ordinal-IsOrdered (r ∷ rs) =
      insert_by_ordinal-IsOrdered r (sort_by_ordinal rs) (sort_by_ordinal-IsOrdered rs)

  pick-insert_by_ordinal :
      (k : ObjectKey) (r : Resource B) (rs : List (Resource B))
      → pick (resource_key r) rs ≡ none
      → pick k (insert_by_ordinal r rs) ≡ (if key_eq (resource_key r) k then some r else pick k rs)
  unfolding insert_by_ordinal
  pick-insert_by_ordinal k r [] h = refl
  pick-insert_by_ordinal k r (s ∷ rs) h = ground (
    arith,
    pick-insert_by_ordinal k r rs,
    key_eq_iff (resource_key r) k,
    key_eq_iff (resource_key s) k,
    key_eq_iff (resource_key s) (resource_key r),
  )

  pub pick-sort_by_ordinal :
      (k : ObjectKey) (rs : List (Resource B))
      → IsDistinct rs
      → pick k (sort_by_ordinal rs) ≡ pick k rs
  unfolding sort_by_ordinal
  pick-sort_by_ordinal k [] h = refl
  pick-sort_by_ordinal k (r ∷ rs) h = ground (
    arith,
    pick-insert_by_ordinal k r (sort_by_ordinal rs),
    pick-sort_by_ordinal k rs h.1,
    pick-sort_by_ordinal (resource_key r) rs h.1,
  )

  pub find_object-to_objects :
      (k : ObjectKey) (rs : List (Resource B))
      → find_object k (to_objects rs) ≡ map_option to_object (pick k rs)
  unfolding to_objects to_object
  find_object-to_objects k [] = refl
  find_object-to_objects k (r ∷ rs) = ground (arith, find_object-to_objects k rs)
