-- ===== src/Diff/Sets.antt =====
-- The ordinal sets of internal/diff as finite maps: what `toSet` and its length check establish.
use cosmos_operator.Common.{
  ◌+◌, ◌≤◌, List, [], ◌∷◌, ◌≡◌, refl, Option, none, some, arith, ObjectKey, key_eq, key_eq_iff,
  key_Eq, lookup, insert, length, length-insert, lookup-insert, if◌then◌else◌, Option-cases, inl,
  inr,
}
use cosmos_operator.Diff.{Resource, resource_key, OrdinalSet, to_set_from}

module _ {ℓ} {B : Type ℓ} where
  -- The first resource with a key.
  abbrev pub pick : ObjectKey → List (Resource B) → Option (Resource B)
  pick k [] = none
  pick k (r ∷ rs) = if key_eq (resource_key r) k then some r else pick k rs

  -- No two resources share a key.
  abbrev pub IsDistinct : List (Resource B) → Type ℓ
  IsDistinct [] = Unit
  IsDistinct (r ∷ rs) = (pick (resource_key r) rs ≡ none) × IsDistinct rs

  abbrev pub or_else : Option (Resource B) → Option (Resource B) → Option (Resource B)
  or_else none o = o
  or_else (some r) _ = some r

  -- None of the resources has an entry.
  abbrev pub IsFresh : OrdinalSet B → List (Resource B) → Type ℓ
  IsFresh m [] = Unit
  IsFresh m (r ∷ rs) = (lookup (resource_key r) m ≡ none) × IsFresh m rs

  -- Each entry stands under the key of its resource, and no key comes twice.
  abbrev pub IsKeyed : OrdinalSet B → Type ℓ
  IsKeyed [] = Unit
  IsKeyed ((k, r) ∷ m) = (k ≡ resource_key r) × (lookup k m ≡ none) × IsKeyed m

  pick-key :
      (k : ObjectKey) (rs : List (Resource B)) {r : Resource B}
      → pick k rs ≡ some r
      → resource_key r ≡ k
  pick-key k [] h = cc
  pick-key k (s ∷ rs) {r} h = ground (arith, key_eq_iff (resource_key s) k, pick-key k rs {r = r})

  pub insert-IsKeyed :
      (m : OrdinalSet B) (r : Resource B) → IsKeyed m → IsKeyed (insert (resource_key r) r m)
  unfolding insert lookup
  insert-IsKeyed [] r h = (refl, refl, tt)
  insert-IsKeyed ((k, s) ∷ m) r h = ground (
    arith,
    key_eq_iff k (resource_key r),
    key_eq_iff (resource_key r) k,
    insert-IsKeyed m r h.2,
    lookup-insert (resource_key r) k r m,
  )

  pub to_set_from-IsKeyed :
      (m : OrdinalSet B) (rs : List (Resource B)) → IsKeyed m → IsKeyed (to_set_from m rs)
  unfolding to_set_from
  to_set_from-IsKeyed m [] h = h
  to_set_from-IsKeyed m (r ∷ rs) h =
      to_set_from-IsKeyed (insert (resource_key r) r m) rs (insert-IsKeyed m r h)

  pub lookup-to_set_from :
      (k : ObjectKey) (m : OrdinalSet B) (rs : List (Resource B))
      → IsDistinct rs
      → lookup k (to_set_from m rs) ≡ or_else (pick k rs) (lookup k m)
  unfolding to_set_from
  lookup-to_set_from k m [] h = refl
  lookup-to_set_from k m (r ∷ rs) h = ground (
    arith,
    lookup-to_set_from k (insert (resource_key r) r m) rs h.1,
    lookup-insert (resource_key r) k r m,
    key_eq_iff (resource_key r) k,
  )

  length-to_set_from-le :
      (m : OrdinalSet B) (rs : List (Resource B)) → length (to_set_from m rs) ≤ length m + length rs
  unfolding to_set_from
  length-to_set_from-le m [] = omega arith
  length-to_set_from-le m (r ∷ rs) = ground (
    arith,
    length-to_set_from-le (insert (resource_key r) r m) rs,
    length-insert (resource_key r) r m,
  )

  IsFresh-insert :
      (r : Resource B) (m : OrdinalSet B) (rs : List (Resource B))
      → IsFresh (insert (resource_key r) r m) rs
      → IsFresh m rs × (pick (resource_key r) rs ≡ none)
  IsFresh-insert r m [] h = (tt, refl)
  IsFresh-insert r m (s ∷ rs) h = ground (
    arith,
    IsFresh-insert r m rs h.1,
    lookup-insert (resource_key r) (resource_key s) r m,
    key_eq_iff (resource_key r) (resource_key s),
    key_eq_iff (resource_key s) (resource_key r),
  )

  IsFresh-insert_conv :
      (r : Resource B) (m : OrdinalSet B) (rs : List (Resource B))
      → IsFresh m rs
      → pick (resource_key r) rs ≡ none
      → IsFresh (insert (resource_key r) r m) rs
  IsFresh-insert_conv r m [] h p = tt
  IsFresh-insert_conv r m (s ∷ rs) h p = ground (
    arith,
    IsFresh-insert_conv r m rs h.1,
    lookup-insert (resource_key r) (resource_key s) r m,
    key_eq_iff (resource_key r) (resource_key s),
    key_eq_iff (resource_key s) (resource_key r),
  )

  pub IsDistinct-of_length :
      (m : OrdinalSet B) (rs : List (Resource B))
      → length (to_set_from m rs) ≡ length m + length rs
      → IsFresh m rs × IsDistinct rs
  unfolding to_set_from
  IsDistinct-of_length m [] h = (tt, tt)
  IsDistinct-of_length m (r ∷ rs) h = elim (Option-cases (lookup (resource_key r) m)) [
    | inl e ↦
        let l : length (insert (resource_key r) r m) ≡ length m + 1 =
          ground (arith, length-insert (resource_key r) r m) in
        let ih = IsDistinct-of_length (insert (resource_key r) r m) rs (omega arith) in
        let f = IsFresh-insert r m rs ih.0 in ((e, f.0), (f.1, ih.1))
    | inr (s, e) ↦
        let l : length (insert (resource_key r) r m) ≡ length m =
          ground (arith, length-insert (resource_key r) r m) in
        absurd (omega (arith, length-to_set_from-le (insert (resource_key r) r m) rs))
  ]

  pub length_of_distinct :
      (m : OrdinalSet B) (rs : List (Resource B))
      → IsFresh m rs
      → IsDistinct rs
      → length (to_set_from m rs) ≡ length m + length rs
  unfolding to_set_from
  length_of_distinct m [] f d = omega arith
  length_of_distinct m (r ∷ rs) f d = ground (
    arith,
    length_of_distinct (insert (resource_key r) r m) rs (IsFresh-insert_conv r m rs f.1 d.0) d.1,
    length-insert (resource_key r) r m,
  )
