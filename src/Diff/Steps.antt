-- ===== src/Diff/Steps.antt =====
-- What the three lists of internal/diff hold, key by key.
use cosmos_operator.Common.{
  List, [], ◌∷◌, map, ◌≡◌, refl, ◌≢◌, ◌↔◌, Option, none, some, arith, ObjectKey, key_eq_iff, key_Eq,
  text_Eq, text_eq, lookup, if◌then◌else◌, Option-cases, inl, inr, panic, ok, length,
}
use cosmos_operator.Kube.Meta.{Object}
use cosmos_operator.Diff.{
  Resource, current, adapted, resource_key, OrdinalSet, Diff, object, revision, missing, changed,
  adopt, to_object, compute_creates, compute_deletes, compute_updates, to_set, current_to_set, new,
}
use cosmos_operator.Diff.Sets.{
  pick, IsDistinct, IsFresh, IsKeyed, to_set_from-IsKeyed, lookup-to_set_from, IsDistinct-of_length,
  length_of_distinct,
}
use cosmos_operator.Diff.Sort.{
  find_object, map_option, pick-sort_by_ordinal, find_object-to_objects,
}

module _ {ℓ} {B : Type ℓ} where
  abbrev pub drop_if : Option (Resource B) → Option (Resource B) → Option (Resource B)
  drop_if none o = o
  drop_if (some _) o = none

  pick-missing :
      (k : ObjectKey) (other m : OrdinalSet B)
      → IsKeyed m
      → pick k (missing other m) ≡ drop_if (lookup k other) (lookup k m)
  unfolding missing lookup
  pick-missing k other [] h = ground (arith, Option-cases (lookup k other))
  pick-missing k other ((j, r) ∷ m) h =
      ground (arith, pick-missing k other m h.2, key_eq_iff (resource_key r) k, key_eq_iff j k)

  missing-IsDistinct : (other m : OrdinalSet B) → IsKeyed m → IsDistinct (missing other m)
  unfolding missing
  missing-IsDistinct other [] h = tt
  missing-IsDistinct other ((j, r) ∷ m) h = ground (
    arith,
    missing-IsDistinct other m h.2,
    pick-missing (resource_key r) other m h.2,
    Option-cases (lookup j other),
  )

  -- The update of an entry, if its target has another revision.
  abbrev pub update_of : Resource B → Option (Resource B) → Option (Resource B)
  update_of existing none = none
  update_of existing (some t) =
      if text_eq (revision existing) (revision (adopt existing t))
      then none
      else some (adopt existing t)

  abbrev pub update_of? : Option (Resource B) → Option (Resource B) → Option (Resource B)
  update_of? none t = none
  update_of? (some existing) t = update_of existing t

  resource_key-adopt : (e t : Resource B) → resource_key (adopt e t) ≡ resource_key t
  unfolding adopt object
  resource_key-adopt e (current o) = refl
  resource_key-adopt e (adapted o n r) = refl

  lookup-key :
      (k : ObjectKey) (m : OrdinalSet B) {r : Resource B}
      → IsKeyed m
      → lookup k m ≡ some r
      → resource_key r ≡ k
  unfolding lookup
  lookup-key k [] h e = cc
  lookup-key k ((j, s) ∷ m) {r} h e = ground (arith, key_eq_iff j k, lookup-key k m {r = r} h.2)

  pick-changed :
      (k : ObjectKey) (want m : OrdinalSet B)
      → IsKeyed want
      → IsKeyed m
      → pick k (changed want m) ≡ update_of? (lookup k m) (lookup k want)
  unfolding changed lookup
  pick-changed k want [] w h = refl
  pick-changed k want ((j, e) ∷ m) w h = elim (Option-cases (lookup (resource_key e) want)) [
    | inl none_e ↦
        ground (arith, pick-changed k want m w h.2, key_eq_iff j k, key_eq_iff (resource_key e) k)
    | inr (t, some_e) ↦ ground (
      arith,
      pick-changed k want m w h.2,
      key_eq_iff j k,
      key_eq_iff (resource_key e) k,
      key_eq_iff (resource_key (adopt e t)) k,
      resource_key-adopt e t,
      lookup-key (resource_key e) want {r = t} w,
    )
  ]

  changed-IsDistinct :
      (want m : OrdinalSet B) → IsKeyed want → IsKeyed m → IsDistinct (changed want m)
  unfolding changed
  changed-IsDistinct want [] w h = tt
  changed-IsDistinct want ((j, e) ∷ m) w h = elim (Option-cases (lookup (resource_key e) want)) [
    | inl none_e ↦ ground (arith, changed-IsDistinct want m w h.2)
    | inr (t, some_e) ↦ ground (
      arith,
      changed-IsDistinct want m w h.2,
      pick-changed (resource_key (adopt e t)) want m w h.2,
      resource_key-adopt e t,
      lookup-key (resource_key e) want {r = t} w,
    )
  ]

  lookup-to_set :
      (k : ObjectKey) (rs : List (Resource B)) → IsDistinct rs → lookup k (to_set rs) ≡ pick k rs
  unfolding to_set lookup
  lookup-to_set k rs d = ground (arith, lookup-to_set_from k [] rs d, Option-cases (pick k rs))

  to_set-IsKeyed : (rs : List (Resource B)) → IsKeyed (to_set rs)
  unfolding to_set
  to_set-IsKeyed rs = to_set_from-IsKeyed [] rs tt

  IsDistinct-iff : (rs : List (Resource B)) → (length (to_set rs) ≡ length rs) ↔ IsDistinct rs
  unfolding to_set lookup
  IsDistinct-iff rs = (
    λ h. (IsDistinct-of_length [] rs (omega arith)).1,
    λ d. omega (arith, length_of_distinct [] rs (fresh rs) d),
  )
    where
      fresh : (qs : List (Resource B)) → IsFresh [] qs
      fresh = elim [ [] ↦ tt | q ∷ (qs → ih) ↦ (refl, ih) ]

  -- The object that the diff creates, deletes or updates under a key, by the current and the wanted
  -- resource of that key.
  abbrev pub created : Option (Resource B) → Option (Resource B) → Option (Object B)
  created cur want = map_option to_object (drop_if cur want)

  abbrev pub updated : Option (Resource B) → Option (Resource B) → Option (Object B)
  updated cur want = map_option to_object (update_of? cur want)

  length-map-current : (os : List (Object B)) → length (map current os) ≡ length os
  length-map-current [] = refl
  length-map-current (o ∷ os) = omega (arith, length-map-current os)

  module _ (cur : List (Object B)) (want : List (Resource B)) where
    -- `New` returns a diff, and does not panic, exactly when no two current objects and no two
    -- wanted ones share a key.
    pub new-ne-panic_iff : (new cur want ≢ panic) ↔ (IsDistinct (map current cur) × IsDistinct want)
    unfolding new current_to_set
    new-ne-panic_iff = (
      λ h. (
        (IsDistinct-iff (map current cur)).0 (ground (arith, length-map-current cur)),
        (IsDistinct-iff want).0 (ground arith),
      ),
      λ h. ground (
        arith,
        (IsDistinct-iff (map current cur)).1 h.0,
        (IsDistinct-iff want).1 h.1,
        length-map-current cur,
      ),
    )

    pub new-ok :
        {d : Diff B}
        → new cur want ≡ ok d
        → IsDistinct (map current cur)
          × IsDistinct want
          × (d.creates ≡ compute_creates (to_set (map current cur)) (to_set want))
          × (d.deletes ≡ compute_deletes (to_set (map current cur)) (to_set want))
          × (d.updates ≡ compute_updates (to_set (map current cur)) (to_set want))
    unfolding new current_to_set
    new-ok {d} h =
        let k = new-ne-panic_iff.0 (λ e. cc) in (k.0, k.1, ground arith, ground arith, ground arith)

    -- Key by key: an object is created exactly for a wanted resource that is not there, deleted
    -- exactly for one that is there and not wanted, and updated exactly for one that is both,
    -- with another revision. What is written is the resource's object, stamped with its revision
    -- and its ordinal, an update with the API server's values of the existing object.
    pub new_lem :
        {d : Diff B} (k : ObjectKey)
        → new cur want ≡ ok d
        → let there = pick k (map current cur) in
          let wanted = pick k want in
          (find_object k d.creates ≡ created there wanted)
          × (find_object k d.deletes ≡ created wanted there)
          × (find_object k d.updates ≡ updated there wanted)
    unfolding compute_creates compute_deletes compute_updates
    new_lem {d} k h =
        let n = new-ok h in
        let kc = to_set-IsKeyed (map current cur) in
        let kw = to_set-IsKeyed want in
        let cs = to_set (map current cur) in
        let ws = to_set want in
        let lc = lookup-to_set k (map current cur) n.0 in
        let lw = lookup-to_set k want n.1 in
        (
          rw (
            n.2,
            find_object-to_objects,
            pick-sort_by_ordinal k _ (missing-IsDistinct cs ws kw),
            pick-missing k cs ws kw,
            lc,
            lw,
          ),
          rw (
            n.3,
            find_object-to_objects,
            pick-sort_by_ordinal k _ (missing-IsDistinct ws cs kc),
            pick-missing k ws cs kc,
            lc,
            lw,
          ),
          rw (
            n.4,
            find_object-to_objects,
            pick-sort_by_ordinal k _ (changed-IsDistinct ws cs kw kc),
            pick-changed k ws cs kw kc,
            lc,
            lw,
          ),
        )
