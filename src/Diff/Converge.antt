-- ===== src/Diff/Converge.antt =====
-- A diff of internal/diff, once applied, leaves nothing to do; and its lists go by ordinal.
use cosmos_operator.Common.{
  List, [], ◌∷◌, map, ◌≡◌, refl, sym, ◌∙◌, true, Option, none, some, arith, ObjectKey, key_eq_iff,
  key_Eq, text_Eq, text_eq, text_eq_iff, lookup-insert_self, lookup, ok, or_empty,
}
use cosmos_operator.Kube.Meta.{Object, object_key}
use cosmos_operator.Diff.{
  Resource, current, adapted, Diff, object, revision, revision_label, adopt, to_object, to_objects,
  compute_creates, compute_deletes, compute_updates, sort_by_ordinal, missing, changed, to_set, new,
}
use cosmos_operator.Diff.Sets.{pick}
use cosmos_operator.Diff.Sort.{find_object, IsOrdered, sort_by_ordinal-IsOrdered}
use cosmos_operator.Diff.Steps.{created, updated, new-ok, new_lem}

module _ {ℓ} {B : Type ℓ} where
  pick-map-current :
      (k : ObjectKey) (os : List (Object B)) (o : Option (Object B))
      → find_object k os ≡ o
      → pick k (map current os) ≡ (elim o [ none ↦ none | some v ↦ some (current v) ])
  unfolding object
  pick-map-current k [] o h = ground arith
  pick-map-current k (v ∷ os) o h = ground (arith, pick-map-current k os o)

  empty_of_find_object :
      (os : List (Object B)) → ((k : ObjectKey) → find_object k os ≡ none) → os ≡ []
  empty_of_find_object [] h = refl
  empty_of_find_object (o ∷ os) h =
      ground (arith, h (object_key o), key_eq_iff (object_key o) (object_key o))

  revision-adopt : (e t : Resource B) → revision (adopt e t) ≡ revision t
  unfolding adopt revision
  revision-adopt e (current o) = refl
  revision-adopt e (adapted o n r) = refl

  revision-to_object : (t : Resource B) → revision (current (to_object t)) ≡ revision t
  unfolding to_object revision object
  revision-to_object (current o) = rw (
      lookup-insert_self revision_label (or_empty (lookup revision_label o.meta.labels))
        o.meta.labels)
  revision-to_object (adapted o n r) = rw (lookup-insert_self revision_label r o.meta.labels)

  -- What a key holds once the steps of a diff are taken.
  abbrev pub after_steps :
      Option (Object B)
      → Option (Object B)
      → Option (Object B)
      → Option (Object B)
      → Option (Object B)
  after_steps cur (some o) upd del = some o
  after_steps cur none (some o) del = some o
  after_steps cur none none (some _) = none
  after_steps cur none none none = cur

  -- Every create, update and delete of the diff was carried out, and nothing else.
  pub record IsApplied (cur : List (Object B)) (d : Diff B) (cur' : List (Object B)) : Type ℓ where
    pub holds :
        (k : ObjectKey)
        → find_object k cur'
          ≡ after_steps
              (find_object k cur)
              (find_object k d.creates)
              (find_object k d.updates)
              (find_object k d.deletes)

  abbrev as_current : Option (Object B) → Option (Resource B)
  as_current none = none
  as_current (some o) = some (current o)

  pick-current :
      (k : ObjectKey) (os : List (Object B))
      → pick k (map current os) ≡ as_current (find_object k os)
  pick-current k os = ground (arith, pick-map-current k os (find_object k os) refl)

  text_eq-revision :
      (e t : Resource B) → text_eq (revision (current (to_object t))) (revision (adopt e t)) ≡ true
  text_eq-revision e t = (text_eq_iff _ _).1 (revision-to_object t ∙ sym (revision-adopt e t))

  text_eq-revision_updated :
      (e f t : Resource B)
      → text_eq (revision (current (to_object (adopt f t)))) (revision (adopt e t)) ≡ true
  text_eq-revision_updated e f t =
      (text_eq_iff _ _).1
        (revision-to_object (adopt f t) ∙ revision-adopt f t ∙ sym (revision-adopt e t))

  settled :
      (o : Option (Object B)) (w : Option (Resource B))
      → let e = as_current o in
        let s = as_current (after_steps o (created e w) (updated e w) (created w e)) in
        (created s w ≡ none) × (created w s ≡ none) × (updated s w ≡ none)
  settled none none = (refl, refl, refl)
  settled none (some t) = (refl, refl, rw (text_eq-revision (current (to_object t)) t))
  settled (some o) none = (refl, refl, refl)
  settled (some o) (some t) =
      ground
        (arith, text_eq-revision_updated (current (to_object (adopt (current o) t))) (current o) t)

  -- After the steps of a diff were carried out, a new diff against the same wanted resources has
  -- nothing to create, to delete or to update.
  pub new_converges :
      (cur cur' : List (Object B)) (want : List (Resource B)) {d d' : Diff B}
      → new cur want ≡ ok d
      → IsApplied cur d cur'
      → new cur' want ≡ ok d'
      → (d'.creates ≡ []) × (d'.deletes ≡ []) × (d'.updates ≡ [])
  new_converges cur cur' want {d} {d'} h a h' = (
    empty_of_find_object d'.creates (λ k. (new_lem cur' want k h').0 ∙ (quiet k).0),
    empty_of_find_object d'.deletes (λ k. (new_lem cur' want k h').1 ∙ (quiet k).1),
    empty_of_find_object d'.updates (λ k. (new_lem cur' want k h').2 ∙ (quiet k).2),
  )
    where
      quiet :
          (k : ObjectKey)
          → let there = pick k (map current cur') in
            let wanted = pick k want in
            (created there wanted ≡ none)
            × (created wanted there ≡ none)
            × (updated there wanted ≡ none)
      quiet k =
          let n = new_lem cur want k h in
          rw (pick-current k cur', a.holds k, n.0, n.1, n.2, pick-current k cur)
            (settled (find_object k cur) (pick k want))

  -- The lists hold resources in the order of their ordinals.
  pub new-IsOrdered :
      (cur : List (Object B)) (want : List (Resource B)) {d : Diff B}
      → new cur want ≡ ok d
      → (cs ds us : List (Resource B)) × (d.creates ≡ to_objects cs)
        × IsOrdered cs
        × (d.deletes ≡ to_objects ds)
        × IsOrdered ds
        × (d.updates ≡ to_objects us)
        × IsOrdered us
  unfolding compute_creates compute_deletes compute_updates
  new-IsOrdered cur want h =
      let n = new-ok cur want h in
      let cs = to_set (map current cur) in
      let ws = to_set want in
      (
        sort_by_ordinal (missing cs ws),
        sort_by_ordinal (missing ws cs),
        sort_by_ordinal (changed ws cs),
        n.2,
        sort_by_ordinal-IsOrdered (missing cs ws),
        n.3,
        sort_by_ordinal-IsOrdered (missing ws cs),
        n.4,
        sort_by_ordinal-IsOrdered (changed ws cs),
      )
