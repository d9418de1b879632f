-- ===== src/Diff.antt =====
-- internal/diff: the steps that bring the current resources to the wanted ones. `Adapt`'s hash of
-- the marshalled object is the parameter `hash`. The maps are association lists and `sort.Slice`
-- is an insertion sort: Go leaves open the order of an iteration and that of equal ordinals.
pub mod Sets
pub mod Sort
pub mod Steps
pub mod Converge
use cosmos_operator.Common.{
  ℕ, Text, txt, List, [], ◌∷◌, map, Bool, not, Option, none, some, ObjectKey, Eq, key_Eq, text_Eq,
  text_eq, lookup, insert, is_some, select, length, ◌==◌, if◌then◌else◌, ℤ, ltb_ℤ, parse_int,
  format_int, Checked, panic, ok, or_empty,
}
use cosmos_operator.Kube.Meta.{ObjectMeta, Object, object_key}

abbrev pub revision_label : Text
revision_label = txt "app.kubernetes.io/revision"

abbrev pub ordinal_annotation : Text
ordinal_annotation = txt "app.kubernetes.io/ordinal"

-- The two implementations of the interface `Resource`: `currentAdapter`, and `adapter` with its
-- ordinal and revision.
pub data Resource {ℓ} (B : Type ℓ) : Type ℓ where
  current : Object B → Resource B
  adapted : Object B → ℤ → Text → Resource B

module _ {ℓ} {B : Type ℓ} where
  unfoldable pub object : Resource B → Object B
  object (current o) = o
  object (adapted o _ _) = o

  unfoldable pub revision : Resource B → Text
  revision (current o) = or_empty (lookup revision_label o.meta.labels)
  revision (adapted _ _ r) = r

  unfoldable pub ordinal : Resource B → ℤ
  ordinal (current o) = parse_int (or_empty (lookup ordinal_annotation o.meta.annotations))
  ordinal (adapted _ n _) = n

  abbrev pub resource_key : Resource B → ObjectKey
  resource_key r = object_key (object r)

  pub adapt : (Object B → Text) → Object B → ℤ → Resource B
  adapt hash o n = adapted o n (hash o)

-- `ordinalSet`.
abbrev pub OrdinalSet {ℓ} : Type ℓ → Type ℓ
OrdinalSet B = List (ObjectKey × Resource B)

pub record Diff {ℓ} (B : Type ℓ) : Type ℓ where
  pub creates : List (Object B)
  pub deletes : List (Object B)
  pub updates : List (Object B)

module _ {ℓ} {B : Type ℓ} where
  -- The loop of `toSet`, from the entries so far.
  unfoldable pub to_set_from : OrdinalSet B → List (Resource B) → OrdinalSet B
  to_set_from m [] = m
  to_set_from m (r ∷ rs) = to_set_from (insert (resource_key r) r m) rs

  unfoldable pub to_set : List (Resource B) → OrdinalSet B
  unfolding to_set_from
  to_set rs = to_set_from [] rs

  unfoldable pub current_to_set : List (Object B) → OrdinalSet B
  unfolding to_set
  current_to_set os = to_set (map current os)

  unfoldable pub insert_by_ordinal : Resource B → List (Resource B) → List (Resource B)
  insert_by_ordinal r [] = r ∷ []
  insert_by_ordinal r (s ∷ ss) =
      if ltb_ℤ (ordinal s) (ordinal r) then s ∷ insert_by_ordinal r ss else r ∷ s ∷ ss

  unfoldable pub sort_by_ordinal : List (Resource B) → List (Resource B)
  unfolding insert_by_ordinal
  sort_by_ordinal [] = []
  sort_by_ordinal (r ∷ rs) = insert_by_ordinal r (sort_by_ordinal rs)

  -- One round of the loop of `toObjects`: the label and the annotation for the next diff.
  unfoldable pub to_object : Resource B → Object B
  to_object r =
      let o = object r in
      let m = o.meta in
      record o {
        meta = record m {
          labels = insert revision_label (revision r) m.labels;
          annotations = insert ordinal_annotation (format_int (ordinal r)) m.annotations;
        };
      }

  unfoldable pub to_objects : List (Resource B) → List (Object B)
  unfolding to_object
  to_objects rs = map to_object rs

  -- The resources of the entries of `m` whose key is not in `other`.
  unfoldable pub missing : OrdinalSet B → OrdinalSet B → List (Resource B)
  missing other [] = []
  missing other ((k, r) ∷ m) =
      if is_some (lookup k other) then missing other m else r ∷ missing other m

  unfoldable pub compute_creates : OrdinalSet B → OrdinalSet B → List (Object B)
  unfolding missing sort_by_ordinal to_objects
  compute_creates cur want = to_objects (sort_by_ordinal (missing cur want))

  unfoldable pub compute_deletes : OrdinalSet B → OrdinalSet B → List (Object B)
  unfolding missing sort_by_ordinal to_objects
  compute_deletes cur want = to_objects (sort_by_ordinal (missing want cur))

  -- The values that the API server needs of the existing object.
  unfoldable pub adopt_object : Object B → Object B → Object B
  adopt_object existing target =
      let m = target.meta in
      record target {
        meta = record m {
          resource_version = existing.meta.resource_version;
          uid = existing.meta.uid;
          generation = existing.meta.generation;
          owner_references = existing.meta.owner_references;
        };
      }

  unfoldable pub adopt : Resource B → Resource B → Resource B
  unfolding adopt_object
  adopt existing (current o) = current (adopt_object (object existing) o)
  adopt existing (adapted o n r) = adapted (adopt_object (object existing) o) n r

  -- The targets of the entries of the current set whose revision differs.
  unfoldable pub changed : OrdinalSet B → OrdinalSet B → List (Resource B)
  unfolding adopt
  changed want [] = []
  changed want ((k, existing) ∷ m) = elim (lookup (resource_key existing) want) [
    | none ↦ changed want m
    | some t ↦
        if text_eq (revision existing) (revision (adopt existing t))
        then changed want m
        else adopt existing t ∷ changed want m
  ]

  unfoldable pub compute_updates : OrdinalSet B → OrdinalSet B → List (Object B)
  unfolding changed sort_by_ordinal to_objects
  compute_updates cur want = to_objects (sort_by_ordinal (changed want cur))

  -- `New`, which panics where two resources share a key.
  unfoldable pub new : List (Object B) → List (Resource B) → Checked (Diff B)
  unfolding current_to_set to_set compute_creates compute_deletes compute_updates
  new cur want =
      let cur_set = current_to_set cur in
      let want_set = to_set want in
      if not (length cur_set == length cur)
      then panic
      else if not (length want_set == length want)
      then panic
      else ok (record {
        creates = compute_creates cur_set want_set;
        deletes = compute_deletes cur_set want_set;
        updates = compute_updates cur_set want_set;
      })
