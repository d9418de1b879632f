-- ===== src/Cosmos/Cache/Reads.antt =====
-- What `Collect` of internal/cosmos/cache_controller.go returns, although it works in the array of
-- the cached slice.
use cosmos_operator.Common.{
  ℕ, suc, ◌+◌, ◌≤◌, Text, text_eq, text_eq_iff, List, [], ◌∷◌, ◌++◌, ◌≡◌, refl, sym, ap, ◌∙◌,
  Option, none, some, Bool-cases, Option-cases, inl, inr, arith, length, take, select, ObjectKey,
  key_Eq, lookup, if◌then◌else◌, Slice, write_at, share, elements, set_element, take-write_at,
  length-write_at, take-suc-write_at, take_all, append_assoc, append_nil, is_some, IsWithin,
  append_element-elements,
}
use cosmos_operator.Kube.Client.{found}
use cosmos_operator.Kube.Pod.{Pod}
use cosmos_operator.Cosmos.{
  StatusItem, StatusCollection, uid_of, missing_item, find_from, upsert_pod, has_uid,
  intersect_from, intersect_pods,
}
use cosmos_operator.Cosmos.Cache.{Cache, upsert_pods, refresh, collect}

-- `UpsertPod` on a list.
abbrev pub upserted : ℕ → Pod → StatusCollection → StatusCollection
upserted now p [] = missing_item now p ∷ []
upserted now p (item ∷ items) =
    if text_eq (uid_of item) p.meta.uid
    then record item { pod = p } ∷ items
    else item ∷ upserted now p items

abbrev pub all_upserted : ℕ → List Pod → StatusCollection → StatusCollection
all_upserted now [] items = items
all_upserted now (p ∷ ps) items = all_upserted now ps (upserted now p items)

-- `Collect` on lists: the items of the listed pods, each with its pod, and a new item for a pod
-- without one.
abbrev pub refreshed : ℕ → List Pod → StatusCollection → StatusCollection
refreshed now pods items = all_upserted now pods (select (λ i. has_uid pods (uid_of i)) items)

-- The two results of the search, from the index `i`.
unfound-upserted :
    (now : ℕ) (p : Pod) (i : ℕ) (items : StatusCollection)
    → find_from p.meta.uid i items ≡ none
    → upserted now p items ≡ items ++ (missing_item now p ∷ [])
unfound-upserted now p i [] e = refl
unfound-upserted now p i (a ∷ items) e = ground (arith, unfound-upserted now p (suc i) items)

found-upserted :
    (now : ℕ) (p : Pod) (i : ℕ) (items : StatusCollection) (k : ℕ) (item : StatusItem)
    → find_from p.meta.uid i items ≡ some (k, item)
    → (j : ℕ) × (k ≡ i + j) × (upserted now p items ≡ write_at j (record item { pod = p }) items)
found-upserted now p i [] k item e = ground arith
found-upserted now p i (a ∷ items) k item e = elim (Bool-cases (text_eq (uid_of a) p.meta.uid)) [
  | inl h ↦ (0, ground arith, ground arith)
  | inr h ↦
      let r = found-upserted now p (suc i) items k item (ground arith) in
      (suc r.0, omega (arith, r.1), rw h (ap (◌∷◌ a) r.2))
]

upsert_pod-elements :
    (now : ℕ) (p : Pod) (s : Slice StatusItem)
    → IsWithin s
    → (elements (upsert_pod now p s) ≡ upserted now p (elements s)) × IsWithin (upsert_pod now p s)
unfolding upsert_pod
upsert_pod-elements now p s h = elim (Option-cases (find_from p.meta.uid 0 (elements s))) [
  | inl e ↦
      let made = append_element-elements (missing_item now p) s h in
      rw (upsert_pod, e) (made.0 ∙ sym (unfound-upserted now p 0 (elements s) e), made.1)
  | inr ((k, item), e) ↦
      let a = record item { pod = p } in
      let r = found-upserted now p 0 (elements s) k item e in
      let same : k ≡ r.0 = omega (arith, r.1) in
      rw (upsert_pod, e)
        (
          take-write_at s.len k a s.array ∙ (rw same (sym r.2)),
          omega (arith, length-write_at k a s.array),
        )
]

upsert_pods-elements :
    (now : ℕ) (ps : List Pod) (s : Slice StatusItem)
    → IsWithin s
    → elements (upsert_pods now ps s) ≡ all_upserted now ps (elements s)
unfolding upsert_pods
upsert_pods-elements now [] s h = refl
upsert_pods-elements now (p ∷ ps) s h =
    let one = upsert_pod-elements now p s h in
    upsert_pods-elements now ps (upsert_pod now p s) one.1 ∙ ap (all_upserted now ps) one.0

intersect_from-elements :
    (pods : List Pod) (items : StatusCollection) (j : ℕ) (s : Slice StatusItem)
    → j + length items ≤ length s.array
    → (elements (intersect_from pods items j s)
        ≡ take j s.array ++ select (λ i. has_uid pods (uid_of i)) items)
      × IsWithin (intersect_from pods items j s)
unfolding intersect_from
intersect_from-elements pods [] j s h = (sym (append_nil (take j s.array)), omega arith)
intersect_from-elements pods (a ∷ items) j s h = elim (Bool-cases (has_uid pods (uid_of a))) [
  | inl e ↦
      let le : suc j + length items ≤ length (write_at j a s.array) =
        omega (arith, length-write_at j a s.array) in
      let rest = intersect_from-elements pods items (suc j) (set_element j a s) le in
      let kept = select (λ i. has_uid pods (uid_of i)) items in
      rw e (
        rest.0
            ∙ ap (λ xs. xs ++ kept) (take-suc-write_at j a s.array (omega arith))
            ∙ append_assoc (take j s.array) (a ∷ []) kept,
        rest.1,
      )
  | inr e ↦ rw e (intersect_from-elements pods items j s (omega arith))
]

-- What `Collect` makes in the shared array is what the same steps make of a list of its own: the
-- items of the listed pods in their order, each with its pod, and a new item for each other pod.
pub refresh_refines :
    (now : ℕ) (pods : List Pod) (cached : StatusCollection)
    → elements (refresh now pods cached) ≡ refreshed now pods cached
unfolding refresh intersect_pods
refresh_refines now pods cached =
    let all = take_all (length cached) cached refl in
    let cut = intersect_from-elements pods cached 0 (share cached) (omega arith) in
    rw (refresh, intersect_pods, all)
      (upsert_pods-elements now pods (intersect_from pods cached 0 (share cached)) cut.1
        ∙ ap (all_upserted now pods) cut.0)

-- The first item of a pod.
abbrev pub find_item : Text → StatusCollection → Option StatusItem
find_item uid [] = none
find_item uid (item ∷ items) = if text_eq (uid_of item) uid then some item else find_item uid items

abbrev pub find_pod : Text → List Pod → Option Pod
find_pod uid [] = none
find_pod uid (p ∷ ps) = if text_eq p.meta.uid uid then some p else find_pod uid ps

-- No two pods have the same UID.
abbrev pub AreDistinct : List Pod → Type 0
AreDistinct [] = Unit
AreDistinct (p ∷ ps) = (find_pod p.meta.uid ps ≡ none) × AreDistinct ps

abbrev pub attach : ℕ → Pod → Option StatusItem → StatusItem
attach now p none = missing_item now p
attach now p (some item) = record item { pod = p }

find_item-upserted :
    (now : ℕ) (p : Pod) (uid : Text) (items : StatusCollection)
    → find_item uid (upserted now p items) ≡ (
        if text_eq p.meta.uid uid
        then some (attach now p (find_item p.meta.uid items))
        else find_item uid items)
find_item-upserted now p uid [] = refl
find_item-upserted now p uid (a ∷ items) = ground (
  arith,
  find_item-upserted now p uid items,
  text_eq_iff (uid_of a) p.meta.uid,
  text_eq_iff (uid_of a) uid,
  text_eq_iff p.meta.uid uid,
)

find_item-all_upserted :
    (now : ℕ) (ps : List Pod) (uid : Text) (items : StatusCollection)
    → AreDistinct ps
    → find_item uid (all_upserted now ps items) ≡ elim (find_pod uid ps) [
      | none ↦ find_item uid items
      | some p ↦ some (attach now p (find_item uid items))
    ]
find_item-all_upserted now [] uid items h = refl
find_item-all_upserted now (p ∷ ps) uid items h = ground (
  arith,
  find_item-all_upserted now ps uid (upserted now p items) h.1,
  find_item-upserted now p uid items,
  text_eq_iff p.meta.uid uid,
)

find_item-select :
    (pods : List Pod) (uid : Text) (items : StatusCollection)
    → find_item uid (select (λ i. has_uid pods (uid_of i)) items)
      ≡ (if has_uid pods uid then find_item uid items else none)
find_item-select pods uid [] = ground arith
find_item-select pods uid (a ∷ items) =
    ground (arith, find_item-select pods uid items, text_eq_iff (uid_of a) uid)

has_uid-find_pod : (pods : List Pod) (uid : Text) → has_uid pods uid ≡ is_some (find_pod uid pods)
has_uid-find_pod [] uid = refl
has_uid-find_pod (p ∷ ps) uid = ground (arith, has_uid-find_pod ps uid)

-- Of pods with distinct UIDs, `Collect` of a cached node returns for each listed pod the cached item,
-- paired with the pod as it is now, or a new one with an error; and no item of another pod.
pub collect_lem :
    (now : ℕ) (pods : List Pod) (k : ObjectKey) (c : Cache) {cached : StatusCollection} (uid : Text)
    → lookup k c ≡ some cached
    → AreDistinct pods
    → find_item uid (collect now (found pods) k c).0 ≡ elim (find_pod uid pods) [
      | none ↦ none
      | some p ↦ some (attach now p (find_item uid cached))
    ]
unfolding collect
collect_lem now pods k c {cached} uid e h =
    let kept = select (λ i. has_uid pods (uid_of i)) cached in
    ground (
      arith,
      ap (find_item uid) (refresh_refines now pods cached),
      find_item-all_upserted now pods uid kept h,
      find_item-select pods uid cached,
      has_uid-find_pod pods uid,
    )
