-- ===== src/Cosmos/Cache.antt =====
-- internal/cosmos/cache_controller.go: the cached status collections, by the full node. The cached
-- slice and the one that `Collect` returns share their array. The collectors that fill the cache
-- are the processes of Cosmos/Cache/Processes.
pub mod Reads
pub mod Sharing
pub mod Processes
use cosmos_operator.Common.{
  ℕ, zero, suc, drop, length, Text, txt, text_eq, List, [], ◌∷◌, any, Option, none, some, ObjectKey,
  key_Eq, lookup, insert, Slice, share, elements, if◌then◌else◌,
}
use cosmos_operator.Kube.Client.{Answer, found, failed}
use cosmos_operator.Kube.Meta.{ObjectMeta}
use cosmos_operator.Kube.Pod.{Pod, available_pods}
use cosmos_operator.Cosmos.{
  StatusItem, StatusCollection, no_status, intersect_pods, upsert_pod, synced_pods,
}

abbrev pub Cache : Type 0
Cache = List (ObjectKey × StatusCollection)

-- `Update`: nothing where the key is not cached.
unfoldable pub update : ObjectKey → StatusCollection → Cache → Cache
update k coll c = elim (lookup k c) [ none ↦ c | some _ ↦ insert k coll c ]

-- The variables of the loops of `Invalidate`: the slice that is ranged over, and the item of the round.
pub record Ranging : Type 0 where
  pub items : StatusCollection
  pub item : Option StatusItem

abbrev pub mark_invalid : ℕ → StatusItem → StatusItem
mark_invalid now s = record s {
  status = no_status;
  error = some (txt "invalidated");
  timestamp = now;
}

-- The loop over the names, which writes to the item of the round.
unfoldable pub invalidate_item : ℕ → List Text → StatusItem → StatusItem
invalidate_item now [] s = s
invalidate_item now (name ∷ names) s =
    invalidate_item now names (if text_eq s.pod.meta.name name then mark_invalid now s else s)

-- `n` rounds of the loop over the slice, from an index: a round copies the item at the index from the
-- array, and runs the loop over the names on the copy.
unfoldable pub range_items : ℕ → List Text → (n i : ℕ) → Ranging → Ranging
unfolding invalidate_item
range_items now names zero i r = r
range_items now names (suc n) i r = elim (drop i r.items) [
  | [] ↦ r
  | s ∷ _ ↦ range_items now names n (suc i) (record r { item = some (invalidate_item now names s) })
]

unfoldable pub invalidate_items : ℕ → List Text → StatusCollection → StatusCollection
unfolding range_items
invalidate_items now names v =
    (range_items now names (length v) 0 (record { items = v; item = none })).items

-- `Get`, whose missing value is nil.
abbrev pub collection_or_nil : ObjectKey → Cache → StatusCollection
collection_or_nil k c = elim (lookup k c) [ none ↦ [] | some coll ↦ coll ]

-- `Invalidate`: `meanwhile` is what other goroutines make of the cache between its `Get` and its
-- `Update`, which take the lock one by one.
unfoldable pub invalidate : ℕ → ObjectKey → List Text → (Cache → Cache) → Cache → Cache
unfolding update invalidate_items
invalidate now k names meanwhile c =
    update k (invalidate_items now names (collection_or_nil k c)) (meanwhile c)

-- The loop of `Collect` over the listed pods.
unfoldable pub upsert_pods : ℕ → List Pod → Slice StatusItem → Slice StatusItem
upsert_pods now [] s = s
upsert_pods now (p ∷ ps) s = upsert_pods now ps (upsert_pod now p s)

-- What `Collect` makes of a cached slice.
unfoldable pub refresh : ℕ → List Pod → StatusCollection → Slice StatusItem
unfolding upsert_pods
refresh now pods cached = upsert_pods now pods (intersect_pods pods (share cached))

-- `Collect`: the collection, and the cache with what the shared array holds afterwards.
unfoldable pub collect : ℕ → Answer (List Pod) → ObjectKey → Cache → StatusCollection × Cache
unfolding refresh
collect now (failed e) k c = ([], c)
collect now (found pods) k c = elim (lookup k c) [
  | none ↦ (elements (refresh now pods []), c)
  | some cached ↦ let s = refresh now pods cached in (elements s, insert k s.other c)
]

-- `SyncedPods`, with five seconds of readiness.
unfoldable pub ready_synced_pods : ℕ → Answer (List Pod) → ObjectKey → Cache → List Pod
unfolding collect
ready_synced_pods now pods k c =
    available_pods (synced_pods (collect now pods k c).0) 5000000000 now
