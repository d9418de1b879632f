-- ===== src/Cosmos.antt =====
-- internal/cosmos/status_collection.go, status_collector.go and comet_client.go: the pods of a full
-- node with the status that CometBFT reports. Of the response the model keeps the two fields that
-- the operator reads. The requests run on their own, each writing its own element, and are a map.
pub mod Cache
pub mod Collectors
pub mod CometClient
use cosmos_operator.Common.{
  ℕ, Text, txt, text_eq, text_Eq, List, [], ◌∷◌, map, Bool, true, false, not, Option, none, some,
  lookup, or_empty, select, any, ltb_ℤ, ℤ, parse_int, parse_uint, if◌then◌else◌, Slice, write_at,
  set_element, append_element, elements, suc, length,
}
use cosmos_operator.Kube.Meta.{ObjectMeta}
use cosmos_operator.Kube.Pod.{Pod, PodBody}

-- The fields of `CometStatus` that are read.
pub record CometStatus : Type 0 where
  pub latest_block_height : Text
  pub catching_up : Bool

abbrev pub no_status : CometStatus
no_status = record { latest_block_height = []; catching_up = false }

-- `LatestBlockHeight`: 0 for a malformed number.
abbrev pub value_or_zero : Option ℕ → ℕ
value_or_zero none = 0
value_or_zero (some n) = n

unfoldable pub latest_block_height_of : CometStatus → ℕ
latest_block_height_of st = value_or_zero (parse_uint st.latest_block_height)

pub record StatusItem : Type 0 where
  pub pod : Pod
  pub status : CometStatus
  pub timestamp : ℕ
  pub error : Option Text

abbrev pub StatusCollection : Type 0
StatusCollection = List StatusItem

abbrev pub uid_of : StatusItem → Text
uid_of item = item.pod.meta.uid

-- `Less`, of two items.
abbrev pub ordinal_of : StatusItem → ℤ
ordinal_of item =
    parse_int (or_empty (lookup (txt "app.kubernetes.io/ordinal") item.pod.meta.annotations))

-- The item that `UpsertPod` adds.
abbrev pub missing_item : ℕ → Pod → StatusItem
missing_item now p = record {
  pod = p;
  status = no_status;
  timestamp = now;
  error = some (txt "missing status");
}

-- The first item of a pod and its index, in the loop of `UpsertPod`.
abbrev pub find_from : Text → ℕ → StatusCollection → Option (ℕ × StatusItem)
find_from uid i [] = none
find_from uid i (item ∷ items) =
    if text_eq (uid_of item) uid then some (i, item) else find_from uid (suc i) items

unfoldable pub upsert_pod : ℕ → Pod → Slice StatusItem → Slice StatusItem
upsert_pod now p s = elim (find_from p.meta.uid 0 (elements s)) [
  | some (i, item) ↦ set_element i (record item { pod = p }) s
  | none ↦ append_element (missing_item now p) s
]

abbrev pub has_uid : List Pod → Text → Bool
has_uid pods uid = any (λ p. text_eq p.meta.uid uid) pods

-- The loop of `IntersectPods`: the items still to read, the index to write, and the slice. An
-- item is written at its own index or before it, so that the items to read are as they were.
unfoldable pub intersect_from :
    List Pod → StatusCollection → ℕ → Slice StatusItem → Slice StatusItem
intersect_from pods [] j s = record s { len = j }
intersect_from pods (item ∷ items) j s =
    if has_uid pods (uid_of item)
    then intersect_from pods items (suc j) (set_element j item s)
    else intersect_from pods items j s

unfoldable pub intersect_pods : List Pod → Slice StatusItem → Slice StatusItem
unfolding intersect_from
intersect_pods pods s = intersect_from pods (elements s) 0 s

-- `Synced`.
abbrev pub is_synced : StatusItem → Bool
is_synced item = elim item.error [ none ↦ not item.status.catching_up | some _ ↦ false ]

unfoldable pub synced : StatusCollection → StatusCollection
synced items = select is_synced items

abbrev pub pods_of : StatusCollection → List Pod
pods_of items = map (λ i. i.pod) items

unfoldable pub synced_pods : StatusCollection → List Pod
unfolding synced
synced_pods items = pods_of (synced items)
