-- ===== src/FullNode/Drift.antt =====
-- internal/fullnode/drift_detection.go: the pods that lag behind the highest block. The collection is
-- an argument; a height is a natural number below 2 ^ 64, and the highest one is no less than any
-- other, so that the difference does not wrap around.
pub mod Lag
use cosmos_operator.Common.{
  ℕ, ◌-◌, Bool, List, [], ◌∷◌, map, Option, none, some, take, select, leb, ltb, length,
  if◌then◌else◌, ℤ, pos, pos_part, Checked, panic, ok,
}
use cosmos_operator.Kube.Pod.{Pod, available_pods}
use cosmos_operator.Kube.Rollout.{IntOrString, compute_rollout}
use cosmos_operator.Cosmos.{
  CometStatus, no_status, StatusItem, StatusCollection, latest_block_height_of, synced, pods_of,
}
use cosmos_operator.FullNode.{FullNode, FullNodeBody, FullNodeSpec}

abbrev pub height_of : StatusItem → ℕ
height_of item = latest_block_height_of item.status

-- `lo.MaxBy`: the first one that no later item exceeds, from the best so far.
abbrev pub max_from : StatusItem → StatusCollection → StatusItem
max_from best [] = best
max_from best (item ∷ items) =
    if ltb (height_of best) (height_of item) then max_from item items else max_from best items

-- The height of an empty collection is that of an empty status.
unfoldable pub max_height : StatusCollection → ℕ
max_height [] = latest_block_height_of no_status
max_height (item ∷ items) = height_of (max_from item items)

abbrev pub is_lagging : ℕ → ℕ → StatusItem → Bool
is_lagging max threshold item = leb threshold (max - height_of item)

unfoldable pub lagging_items : ℕ → StatusCollection → StatusCollection
unfolding max_height
lagging_items threshold items = select (is_lagging (max_height items) threshold) items

module _ (scaled_value : IntOrString → ℤ → Option ℤ) where
  -- `LaggingPods`, of what was collected, with the threshold of the mitigation. `lo.Slice` takes
  -- what there is.
  unfoldable pub lagging_pods : ℕ → FullNode → ℕ → StatusCollection → Checked (List Pod)
  unfolding lagging_items
  lagging_pods now crd threshold collected =
      let items = synced collected in
      let lagging = pods_of (lagging_items threshold items) in
      let ready = length (available_pods (pods_of items) 5000000000 now) in
      elim (compute_rollout scaled_value crd.body.spec.max_unavailable (pos crd.body.spec.replicas)
        (pos ready)) [ panic ↦ panic | ok n ↦ ok (take (pos_part n) lagging) ]
