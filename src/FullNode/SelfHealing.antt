-- ===== src/FullNode/SelfHealing.antt =====
-- controllers/selfhealing_controller.go: a reconcile of the self healing. What it reads is the record
-- `Api`; what it sends is a list, in order. Events and logging are left out. `SyncUpdate` is sent
-- as the patches that it writes.
use cosmos_operator.Common.{
  ℕ, Text, List, [], ◌∷◌, ◌++◌, map, Option, none, some, ℤ, Checked, panic, ok,
}
use cosmos_operator.Kube.Client.{ApiError, Answer, found, failed, ignore_not_found}
use cosmos_operator.Kube.Pod.{Pod}
use cosmos_operator.Kube.Rollout.{IntOrString}
use cosmos_operator.Cosmos.{StatusCollection}
use cosmos_operator.FullNode.{Quantity, FullNode, SelfHealSpec, PvcAutoScaleSpec}
use cosmos_operator.FullNode.AutoScaler.{Requested, signal_pvc_resize}
use cosmos_operator.FullNode.DiskUsages.{Collected, collected}
use cosmos_operator.FullNode.Drift.{lagging_pods}

pub data Request : Type 0 where
  sync_update : Requested → Request
  delete_pod : Pod → Request

pub record Api : Type 0 where
  pub get : Answer FullNode
  pub disk_usage : FullNode → Collected
  pub collect : FullNode → StatusCollection

-- The result: an error, or the seconds until the next reconcile, 0 for none, or a panic.
pub data Outcome : Type 0 where
  requeue_after : ℕ → Outcome
  returns_error : ApiError → Outcome
  panics : Outcome

module _ (scaled_value : IntOrString → ℤ → Option ℤ) (percent_of : Text → Option ℕ)
    (parse_quantity : Text → Option Quantity) (share_of : ℕ → ℕ → ℕ) where
  abbrev pub signal_of : Requested → List Request
  signal_of [] = []
  signal_of (r ∷ rs) = sync_update (r ∷ rs) ∷ []

  abbrev pub auto_scale : ℕ → FullNode → PvcAutoScaleSpec → Collected → List Request
  auto_scale now crd spec (collected results) =
      signal_of
        (signal_pvc_resize percent_of parse_quantity share_of now spec crd.body.status results).0
  auto_scale now crd spec _ = []

  -- `pvcAutoScale`, whose errors are reported only.
  unfoldable pub pvc_auto_scale : ℕ → Api → FullNode → SelfHealSpec → List Request
  pvc_auto_scale now api crd spec = elim spec.pvc_auto_scale [
    | none ↦ []
    | some scale ↦ auto_scale now crd scale (api.disk_usage crd)
  ]

  -- `mitigateHeightDrift`, whose loop goes on after an error.
  unfoldable pub mitigate_height_drift : ℕ → Api → FullNode → SelfHealSpec → Checked (List Request)
  mitigate_height_drift now api crd spec = elim spec.height_drift_threshold [
    | none ↦ ok []
    | some threshold ↦ elim (lagging_pods scaled_value now crd threshold (api.collect crd)) [
      | panic ↦ panic
      | ok pods ↦ ok (map delete_pod pods)
    ]
  ]

  unfoldable pub heal : ℕ → Api → FullNode → SelfHealSpec → Outcome × List Request
  unfolding pvc_auto_scale mitigate_height_drift
  heal now api crd spec =
      let signals = pvc_auto_scale now api crd spec in
      elim (mitigate_height_drift now api crd spec) [
        | panic ↦ (panics, signals)
        | ok deletes ↦ (requeue_after 60, signals ++ deletes)
      ]

  abbrev pub stop_or_error : Option ApiError → Outcome
  stop_or_error none = requeue_after 0
  stop_or_error (some e) = returns_error e

  unfoldable pub reconcile : ℕ → Api → Outcome × List Request
  unfolding heal
  reconcile now api = elim api.get [
    | failed e ↦ (stop_or_error (ignore_not_found (some e)), [])
    | found crd ↦ elim crd.body.spec.self_heal [
      | none ↦ (requeue_after 0, [])
      | some spec ↦ heal now api crd spec
    ]
  ]
