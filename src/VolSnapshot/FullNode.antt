-- ===== src/VolSnapshot/FullNode.antt =====
-- internal/volsnapshot/fullnode_control.go: how the controller tells a full node to take its pod away
-- and to bring it back, by an entry of the node's `scheduledSnapshotStatus`. `SyncUpdate`'s function
-- is given the entries of the node; a nil candidate panics.
pub mod Signals
use cosmos_operator.Common.{
  ℕ, Text, txt, text_eq, text_Eq, List, [], ◌∷◌, ◌++◌, Option, none, some, not, select, lookup,
  insert, delete, any, ◌==◌, if◌then◌else◌, Checked, panic, ok,
}
use cosmos_operator.Kube.Client.{ApiError, Answer, found, failed}
use cosmos_operator.VolSnapshot.{SnapshotCandidate, ScheduledVolumeSnapshot, Status, Report}

-- Pods to be taken away, by the key of the resource that asks for it.
abbrev pub PodSignals : Type 0
PodSignals = List (Text × Text)

-- `sourceKey`: the parts joined by dots, without slashes.
unfoldable pub source_key : ScheduledVolumeSnapshot → Text
source_key crd =
    select (λ c. not (c == b'/'))
      (crd.namespace ++ (txt "." ++ (crd.name ++ txt ".v1alpha1.cosmos.bharvest.io")))

-- What `SignalPodDeletion` does to the entries.
unfoldable pub signal_pod_deletion : ScheduledVolumeSnapshot → PodSignals → Checked PodSignals
unfolding source_key
signal_pod_deletion crd m = elim crd.status.candidate [
  | none ↦ panic
  | some c ↦ ok (insert (source_key crd) c.pod_name m)
]

-- What `SignalPodRestoration` does to the entries.
unfoldable pub signal_pod_restoration : ScheduledVolumeSnapshot → PodSignals → PodSignals
unfolding source_key
signal_pod_restoration crd m = delete (source_key crd) m

-- The results of the two confirmations: an error is only reported.
pub data Confirmation : Type 0 where
  confirmed : Confirmation
  unconfirmed : Report → Confirmation

-- `ConfirmPodRestoration`, of the entries that the node's `Get` returns.
unfoldable pub confirm_pod_restoration :
    Answer PodSignals → ScheduledVolumeSnapshot → Checked Confirmation
unfolding source_key
confirm_pod_restoration (failed e) crd = ok (unconfirmed (Report.api_error e))
confirm_pod_restoration (found m) crd = elim (lookup (source_key crd) m) [
  | none ↦ ok confirmed
  | some _ ↦ elim crd.status.candidate [
    | none ↦ panic
    | some c ↦ ok (unconfirmed (Report.pod_not_deleted c.pod_name))
  ]
]

-- `ConfirmPodDeletion`, of the names of the pods that the node owns.
unfoldable pub confirm_pod_deletion :
    Answer (List Text) → ScheduledVolumeSnapshot → Checked Confirmation
confirm_pod_deletion (failed e) crd = ok (unconfirmed (Report.list_pods_error e))
confirm_pod_deletion (found []) crd = ok confirmed
confirm_pod_deletion (found (p ∷ ps)) crd = elim crd.status.candidate [
  | none ↦ panic
  | some c ↦
      if any (λ name. text_eq name c.pod_name) (p ∷ ps)
      then ok (unconfirmed (Report.pod_not_deleted c.pod_name))
      else ok confirmed
]
