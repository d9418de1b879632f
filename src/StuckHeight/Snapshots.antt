-- ===== src/StuckHeight/Snapshots.antt =====
-- internal/stuckheight/snapshot_creator.go: the VolumeSnapshot that is taken before a recovery.
-- The API server's answers are arguments.
use cosmos_operator.Common.{
  ℕ, ◌/◌, Text, txt, List, [], ◌∷◌, ◌++◌, Bool, false, Option, none, some, text_eq, format_nat,
  if◌then◌else◌,
}
use cosmos_operator.Kube.Client.{Answer, found, failed}
use cosmos_operator.StuckHeight.{StuckHeightRecovery, Volume, ClaimError}

-- The snapshot that is sent, with the labels of the recovery.
pub record VolumeSnapshot : Type 0 where
  pub name : Text
  pub namespace : Text
  pub labels : List (Text × Text)
  pub claim_name : Text
  pub class_name : Option Text

-- The part of `snapshot.Status` that is read: `ReadyToUse`, under a status that may be nil.
pub record SnapshotStatus : Type 0 where
  pub ready_to_use : Option Bool

-- `%s-recovery-%d` of the claim and the seconds of the clock.
unfoldable pub snapshot_name : Text → ℕ → Text
snapshot_name pvc now = pvc ++ (txt "-recovery-" ++ format_nat (now / 1000000000))

unfoldable pub build_snapshot : ℕ → StuckHeightRecovery → Text → VolumeSnapshot
unfolding snapshot_name
build_snapshot now r pvc = record {
  name = snapshot_name pvc now;
  namespace = r.namespace;
  labels =
      (txt "app.kubernetes.io/managed-by", txt "cosmos-operator")
      ∷ (txt "cosmos.bharvest.io/recovery", r.name)
      ∷ [];
  claim_name = pvc;
  class_name =
      if text_eq r.spec.volume_snapshot_class_name []
      then none
      else some r.spec.volume_snapshot_class_name;
}

-- `CheckSnapshotReady`, of the answer to its `Get`.
unfoldable pub check_snapshot_ready : Answer (Option SnapshotStatus) → Answer Bool
check_snapshot_ready (failed e) = failed e
check_snapshot_ready (found none) = found false
check_snapshot_ready (found (some st)) = elim st.ready_to_use [
  | none ↦ found false
  | some ready ↦ found ready
]

-- The result of `GetPVCForPod`.
pub data ClaimResult : Type 0 where
  claim : Text → ClaimResult
  unclaimed : ClaimError → ClaimResult

unfoldable pub find_claim : Text → List Volume → ClaimResult
find_claim pod [] = unclaimed (ClaimError.no_claim pod)
find_claim pod (v ∷ vs) = elim v.claim_name [
  | none ↦ find_claim pod vs
  | some c ↦ if text_eq v.name (txt "vol-chain-home") then claim c else find_claim pod vs
]

-- `GetPVCForPod`, of the volumes of the pod that its `Get` returns.
unfoldable pub get_pvc_for_pod : Text → Answer (List Volume) → ClaimResult
unfolding find_claim
get_pvc_for_pod pod (failed e) = unclaimed (ClaimError.get_pod_error e)
get_pvc_for_pod pod (found vs) = find_claim pod vs
