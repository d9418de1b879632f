-- ===== src/VolSnapshot.antt =====
-- api/v1alpha1/scheduledvolumesnapshot_types.go: the resource of the scheduled volume snapshots. An
-- error text is one constructor of `Report` for each format. A time counts from the zero of
-- `time.Time`, so that `IsZero` is a test for 0.
pub mod Control
pub mod Scheduler
pub mod FullNode
pub mod Controller
use cosmos_operator.Common.{ℕ, Text, List, Bool, Option, some, ℤ}
use cosmos_operator.Kube.Client.{ApiError}
use cosmos_operator.Kube.VolumeSnapshot.{VolumeSnapshotStatus}

-- `SnapshotPhase`, with the empty one of a new resource.
pub data Phase : Type 0 where
  unset waiting_for_next finding_candidate deleting_pod waiting_for_pod_deletion creating : Phase
  waiting_for_creation restore_pod suspended missing_crds : Phase

pub record SnapshotCandidate : Type 0 where
  pub pod_name : Text
  pub pvc_name : Text
  pub pod_labels : List (Text × Text)

-- `VolumeSnapshotStatus` of this API, the last snapshot that was created.
pub record LastSnapshot : Type 0 where
  pub name : Text
  pub started_at : ℕ
  pub status : Option VolumeSnapshotStatus

pub data Report : Type 0 where
  missing_crds_error : Report
  list_snapshots_error : ApiError → Report
  delete_errors : List (Text × ApiError) → Report
  invalid_schedule : Report
  too_few_in_sync : ℕ → ℕ → Report
  ordinal_not_found : ℤ → Report
  api_error : ApiError → Report
  list_pods_error : ApiError → Report
  pod_not_deleted : Text → Report

pub record Spec : Type 0 where
  pub full_node_name : Text
  pub full_node_ordinal : Option ℤ
  pub schedule : Text
  pub volume_snapshot_class_name : Text
  pub delete_pod : Bool
  pub min_available : ℤ
  pub limit : ℤ
  pub suspend : Bool

pub record Status : Type 0 where
  pub observed_generation : ℕ
  pub status_message : Option Report
  pub phase : Phase
  pub created_at : ℕ
  pub candidate : Option SnapshotCandidate
  pub last_snapshot : Option LastSnapshot

pub record ScheduledVolumeSnapshot : Type 0 where
  pub name : Text
  pub namespace : Text
  pub generation : ℕ
  pub spec : Spec
  pub status : Status

abbrev pub enter : Phase → ScheduledVolumeSnapshot → ScheduledVolumeSnapshot
enter p crd = let st = crd.status in record crd { status = record st { phase = p } }

abbrev pub report : Report → ScheduledVolumeSnapshot → ScheduledVolumeSnapshot
report m crd = let st = crd.status in record crd { status = record st { status_message = some m } }
