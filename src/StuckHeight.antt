-- ===== src/StuckHeight.antt =====
-- api/v1/stuckheightrecovery_types.go: the resource that the stuck-height controller reconciles.
-- Names and lists of the embedded Kubernetes types are kept as far as the operator reads them.
pub mod RateLimiter
pub mod HeightMonitor
pub mod Snapshots
pub mod RecoveryPod
pub mod Controller
use cosmos_operator.Common.{ℕ, Text, List, Bool, Option}
use cosmos_operator.Kube.Client.{ApiError}

-- `StuckHeightRecoveryPhase`; `unset` is the empty string of a resource that was just created.
pub data Phase : Type 0 where
  unset monitoring height_stuck creating_snapshot waiting_for_snapshot : Phase
  running_recovery waiting_for_recovery recovery_complete : Phase
  recovery_failed rate_limited suspended : Phase

-- `corev1.EnvVar`, `VolumeMount` and `Volume`: the name, and what else the operator sets.
pub record EnvVar : Type 0 where
  pub name : Text
  pub value : Text

pub record VolumeMount : Type 0 where
  pub name : Text
  pub mount_path : Text

pub record Volume : Type 0 where
  pub name : Text
  pub claim_name : Option Text

-- `corev1.ResourceRequirements`; the requests are nil or a map to quantities.
pub record Resources : Type 0 where
  pub requests : Option (List (Text × Text))
  pub limits : Option (List (Text × Text))

pub record RecoveryPodTemplate : Type 0 where
  pub image : Text
  pub image_pull_policy : Text
  pub image_pull_secrets : List Text
  pub resources : Resources
  pub env : List EnvVar
  pub volume_mounts : List VolumeMount
  pub volumes : List Volume

pub record Spec : Type 0 where
  pub full_node_ref : Text
  pub stuck_duration : Text
  pub recovery_script : Text
  pub pod_template : Option RecoveryPodTemplate
  pub create_volume_snapshot : Bool
  pub volume_snapshot_class_name : Text
  pub max_retries : Option ℕ  -- int32, at least 1 by the schema
  pub rate_limit_window : Text
  pub suspend : Bool

-- The errors of `CheckStuckHeight` and of `GetPVCForPod`.
pub data HeightError : Type 0 where
  no_height zero_height invalid_duration : HeightError

pub data ClaimError : Type 0 where
  get_pod_error : ApiError → ClaimError
  no_claim : Text → ClaimError

-- The texts that the controller writes to `status.message`, one constructor for each format,
-- with what the format prints.
pub data Message : Type 0 where
  no_message suspended_message monitoring_message monitoring_after_failure : Message
  creating_snapshot_message starting_script completed_successfully script_failed : Message
  full_node_not_found : Text → Message
  error_checking_height : HeightError → Message
  monitoring_height : ℕ → Message
  height_stuck_for : ℕ → Text → Message
  failed_to_get_pvc : ClaimError → Message
  failed_to_create_snapshot : ApiError → Message
  waiting_for_snapshot_ready : Text → Message
  failed_to_create_pod : ApiError → Message
  waiting_for_pod : Text → Message
  rate_limit_exceeded : ℕ → ℕ → ℕ → Message

-- Times are nanoseconds since the epoch.
pub record Status : Type 0 where
  pub phase : Phase
  pub last_recovery_time : Option ℕ
  pub recovery_attempts : ℕ  -- int32
  pub rate_limit_window_start : Option ℕ
  pub last_observed_height : ℕ  -- uint64
  pub last_height_update_time : Option ℕ
  pub stuck_pod_name : Text
  pub volume_snapshot_name : Text
  pub recovery_pod_name : Text
  pub message : Message
  pub observed_generation : ℕ

pub record StuckHeightRecovery : Type 0 where
  pub namespace : Text
  pub name : Text
  pub generation : ℕ
  pub spec : Spec
  pub status : Status
