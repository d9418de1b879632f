-- ===== src/StuckHeight/Controller/Writes.antt =====
-- What a reconcile of controllers/stuckheightrecovery_controller.go takes and gives: the API server's
-- answers, the reply, and the session with the accepted writes.
use cosmos_operator.Common.{ℕ, suc, Text, List, ◌∷◌, Bool, true, false, Option}
use cosmos_operator.Kube.Client.{ApiError, Answer}
use cosmos_operator.StuckHeight.{Phase, Status, StuckHeightRecovery, Message, Volume, suspended}
use cosmos_operator.StuckHeight.Snapshots.{VolumeSnapshot, SnapshotStatus}
use cosmos_operator.StuckHeight.RecoveryPod.{RecoveryPod, PodPhase}

-- `ctrl.Result`, the delay in seconds, and whether an error is returned beside it.
pub record Reply : Type 0 where
  pub requeue : Bool
  pub requeue_after : ℕ
  pub error : Bool

abbrev pub no_requeue : Reply
no_requeue = record { requeue = false; requeue_after = 0; error = false }

abbrev pub requeue_now : Reply
requeue_now = record { requeue = true; requeue_after = 0; error = false }

abbrev pub after_seconds : ℕ → Reply
after_seconds n = record { requeue = false; requeue_after = n; error = false }

abbrev pub error_after : ℕ → Reply
error_after n = record { requeue = false; requeue_after = n; error = true }

pub data Write : Type 0 where
  wrote_status : Status → Write
  created_snapshot : VolumeSnapshot → Write
  created_pod : RecoveryPod → Write

pub record Session : Type 0 where
  pub updates : ℕ
  pub writes : List Write

-- What the API server answers during one reconcile: to the `Get` calls, to the k-th update of the
-- status, and to a `Create` with its owner reference (`SetControllerReference` comes before it).
pub record Api : Type 0 where
  pub get_recovery : Answer StuckHeightRecovery
  pub get_full_node : Text → Answer (List (Text × ℕ))
  pub get_pod_volumes : Text → Answer (List Volume)
  pub get_pod_phase : Text → Answer PodPhase
  pub get_snapshot : Text → Answer (Option SnapshotStatus)
  pub update_status : ℕ → Status → Option ApiError
  pub create_snapshot : VolumeSnapshot → Option ApiError
  pub create_pod : RecoveryPod → Option ApiError

abbrev pub accept : Write → Session → Session
accept w s = record s { writes = w ∷ s.writes }

abbrev pub count_update : Session → Session
count_update s = record s { updates = suc s.updates }

abbrev pub enter : StuckHeightRecovery → Phase → Message → StuckHeightRecovery
enter r p m = let st = r.status in record r { status = record st { phase = p; message = m } }

abbrev pub say : StuckHeightRecovery → Message → StuckHeightRecovery
say r m = let st = r.status in record r { status = record st { message = m } }

abbrev pub is_suspended : Phase → Bool
is_suspended suspended = true
is_suspended _ = false

abbrev pub observe_generation : StuckHeightRecovery → StuckHeightRecovery
observe_generation r =
    let st = r.status in record r { status = record st { observed_generation = r.generation } }
