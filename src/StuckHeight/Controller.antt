-- ===== src/StuckHeight/Controller.antt =====
-- controllers/stuckheightrecovery_controller.go. A handler takes the API server's answers (`Api`),
-- the clock (the k-th reading of a reconcile) and the recovery, and returns the reply beside what
-- it wrote: a session counts the status updates and keeps the accepted writes, the latest first.
-- Events and log lines are left out. A Go pointer to the recovery is the value passed along.
mod Writes
pub mod Phases
pub mod Limits
pub mod Progress
pub use Writes.*
use cosmos_operator.Common.{
  ℕ, suc, ◌+◌, Text, txt, List, [], ◌∷◌, Bool, true, false, not, Option, none, some, ◌==◌,
  if◌then◌else◌,
}
use cosmos_operator.Kube.Client.{ApiError, Answer, found, failed, not_found, is_not_found}
use cosmos_operator.StuckHeight.{
  Phase, Spec, Status, StuckHeightRecovery, Message, Volume, unset, monitoring, height_stuck,
  creating_snapshot, waiting_for_snapshot, running_recovery, waiting_for_recovery,
  recovery_complete, recovery_failed, rate_limited, suspended,
}
use cosmos_operator.StuckHeight.RateLimiter.{
  RateCheck, can_attempt, limited, invalid_window, can_attempt_recovery, record_attempt,
  reset_window,
}
use cosmos_operator.StuckHeight.HeightMonitor.{HeightCheck, unchecked, checked, check_stuck_height}
use cosmos_operator.StuckHeight.Snapshots.{
  VolumeSnapshot, SnapshotStatus, ClaimResult, claim, unclaimed, build_snapshot,
  check_snapshot_ready, get_pvc_for_pod,
}
use cosmos_operator.StuckHeight.RecoveryPod.{RecoveryPod, PodPhase, build_pod, check_pod_complete}

module _ (parse_duration : Text → Option ℕ) (api : Api) (clock : ℕ → ℕ) where
  -- `if err := r.Status().Update(ctx, recovery); err != nil { return ctrl.Result{}, err }`, then
  -- the rest.
  abbrev pub update_then :
      StuckHeightRecovery → (Session → Reply × Session) → Session → Reply × Session
  update_then r rest s = elim (api.update_status s.updates r.status) [
    | none ↦ rest (accept (wrote_status r.status) (count_update s))
    | some _ ↦ (error_after 0, count_update s)
  ]

  -- `_ = r.Status().Update(ctx, recovery)`, then a reply.
  abbrev pub update_anyway : StuckHeightRecovery → Reply → Session → Reply × Session
  update_anyway r reply s = elim (api.update_status s.updates r.status) [
    | none ↦ (reply, accept (wrote_status r.status) (count_update s))
    | some _ ↦ (reply, count_update s)
  ]

  abbrev pub done : Reply → Session → Reply × Session
  done reply s = (reply, s)

  -- The end of `handleMonitoring`.
  unfoldable pub judge_height : Bool → Text → ℕ → StuckHeightRecovery → Session → Reply × Session
  judge_height true pod height r =
      let st = r.status in
      update_then
        (record r {
          status = record st {
            phase = height_stuck;
            stuck_pod_name = pod;
            message = Message.height_stuck_for height r.spec.stuck_duration;
          };
        })
        (done requeue_now)
  judge_height false pod height r =
      let st = r.status in
      update_then (record r { status = record st { phase = monitoring } }) (done (after_seconds 30))

  -- The recovery with a new height, its rate limiter reset.
  unfoldable pub observe_height : ℕ → StuckHeightRecovery → StuckHeightRecovery
  unfolding reset_window
  observe_height height r =
      let st = r.status in
      reset_window (record r {
        status = record st {
          last_observed_height = height;
          last_height_update_time = some (clock 1);
          message = Message.monitoring_height height;
        };
      })

  unfoldable pub handle_monitoring :
      List (Text × ℕ) → StuckHeightRecovery → Session → Reply × Session
  unfolding judge_height observe_height
  handle_monitoring heights r s = elim (check_stuck_height parse_duration (clock 0) heights r) [
    | unchecked e ↦ update_anyway (say r (Message.error_checking_height e)) (error_after 30) s
    | checked stuck pod height ↦
        if r.status.last_observed_height == height
        then judge_height stuck pod height r s
        else update_then (observe_height height r)
            (judge_height stuck pod height (observe_height height r)) s
  ]

  -- The choice of the next phase once an attempt is recorded.
  unfoldable pub start_recovery : StuckHeightRecovery → StuckHeightRecovery
  start_recovery r =
      if r.spec.create_volume_snapshot
      then enter r creating_snapshot Message.creating_snapshot_message
      else enter r running_recovery Message.starting_script

  unfoldable pub handle_height_stuck : StuckHeightRecovery → Session → Reply × Session
  unfolding start_recovery
  handle_height_stuck r s = elim (can_attempt_recovery parse_duration (clock 0) r) [
    | invalid_window ↦ (error_after 30, s)
    | limited m ↦ update_then (enter r rate_limited m) (done (after_seconds 60)) s
    | can_attempt ↦
        update_then (start_recovery (record_attempt parse_duration (clock 1) (clock 2) r))
          (done requeue_now) s
  ]

  unfoldable pub await_snapshot : Text → StuckHeightRecovery → StuckHeightRecovery
  await_snapshot name r =
      let st = r.status in
      record r {
        status = record st {
          volume_snapshot_name = name;
          phase = waiting_for_snapshot;
          message = Message.waiting_for_snapshot_ready name;
        };
      }

  abbrev pub fail_with : Message → StuckHeightRecovery → Session → Reply × Session
  fail_with m r = update_anyway (enter r recovery_failed m) (error_after 60)

  unfoldable pub handle_creating_snapshot : StuckHeightRecovery → Session → Reply × Session
  unfolding await_snapshot
  handle_creating_snapshot r s =
      let pod = r.status.stuck_pod_name in
      elim (get_pvc_for_pod pod (api.get_pod_volumes pod)) [
        | unclaimed e ↦ fail_with (Message.failed_to_get_pvc e) r s
        | claim pvc ↦
            let snapshot = build_snapshot (clock 0) r pvc in
            elim (api.create_snapshot snapshot) [
              | some e ↦ fail_with (Message.failed_to_create_snapshot e) r s
              | none ↦
                  update_then (await_snapshot snapshot.name r) (done (after_seconds 10))
                    (accept (created_snapshot snapshot) s)
            ]
      ]

  unfoldable pub handle_waiting_for_snapshot : StuckHeightRecovery → Session → Reply × Session
  handle_waiting_for_snapshot r s =
      elim (check_snapshot_ready (api.get_snapshot r.status.volume_snapshot_name)) [
        | failed _ ↦ (error_after 10, s)
        | found ready ↦
            if ready
            then update_then (enter r running_recovery Message.starting_script) (done requeue_now) s
            else (after_seconds 10, s)
      ]

  unfoldable pub await_recovery : Text → StuckHeightRecovery → StuckHeightRecovery
  await_recovery name r =
      let st = r.status in
      record r {
        status = record st {
          recovery_pod_name = name;
          phase = waiting_for_recovery;
          message = Message.waiting_for_pod name;
        };
      }

  unfoldable pub handle_running_recovery : StuckHeightRecovery → Session → Reply × Session
  unfolding await_recovery
  handle_running_recovery r s =
      let stuck = r.status.stuck_pod_name in
      elim (get_pvc_for_pod stuck (api.get_pod_volumes stuck)) [
        | unclaimed e ↦ fail_with (Message.failed_to_get_pvc e) r s
        | claim pvc ↦
            let pod = build_pod r stuck pvc r.status.last_observed_height in
            elim (api.create_pod pod) [
              | some e ↦ fail_with (Message.failed_to_create_pod e) r s
              | none ↦
                  update_then (await_recovery pod.name r) (done (after_seconds 10))
                    (accept (created_pod pod) s)
            ]
      ]

  unfoldable pub finish_recovery : Bool → StuckHeightRecovery → StuckHeightRecovery
  finish_recovery true r = enter r recovery_complete Message.completed_successfully
  finish_recovery false r = enter r recovery_failed Message.script_failed

  unfoldable pub handle_waiting_for_recovery : StuckHeightRecovery → Session → Reply × Session
  unfolding finish_recovery
  handle_waiting_for_recovery r s =
      elim (check_pod_complete (api.get_pod_phase r.status.recovery_pod_name)) [
        | failed _ ↦ (error_after 10, s)
        | found (completed, success) ↦
            if completed
            then update_then (finish_recovery success r) (done (after_seconds 30)) s
            else (after_seconds 10, s)
      ]

  unfoldable pub handle_recovery_complete : StuckHeightRecovery → Session → Reply × Session
  handle_recovery_complete r =
      let st = r.status in
      update_then
        (record r {
          status = record st {
            phase = monitoring;
            message = Message.monitoring_message;
            stuck_pod_name = [];
            recovery_pod_name = [];
            volume_snapshot_name = [];
          };
        })
        (done (after_seconds 30))

  unfoldable pub handle_recovery_failed : StuckHeightRecovery → Session → Reply × Session
  handle_recovery_failed r =
      let st = r.status in
      update_then
        (record r {
          status = record st {
            phase = monitoring;
            message = Message.monitoring_after_failure;
            stuck_pod_name = [];
            recovery_pod_name = [];
          };
        })
        (done (after_seconds 60))

  unfoldable pub handle_rate_limited : StuckHeightRecovery → Session → Reply × Session
  handle_rate_limited r s = elim (can_attempt_recovery parse_duration (clock 0) r) [
    | invalid_window ↦ (error_after 30, s)
    | can_attempt ↦ update_then (enter r monitoring Message.monitoring_message) (done requeue_now) s
    | limited m ↦ update_then (say r m) (done (after_seconds 30)) s
  ]

  -- The `switch` of `Reconcile`; no case takes the phase `Suspended`.
  unfoldable pub dispatch :
      Phase → List (Text × ℕ) → StuckHeightRecovery → Session → Reply × Session
  unfolding handle_monitoring handle_height_stuck handle_creating_snapshot
      handle_waiting_for_snapshot handle_running_recovery handle_waiting_for_recovery
      handle_recovery_complete handle_recovery_failed handle_rate_limited
  dispatch unset heights r = handle_monitoring heights r
  dispatch monitoring heights r = handle_monitoring heights r
  dispatch height_stuck heights r = handle_height_stuck r
  dispatch creating_snapshot heights r = handle_creating_snapshot r
  dispatch waiting_for_snapshot heights r = handle_waiting_for_snapshot r
  dispatch running_recovery heights r = handle_running_recovery r
  dispatch waiting_for_recovery heights r = handle_waiting_for_recovery r
  dispatch recovery_complete heights r = handle_recovery_complete r
  dispatch recovery_failed heights r = handle_recovery_failed r
  dispatch rate_limited heights r = handle_rate_limited r
  dispatch suspended heights r = done (after_seconds 30)

  -- `Reconcile` of a suspended recovery.
  unfoldable pub reconcile_suspended : StuckHeightRecovery → Session → Reply × Session
  reconcile_suspended r s =
      if is_suspended r.status.phase
      then (after_seconds 60, s)
      else update_then (enter r suspended Message.suspended_message) (done (after_seconds 60)) s

  -- `Reconcile` of a recovery that was read and is not suspended.
  unfoldable pub reconcile_active : StuckHeightRecovery → Session → Reply × Session
  unfolding dispatch
  reconcile_active r s = elim (api.get_full_node r.spec.full_node_ref) [
    | failed _ ↦ fail_with (Message.full_node_not_found r.spec.full_node_ref) r s
    | found heights ↦ dispatch r.status.phase heights (observe_generation r) s
  ]

  unfoldable pub reconcile : Session → Reply × Session
  unfolding reconcile_active reconcile_suspended
  reconcile s = elim api.get_recovery [
    | failed e ↦ (if is_not_found (some e) then no_requeue else error_after 0, s)
    | found r ↦ if r.spec.suspend then reconcile_suspended r s else reconcile_active r s
  ]
