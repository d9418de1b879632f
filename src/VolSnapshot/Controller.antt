-- ===== src/VolSnapshot/Controller.antt =====
-- controllers/scheduledvolumesnapshot_controller.go. A step returns the resource as the deferred
-- status update finds it, the reply or a panic, and what was sent, the latest first. The clock is
-- a function from the number of a reading to its time. Events and log lines are left out.
pub mod Phases
use cosmos_operator.Common.{
  ℕ, ◌*◌, Text, List, [], ◌∷◌, ◌++◌, Bool, true, false, Option, none, some, ltb, if◌then◌else◌,
  Checked, ◌⊎◌, inl, inr, panic, ok,
}
use cosmos_operator.Kube.Client.{ApiError, Answer, found, failed, is_not_found, ignore_not_found}
use cosmos_operator.Kube.VolumeSnapshot.{VolumeSnapshot, VolumeSnapshotStatus}
use cosmos_operator.VolSnapshot.{
  Phase, SnapshotCandidate, ScheduledVolumeSnapshot, Spec, Status, Report, unset, waiting_for_next,
  finding_candidate, deleting_pod, waiting_for_pod_deletion, creating, waiting_for_creation,
  restore_pod, suspended, missing_crds, enter, report,
}
use cosmos_operator.VolSnapshot.Control.{
  SyncedPod, CandidateResult, candidate, refused, out_of_range, find_candidate, build_snapshot,
  record_snapshot, delete_old_snapshots,
}
use cosmos_operator.VolSnapshot.FullNode.{
  PodSignals, Confirmation, confirmed, unconfirmed, signal_pod_deletion, signal_pod_restoration,
  confirm_pod_restoration, confirm_pod_deletion,
}
use cosmos_operator.VolSnapshot.Scheduler.{
  ReadyResult, checked, unknown, calc_next, is_snapshot_ready, reset_status,
}

-- `ctrl.Result`, the delay in nanoseconds, and the error beside it.
pub record Reply : Type 0 where
  pub requeue_after : ℕ
  pub error : Option ApiError

abbrev pub stop_result : Reply
stop_result = record { requeue_after = 0; error = none }

abbrev pub retry_result : Reply
retry_result = record { requeue_after = 10 * 1000000000; error = none }

pub data Write : Type 0 where
  deleted_snapshots : List VolumeSnapshot → Write
  created_snapshot : VolumeSnapshot → Write
  signalled : PodSignals → Write

pub record Step : Type 0 where
  pub crd : ScheduledVolumeSnapshot
  pub reply : Checked Reply
  pub writes : List Write

-- What the API server answers during a reconcile; `sync_update` is the result of `SyncUpdate` on
-- the node, whose entries are `signals`.
pub record Api : Type 0 where
  pub get_crd : Answer ScheduledVolumeSnapshot
  pub list_snapshots : Answer (List VolumeSnapshot)
  pub delete_snapshot : VolumeSnapshot → Option ApiError
  pub synced_pods : List SyncedPod
  pub signals : PodSignals
  pub sync_update : Option ApiError
  pub get_signals : Answer PodSignals
  pub list_pod_names : Answer (List Text)
  pub create_snapshot : VolumeSnapshot → Option ApiError
  pub get_snapshot : Text → Answer (Option VolumeSnapshotStatus)

abbrev pub ends : Reply → List Write → ScheduledVolumeSnapshot → Step
ends reply ws crd = record { crd = crd; reply = ok reply; writes = ws }

abbrev pub panics : ScheduledVolumeSnapshot → Step
panics crd = record { crd = crd; reply = panic; writes = [] }

abbrev pub report_if : Option Report → ScheduledVolumeSnapshot → ScheduledVolumeSnapshot
report_if none crd = crd
report_if (some m) crd = report m crd

module _ (next_time : Text → Option (ℕ → ℕ)) (format_time : ℕ → Text) (api : Api)
    (clock : ℕ → ℕ) where
  unfoldable pub wait_for_next : ScheduledVolumeSnapshot → Step
  wait_for_next crd =
      let old = delete_old_snapshots api.list_snapshots api.delete_snapshot crd in
      let c = report_if old.1 crd in
      let ws = deleted_snapshots old.0 ∷ [] in
      elim (calc_next next_time (clock 1) c) [
        | none ↦ ends stop_result ws (report Report.invalid_schedule c)
        | some dur ↦
            if ltb 0 dur
            then ends (record { requeue_after = dur; error = none }) ws c
            else ends stop_result ws (enter finding_candidate c)
      ]

  abbrev pub take_candidate : SnapshotCandidate → ScheduledVolumeSnapshot → ScheduledVolumeSnapshot
  take_candidate c crd =
      let st = crd.status in
      enter (if crd.spec.delete_pod then deleting_pod else creating)
        (record crd { status = record st { candidate = some c } })

  unfoldable pub select_candidate : ScheduledVolumeSnapshot → Step
  select_candidate crd = elim (find_candidate api.synced_pods crd) [
    | refused m ↦ ends retry_result [] (report m crd)
    | out_of_range ↦ panics crd
    | candidate c ↦ ends stop_result [] (take_candidate c crd)
  ]

  unfoldable pub delete_pod : ScheduledVolumeSnapshot → Step
  delete_pod crd = elim (signal_pod_deletion crd api.signals) [
    | panic ↦ panics crd
    | ok m ↦ elim api.sync_update [
      | some e ↦ ends retry_result [] (report (Report.api_error e) crd)
      | none ↦ ends stop_result (signalled m ∷ []) (enter waiting_for_pod_deletion crd)
    ]
  ]

  unfoldable pub wait_for_pod_deletion : ScheduledVolumeSnapshot → Step
  wait_for_pod_deletion crd = elim (confirm_pod_deletion api.list_pod_names crd) [
    | panic ↦ panics crd
    | ok confirmed ↦ ends stop_result [] (enter creating crd)
    | ok (unconfirmed m) ↦ elim crd.status.candidate [  -- the log line names the candidate
      | none ↦ panics crd
      | some _ ↦ ends retry_result [] (report m crd)
    ]
  ]

  unfoldable pub create : ScheduledVolumeSnapshot → Step
  create crd = elim crd.status.candidate [
    | none ↦ panics crd
    | some c ↦
        let v = build_snapshot format_time (clock 1) crd c in
        elim (api.create_snapshot v) [
          | some e ↦ ends retry_result [] (report (Report.api_error e) crd)
          | none ↦
              ends stop_result (created_snapshot v ∷ [])
                (enter waiting_for_creation (record_snapshot v.name (clock 2) crd))
        ]
  ]

  unfoldable pub wait_for_creation : ScheduledVolumeSnapshot → Step
  wait_for_creation crd = elim (is_snapshot_ready api.get_snapshot crd) [
    | panic ↦ panics crd
    | ok (unknown e) ↦ ends retry_result [] (report (Report.api_error e) crd)
    | ok (checked ready c) ↦
        if ready then ends stop_result [] (enter restore_pod c) else ends retry_result [] c
  ]

  -- The phase after the pod was restored.
  abbrev pub restored : ScheduledVolumeSnapshot → ScheduledVolumeSnapshot
  restored crd = enter (if crd.spec.suspend then suspended else waiting_for_next) crd

  unfoldable pub restore : ScheduledVolumeSnapshot → Step
  restore crd = elim (confirm_pod_restoration api.get_signals crd) [
    | panic ↦ panics crd
    | ok confirmed ↦ ends stop_result [] (restored crd)
    | ok (unconfirmed _) ↦ elim api.sync_update [
      | some e ↦ ends retry_result [] (report (Report.api_error e) crd)
      | none ↦
          ends stop_result (signalled (signal_pod_restoration crd api.signals) ∷ []) (restored crd)
    ]
  ]

  -- The switch of `Reconcile`; no case takes the other phases.
  unfoldable pub dispatch : Phase → ScheduledVolumeSnapshot → Step
  unfolding wait_for_next select_candidate delete_pod wait_for_pod_deletion create wait_for_creation
      restore
  dispatch waiting_for_next crd = wait_for_next crd
  dispatch finding_candidate crd = select_candidate crd
  dispatch deleting_pod crd = delete_pod crd
  dispatch waiting_for_pod_deletion crd = wait_for_pod_deletion crd
  dispatch creating crd = create crd
  dispatch waiting_for_creation crd = wait_for_creation crd
  dispatch restore_pod crd = restore crd
  dispatch _ crd = ends stop_result [] crd

  -- `Reconcile` of a resource that was read; the flag says that the CRDs of the snapshots were
  -- missing when the operator started.
  unfoldable pub reconcile_found : Bool → ScheduledVolumeSnapshot → Step
  unfolding dispatch
  reconcile_found missing crd =
      let c = reset_status (clock 0) crd in
      if missing
      then ends stop_result [] (enter missing_crds (report Report.missing_crds_error c))
      else dispatch c.status.phase c

  -- `Reconcile`: the reply where no resource was read, or the step, whose status is then written.
  unfoldable pub reconcile : Bool → Reply ⊎ Step
  unfolding reconcile_found
  reconcile missing = elim api.get_crd [
    | failed e ↦ inl (record { requeue_after = 0; error = ignore_not_found (some e) })
    | found crd ↦ inr (reconcile_found missing crd)
  ]
