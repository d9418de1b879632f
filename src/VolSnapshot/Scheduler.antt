-- ===== src/VolSnapshot/Scheduler.antt =====
-- internal/volsnapshot/scheduler.go and status.go. The cron library is the parameter `next_time`: the
-- next time of a schedule that parses. A duration is in nanoseconds.
use cosmos_operator.Common.{
  ℕ, ◌-◌, Text, Bool, true, false, Option, none, some, ◌==◌, if◌then◌else◌, Checked, panic, ok,
}
use cosmos_operator.Kube.Client.{ApiError, Answer, found, failed, is_not_found}
use cosmos_operator.Kube.VolumeSnapshot.{VolumeSnapshotStatus, volume_snapshot_is_ready}
use cosmos_operator.VolSnapshot.{
  Phase, LastSnapshot, ScheduledVolumeSnapshot, Status, unset, waiting_for_next, restore_pod,
  suspended,
}

-- The date from which the next time is computed.
abbrev pub ref_date : Status → ℕ
ref_date st = elim st.last_snapshot [ none ↦ st.created_at | some l ↦ l.started_at ]

-- `CalcNext`: the wait, 0 if the time is over; `none` for a schedule that does not parse.
unfoldable pub calc_next : (Text → Option (ℕ → ℕ)) → ℕ → ScheduledVolumeSnapshot → Option ℕ
calc_next next_time now crd = elim (next_time crd.spec.schedule) [
  | none ↦ none
  | some next ↦ some (next (ref_date crd.status) - now)
]

-- The results of `IsSnapshotReady`, with the resource it updates.
pub data ReadyResult : Type 0 where
  checked : Bool → ScheduledVolumeSnapshot → ReadyResult
  unknown : ApiError → ReadyResult

abbrev pub observe_snapshot :
    LastSnapshot → Option VolumeSnapshotStatus → ScheduledVolumeSnapshot → ScheduledVolumeSnapshot
observe_snapshot l status crd =
    let st = crd.status in
    record crd { status = record st { last_snapshot = some (record l { status = status }) } }

-- `IsSnapshotReady` of the answer to its `Get`; it panics where no snapshot was recorded.
unfoldable pub is_snapshot_ready :
    (Text → Answer (Option VolumeSnapshotStatus)) → ScheduledVolumeSnapshot → Checked ReadyResult
is_snapshot_ready get crd = elim crd.status.last_snapshot [
  | none ↦ panic
  | some l ↦ elim (get l.name) [
    | failed e ↦ if is_not_found (some e) then ok (checked true crd) else ok (unknown e)
    | found status ↦ ok (checked (volume_snapshot_is_ready status) (observe_snapshot l status crd))
  ]
]

-- The switch of `ResetStatus`.
unfoldable pub reset_phase : Bool → Phase → Phase
reset_phase true p = restore_pod
reset_phase false suspended = waiting_for_next
reset_phase false unset = waiting_for_next
reset_phase false p = p

unfoldable pub reset_status : ℕ → ScheduledVolumeSnapshot → ScheduledVolumeSnapshot
unfolding reset_phase
reset_status now crd =
    let st = crd.status in
    record crd {
      status = record st {
        observed_generation = crd.generation;
        status_message = none;
        created_at = if st.created_at == 0 then now else st.created_at;
        phase = reset_phase crd.spec.suspend st.phase;
      };
    }
