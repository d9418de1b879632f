-- ===== src/StuckHeight/Controller/Phases.antt =====
-- The phase diagram of controllers/stuckheightrecovery_controller.go, and what each phase may write.
use cosmos_operator.Common.{ℕ, Text, List, [], ◌∷◌, Option, ◌≡◌, refl, arith, inl, inr}
use cosmos_operator.Kube.Client.{Answer-cases, found}
use cosmos_operator.StuckHeight.{
  Phase, StuckHeightRecovery, unset, monitoring, height_stuck, creating_snapshot,
  waiting_for_snapshot, running_recovery, waiting_for_recovery, recovery_complete, recovery_failed,
  rate_limited, suspended,
}
use cosmos_operator.StuckHeight.Snapshots.{build_snapshot}
use cosmos_operator.StuckHeight.RecoveryPod.{build_pod, recovery_pod_name}
use cosmos_operator.StuckHeight.Controller.{
  Api, Session, Write, wrote_status, created_snapshot, created_pod, handle_monitoring,
  handle_height_stuck, handle_creating_snapshot, handle_waiting_for_snapshot,
  handle_running_recovery, handle_waiting_for_recovery, handle_recovery_complete,
  handle_recovery_failed, handle_rate_limited, dispatch, observe_generation, reconcile_suspended,
  reconcile_active, reconcile,
}

-- The phases that a reconcile in a phase may write.
infix 40 ◌⟶◌
pub data ◌⟶◌ : Phase → Phase → Type 0 where
  suspend : {p : Phase} → p ⟶ suspended
  lose_node : {p : Phase} → p ⟶ recovery_failed
  created : unset ⟶ unset
  begin : unset ⟶ monitoring
  detect_first : unset ⟶ height_stuck
  watch : monitoring ⟶ monitoring
  detect : monitoring ⟶ height_stuck
  limit : height_stuck ⟶ rate_limited
  snapshot_first : height_stuck ⟶ creating_snapshot
  run_directly : height_stuck ⟶ running_recovery
  snapshot_taken : creating_snapshot ⟶ waiting_for_snapshot
  snapshot_ready : waiting_for_snapshot ⟶ running_recovery
  pod_started : running_recovery ⟶ waiting_for_recovery
  pod_succeeded : waiting_for_recovery ⟶ recovery_complete
  return_to_watch : recovery_complete ⟶ monitoring
  retry_watch : recovery_failed ⟶ monitoring
  still_limited : rate_limited ⟶ rate_limited
  window_over : rate_limited ⟶ monitoring

-- A status follows an edge of the diagram; a snapshot is created only in its phase, by a recovery
-- that names its class and namespace; a pod only in its phase, under the name of the stuck pod.
abbrev pub IsAllowed : StuckHeightRecovery → Write → Type 0
IsAllowed r (wrote_status st) = r.status.phase ⟶ st.phase
IsAllowed r (created_snapshot v) =
    (r.status.phase ≡ creating_snapshot) × (v.namespace ≡ r.namespace)
IsAllowed r (created_pod p) =
    (r.status.phase ≡ running_recovery)
    × (p.namespace ≡ r.namespace)
    × (p.name ≡ recovery_pod_name r.name r.status.stuck_pod_name)

abbrev pub AllAllowed : StuckHeightRecovery → List Write → Type 0
AllAllowed r [] = Unit
AllAllowed r (w ∷ ws) = IsAllowed r w × AllAllowed r ws

abbrev pub no_session : Session
no_session = record { updates = 0; writes = [] }

module _ (parse_duration : Text → Option ℕ) (api : Api) (clock : ℕ → ℕ) where
  monitoring_allowed :
      (heights : List (Text × ℕ)) (r : StuckHeightRecovery) (s : Session)
      → r.status.phase ⟶ r.status.phase
      → r.status.phase ⟶ monitoring
      → r.status.phase ⟶ height_stuck
      → AllAllowed r s.writes
      → AllAllowed r (handle_monitoring parse_duration api clock heights r s).1.writes
  unfolding handle_monitoring
  monitoring_allowed heights r s to_self to_monitoring to_stuck h = ground arith

  module _ (r : StuckHeightRecovery) (s : Session) (h : AllAllowed r s.writes) where
    height_stuck_allowed :
        r.status.phase ≡ height_stuck
        → AllAllowed r (handle_height_stuck parse_duration api clock r s).1.writes
    unfolding handle_height_stuck
    height_stuck_allowed e = ground (arith, limit, snapshot_first, run_directly)

    creating_snapshot_allowed :
        r.status.phase ≡ creating_snapshot
        → AllAllowed r (handle_creating_snapshot parse_duration api clock r s).1.writes
    unfolding handle_creating_snapshot build_snapshot
    creating_snapshot_allowed e = ground (arith, snapshot_taken, lose_node {p = r.status.phase})

    waiting_for_snapshot_allowed :
        r.status.phase ≡ waiting_for_snapshot
        → AllAllowed r (handle_waiting_for_snapshot parse_duration api clock r s).1.writes
    unfolding handle_waiting_for_snapshot
    waiting_for_snapshot_allowed e = ground (arith, snapshot_ready)

    running_recovery_allowed :
        r.status.phase ≡ running_recovery
        → AllAllowed r (handle_running_recovery parse_duration api clock r s).1.writes
    unfolding handle_running_recovery build_pod
    running_recovery_allowed e = ground (arith, pod_started, lose_node {p = r.status.phase})

    waiting_for_recovery_allowed :
        r.status.phase ≡ waiting_for_recovery
        → AllAllowed r (handle_waiting_for_recovery parse_duration api clock r s).1.writes
    unfolding handle_waiting_for_recovery
    waiting_for_recovery_allowed e = ground (arith, pod_succeeded, lose_node {p = r.status.phase})

    recovery_complete_allowed :
        r.status.phase ≡ recovery_complete
        → AllAllowed r (handle_recovery_complete parse_duration api clock r s).1.writes
    unfolding handle_recovery_complete
    recovery_complete_allowed e = ground (arith, return_to_watch)

    recovery_failed_allowed :
        r.status.phase ≡ recovery_failed
        → AllAllowed r (handle_recovery_failed parse_duration api clock r s).1.writes
    unfolding handle_recovery_failed
    recovery_failed_allowed e = ground (arith, retry_watch)

    rate_limited_allowed :
        r.status.phase ≡ rate_limited
        → AllAllowed r (handle_rate_limited parse_duration api clock r s).1.writes
    unfolding handle_rate_limited
    rate_limited_allowed e = ground (arith, still_limited, window_over)

  dispatch_allowed :
      (p : Phase) (heights : List (Text × ℕ)) (r : StuckHeightRecovery) (s : Session)
      → AllAllowed r s.writes
      → r.status.phase ≡ p
      → AllAllowed r (dispatch parse_duration api clock p heights r s).1.writes
  unfolding dispatch
  dispatch_allowed unset heights r s h e =
      ground (arith, created, begin, detect_first, monitoring_allowed heights r s)
  dispatch_allowed monitoring heights r s h e =
      ground (arith, watch, detect, monitoring_allowed heights r s)
  dispatch_allowed height_stuck heights r s h e = height_stuck_allowed r s h e
  dispatch_allowed creating_snapshot heights r s h e = creating_snapshot_allowed r s h e
  dispatch_allowed waiting_for_snapshot heights r s h e = waiting_for_snapshot_allowed r s h e
  dispatch_allowed running_recovery heights r s h e = running_recovery_allowed r s h e
  dispatch_allowed waiting_for_recovery heights r s h e = waiting_for_recovery_allowed r s h e
  dispatch_allowed recovery_complete heights r s h e = recovery_complete_allowed r s h e
  dispatch_allowed recovery_failed heights r s h e = recovery_failed_allowed r s h e
  dispatch_allowed rate_limited heights r s h e = rate_limited_allowed r s h e
  dispatch_allowed suspended heights r s h e = h

  AllAllowed-observe :
      (r : StuckHeightRecovery) (ws : List Write)
      → AllAllowed (observe_generation r) ws
      → AllAllowed r ws
  AllAllowed-observe r [] h = tt
  AllAllowed-observe r (wrote_status st ∷ ws) h = (h.0, AllAllowed-observe r ws h.1)
  AllAllowed-observe r (created_snapshot v ∷ ws) h = (h.0, AllAllowed-observe r ws h.1)
  AllAllowed-observe r (created_pod v ∷ ws) h = (h.0, AllAllowed-observe r ws h.1)

  active_allowed :
      (r : StuckHeightRecovery)
      → AllAllowed r (reconcile_active parse_duration api clock r no_session).1.writes
  unfolding reconcile_active
  active_allowed r = elim (Answer-cases (api.get_full_node r.spec.full_node_ref)) [
    | inl (heights, e) ↦
        rw (e, reconcile_active)
          (AllAllowed-observe r _
            (dispatch_allowed r.status.phase heights (observe_generation r) no_session tt refl))
    | inr (x, e) ↦ ground (arith, lose_node {p = r.status.phase})
  ]

  -- Whatever the API server answers: every status that a reconcile writes follows an edge of the
  -- diagram from the phase it read; it creates a VolumeSnapshot only in phase CreatingSnapshot, and
  -- a pod only in phase RunningRecovery, in the recovery's namespace and under the name that
  -- belongs to the stuck pod.
  pub reconcile_allowed :
      {r : StuckHeightRecovery}
      → api.get_recovery ≡ found r
      → AllAllowed r (reconcile parse_duration api clock no_session).1.writes
  unfolding reconcile reconcile_suspended
  reconcile_allowed {r} e = ground (arith, suspend {p = r.status.phase}, active_allowed r)
