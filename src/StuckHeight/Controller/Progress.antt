-- ===== src/StuckHeight/Controller/Progress.antt =====
-- Runs of controllers/stuckheightrecovery_controller.go over several reconciles, and two states
-- that hold a recovery up.
use cosmos_operator.Common.{
  ℕ, zero, suc, Text, List, [], ◌∷◌, Bool, true, false, ◌≡◌, refl, Option, none, some, arith, ap,
  ◌∙◌, ◌⊎◌, inl, inr,
}
use cosmos_operator.Kube.Client.{found, already_exists}
use cosmos_operator.StuckHeight.{
  Spec, Status, StuckHeightRecovery, Message, ClaimError, height_stuck, creating_snapshot,
  waiting_for_snapshot, running_recovery, waiting_for_recovery, recovery_complete, recovery_failed,
  monitoring, suspended,
}
use cosmos_operator.StuckHeight.RateLimiter.{can_attempt, can_attempt_recovery, record_attempt}
use cosmos_operator.StuckHeight.Snapshots.{
  build_snapshot, VolumeSnapshot, ClaimResult, claim, unclaimed, get_pvc_for_pod,
  check_snapshot_ready,
}
use cosmos_operator.StuckHeight.RecoveryPod.{
  RecoveryPod, build_pod, check_pod_complete, recovery_pod_name,
}
use cosmos_operator.StuckHeight.Controller.{
  Api, Write, observe_generation, enter, start_recovery, await_snapshot, await_recovery,
  wrote_status, created_pod, after_seconds, reconcile, handle_running_recovery,
}
use cosmos_operator.StuckHeight.Controller.Phases.{no_session}
use cosmos_operator.StuckHeight.Controller.Limits.{AllStatuses}

-- The recovery as the API server stores it after the writes of a reconcile, the latest first.
abbrev pub stored : StuckHeightRecovery → List Write → StuckHeightRecovery
stored r [] = r
stored r (wrote_status st ∷ _) = record r { status = st }
stored r (_ ∷ ws) = stored r ws

abbrev pub creates_no_pod : List Write → Bool
creates_no_pod [] = true
creates_no_pod (created_pod _ ∷ _) = false
creates_no_pod (_ ∷ ws) = creates_no_pod ws

module _ (parse_duration : Text → Option ℕ) (clock : ℕ → ℕ) where
  -- A recovery that was suspended and is so no more stays in phase Suspended: each reconcile writes
  -- nothing and asks for the next one after 30 seconds.
  pub suspended_stays :
      (api : Api) (r : StuckHeightRecovery) {heights : List (Text × ℕ)}
      → api.get_recovery ≡ found r
      → api.get_full_node r.spec.full_node_ref ≡ found heights
      → r.spec.suspend ≡ false
      → r.status.phase ≡ suspended
      → reconcile parse_duration api clock no_session ≡ (after_seconds 30, no_session)
  unfolding reconcile
  suspended_stays api r e n s p = ground arith

  build_pod-name :
      (r : StuckHeightRecovery) (pod pvc : Text) (h : ℕ)
      → (build_pod r pod pvc h).name ≡ recovery_pod_name r.name pod
  unfolding build_pod
  build_pod-name r pod pvc h = refl

  ClaimResult-cases :
      (c : ClaimResult) → ((pvc : Text) × (c ≡ claim pvc)) ⊎ ((e : ClaimError) × (c ≡ unclaimed e))
  ClaimResult-cases (claim pvc) = inl (pvc, refl)
  ClaimResult-cases (unclaimed e) = inr (e, refl)

  -- The name of the recovery pod is the same for each attempt at a pod. While the API server holds
  -- a pod of that name and answers so, the attempt creates nothing and every status it writes has
  -- phase RecoveryFailed.
  pub running_recovery_collides :
      (api : Api) (r : StuckHeightRecovery)
      → ((p : RecoveryPod)
          → p.name ≡ recovery_pod_name r.name r.status.stuck_pod_name
          → api.create_pod p ≡ some already_exists)
      → let ws = (handle_running_recovery parse_duration api clock r no_session).1.writes in
        AllStatuses (λ st. st.phase ≡ recovery_failed) ws × (creates_no_pod ws ≡ true)
  unfolding handle_running_recovery
  running_recovery_collides api r h =
      let stuck = r.status.stuck_pod_name in
      elim (ClaimResult-cases (get_pvc_for_pod stuck (api.get_pod_volumes stuck))) [
        | inl (pvc, e) ↦ ground (
          arith,
          h (build_pod r stuck pvc r.status.last_observed_height)
              (build_pod-name r stuck pvc r.status.last_observed_height),
        )
        | inr (x, e) ↦ ground arith
      ]

  -- The API server grants every request: the node, the pod's claim, the snapshot and the recovery
  -- pod are there, the snapshot is ready and the recovery pod has succeeded.
  pub record IsCooperative (api : Api) : Type 0 where
    pub updates : (k : ℕ) (st : Status) → api.update_status k st ≡ none
    pub heights : List (Text × ℕ)
    pub node : (n : Text) → api.get_full_node n ≡ found heights
    pub claim_name : Text
    pub claimed : (pod : Text) → get_pvc_for_pod pod (api.get_pod_volumes pod) ≡ claim claim_name
    pub snapshots : (v : VolumeSnapshot) → api.create_snapshot v ≡ none
    pub ready : (n : Text) → check_snapshot_ready (api.get_snapshot n) ≡ found true
    pub pods : (p : RecoveryPod) → api.create_pod p ≡ none
    pub finished : (n : Text) → check_pod_complete (api.get_pod_phase n) ≡ found (true, true)

  -- One reconcile of a stored recovery, and the recovery stored after it.
  abbrev pub round : Api → StuckHeightRecovery → StuckHeightRecovery
  round api r =
      stored r
        (reconcile parse_duration (record api { get_recovery = found r }) clock no_session).1.writes

  module _ (api : Api) (c : IsCooperative api) (r : StuckHeightRecovery)
      (active : r.spec.suspend ≡ false) where
    round_stuck :
        r.status.phase ≡ height_stuck
        → can_attempt_recovery parse_duration (clock 0) r ≡ can_attempt
        → r.spec.create_volume_snapshot ≡ true
        → ((round api r).status.phase ≡ creating_snapshot) × ((round api r).spec ≡ r.spec)
    unfolding reconcile can_attempt_recovery record_attempt
    round_stuck p can snapshot =
        let r' = record_attempt parse_duration (clock 1) (clock 2) (observe_generation r) in
        ground (
          arith,
          c.node r.spec.full_node_ref,
          c.updates 0 (start_recovery parse_duration api clock r').status,
        )

    round_creating :
        r.status.phase ≡ creating_snapshot
        → ((round api r).status.phase ≡ waiting_for_snapshot) × ((round api r).spec ≡ r.spec)
    unfolding reconcile
    round_creating p =
        let r' = observe_generation r in
        let v = build_snapshot (clock 0) r' c.claim_name in
        ground (
          arith,
          c.node r.spec.full_node_ref,
          c.claimed r.status.stuck_pod_name,
          c.snapshots v,
          c.updates 0 (await_snapshot parse_duration api clock v.name r').status,
        )

    round_waiting_snapshot :
        r.status.phase ≡ waiting_for_snapshot
        → ((round api r).status.phase ≡ running_recovery) × ((round api r).spec ≡ r.spec)
    unfolding reconcile
    round_waiting_snapshot p = ground (
      arith,
      c.node r.spec.full_node_ref,
      c.ready r.status.volume_snapshot_name,
      c.updates 0 (enter (observe_generation r) running_recovery Message.starting_script).status,
    )

    round_running :
        r.status.phase ≡ running_recovery
        → ((round api r).status.phase ≡ waiting_for_recovery) × ((round api r).spec ≡ r.spec)
    unfolding reconcile
    round_running p =
        let r' = observe_generation r in
        let pod = build_pod r' r.status.stuck_pod_name c.claim_name r.status.last_observed_height in
        ground (
          arith,
          c.node r.spec.full_node_ref,
          c.claimed r.status.stuck_pod_name,
          c.pods pod,
          c.updates 0 (await_recovery parse_duration api clock pod.name r').status,
        )

    round_waiting_recovery :
        r.status.phase ≡ waiting_for_recovery
        → ((round api r).status.phase ≡ recovery_complete) × ((round api r).spec ≡ r.spec)
    unfolding reconcile
    round_waiting_recovery p = ground (
      arith,
      c.node r.spec.full_node_ref,
      c.finished r.status.recovery_pod_name,
      c.updates 0
          (enter (observe_generation r) recovery_complete Message.completed_successfully).status,
    )

    round_complete :
        r.status.phase ≡ recovery_complete
        → ((round api r).status.phase ≡ monitoring) × ((round api r).status.stuck_pod_name ≡ [])
    unfolding reconcile
    round_complete p =
        let st = (observe_generation r).status in
        ground (
          arith,
          c.node r.spec.full_node_ref,
          c.updates 0 (record st {
            phase = monitoring;
            message = Message.monitoring_message;
            stuck_pod_name = [];
            recovery_pod_name = [];
            volume_snapshot_name = [];
          }),
        )

  same_suspend :
      (q q' : StuckHeightRecovery)
      → q'.spec ≡ q.spec
      → q.spec.suspend ≡ false
      → q'.spec.suspend ≡ false
  same_suspend q q' e a = ap (λ (s : Spec). s.suspend) e ∙ a

  -- `n` reconciles.
  abbrev pub rounds : ℕ → Api → StuckHeightRecovery → StuckHeightRecovery
  rounds zero api r = r
  rounds (suc n) api r = rounds n api (round api r)

  -- With an API server that grants every request, a stuck recovery that is not suspended, may
  -- attempt and takes a snapshot is back in phase Monitoring, with no stuck pod, after six
  -- reconciles.
  pub recovery_completes :
      (api : Api) (r : StuckHeightRecovery)
      → IsCooperative api
      → r.spec.suspend ≡ false
      → r.status.phase ≡ height_stuck
      → can_attempt_recovery parse_duration (clock 0) r ≡ can_attempt
      → r.spec.create_volume_snapshot ≡ true
      → ((rounds 6 api r).status.phase ≡ monitoring) × ((rounds 6 api r).status.stuck_pod_name ≡ [])
  recovery_completes api r c active p can snapshot =
      let r1 = round api r in
      let r2 = round api r1 in
      let r3 = round api r2 in
      let r4 = round api r3 in
      let r5 = round api r4 in
      let h1 = round_stuck api c r active p can snapshot in
      let a1 = same_suspend r r1 h1.1 active in
      let h2 = round_creating api c r1 a1 h1.0 in
      let a2 = same_suspend r1 r2 h2.1 a1 in
      let h3 = round_waiting_snapshot api c r2 a2 h2.0 in
      let a3 = same_suspend r2 r3 h3.1 a2 in
      let h4 = round_running api c r3 a3 h3.0 in
      let a4 = same_suspend r3 r4 h4.1 a3 in
      let h5 = round_waiting_recovery api c r4 a4 h4.0 in
      let a5 = same_suspend r4 r5 h5.1 a4 in round_complete api c r5 a5 h5.0
