-- ===== src/Tests/Recovery.antt =====
-- The stuck-height recovery of controllers/stuckheightrecovery_controller.go on concrete resources.
use cosmos_operator.Common.{
  ℕ, ◌+◌, Text, txt, text_eq, List, [], ◌∷◌, true, false, ◌≡◌, refl, Option, none, some, arith,
  format_nat,
}
use cosmos_operator.Kube.Client.{found, already_exists}
use cosmos_operator.StuckHeight.{
  Phase, Spec, Status, StuckHeightRecovery, Message, Volume, unset, monitoring, height_stuck,
  running_recovery, recovery_failed, suspended,
}
use cosmos_operator.StuckHeight.RateLimiter.{can_attempt, can_attempt_recovery, record_attempt}
use cosmos_operator.StuckHeight.RateLimiter.Bound.{attempts, attempts_bounded, IsCounted}
use cosmos_operator.StuckHeight.HeightMonitor.{checked, check_stuck_height}
use cosmos_operator.StuckHeight.Snapshots.{get_pvc_for_pod, check_snapshot_ready, build_snapshot}
use cosmos_operator.StuckHeight.RecoveryPod.{PodPhase, build_pod, check_pod_complete}
use cosmos_operator.StuckHeight.Controller.{
  Api, after_seconds, reconcile, handle_monitoring, handle_height_stuck, handle_running_recovery,
}
use cosmos_operator.StuckHeight.Controller.Phases.{no_session, AllAllowed, reconcile_allowed}
use cosmos_operator.StuckHeight.Controller.Limits.{
  AllStatuses, IsLimited, handle_height_stuck-IsLimited,
}
use cosmos_operator.StuckHeight.Controller.Progress.{
  IsCooperative, rounds, creates_no_pod, suspended_stays, running_recovery_collides,
  recovery_completes,
}

program : Unit {0}
unfolding reconcile handle_monitoring can_attempt_recovery record_attempt check_stuck_height
    get_pvc_for_pod check_snapshot_ready check_pod_complete build_snapshot build_pod text_eq
    format_nat attempts
program = tt

-- Every duration is a hundred.
abbrev hundred : Text → Option ℕ
hundred d = some 100

abbrev clock : ℕ → ℕ
clock k = 1000 + k

abbrev spec : Spec
spec = record {
  full_node_ref = txt "node";
  stuck_duration = txt "10m";
  recovery_script = txt "true";
  pod_template = none;
  create_volume_snapshot = true;
  volume_snapshot_class_name = [];
  max_retries = some 2;
  rate_limit_window = [];
  suspend = false;
}

abbrev fresh : Status
fresh = record {
  phase = unset;
  last_recovery_time = none;
  recovery_attempts = 0;
  rate_limit_window_start = none;
  last_observed_height = 0;
  last_height_update_time = none;
  stuck_pod_name = txt "node-0";
  volume_snapshot_name = [];
  recovery_pod_name = [];
  message = Message.no_message;
  observed_generation = 0;
}

abbrev recovery : Status → StuckHeightRecovery
recovery st = record {
  namespace = txt "ns";
  name = txt "rec";
  generation = 1;
  spec = spec;
  status = st;
}

abbrev in_phase : Phase → StuckHeightRecovery
in_phase p = recovery (record fresh { phase = p })

abbrev volumes : List Volume
volumes = record { name = txt "vol-chain-home"; claim_name = some (txt "pvc-node-0") } ∷ []

-- A cluster that grants every request.
abbrev granting : StuckHeightRecovery → Api
granting r = record {
  get_recovery = found r;
  get_full_node = λ n. found ((txt "node-0", 50) ∷ []);
  get_pod_volumes = λ n. found volumes;
  get_pod_phase = λ n. found PodPhase.succeeded;
  get_snapshot = λ n. found (some (record { ready_to_use = some true }));
  update_status = λ k st. none;
  create_snapshot = λ v. none;
  create_pod = λ p. none;
}

granting-IsCooperative : (r : StuckHeightRecovery) → IsCooperative hundred clock (granting r)
unfolding program
granting-IsCooperative r = record {
  updates = λ k st. refl;
  heights = (txt "node-0", 50) ∷ [];
  node = λ n. refl;
  claim_name = txt "pvc-node-0";
  claimed = λ n. refl;
  snapshots = λ v. refl;
  ready = λ n. refl;
  pods = λ p. refl;
  finished = λ n. refl;
}

reconcile_allowed_example :
    AllAllowed
      (in_phase height_stuck)
      (reconcile hundred (granting (in_phase height_stuck)) clock no_session).1.writes
reconcile_allowed_example =
    reconcile_allowed hundred (granting (in_phase height_stuck)) clock {r = in_phase height_stuck}
      refl

-- Three attempts in one window: the third is refused.
attempts_counted : (attempts hundred (5 ∷ 6 ∷ 7 ∷ []) (in_phase height_stuck, [])).1 ≡ 6 ∷ 5 ∷ []
unfolding program
attempts_counted = refl

attempts_bounded_example :
    let c = attempts hundred (5 ∷ 6 ∷ 7 ∷ 200 ∷ []) (in_phase height_stuck, []) in
    IsCounted 100 2 c.0.status.recovery_attempts c.0.status.rate_limit_window_start c.1
attempts_bounded_example =
    attempts_bounded hundred {w = 100} {max = 2} (omega arith) (omega arith) (5 ∷ 6 ∷ 7 ∷ 200 ∷ [])
      (in_phase height_stuck) refl refl refl (omega arith)

may_attempt : can_attempt_recovery hundred 1000 (in_phase height_stuck) ≡ can_attempt
unfolding program
may_attempt = refl

handle_height_stuck-IsLimited_example :
    AllStatuses
      (IsLimited (in_phase height_stuck))
      (handle_height_stuck hundred
        (granting (in_phase height_stuck))
        clock
        (in_phase height_stuck)
        no_session).1.writes
handle_height_stuck-IsLimited_example =
    handle_height_stuck-IsLimited hundred (granting (in_phase height_stuck)) clock
      (in_phase height_stuck) (omega arith) (omega arith)

new_height :
    check_stuck_height hundred 1000 ((txt "p", 50) ∷ []) (in_phase monitoring) ≡ checked false [] 50
unfolding program
new_height = refl

suspended_attempt :
    reconcile hundred (granting (in_phase suspended)) clock no_session
    ≡ (after_seconds 30, no_session)
suspended_attempt =
    suspended_stays hundred clock (granting (in_phase suspended)) (in_phase suspended)
      {heights = (txt "node-0", 50) ∷ []} refl refl refl refl

-- The API server of a cluster in which the recovery pod of an earlier attempt is still there.
abbrev colliding : Api
colliding = record (granting (in_phase running_recovery)) { create_pod = λ p. some already_exists }

colliding_attempt :
    let ws =
      (handle_running_recovery hundred colliding clock
        (in_phase running_recovery)
        no_session).1.writes in
    AllStatuses (λ st. st.phase ≡ recovery_failed) ws × (creates_no_pod ws ≡ true)
colliding_attempt =
    running_recovery_collides hundred clock colliding (in_phase running_recovery) (λ p e. refl)

recovery_completes_example :
    let r = rounds hundred clock 6 (granting (in_phase height_stuck)) (in_phase height_stuck) in
    (r.status.phase ≡ monitoring) × (r.status.stuck_pod_name ≡ [])
recovery_completes_example =
    recovery_completes hundred clock (granting (in_phase height_stuck)) (in_phase height_stuck)
      (granting-IsCooperative (in_phase height_stuck)) refl refl may_attempt refl
