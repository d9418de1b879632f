-- ===== src/StuckHeight/Controller/Limits.antt =====
-- The rate limit and the height check as controllers/stuckheightrecovery_controller.go use them.
use cosmos_operator.Common.{
  ℕ, ◌+◌, ◌≤◌, Text, List, [], ◌∷◌, Bool, true, false, ◌≡◌, refl, ◌≢◌, ◌⊎◌, ◌↔◌, Option, none, some,
  arith,
}
use cosmos_operator.StuckHeight.{
  Status, StuckHeightRecovery, monitoring, creating_snapshot, running_recovery, rate_limited,
}
use cosmos_operator.StuckHeight.RateLimiter.{max_retries_of, record_attempt}
use cosmos_operator.StuckHeight.RateLimiter.Bound.{record_attempt-le}
use cosmos_operator.StuckHeight.HeightMonitor.{checked, check_stuck_height}
use cosmos_operator.StuckHeight.Controller.{
  Api, Write, wrote_status, start_recovery, observe_height, handle_height_stuck, handle_monitoring,
  after_seconds,
}
use cosmos_operator.StuckHeight.Controller.Phases.{no_session}

module _ (parse_duration : Text → Option ℕ) where
  -- A node counts as stuck exactly when the first height of its status is not 0, was the last one
  -- observed, and was first observed no less than the configured duration ago.
  pub check_stuck_height_iff :
      (now : ℕ) (pod p : Text) (height h : ℕ) (rest : List (Text × ℕ)) (r : StuckHeightRecovery)
      → (check_stuck_height parse_duration now ((pod, height) ∷ rest) r ≡ checked true p h) ↔ (
          (d t : ℕ) × (height ≢ 0)
          × (p ≡ pod)
          × (h ≡ height)
          × (parse_duration r.spec.stuck_duration ≡ some d)
          × (r.status.last_observed_height ≡ height)
          × (r.status.last_height_update_time ≡ some t)
          × (t + d ≤ now))
  unfolding check_stuck_height
  check_stuck_height_iff now pod p height h rest r = (λ e. ground arith, λ e. ground arith)

abbrev pub AllStatuses : (Status → Type 0) → List Write → Type 0
AllStatuses P [] = Unit
AllStatuses P (wrote_status st ∷ ws) = P st × AllStatuses P ws
AllStatuses P (_ ∷ ws) = AllStatuses P ws

-- The status either reports the rate limit, with the attempts as they were, or starts a recovery
-- with no more attempts than allowed.
abbrev pub IsLimited : StuckHeightRecovery → Status → Type 0
IsLimited r st =
    ((st.phase ≡ rate_limited) × (st.recovery_attempts ≡ r.status.recovery_attempts))
    ⊎ (((st.phase ≡ creating_snapshot) ⊎ (st.phase ≡ running_recovery))
        × (st.recovery_attempts ≤ max_retries_of r.spec.max_retries))

-- Every later status update of the reconcile is accepted.
abbrev pub AcceptsUpdates : Api → Type 0
AcceptsUpdates api = (k : ℕ) (st : Status) → api.update_status k st ≡ none

module _ (parse_duration : Text → Option ℕ) (api : Api) (clock : ℕ → ℕ) where
  start_recovery-IsLimited :
      (r q : StuckHeightRecovery)
      → r.status.recovery_attempts ≤ max_retries_of q.spec.max_retries
      → IsLimited q (start_recovery parse_duration api clock r).status
  unfolding start_recovery
  start_recovery-IsLimited r q h = ground arith

  -- In phase HeightStuck, on a clock that does not go back and with `maxRetries` at least 1: a status that is written either reports
  -- the rate limit and counts no attempt, or starts a recovery within `maxRetries` attempts.
  pub handle_height_stuck-IsLimited :
      (r : StuckHeightRecovery)
      → clock 0 ≤ clock 2
      → 1 ≤ max_retries_of r.spec.max_retries
      → AllStatuses
          (IsLimited r)
          (handle_height_stuck parse_duration api clock r no_session).1.writes
  unfolding handle_height_stuck
  handle_height_stuck-IsLimited r le pos = ground (
    arith,
    record_attempt-le parse_duration (clock 0) (clock 1) (clock 2) r,
    start_recovery-IsLimited (record_attempt parse_duration (clock 1) (clock 2) r) r,
  )

  check_stuck_height-new :
      (heights : List (Text × ℕ)) (now : ℕ) (r : StuckHeightRecovery) (stuck : Bool) (pod : Text)
      (h : ℕ)
      → check_stuck_height parse_duration now heights r ≡ checked stuck pod h
      → r.status.last_observed_height ≢ h
      → stuck ≡ false
  unfolding check_stuck_height
  check_stuck_height-new [] now r stuck pod h e ne = ground arith
  check_stuck_height-new (p ∷ heights) now r stuck pod h e ne = ground arith

  -- A height that differs from the last one observed closes the rate-limit window, starts the
  -- measure of the new height, and leaves the recovery in phase Monitoring.
  pub handle_monitoring-new_height :
      (heights : List (Text × ℕ)) (r : StuckHeightRecovery) (stuck : Bool) (pod : Text) (h : ℕ)
      → AcceptsUpdates api
      → check_stuck_height parse_duration (clock 0) heights r ≡ checked stuck pod h
      → r.status.last_observed_height ≢ h
      → let out = handle_monitoring parse_duration api clock heights r no_session in
        (st before : Status) × (out.1.writes ≡ wrote_status st ∷ wrote_status before ∷ [])
        × (st.phase ≡ monitoring)
        × (st.last_observed_height ≡ h)
        × (st.last_height_update_time ≡ some (clock 1))
        × (st.recovery_attempts ≡ 0)
        × (st.rate_limit_window_start ≡ none)
        × (out.0 ≡ after_seconds 30)
  unfolding handle_monitoring
  handle_monitoring-new_height heights r stuck pod h a e ne =
      let o = observe_height parse_duration api clock h r in
      let st = o.status in
      let f = check_stuck_height-new heights (clock 0) r stuck pod h e ne in
      (
        record st { phase = monitoring },
        st,
        ground (arith, f, a 0 st, a 1 (record st { phase = monitoring })),
        refl,
        refl,
        refl,
        refl,
        refl,
        ground (arith, f, a 0 st, a 1 (record st { phase = monitoring })),
      )
