-- ===== src/Kube/Rollout/Safety.antt =====
-- What the rollout number of internal/kube/rollout.go guarantees.
use cosmos_operator.Common.{
  ◌≡◌, ◌⊎◌, ◌↔◌, Option, none, some, arith, ℤ, pos, negsuc, ◌-ℤ◌, ◌≤ℤ◌, panic, ok,
}
use cosmos_operator.Kube.Rollout.{
  IntOrString, at_least_one, or_default, rollout_target, compute_rollout,
}

target-nonneg : (u d r : ℤ) → pos 0 ≤ℤ d → pos 1 ≤ℤ u → pos 0 ≤ℤ rollout_target u d r
unfolding rollout_target
target-nonneg u d r hd hu = ground arith

target-le-desired : (u d r : ℤ) → pos 0 ≤ℤ d → pos 1 ≤ℤ u → rollout_target u d r ≤ℤ d
unfolding rollout_target
target-le-desired u d r hd hu = ground arith

-- What is taken away leaves the minimum available.
target_keeps_available :
    (u d r : ℤ) → (rollout_target u d r ≡ pos 0) ⊎ (d -ℤ u ≤ℤ r -ℤ rollout_target u d r)
unfolding rollout_target
target_keeps_available u d r = ground arith

target_progress :
    (u d r : ℤ) → pos 1 ≤ℤ d → pos 1 ≤ℤ u → pos 1 ≤ℤ u -ℤ (d -ℤ r) → pos 1 ≤ℤ rollout_target u d r
unfolding rollout_target
target_progress u d r hd hu h = ground arith

module _ (scaled_value : IntOrString → ℤ → Option ℤ) (max_unavail : Option IntOrString)
    (desired ready : ℤ) where
  -- A number that is returned lies between 0 and the desired count, and is 0 or leaves at least
  -- `desired - unavailable` of the ready replicas, where `unavailable` is the scaled threshold
  -- raised to 1.
  pub compute_rollout_safe :
      {n unavail : ℤ}
      → scaled_value (or_default max_unavail) desired ≡ some unavail
      → compute_rollout scaled_value max_unavail desired ready ≡ ok n
      → (pos 0 ≤ℤ n)
        × (n ≤ℤ desired)
        × ((n ≡ pos 0) ⊎ (desired -ℤ at_least_one unavail ≤ℤ ready -ℤ n))
  unfolding compute_rollout
  compute_rollout_safe {n} {unavail} e h = ground (
    arith,
    target-nonneg (at_least_one unavail) desired ready,
    target-le-desired (at_least_one unavail) desired ready,
    target_keeps_available (at_least_one unavail) desired ready,
  )

  -- With at least one replica desired and more ready than the minimum, a number of at least 1 is
  -- returned: a rollout that may proceed does.
  pub compute_rollout_progress :
      {unavail : ℤ}
      → pos 1 ≤ℤ desired
      → pos 0 ≤ℤ ready
      → scaled_value (or_default max_unavail) desired ≡ some unavail
      → pos 1 ≤ℤ at_least_one unavail -ℤ (desired -ℤ ready)
      → (n : ℤ) × (compute_rollout scaled_value max_unavail desired ready ≡ ok n) × (pos 1 ≤ℤ n)
  unfolding compute_rollout
  compute_rollout_progress {unavail} hd hr e h = (
    rollout_target (at_least_one unavail) desired ready,
    ground arith,
    target_progress (at_least_one unavail) desired ready hd (ground arith) h,
  )

  -- The function panics exactly when the desired count or the ready count is negative, or when the
  -- threshold cannot be scaled.
  pub compute_rollout-panic_iff :
      (compute_rollout scaled_value max_unavail desired ready ≡ panic) ↔ (
        (desired ≤ℤ negsuc 0)
        ⊎ (ready ≤ℤ negsuc 0)
        ⊎ (scaled_value (or_default max_unavail) desired ≡ none))
  unfolding compute_rollout
  compute_rollout-panic_iff = (λ h. ground arith, λ h. ground arith)
