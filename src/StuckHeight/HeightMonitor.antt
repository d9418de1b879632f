-- ===== src/StuckHeight/HeightMonitor.antt =====
-- internal/stuckheight/height_monitor.go. The heights of the full node's status are a map from pod
-- names; the loop takes the first pair of an iteration, whose order Go leaves open.
use cosmos_operator.Common.{
  ℕ, ◌+◌, Text, List, [], ◌∷◌, Bool, true, false, not, Option, none, some, leb, ◌==◌, if◌then◌else◌,
}
use cosmos_operator.StuckHeight.{Status, StuckHeightRecovery, HeightError}

-- An error of `CheckStuckHeight`, or its results: stuck, the pod's name, the height.
pub data HeightCheck : Type 0 where
  unchecked : HeightError → HeightCheck
  checked : Bool → Text → ℕ → HeightCheck

-- The tests after the duration is parsed.
unfoldable pub compare_height : ℕ → Text → ℕ → ℕ → Status → HeightCheck
compare_height now pod height stuck st =
    if not (st.last_observed_height == height)
    then checked false [] height
    else elim st.last_height_update_time [
      | none ↦ checked false [] height
      | some t ↦ if leb (t + stuck) now then checked true pod height else checked false [] height
    ]

unfoldable pub check_stuck_height :
    (Text → Option ℕ) → ℕ → List (Text × ℕ) → StuckHeightRecovery → HeightCheck
unfolding compare_height
check_stuck_height parse_duration now [] r = unchecked HeightError.no_height
check_stuck_height parse_duration now ((pod, height) ∷ _) r =
    if height == 0
    then unchecked HeightError.zero_height
    else elim (parse_duration r.spec.stuck_duration) [
      | none ↦ unchecked HeightError.invalid_duration
      | some stuck ↦ compare_height now pod height stuck r.status
    ]
