-- ===== src/Tests/Rollout.antt =====
-- The rollout number of internal/kube/rollout.go at concrete counts.
use cosmos_operator.Common.{◌≡◌, refl, ◌⊎◌, Option, none, some, ℤ, pos, negsuc, ◌≤ℤ◌, ◌-ℤ◌, ok}
use cosmos_operator.Kube.Rollout.{
  IntOrString, int, string, at_least_one, compute_rollout, rollout_target,
}
use cosmos_operator.Kube.Rollout.Safety.{compute_rollout_safe}

-- A quarter, for any percentage, and a whole number as it is.
abbrev pub quarter : IntOrString → ℤ → Option ℤ
quarter (int n) desired = some n
quarter (string s) (pos n) = some (pos 2)
quarter (string s) (negsuc n) = none

ten_ready : compute_rollout quarter none (pos 10) (pos 10) ≡ ok (pos 2)
unfolding compute_rollout rollout_target
ten_ready = refl

eight_ready : compute_rollout quarter none (pos 10) (pos 8) ≡ ok (pos 0)
unfolding compute_rollout rollout_target
eight_ready = refl

none_desired : compute_rollout quarter (some (int (pos 5))) (pos 0) (pos 0) ≡ ok (pos 0)
unfolding compute_rollout rollout_target
none_desired = refl

compute_rollout_safe_example :
    (pos 0 ≤ℤ pos 2)
    × (pos 2 ≤ℤ pos 10)
    × ((pos 2 ≡ pos 0) ⊎ (pos 10 -ℤ at_least_one (pos 2) ≤ℤ pos 10 -ℤ pos 2))
compute_rollout_safe_example =
    compute_rollout_safe quarter none (pos 10) (pos 10) {n = pos 2} {unavail = pos 2} refl ten_ready
