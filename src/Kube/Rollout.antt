-- ===== src/Kube/Rollout.antt =====
-- internal/kube/rollout.go: how many replicas may be updated now. The scaling of a percentage,
-- `intstr.GetScaledValueFromIntOrPercent` rounded down, belongs to apimachinery and is the
-- parameter `scaled_value`; `none` is its error.
pub mod Safety
use cosmos_operator.Common.{
  ℕ, ◌≤◌, String, ◌≡◌, refl, Bool, Option, none, some, arith, if◌then◌else◌, ℤ, pos, negsuc, ltb_ℤ,
  leb_ℤ, ◌-ℤ◌, ◌≤ℤ◌, Checked, panic, ok, Option-cases, inl, inr,
}

-- `intstr.IntOrString`.
pub data IntOrString : Type 0 where
  int : ℤ → IntOrString
  string : String → IntOrString

abbrev pub default_max_unavail : IntOrString
default_max_unavail = string "25%"

abbrev pub or_default : Option IntOrString → IntOrString
or_default none = default_max_unavail
or_default (some v) = v

-- At least one resource may be unavailable.
abbrev pub at_least_one : ℤ → ℤ
at_least_one unavail = if ltb_ℤ unavail (pos 1) then pos 1 else unavail

-- The arithmetic after the checks.
unfoldable pub rollout_target : ℤ → ℤ → ℤ → ℤ
unfolding ◌-ℤ◌
rollout_target unavail desired ready =
    let min_avail = desired -ℤ unavail in
    let target = unavail -ℤ (desired -ℤ ready) in
    if leb_ℤ ready min_avail then pos 0 else if ltb_ℤ desired target then desired else target

module _ (scaled_value : IntOrString → ℤ → Option ℤ) where
  unfoldable pub compute_rollout : Option IntOrString → ℤ → ℤ → Checked ℤ
  compute_rollout max_unavail desired ready =
      if ltb_ℤ desired (pos 0)
      then panic
      else if ltb_ℤ ready (pos 0)
      then panic
      else elim (scaled_value (or_default max_unavail) desired) [
        | none ↦ panic
        | some unavail ↦ ok (rollout_target (at_least_one unavail) desired ready)
      ]
