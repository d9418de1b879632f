-- ===== src/StuckHeight/RateLimiter.antt =====
-- internal/stuckheight/rate_limiter.go. `time.ParseDuration` is the parameter `parse_duration`, in
-- nanoseconds; the schema admits no sign, so a duration is no less than 0. A test `a.Sub(b) >= d`
-- is `b + d <= a`, which needs no negative difference. The increment is that of an int32; the
-- attempts never pass `max_retries`, itself an int32, so it does not wrap.
pub mod Bound
use cosmos_operator.Common.{
  ℕ, ◌+◌, ◌-◌, ◌*◌, ◌/◌, Text, txt, [], text_eq, Option, none, some, leb, if◌then◌else◌,
}
use cosmos_operator.StuckHeight.{Spec, Status, StuckHeightRecovery, Message}

abbrev pub default_max_retries : ℕ
default_max_retries = 3

abbrev pub default_rate_limit_window : Text
default_rate_limit_window = txt "5m"

abbrev pub max_retries_of : Option ℕ → ℕ
max_retries_of none = default_max_retries
max_retries_of (some n) = n

unfoldable pub window_of : Text → Text
window_of w = if text_eq w [] then default_rate_limit_window else w

-- The three results of `CanAttemptRecovery`.
pub data RateCheck : Type 0 where
  can_attempt : RateCheck
  limited : Message → RateCheck
  invalid_window : RateCheck

-- `Duration.Round(time.Second)` of a positive duration.
abbrev pub round_second : ℕ → ℕ
round_second d = (d + 500000000) / 1000000000 * 1000000000

module _ (parse_duration : Text → Option ℕ) where
  -- The part of `CanAttemptRecovery` after the window's length is known.
  unfoldable pub check_window : ℕ → ℕ → Status → Option ℕ → ℕ → RateCheck
  check_window now max_retries st none window = can_attempt
  check_window now max_retries st (some start) window =
      if leb (start + window) now
      then can_attempt
      else if leb max_retries st.recovery_attempts
      then limited (
          Message.rate_limit_exceeded st.recovery_attempts window
            (round_second (start + window - now)))
      else can_attempt

  unfoldable pub can_attempt_recovery : ℕ → StuckHeightRecovery → RateCheck
  unfolding window_of check_window
  can_attempt_recovery now r = elim (parse_duration (window_of r.spec.rate_limit_window)) [
    | none ↦ invalid_window
    | some window ↦
        check_window now (max_retries_of r.spec.max_retries) r.status
          r.status.rate_limit_window_start window
  ]

  -- `ParseDuration` returns 0 beside the error that `RecordAttempt` drops.
  abbrev pub or_zero : Option ℕ → ℕ
  or_zero none = 0
  or_zero (some d) = d

  -- The clock is read twice: `now` is written, `later` is compared.
  unfoldable pub record_status : ℕ → ℕ → Text → Status → Option ℕ → Status
  unfolding window_of
  record_status now later window st none = record st {
    rate_limit_window_start = some now;
    recovery_attempts = 1;
    last_recovery_time = some now;
  }
  record_status now later window st (some start) =
      if leb (start + or_zero (parse_duration (window_of window))) later
      then record st {
        rate_limit_window_start = some now;
        recovery_attempts = 1;
        last_recovery_time = some now;
      }
      else record st { recovery_attempts = st.recovery_attempts + 1; last_recovery_time = some now }

  unfoldable pub record_attempt : ℕ → ℕ → StuckHeightRecovery → StuckHeightRecovery
  unfolding record_status
  record_attempt now later r = record r {
    status =
        record_status now later r.spec.rate_limit_window r.status r.status.rate_limit_window_start;
  }

unfoldable pub reset_window : StuckHeightRecovery → StuckHeightRecovery
reset_window r =
    let st = r.status in
    record r { status = record st { recovery_attempts = 0; rate_limit_window_start = none } }
