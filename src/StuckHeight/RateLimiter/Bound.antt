-- ===== src/StuckHeight/RateLimiter/Bound.antt =====
-- What internal/stuckheight/rate_limiter.go promises: at most `maxRetries` attempts in a window.
use cosmos_operator.Common.{
  ℕ, suc, ◌+◌, ◌≤◌, ◌<◌, Text, List, [], ◌∷◌, ◌≡◌, refl, ◌⊎◌, ◌↔◌, inl, inr, Option, none, some,
  arith, leb, if◌then◌else◌, Option-cases,
}
use cosmos_operator.StuckHeight.{StuckHeightRecovery}
use cosmos_operator.StuckHeight.RateLimiter.{
  can_attempt, max_retries_of, window_of, can_attempt_recovery, record_attempt,
}

module _ (parse_duration : Text → Option ℕ) where
  abbrev pub window_length : StuckHeightRecovery → Option ℕ
  window_length r = parse_duration (window_of r.spec.rate_limit_window)

  -- An attempt is allowed exactly when the window's length parses and there is no window yet, or it
  -- is over, or it has had fewer than the allowed attempts.
  pub can_attempt_recovery_iff :
      (now : ℕ) (r : StuckHeightRecovery) {w : ℕ}
      → window_length r ≡ some w
      → (can_attempt_recovery parse_duration now r ≡ can_attempt) ↔ (
          (r.status.rate_limit_window_start ≡ none)
          ⊎ ((s : ℕ) × (r.status.rate_limit_window_start ≡ some s) × (s + w ≤ now))
          ⊎ (r.status.recovery_attempts < max_retries_of r.spec.max_retries))
  unfolding can_attempt_recovery
  can_attempt_recovery_iff now r {w} e = (λ h. forth h, λ h. back h)
    where
      forth :
          can_attempt_recovery parse_duration now r ≡ can_attempt
          → (r.status.rate_limit_window_start ≡ none)
            ⊎ ((s : ℕ) × (r.status.rate_limit_window_start ≡ some s) × (s + w ≤ now))
            ⊎ (r.status.recovery_attempts < max_retries_of r.spec.max_retries)
      forth h = elim (Option-cases r.status.rate_limit_window_start) [
        | inl a ↦ inl a
        | inr (s, a) ↦ ground arith
      ]

      back :
          (r.status.rate_limit_window_start ≡ none)
            ⊎ ((s : ℕ) × (r.status.rate_limit_window_start ≡ some s) × (s + w ≤ now))
            ⊎ (r.status.recovery_attempts < max_retries_of r.spec.max_retries)
          → can_attempt_recovery parse_duration now r ≡ can_attempt
      back h = ground arith

  -- Recording an allowed attempt, on a clock that does not go back, leaves no more attempts in the
  -- window than `maxRetries`; so the int32 does not wrap.
  pub record_attempt-le :
      (checked now later : ℕ) (r : StuckHeightRecovery)
      → checked ≤ later
      → 1 ≤ max_retries_of r.spec.max_retries
      → can_attempt_recovery parse_duration checked r ≡ can_attempt
      → (record_attempt parse_duration now later r).status.recovery_attempts
        ≤ max_retries_of r.spec.max_retries
  unfolding can_attempt_recovery record_attempt
  record_attempt-le checked now later r le pos h = ground arith

  -- An attempt at a time: it is recorded if it is allowed.
  abbrev pub attempt : ℕ → StuckHeightRecovery × List ℕ → StuckHeightRecovery × List ℕ
  attempt now (r, times) = elim (can_attempt_recovery parse_duration now r) [
    | can_attempt ↦ (record_attempt parse_duration now now r, now ∷ times)
    | _ ↦ (r, times)
  ]

  unfoldable pub attempts : List ℕ → StuckHeightRecovery × List ℕ → StuckHeightRecovery × List ℕ
  attempts [] c = c
  attempts (t ∷ ts) c = attempts ts (attempt t c)

-- How many of the times are not before the start.
abbrev pub count_since : ℕ → List ℕ → ℕ
count_since start [] = 0
count_since start (t ∷ ts) =
    if leb start t then suc (count_since start ts) else count_since start ts

abbrev pub AllBelow : ℕ → List ℕ → Type 0
AllBelow n [] = Unit
AllBelow n (t ∷ ts) = (t < n) × AllBelow n ts

-- Each time is no earlier than the one before.
abbrev pub IsForward : ℕ → List ℕ → Type 0
IsForward now [] = Unit
IsForward now (t ∷ ts) = (now ≤ t) × IsForward t ts

-- The recorded attempts of the window are those that were made since its start, and no more than
-- allowed.
abbrev pub IsCounted : ℕ → ℕ → ℕ → Option ℕ → List ℕ → Type 0
IsCounted w max count none times = times ≡ []
IsCounted w max count (some start) times =
    (count_since start times ≡ count) × (count ≤ max) × AllBelow (start + w) times

abbrev pub IsStarted : ℕ → Option ℕ → Type 0
IsStarted now none = Unit
IsStarted now (some start) = start ≤ now

pub record IsWithin (parse_duration : Text → Option ℕ) (w max now : ℕ) (r : StuckHeightRecovery)
    (times : List ℕ) : Type 0 where
  pub window : parse_duration (window_of r.spec.rate_limit_window) ≡ some w
  pub limit : max_retries_of r.spec.max_retries ≡ max
  pub started : IsStarted now r.status.rate_limit_window_start
  pub counted : IsCounted w max r.status.recovery_attempts r.status.rate_limit_window_start times

count_since-late : (start : ℕ) (ts : List ℕ) → AllBelow start ts → count_since start ts ≡ 0
count_since-late start [] h = refl
count_since-late start (t ∷ ts) h = ground (arith, count_since-late start ts h.1)

AllBelow-mono : (m n : ℕ) (ts : List ℕ) → m ≤ n → AllBelow m ts → AllBelow n ts
AllBelow-mono m n [] le h = tt
AllBelow-mono m n (t ∷ ts) le h = (omega arith, AllBelow-mono m n ts le h.1)

module _ (parse_duration : Text → Option ℕ) {w max : ℕ} (w_pos : 0 < w) (max_pos : 1 ≤ max) where
  attempt-IsWithin :
      (now t : ℕ) (r : StuckHeightRecovery) (times : List ℕ)
      → now ≤ t
      → IsWithin parse_duration w max now r times
      → IsWithin parse_duration w max t
          (attempt parse_duration t (r, times)).0
          (attempt parse_duration t (r, times)).1
  unfolding can_attempt_recovery record_attempt
  attempt-IsWithin now t r times le h = elim (Option-cases r.status.rate_limit_window_start) [
    | inl none_e ↦ ground (arith, h.counted)
    | inr (s, some_e) ↦ ground (
      arith,
      h.counted,
      h.started,
      count_since-late t times,
      AllBelow-mono (s + w) t times,
      AllBelow-mono (s + w) (t + w) times,
    )
  ]

  attempts-IsCounted :
      (ts : List ℕ) (now : ℕ) (r : StuckHeightRecovery) (times : List ℕ)
      → IsForward now ts
      → IsWithin parse_duration w max now r times
      → let c = attempts parse_duration ts (r, times) in
        IsCounted w max c.0.status.recovery_attempts c.0.status.rate_limit_window_start c.1
  unfolding attempts
  attempts-IsCounted [] now r times f h = h.counted
  attempts-IsCounted (t ∷ ts) now r times f h =
      attempts-IsCounted ts t (attempt parse_duration t (r, times)).0
        (attempt parse_duration t (r, times)).1 f.1 (attempt-IsWithin now t r times f.0 h)

  -- Where the window's length parses and is above 0 and `maxRetries` is at least 1, take a recovery with no
  -- window open, and any number of attempts at times that do not go back:
  -- the attempts that were allowed since the start of the current window are as many as the
  -- status counts, no more than `maxRetries`, and all before the window's end.
  pub attempts_bounded :
      (ts : List ℕ) (r : StuckHeightRecovery)
      → parse_duration (window_of r.spec.rate_limit_window) ≡ some w
      → max_retries_of r.spec.max_retries ≡ max
      → r.status.rate_limit_window_start ≡ none
      → IsForward 0 ts
      → let c = attempts parse_duration ts (r, []) in
        IsCounted w max c.0.status.recovery_attempts c.0.status.rate_limit_window_start c.1
  attempts_bounded ts r e m n f =
      attempts-IsCounted ts 0 r [] f
        (record { window = e; limit = m; started = rw n tt; counted = rw n refl })
