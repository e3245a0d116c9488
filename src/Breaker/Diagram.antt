-- ===== src/Breaker/Diagram.antt =====
-- The state diagram of the breaker, with its conditions.
use relavoi_backend.Base.{
  leb, ltb, ◌+◌, ◌*◌, ℕ, ◌≤◌, ◌<◌, String, Bool, ◌&&◌, ◌||◌, not, nat_eq, ◌==◌, ◌⊎◌, ◌≢◌,
}
use relavoi_backend.Breaker.{
  CbState, closed, open_state, half_open, Breaker, Settings, Event, success, failure,
  health_success, force,
}

-- The error rate is above the threshold over the samples, of which there are ten at least.
pub IsOverRate : Settings → ℕ → ℕ → Type 0
IsOverRate s total failures = (10 ≤ total) × (s.rate_num * total < failures * s.rate_den)

-- A failure at the time is one more of a window that is still open.
pub IsInWindow : Settings → Breaker → ℕ → Type 0
IsInWindow s b now =
    (b.error_window_start ≢ 0) × (now ≤ b.error_window_start + s.window_seconds * 1000)

-- The conditions under which a failure opens a closed breaker.
pub Trips : Settings → Breaker → ℕ → Type 0
Trips s b now =
    (s.failure_threshold ≤ b.consecutive_failures + 1)
    ⊎ (IsInWindow s b now
        × IsOverRate s (b.error_window_count + 1) (b.error_window_failure_count + 1))

-- The calls for which the diagram has no edge out of a state.
pub IsIdle : Event → CbState → Type 0
IsIdle (success now) closed = Unit
IsIdle (success now) open_state = Unit
IsIdle (success now) half_open = ⊥
IsIdle (failure err now) open_state = Unit
IsIdle (failure err now) _ = ⊥
IsIdle health_success open_state = ⊥
IsIdle health_success _ = Unit
IsIdle (force st) _ = ⊥
IsIdle _ _ = Unit

-- The diagram in the header of circuit-breaker.ts with the conditions of its edges, and of the calls
-- that take none. It has two edges more than that diagram: `refuse`, for a success rate that is too
-- low when the samples are complete, and `forced`.
pub data Moves (s : Settings) (b : Breaker) : Event → CbState → CbState → Type 0 where
  trip : {err : String} {now : ℕ} → Trips s b now → Moves s b (failure err now) closed open_state
  tolerate : {err : String} {now : ℕ} → ¬ Trips s b now → Moves s b (failure err now) closed closed
  probe :
      s.recovery_check_count ≤ b.health_check_successes + 1
      → Moves s b health_success open_state half_open
  wait :
      b.health_check_successes + 1 < s.recovery_check_count
      → Moves s b health_success open_state open_state
  recover :
      {now : ℕ}
      → s.recovery_check_count ≤ b.half_open_success_count + 1 + b.half_open_failure_count
      → (b.half_open_success_count + 1 + b.half_open_failure_count) * 95
        < (b.half_open_success_count + 1) * 100
      → Moves s b (success now) half_open closed
  refuse :
      {now : ℕ}
      → s.recovery_check_count ≤ b.half_open_success_count + 1 + b.half_open_failure_count
      → (b.half_open_success_count + 1) * 100
        ≤ (b.half_open_success_count + 1 + b.half_open_failure_count) * 95
      → Moves s b (success now) half_open open_state
  sample :
      {now : ℕ}
      → b.half_open_success_count + 1 + b.half_open_failure_count < s.recovery_check_count
      → Moves s b (success now) half_open half_open
  relapse : {err : String} {now : ℕ} → Moves s b (failure err now) half_open open_state
  idle : {e : Event} {st : CbState} → IsIdle e st → Moves s b e st st
  forced : {st st' : CbState} → Moves s b (force st') st st'

module _ (s : Settings) (b : Breaker) where
  -- The test of the conditions, and what it decides.
  trips : ℕ → Bool
  trips now =
      leb s.failure_threshold (b.consecutive_failures + 1)
      || (not (b.error_window_start == 0)
          && leb now (b.error_window_start + s.window_seconds * 1000)
          && leb 10 (b.error_window_count + 1)
          && ltb (s.rate_num * (b.error_window_count + 1))
              ((b.error_window_failure_count + 1) * s.rate_den))
