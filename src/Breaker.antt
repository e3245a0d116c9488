-- ===== src/Breaker.antt =====
-- The circuit breaker of src/services/circuit-breaker.ts and the probe of
-- src/workers/cpaas-health-check.ts.
--
-- `Breaker` is the Redis hash `cb:{provider}`. Every read of the source takes a missing field for
-- '0' (`CLOSED` for the state), so a field that is not there is its default. Times are milliseconds.
-- Each method is one step: the commands of two concurrent calls are not interleaved. A method whose
-- command throws has a step of its own, which leaves the writes that were made before it.
pub mod Reachable
pub mod Diagram
pub mod Counters
pub mod Probes
mod Tests
use relavoi_backend.Base.{
  ℕ, ◌+◌, ◌*◌, ◌^◌, String, Bool, true, false, ◌&&◌, ◌||◌, List, [], ◌∷◌, ltb, leb, ◌==◌, nat_eq,
  string_eq, if◌then◌else◌,
}

pub data CbState : Type 0 where
  closed open_state half_open : CbState

-- `lastError`: the message of an error, or one of the breaker's own reasons with the numbers that
-- the source formats into it.
pub data LastError : Type 0 where
  message : String → LastError
  consecutive : ℕ → LastError
  error_rate : ℕ → ℕ → LastError

pub record Breaker : Type 0 where
  pub state : CbState
  pub opened_at : ℕ
  pub half_open_success_count : ℕ
  pub half_open_failure_count : ℕ
  pub error_window_start : ℕ
  pub error_window_count : ℕ
  pub error_window_failure_count : ℕ
  pub consecutive_failures : ℕ
  pub health_check_successes : ℕ
  pub last_error : LastError

-- The `CB_` settings of src/config/env.ts. The error rate is the fraction `rate_num / rate_den`.
pub record Settings : Type 0 where
  pub failure_threshold : ℕ
  pub rate_num : ℕ
  pub rate_den : ℕ
  pub window_seconds : ℕ
  pub recovery_check_count : ℕ
  pub half_open_traffic_percent : ℕ

-- The hash that is not there.
abbrev pub fresh : Breaker
fresh = record {
  state = closed;
  opened_at = 0;
  half_open_success_count = 0;
  half_open_failure_count = 0;
  error_window_start = 0;
  error_window_count = 0;
  error_window_failure_count = 0;
  consecutive_failures = 0;
  health_check_successes = 0;
  last_error = message "";
}

unfoldable pub transition_to_open : LastError → ℕ → Breaker → Breaker
transition_to_open reason now b = record b {
  state = open_state;
  opened_at = now;
  health_check_successes = 0;
  half_open_success_count = 0;
  half_open_failure_count = 0;
  last_error = reason;
}

unfoldable pub transition_to_half_open : Breaker → Breaker
transition_to_half_open b = record b {
  state = half_open;
  half_open_success_count = 0;
  half_open_failure_count = 0;
  consecutive_failures = 0;
  error_window_start = 0;
  error_window_count = 0;
  error_window_failure_count = 0;
}

unfoldable pub transition_to_closed : Breaker → Breaker
transition_to_closed b = record b {
  state = closed;
  opened_at = 0;
  consecutive_failures = 0;
  error_window_start = 0;
  error_window_count = 0;
  error_window_failure_count = 0;
  health_check_successes = 0;
  half_open_success_count = 0;
  half_open_failure_count = 0;
}

-- `!winStart || now - winStart > windowMs`.
unfoldable pub window_over : Settings → ℕ → Breaker → Bool
window_over s now b =
    b.error_window_start == 0 || ltb (b.error_window_start + s.window_seconds * 1000) now

module _ (s : Settings) where
  -- `roll / 2 ^ 53` is the value of `Math.random()`.
  admit : CbState → ℕ → Bool
  admit closed roll = true
  admit open_state roll = false
  admit half_open roll = ltb (roll * 100) (s.half_open_traffic_percent * 2 ^ 53)

  pub can_request : Breaker → ℕ → Bool
  unfolding admit
  can_request b roll = admit b.state roll

  -- `success / total > 0.95` is `success * 100 > total * 95`.
  half_open_success : Breaker → ℕ → Breaker
  unfolding transition_to_closed transition_to_open
  half_open_success b now =
      if leb s.recovery_check_count (b.half_open_success_count + b.half_open_failure_count)
      then if ltb ((b.half_open_success_count + b.half_open_failure_count) * 95)
          (b.half_open_success_count * 100)
        then transition_to_closed b
        else transition_to_open (message "half-open recovery rate insufficient") now b
      else b

  success_at : CbState → Breaker → ℕ → Breaker
  unfolding half_open_success
  success_at closed b now = record b { consecutive_failures = 0 }
  success_at open_state b now = b
  success_at half_open b now =
      half_open_success (record b { half_open_success_count = b.half_open_success_count + 1 }) now

  unfoldable pub record_success : Breaker → ℕ → Breaker
  unfolding success_at
  record_success b now = success_at b.state b now

  -- A failure in the error window: the first of a new one, or one more.
  window_failure : Breaker → LastError → ℕ → Breaker
  unfolding window_over
  window_failure b err now =
      if window_over s now b
      then record b {
        error_window_start = now;
        error_window_count = 1;
        error_window_failure_count = 1;
        last_error = err;
      }
      else record b {
        error_window_count = b.error_window_count + 1;
        error_window_failure_count = b.error_window_failure_count + 1;
        last_error = err;
      }

  -- The trip conditions. `winFailures / winTotal > threshold` is taken without the division.
  evaluate : Breaker → ℕ → Breaker
  unfolding transition_to_open
  evaluate b now =
      if leb s.failure_threshold b.consecutive_failures
      then transition_to_open (consecutive b.consecutive_failures) now b
      else if leb 10 b.error_window_count
          && ltb (s.rate_num * b.error_window_count) (b.error_window_failure_count * s.rate_den)
      then transition_to_open (error_rate b.error_window_failure_count b.error_window_count) now b
      else b

  failure_at : CbState → Breaker → String → ℕ → Breaker
  unfolding transition_to_open window_failure evaluate
  failure_at half_open b err now =
      transition_to_open (message (if err == "" then "half-open probe failed" else err)) now
        (record b { half_open_failure_count = b.half_open_failure_count + 1 })
  failure_at open_state b err now = record b { last_error = message err }
  failure_at closed b err now =
      evaluate
        (window_failure (record b { consecutive_failures = b.consecutive_failures + 1 })
          (message err) now)
        now

  unfoldable pub record_failure : Breaker → String → ℕ → Breaker
  unfolding failure_at
  record_failure b err now = failure_at b.state b err now

  request_at : CbState → Breaker → ℕ → Breaker
  unfolding window_over
  request_at closed b now =
      if window_over s now b
      then record b {
        error_window_start = now;
        error_window_count = 1;
        error_window_failure_count = 0;
      }
      else record b { error_window_count = b.error_window_count + 1 }
  request_at open_state b now = b
  request_at half_open b now = b

  unfoldable pub record_request : Breaker → ℕ → Breaker
  unfolding request_at
  record_request b now = request_at b.state b now

  health_success_at : CbState → Breaker → Breaker
  unfolding transition_to_half_open
  health_success_at closed b = record b { health_check_successes = 0 }
  health_success_at half_open b = record b { health_check_successes = 0 }
  health_success_at open_state b =
      let counted = record b { health_check_successes = b.health_check_successes + 1 } in
      if leb s.recovery_check_count (b.health_check_successes + 1)
      then transition_to_half_open counted
      else counted

  unfoldable pub record_health_check_success : Breaker → Breaker
  unfolding health_success_at
  record_health_check_success b = health_success_at b.state b

unfoldable pub record_health_check_failure : Breaker → Breaker
record_health_check_failure b = record b { health_check_successes = 0 }

-- `recordSuccess` and `recordHealthCheckSuccess` where a command throws after the first `n` writes: the
-- one before the transition is made, or not.
unfoldable pub cut_success : ℕ → Breaker → Breaker
cut_success n b = by_state b.state
  where
    by_state : CbState → Breaker
    by_state half_open =
        if n == 0 then b else record b { half_open_success_count = b.half_open_success_count + 1 }
    by_state closed = b
    by_state open_state = b

unfoldable pub cut_health_success : ℕ → Breaker → Breaker
cut_health_success n b = by_state b.state
  where
    by_state : CbState → Breaker
    by_state open_state =
        if n == 0 then b else record b { health_check_successes = b.health_check_successes + 1 }
    by_state closed = b
    by_state half_open = b

-- `recordFailure` where a command throws after the first `n` writes, of which there are at most those
-- before the transition.
unfoldable pub cut_failure : Settings → ℕ → Breaker → String → ℕ → Breaker
unfolding window_over
cut_failure s n b err now = by_state b.state
  where
    counted : Breaker
    counted = record b { consecutive_failures = b.consecutive_failures + 1 }

    sampled : Breaker
    sampled = record counted { error_window_count = b.error_window_count + 1 }

    failed : Breaker
    failed = record sampled { error_window_failure_count = b.error_window_failure_count + 1 }

    by_state : CbState → Breaker
    by_state half_open =
        if n == 0 then b else record b { half_open_failure_count = b.half_open_failure_count + 1 }
    by_state open_state = b
    by_state closed =
        if n == 0
        then b
        else if n == 1
        then counted
        else if window_over s now b
        then record counted {
          error_window_start = now;
          error_window_count = 1;
          error_window_failure_count = 1;
          last_error = message err;
        }
        else if n == 2
        then sampled
        else if n == 3
        then failed
        else record failed { last_error = message err }

unfoldable pub force_state : Breaker → CbState → Breaker
force_state b st = record b { state = st }

-- The calls that the rest of the program can make, with the time of each, and those that throw after
-- a number of writes. A call of one write that throws leaves the hash as it is.
pub data Event : Type 0 where
  success : ℕ → Event
  failure : String → ℕ → Event
  request : ℕ → Event
  health_success : Event
  health_failure : Event
  force : CbState → Event
  success_thrown : ℕ → Event
  failure_thrown : ℕ → String → ℕ → Event
  health_success_thrown : ℕ → Event

module _ (s : Settings) where
  unfoldable pub step : Breaker → Event → Breaker
  unfolding record_success record_failure record_request record_health_check_success
      record_health_check_failure force_state cut_success cut_failure cut_health_success
  step b (success now) = record_success s b now
  step b (failure err now) = record_failure s b err now
  step b (request now) = record_request s b now
  step b health_success = record_health_check_success s b
  step b health_failure = record_health_check_failure b
  step b (force st) = force_state b st
  step b (success_thrown n) = cut_success n b
  step b (failure_thrown n err now) = cut_failure s n b err now
  step b (health_success_thrown n) = cut_health_success n b

  unfoldable pub run : Breaker → List Event → Breaker
  unfolding step
  run b [] = b
  run b (e ∷ es) = run (step b e) es

  -- `CpaasHealthCheckWorker.tick`, given what the probe of the provider would answer.
  probe_at : CbState → Breaker → Bool → ℕ → Breaker
  unfolding record_health_check_success record_failure
  probe_at open_state b ok now =
      if ok
      then record_health_check_success s b
      else record_failure s b "Health check probe failed" now
  probe_at closed b ok now = b
  probe_at half_open b ok now = b

  unfoldable pub tick : Breaker → Bool → ℕ → Breaker
  unfolding probe_at
  tick b ok now = probe_at b.state b ok now
