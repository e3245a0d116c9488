-- ===== src/Breaker/Reachable.antt =====
-- What holds of the breaker in every reachable state, and which edges its calls take.
use relavoi_backend.Base.{
  All, leb, if◌then◌else◌, ◌+◌, ℕ, ◌≤◌, ◌≡◌, List, [], ◌∷◌, arith, nat_eq, refl,
}
use relavoi_backend.Breaker.{
  closed, open_state, half_open, Breaker, Settings, fresh, Event, success, failure, request,
  health_success, health_failure, force, success_thrown, failure_thrown, health_success_thrown,
  step, run, record_success,
}

-- The counters of a state are those that its transitions read.
pub record IsTidy (b : Breaker) : Type 0 where
  pub window : b.error_window_failure_count ≤ b.error_window_count
  pub no_probes : b.state ≡ closed → b.health_check_successes ≡ 0
  pub no_samples_closed :
      b.state ≡ closed → (b.half_open_success_count ≡ 0) × (b.half_open_failure_count ≡ 0)
  pub no_samples_open :
      b.state ≡ open_state → (b.half_open_success_count ≡ 0) × (b.half_open_failure_count ≡ 0)
  pub no_failures : b.state ≡ half_open → b.consecutive_failures ≡ 0
  pub no_window : b.state ≡ half_open → (b.error_window_start ≡ 0) × (b.error_window_count ≡ 0)

abbrev pub IsUnforced : Event → Type 0
IsUnforced (force st) = ⊥
IsUnforced _ = Unit

module _ (s : Settings) where
  step-IsTidy : (b : Breaker) (e : Event) → IsUnforced e → IsTidy b → IsTidy (step s b e)
  unfolding step
  step-IsTidy b (success now) l v = ground arith
  step-IsTidy b (failure err now) l v = ground arith
  step-IsTidy b (request now) l v = ground arith
  step-IsTidy b health_success l v = ground arith
  step-IsTidy b health_failure l v = ground arith
  step-IsTidy b (force st) l v = absurd l
  step-IsTidy b (success_thrown n) l v = ground arith
  step-IsTidy b (failure_thrown n err now) l v = ground arith
  step-IsTidy b (health_success_thrown n) l v = ground arith

  run-IsTidy : (b : Breaker) (es : List Event) → All IsUnforced es → IsTidy b → IsTidy (run s b es)
  unfolding run
  run-IsTidy b [] l v = v
  run-IsTidy b (e ∷ es) l v = run-IsTidy (step s b e) es l.1 (step-IsTidy b e l.0 v)

  -- After any calls but forced states, from the empty hash, wherever the commands of a call throw:
  -- the window holds no more failures than samples; a closed breaker has counted no probes; a closed
  -- or open one holds no half-open samples; and a half-open one has no failures in a row and an
  -- empty window, so that what was before the trip does not weigh on it.
  pub run-fresh-IsTidy : (es : List Event) → All IsUnforced es → IsTidy (run s fresh es)
  run-fresh-IsTidy es l = run-IsTidy fresh es l (ground arith)

-- The calls that no command of theirs throws out of.
abbrev pub IsComplete : Event → Type 0
IsComplete (success_thrown n) = ⊥
IsComplete (failure_thrown n err now) = ⊥
IsComplete (health_success_thrown n) = ⊥
IsComplete _ = Unit

step-no_failure :
    (s : Settings) (b : Breaker) (e : Event)
    → IsComplete e
    → b.half_open_failure_count ≡ 0
    → (step s b e).half_open_failure_count ≡ 0
unfolding step
step-no_failure s b (success now) l v = ground arith
step-no_failure s b (failure err now) l v = ground arith
step-no_failure s b (request now) l v = ground arith
step-no_failure s b health_success l v = ground arith
step-no_failure s b health_failure l v = ground arith
step-no_failure s b (force st) l v = ground arith
step-no_failure s b (success_thrown n) l v = absurd l
step-no_failure s b (failure_thrown n err now) l v = absurd l
step-no_failure s b (health_success_thrown n) l v = absurd l

run-no_failure :
    (s : Settings) (b : Breaker) (es : List Event)
    → All IsComplete es
    → b.half_open_failure_count ≡ 0
    → (run s b es).half_open_failure_count ≡ 0
unfolding run
run-no_failure s b [] l v = v
run-no_failure s b (e ∷ es) l v = run-no_failure s (step s b e) es l.1 (step-no_failure s b e l.0 v)

success-half_open :
    (s : Settings) (b : Breaker) (now : ℕ)
    → b.half_open_failure_count ≡ 0
    → b.state ≡ half_open
    → (record_success s b now).state
      ≡ (if leb s.recovery_check_count (b.half_open_success_count + 1) then closed else half_open)
unfolding record_success
success-half_open s b now v h = ground arith

-- After any calls from the empty hash, forced states among them, as long as no command of Redis
-- threw: a success in `HALF_OPEN` closes the breaker exactly when it completes the recovery count,
-- and otherwise leaves it half open; the branch for an insufficient success rate is not taken.
pub record_success-half_open :
    (s : Settings) (es : List Event) (now : ℕ)
    → All IsComplete es
    → (run s fresh es).state ≡ half_open
    → (record_success s (run s fresh es) now).state ≡ (
        if leb s.recovery_check_count ((run s fresh es).half_open_success_count + 1)
        then closed
        else half_open)
record_success-half_open s es now l h =
    success-half_open s (run s fresh es) now (run-no_failure s fresh es l refl) h
