-- ===== src/Breaker/Tests.antt =====
-- The breaker at concrete inputs.
use relavoi_backend.Base.{
  ◌+◌, ℕ, ◌≡◌, refl, String, Bool, true, false, List, [], ◌∷◌, ◌++◌, replicate, arith, leb,
  count_true, map, if◌then◌else◌,
}
use relavoi_backend.Breaker.{
  Breaker, Settings, closed, open_state, half_open, fresh, Event, success, failure, request,
  health_success, failure_thrown, message, run, record_success,
}
use relavoi_backend.Breaker.Reachable.{IsTidy, run-fresh-IsTidy, record_success-half_open}
use relavoi_backend.Breaker.Counters.{failures, failures_trip, recovery}
use relavoi_backend.Breaker.Probes.{ticks, ticks_state}

-- The defaults of src/config/env.ts.
abbrev pub defaults : Settings
defaults = record {
  failure_threshold = 5;
  rate_num = 1;
  rate_den = 10;
  window_seconds = 120;
  recovery_check_count = 5;
  half_open_traffic_percent = 10;
}

-- Eleven requests and two failures are more than a tenth of the samples.
abbrev sampled : List Event
sampled = replicate 11 (request 1000) ++ (failure "e" 2000 ∷ success 2500 ∷ failure "e" 3000 ∷ [])

rate_trips : (run defaults fresh sampled).state ≡ open_state
unfolding run
rate_trips = refl

abbrev calls : List Event
calls = failure "e" 1 ∷ failure_thrown 3 "e" 1 ∷ request 2 ∷ success 3 ∷ health_success ∷ []

run-fresh-IsTidy_example : IsTidy (run defaults fresh calls)
run-fresh-IsTidy_example = run-fresh-IsTidy defaults calls (tt, (tt, (tt, (tt, (tt, tt)))))

abbrev to_half_open : List Event
to_half_open =
    failure "e" 1
    ∷ failure "e" 2
    ∷ failure "e" 3
    ∷ failure "e" 4
    ∷ failure "e" 5
    ∷ health_success
    ∷ health_success
    ∷ health_success
    ∷ health_success
    ∷ health_success
    ∷ success 6
    ∷ []

is_half_open : (run defaults fresh to_half_open).state ≡ half_open
unfolding run
is_half_open = refl

record_success-half_open_example :
    (record_success defaults (run defaults fresh to_half_open) 7).state ≡ (
      if leb 5 ((run defaults fresh to_half_open).half_open_success_count + 1)
      then closed
      else half_open)
record_success-half_open_example =
    record_success-half_open defaults to_half_open 7
      (tt, (tt, (tt, (tt, (tt, (tt, (tt, (tt, (tt, (tt, (tt, tt))))))))))) is_half_open

abbrev probing : Breaker
probing = record fresh { state = half_open }

-- A failure that throws before its transition is kept, and then four successes of five are too few.
refused :
    (run defaults probing
      (failure_thrown 1 "e" 1 ∷ success 2 ∷ success 3 ∷ success 4 ∷ success 5 ∷ [])).state
    ≡ open_state
unfolding run
refused = refl

abbrev five : List (String × ℕ)
five = ("a", 1) ∷ ("b", 2) ∷ ("c", 3) ∷ ("d", 4) ∷ ("e", 500000) ∷ []

failures_trip_example : (run defaults fresh (failures five)).state ≡ open_state
failures_trip_example =
    failures_trip defaults fresh ("a", 1) (("b", 2) ∷ ("c", 3) ∷ ("d", 4) ∷ ("e", 500000) ∷ []) refl
      (omega arith)

abbrev four : List (String × ℕ)
four = ("a", 1) ∷ ("b", 2) ∷ ("c", 3) ∷ ("d", 4) ∷ []

abbrev tripped : Breaker
tripped = record fresh {
  state = open_state;
  opened_at = 4;
  consecutive_failures = 5;
  last_error = message "e";
}

recovery_example :
    run defaults tripped (replicate 5 health_success ++ replicate 5 (success 9))
    ≡ record fresh { last_error = message "e" }
recovery_example = recovery defaults tripped 9 refl refl (omega arith)

abbrev probes : List (Bool × ℕ)
probes = (true, 1) ∷ (true, 2) ∷ (false, 3) ∷ (true, 4) ∷ (true, 5) ∷ (true, 6) ∷ []

ticks_state_example :
    (ticks defaults tripped probes).state
    ≡ (if leb 5 (0 + count_true (map (λ t. t.0) probes)) then half_open else open_state)
ticks_state_example = ticks_state defaults tripped probes refl (omega arith)
