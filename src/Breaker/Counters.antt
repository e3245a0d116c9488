-- ===== src/Breaker/Counters.antt =====
-- How many failures trip the breaker, and how many successes bring it back.
use relavoi_backend.Base.{
  sym, subst, ℕ, zero, suc, ◌+◌, ◌≤◌, ◌<◌, ◌≡◌, refl, String, List, [], ◌∷◌, ◌++◌, map, arith,
  length, replicate, inl, inr, ◌⊎◌, ap, ◌∙◌, ◌-◌,
}
use relavoi_backend.Breaker.{
  closed, open_state, half_open, Breaker, Settings, fresh, Event, success, failure, health_success,
  step, run,
}

run-append :
    (s : Settings) (b : Breaker) (xs ys : List Event) → run s b (xs ++ ys) ≡ run s (run s b xs) ys
unfolding run
run-append s b [] ys = refl
run-append s b (x ∷ xs) ys = run-append s (step s b x) xs ys

abbrev pub failures : List (String × ℕ) → List Event
failures = map (λ f. failure f.0 f.1)

module _ (s : Settings) where
  failure-open :
      (b : Breaker) (err : String) (now : ℕ)
      → b.state ≡ open_state
      → (step s b (failure err now)).state ≡ open_state
  unfolding step
  failure-open b err now h = ground arith

  -- A failure in `CLOSED` opens the breaker, or is counted below the threshold.
  failure-closed :
      (b : Breaker) (err : String) (now : ℕ)
      → b.state ≡ closed
      → ((step s b (failure err now)).state ≡ open_state)
        ⊎ ((step s b (failure err now)).state ≡ closed)
          × ((step s b (failure err now)).consecutive_failures ≡ b.consecutive_failures + 1)
          × (b.consecutive_failures + 1 < s.failure_threshold)
  unfolding step
  failure-closed b err now h = ground arith

  -- With fewer than ten samples only the count of consecutive failures decides.
  failure_below :
      (b : Breaker) (err : String) (now : ℕ)
      → b.state ≡ closed
      → b.consecutive_failures + 1 < s.failure_threshold
      → b.error_window_count < 9
      → ((step s b (failure err now)).state ≡ closed)
        × ((step s b (failure err now)).consecutive_failures ≡ b.consecutive_failures + 1)
        × ((step s b (failure err now)).error_window_count ≤ b.error_window_count + 1)
  unfolding step
  failure_below b err now h c w = ground arith

  failures-open :
      (b : Breaker) (fs : List (String × ℕ))
      → b.state ≡ open_state
      → (run s b (failures fs)).state ≡ open_state
  unfolding run
  failures-open b [] h = h
  failures-open b (f ∷ fs) h =
      failures-open (step s b (failure f.0 f.1)) fs (failure-open b f.0 f.1 h)

  -- From `CLOSED`, as many failures in a row as the threshold still lacks open the breaker, whatever
  -- their times and messages and whatever the error window holds.
  pub failures_trip :
      (b : Breaker) (f : String × ℕ) (fs : List (String × ℕ))
      → b.state ≡ closed
      → s.failure_threshold ≤ b.consecutive_failures + length (f ∷ fs)
      → (run s b (failures (f ∷ fs))).state ≡ open_state
  unfolding run
  failures_trip b f [] h t = ground (arith, failure-closed b f.0 f.1)
  failures_trip b f (g ∷ fs) h t = elim (failure-closed b f.0 f.1 h) [
    | inl opened ↦ failures-open (step s b (failure f.0 f.1)) (g ∷ fs) opened
    | inr (still, counted, _) ↦ failures_trip (step s b (failure f.0 f.1)) g fs still (omega arith)
  ]

  -- Fewer failures than the threshold lacks leave the breaker closed, as long as the error window
  -- has fewer than ten samples.
  failures_tolerated :
      (b : Breaker) (fs : List (String × ℕ))
      → b.state ≡ closed
      → b.consecutive_failures + length fs < s.failure_threshold
      → b.error_window_count + length fs < 10
      → (run s b (failures fs)).state ≡ closed
  unfolding run
  failures_tolerated b [] h c w = h
  failures_tolerated b (f ∷ fs) h c w =
      let (still, counted, sampled) = failure_below b f.0 f.1 h (omega arith) (omega arith) in
      failures_tolerated (step s b (failure f.0 f.1)) fs still (omega arith) (omega arith)

  -- `n` more probe successes are needed, and `n` are enough.
  probes :
      (n : ℕ) (b : Breaker)
      → b.state ≡ open_state
      → b.health_check_successes + suc n ≡ s.recovery_check_count
      → ((run s b (replicate (suc n) health_success)).state ≡ half_open)
        × ((run s b (replicate (suc n) health_success)).half_open_success_count ≡ 0)
        × ((run s b (replicate (suc n) health_success)).half_open_failure_count ≡ 0)
        × ((run s b (replicate (suc n) health_success)).last_error ≡ b.last_error)
  unfolding run step
  probes zero b h c = ground arith
  probes (suc n) b h c = ground (arith, probes n (step s b health_success))

  closings :
      (now n : ℕ) (b : Breaker)
      → b.state ≡ half_open
      → b.half_open_failure_count ≡ 0
      → b.half_open_success_count + suc n ≡ s.recovery_check_count
      → run s b (replicate (suc n) (success now)) ≡ record fresh { last_error = b.last_error }
  unfolding run step
  closings now zero b h f c = ground arith
  closings now (suc n) b h f c = ground (arith, closings now n (step s b (success now)))

  -- From `OPEN` with no probe counted yet, the recovery count of probe successes and then as many
  -- request successes give back the hash as it was at the start, but for the last error.
  pub recovery :
      (b : Breaker) (now : ℕ)
      → b.state ≡ open_state
      → b.health_check_successes ≡ 0
      → 0 < s.recovery_check_count
      → run s b (
          replicate s.recovery_check_count health_success
          ++ replicate s.recovery_check_count (success now))
        ≡ record fresh { last_error = b.last_error }
  recovery b now h c pos =
      let n = s.recovery_check_count - 1 in
      let e : s.recovery_check_count ≡ suc n = omega arith in
      let (half, none_yet, no_failure, kept) = probes n b h (omega arith) in
      subst
        (λ k.
          run s b (replicate k health_success ++ replicate k (success now))
          ≡ record fresh { last_error = b.last_error })
        (sym e)
        (run-append s b (replicate (suc n) health_success) (replicate (suc n) (success now))
          ∙ closings now n (run s b (replicate (suc n) health_success)) half no_failure
              (omega arith)
          ∙ ap (λ r. record fresh { last_error = r }) kept)
