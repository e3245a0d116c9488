-- ===== src/Breaker/Probes.antt =====
-- The probes of the health-check worker.
use relavoi_backend.Base.{
  ℕ, ◌+◌, ◌<◌, ◌≡◌, Bool, true, false, List, [], ◌∷◌, map, arith, leb, if◌then◌else◌, count_true,
}
use relavoi_backend.Breaker.{open_state, half_open, Breaker, Settings, tick}

module _ (s : Settings) where
  -- The worker's ticks, each with the answer and the time of its probe.
  unfoldable pub ticks : Breaker → List (Bool × ℕ) → Breaker
  unfolding tick
  ticks b [] = b
  ticks b ((ok, now) ∷ rest) = ticks (tick s b ok now) rest

  tick-half_open :
      (b : Breaker) (rest : List (Bool × ℕ))
      → b.state ≡ half_open
      → (ticks b rest).state ≡ half_open
  unfolding ticks
  tick-half_open b [] h = h
  tick-half_open b ((ok, now) ∷ rest) h = ground (arith, tick-half_open b rest)

  -- From `OPEN`, the ticks reach `HALF_OPEN` exactly when the successful probes among them, in
  -- whatever order they come with failed ones, make up the recovery count: a failed probe does not
  -- set the count back.
  pub ticks_state :
      (b : Breaker) (rest : List (Bool × ℕ))
      → b.state ≡ open_state
      → b.health_check_successes < s.recovery_check_count
      → (ticks b rest).state ≡ (
          if leb s.recovery_check_count
            (b.health_check_successes + count_true (map (λ t. t.0) rest))
          then half_open
          else open_state)
  unfolding ticks
  ticks_state b [] h c = ground arith
  ticks_state b ((true, now) ∷ rest) h c =
      ground (arith, tick-half_open (tick s b true now) rest, ticks_state (tick s b true now) rest)
  ticks_state b ((false, now) ∷ rest) h c = ground (arith, ticks_state (tick s b false now) rest)
