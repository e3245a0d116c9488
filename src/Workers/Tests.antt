-- ===== src/Workers/Tests.antt =====
-- The workers at concrete inputs.
use relavoi_backend.Workers.Expiring.{IsOverdue, tick-row}
use relavoi_backend.Workers.PoolReaper.{distinct_regions, or_default}
use relavoi_backend.Workers.SessionExpiry.{TickAnswers, tick}
use relavoi_backend.Workers.{Worker}
use relavoi_backend.Store.{expired}
use relavoi_backend.Base.{
  ◌⊎◌, Option, ◌≡◌, refl, String, true, false, [], ◌∷◌, none, some, if◌then◌else◌, arith,
  Bool-cases, inl, inr, eq_iff, ◌==◌, string_eq, contains, sadd,
}
use relavoi_backend.Store.{NumberRow, cooldown_status}
use relavoi_backend.Session.{World}
use relavoi_backend.Session.Keeps.{IsKeyed}
use relavoi_backend.Examples.{quiet, env, down_pool, order_row}

abbrev one_session : World
one_session = record quiet { rows = λ id. if "s1" == id then some order_row else none }

abbrev idle_worker : Worker
idle_worker = record { is_started = true; in_flight = false }

-- A day after the session began.
abbrev a_day_later : TickAnswers
a_day_later = record {
  query_fails = false;
  expire_faults = λ id. down_pool;
  now = 86500000;
  expires_now = λ id. 86500001;
}

one_session-IsKeyed : IsKeyed one_session
unfolding IsKeyed
one_session-IsKeyed id row = elim (Bool-cases ("s1" == id)) [
  | inl same ↦ rw same λ e. ground (arith, eq_iff "s1" id)
  | inr other ↦ rw other λ e. absurd cc
]

tick-row_example :
    (IsOverdue a_day_later.now order_row
      × ((tick idle_worker env a_day_later ("s0" ∷ "s1" ∷ []) one_session).rows "s1"
          ≡ some (record order_row { state = expired; expired_at = some 86500001 })))
    ⊎ ((¬ IsOverdue a_day_later.now order_row)
        × ((tick idle_worker env a_day_later ("s0" ∷ "s1" ∷ []) one_session).rows "s1"
            ≡ some order_row))
unfolding contains
tick-row_example =
    tick-row idle_worker env a_day_later ("s0" ∷ "s1" ∷ []) one_session "s1" order_row refl refl
      (omega arith) refl (record { reads = refl; updates = refl }) refl one_session-IsKeyed refl

abbrev resting : Option String → NumberRow
resting region = record {
  number = "+2341";
  region = region;
  status = cooldown_status;
  cooldown_until = some 5000;
  last_used_at = none;
}

-- A number without a region is kept in that of "lagos", but is not a reason to reap it.
other_region_only :
    or_default (distinct_regions (resting none ∷ resting (some "abuja") ∷ [])) ≡ "abuja" ∷ []
unfolding distinct_regions contains sadd
other_region_only = refl

no_region : or_default (distinct_regions (resting none ∷ [])) ≡ "lagos" ∷ []
unfolding distinct_regions
no_region = refl
