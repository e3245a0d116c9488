-- ===== src/Workers.antt =====
-- The workers that run at intervals, src/workers/session-expiry.ts and src/workers/pool-reaper.ts.
--
-- A tick is one step: no second tick starts inside it, since `inFlight` is set while it runs. Timers,
-- counters and logs are left out.
pub mod SessionExpiry
pub mod PoolReaper
pub mod Expiring
mod Tests
use relavoi_backend.Base.{Bool}

-- What a worker keeps between its ticks.
pub record Worker : Type 0 where
  pub is_started : Bool  -- `timer`
  pub in_flight : Bool
