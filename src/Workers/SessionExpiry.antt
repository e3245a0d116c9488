-- ===== src/Workers/SessionExpiry.antt =====
-- The expiry of the sessions whose time is over, src/workers/session-expiry.ts.
use relavoi_backend.Base.{
  ℕ, String, Bool, true, false, ◌&&◌, List, [], ◌∷◌, Option, none, some, ltb, if◌then◌else◌,
  keep_if, take,
}
use relavoi_backend.Store.{SessionRow, in_service}
use relavoi_backend.Session.{World, Defaults}
use relavoi_backend.Session.Expire.{ExpireFaults, expire_session}
use relavoi_backend.Workers.{Worker}

abbrev pub batch_limit : ℕ
batch_limit = 100

-- Which calls throw, and the times of the calls of `expireSession`.
pub record TickAnswers : Type 0 where
  pub query_fails : Bool
  pub expire_faults : String → ExpireFaults
  pub now : ℕ
  pub expires_now : String → ℕ

abbrev pub is_due_row : ℕ → SessionRow → Bool
is_due_row now row = in_service row.state && ltb row.expires_at now

abbrev is_due_option : ℕ → Option SessionRow → Bool
is_due_option now none = false
is_due_option now (some row) = is_due_row now row

abbrev pub is_due : ℕ → World → String → Bool
is_due now w id = is_due_option now (w.rows id)

-- The query, over the ids of the table in the order in which Postgres reads them.
unfoldable pub due_ids : ℕ → List String → World → List String
due_ids now ids w = take batch_limit (keep_if (is_due now w) ids)

-- The loop: a call that throws does not keep the later ones from being made.
unfoldable pub expire_all : Defaults → TickAnswers → List String → World → World
expire_all env a [] w = w
expire_all env a (id ∷ rest) w =
    expire_all env a rest (expire_session env (a.expire_faults id) id (a.expires_now id) w).1

-- `tick`; it leaves the worker out of flight.
unfoldable pub tick : Worker → Defaults → TickAnswers → List String → World → World
tick k env a ids w =
    if k.in_flight then w else if a.query_fails then w else expire_all env a (due_ids a.now ids w) w

pub start : Worker → Worker
start k = record k { is_started = true }

pub stop : Worker → Worker
stop k = record k { is_started = false }
