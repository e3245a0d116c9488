-- ===== src/Pool.antt =====
-- The pool of proxy numbers, src/services/number-pool.ts, with its two Lua scripts.
--
-- A script is atomic. `SRANDMEMBER` is a draw: the attempt `i` of the script draws `draw i`. A
-- Boolean argument `fails` says that a call of Redis or Postgres throws. Metrics and logs are left
-- out.
pub mod Allocate
pub mod Release
pub mod Loading
pub mod Candidates
pub mod Invariant
pub mod Allocation
pub mod Lifecycle
pub mod Cycle
pub mod Load
pub mod Reaping
mod Tests
use relavoi_backend.Base.{
  ℕ, zero, suc, ◌+◌, ◌*◌, ◌%◌, String, Bool, true, false, ◌||◌, ◌&&◌, not, List, [], ◌∷◌, ◌++◌, map,
  Option, none, some, ltb, leb, ◌==◌, nat_eq, string_eq, if◌then◌else◌, or_else, or_option, length,
  get_elem?, contains, sadd, srem, update,
}
use relavoi_backend.Store.{
  SessionHash, Redis, NumberRow, NumberStatus, available_status, in_use_status, cooldown_status,
  quarantined_status, is_text,
}

abbrev pub default_region : String
default_region = "lagos"

-- Members of a sorted set, and the commands on it.
unfoldable pub zcontains : String → List (String × ℕ) → Bool
zcontains x [] = false
zcontains x ((y, n) ∷ z) = y == x || zcontains x z

unfoldable pub zrem : String → List (String × ℕ) → List (String × ℕ)
zrem x [] = []
zrem x ((y, n) ∷ z) = let rest = zrem x z in if y == x then rest else (y, n) ∷ rest

unfoldable pub zadd : ℕ → String → List (String × ℕ) → List (String × ℕ)
unfolding zrem
zadd n x z = (x, n) ∷ zrem x z

-- `ZRANGEBYSCORE key 0 now`.
unfoldable pub zrange_to : ℕ → List (String × ℕ) → List String
zrange_to now [] = []
zrange_to now ((x, n) ∷ z) = let rest = zrange_to now z in if leb n now then x ∷ rest else rest
