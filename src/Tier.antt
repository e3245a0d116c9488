-- ===== src/Tier.antt =====
-- The limits of a tenant's tier, src/services/tier-enforcer.ts and
-- src/api/middleware/tier-rate-limit.ts.
--
-- `ApiCalls` is the sorted set `tenant:{id}:api_calls`: each call with its time. A call gets a
-- member `{now}-{random}`. The headers of the reply, the load-test switch and the EXPIRE of the
-- set, which outlives the window, are left out.
pub mod Window
mod Tests
use relavoi_backend.Base.{
  ℕ, ◌+◌, String, Bool, true, false, List, [], ◌∷◌, ltb, leb, if◌then◌else◌, length,
}
use relavoi_backend.Pool.{zadd}

pub data Tier : Type 0 where
  starter growth enterprise : Tier

unfoldable pub max_concurrent_sessions : Tier → ℕ
max_concurrent_sessions starter = 100
max_concurrent_sessions growth = 1000
max_concurrent_sessions enterprise = 10000

unfoldable pub max_api_req_per_min : Tier → ℕ
max_api_req_per_min starter = 100
max_api_req_per_min growth = 500
max_api_req_per_min enterprise = 2000

abbrev pub ApiCalls : Type 0
ApiCalls = List (String × ℕ)

abbrev pub window_ms : ℕ
window_ms = 60000

-- `TierEnforcer.enforceSessionLimit`: whether the tenant may create one more session. A read that
-- throws lets it through.
unfoldable pub enforce_session_limit : Bool → Tier → List String → Bool
unfolding max_concurrent_sessions
enforce_session_limit fails tier active =
    if fails then true else ltb (length active) (max_concurrent_sessions tier)

-- `ZREMRANGEBYSCORE key 0 (now - 60000)`.
unfoldable pub drop_old : ℕ → ApiCalls → ApiCalls
drop_old now [] = []
drop_old now ((m, t) ∷ z) =
    let rest = drop_old now z in if leb (t + window_ms) now then rest else (m, t) ∷ rest

-- `TierEnforcer.enforceApiRateLimit`: whether the call is let through.
unfoldable pub enforce_api_rate_limit : Bool → Tier → ℕ → String → ApiCalls → Bool × ApiCalls
unfolding max_api_req_per_min
enforce_api_rate_limit fails tier now member z = if fails then (true, z) else (
  leb (length (drop_old now (zadd now member z))) (max_api_req_per_min tier),
  drop_old now (zadd now member z),
)

-- `tierRateLimit`: the same limits, the commands in the other order.
unfoldable pub tier_rate_limit : Bool → Tier → ℕ → String → ApiCalls → Bool × ApiCalls
unfolding max_api_req_per_min
tier_rate_limit fails tier now member z = if fails then (true, z) else (
  leb (length (zadd now member (drop_old now z))) (max_api_req_per_min tier),
  zadd now member (drop_old now z),
)

-- Calls in sequence, each with its time and member, and the verdict on each.
unfoldable pub verdicts : Tier → ApiCalls → List (String × ℕ) → List Bool
verdicts tier z [] = []
verdicts tier z ((member, now) ∷ rest) =
    (tier_rate_limit false tier now member z).0
    ∷ verdicts tier (tier_rate_limit false tier now member z).1 rest
