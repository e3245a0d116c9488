-- ===== src/Tier/Window.antt =====
-- How many calls pass in a window, and how many sessions a tenant can have.
use relavoi_backend.Base.{
  ℕ, suc, ◌+◌, ◌≤◌, ◌<◌, ◌≡◌, refl, ap, String, Bool, true, false, List, [], ◌∷◌, leb, string_eq,
  length, All, arith, sadd,
}
use relavoi_backend.Pool.{zadd, zrem, zcontains}
use relavoi_backend.Tier.{
  Tier, max_concurrent_sessions, max_api_req_per_min, ApiCalls, window_ms, enforce_session_limit,
  drop_old, enforce_api_rate_limit, tier_rate_limit, verdicts,
}

drop_old-zrem :
    (now : ℕ) (x : String) (z : ApiCalls) → drop_old now (zrem x z) ≡ zrem x (drop_old now z)
unfolding drop_old zrem
drop_old-zrem now x [] = refl
drop_old-zrem now x ((y, t) ∷ z) = ground (arith, drop_old-zrem now x z)

-- The two limiters agree: whichever removes the old calls first, the verdict and the calls that are
-- kept are the same.
enforce_api_rate_limit_lem :
    (fails : Bool) (tier : Tier) (now : ℕ) (member : String) (z : ApiCalls)
    → enforce_api_rate_limit fails tier now member z ≡ tier_rate_limit fails tier now member z
unfolding enforce_api_rate_limit tier_rate_limit drop_old zadd
enforce_api_rate_limit_lem fails tier now member z = ground (arith, drop_old-zrem now member z)

-- A tenant whose creation the limit lets through, with Redis answering, has at most as many active
-- sessions as its tier allows once the new one is added.
enforce_session_limit_lem :
    (tier : Tier) (sid : String) (active : List String)
    → enforce_session_limit false tier active ≡ true
    → length (sadd sid active) ≤ max_concurrent_sessions tier
unfolding enforce_session_limit sadd
enforce_session_limit_lem tier sid active h = ground (arith, h)

-- Nothing recent is dropped.
drop_old-recent :
    (now start : ℕ) (z : ApiCalls)
    → All (λ c. start ≤ c.1) z
    → now < start + window_ms
    → drop_old now z ≡ z
unfolding drop_old
drop_old-recent now start [] h l = refl
drop_old-recent now start ((m, t) ∷ z) (h, hs) l =
    ground (arith, drop_old-recent now start z hs l, h, l)

zrem-absent : (x : String) (z : ApiCalls) → zcontains x z ≡ false → zrem x z ≡ z
unfolding zrem zcontains
zrem-absent x [] h = refl
zrem-absent x ((y, t) ∷ z) h = ground (arith, zrem-absent x z, h)

-- Each call has a member that is not recorded yet.
unfoldable pub AreNew : ApiCalls → List (String × ℕ) → Type 0
AreNew z [] = Unit
AreNew z ((member, now) ∷ rest) = (zcontains member z ≡ false) × AreNew ((member, now) ∷ z) rest

-- Whether each of the calls is among the first `limit`, when `held` came before them.
abbrev pub first_calls : ℕ → ℕ → List (String × ℕ) → List Bool
first_calls limit held [] = []
first_calls limit held (call ∷ rest) = leb (suc held) limit ∷ first_calls limit (suc held) rest

abbrev pub Within : ℕ → String × ℕ → Type 0
Within start call = (start ≤ call.1) × (call.1 < start + window_ms)

recorded :
    (tier : Tier) (start now : ℕ) (member : String) (z : ApiCalls)
    → All (λ c. start ≤ c.1) z
    → now < start + window_ms
    → zcontains member z ≡ false
    → tier_rate_limit false tier now member z
      ≡ (leb (suc (length z)) (max_api_req_per_min tier), (member, now) ∷ z)
unfolding tier_rate_limit zadd
recorded tier start now member z h l new =
    rw (drop_old-recent now start z h l) (rw (zrem-absent member z new) refl)

-- Calls of one window of sixty seconds, with members of their own, on top of the calls that the
-- window already holds: exactly those pass that are among the first as many as the tier allows, and
-- a refused call counts like any other.
pub verdicts_lem :
    (tier : Tier) (start : ℕ) (z : ApiCalls) (calls : List (String × ℕ))
    → All (λ c. start ≤ c.1) z
    → All (Within start) calls
    → AreNew z calls
    → verdicts tier z calls ≡ first_calls (max_api_req_per_min tier) (length z) calls
unfolding verdicts AreNew
verdicts_lem tier start z [] h w n = refl
verdicts_lem tier start z ((member, now) ∷ rest) h (w, ws) (n, ns) =
    rw (recorded tier start now member z h w.1 n) (
      ap (λ t. leb (suc (length z)) (max_api_req_per_min tier) ∷ t)
        (verdicts_lem tier start ((member, now) ∷ z) rest (w.0, h) ws ns))
