-- ===== src/Tier/Tests.antt =====
-- The limits at concrete inputs.
use relavoi_backend.Base.{ℕ, ◌≡◌, refl, String, true, false, List, [], ◌∷◌, length, arith}
use relavoi_backend.Pool.{zcontains}
use relavoi_backend.Tier.{
  starter, ApiCalls, max_api_req_per_min, max_concurrent_sessions, enforce_session_limit, verdicts,
}
use relavoi_backend.Tier.Window.{AreNew, first_calls, verdicts_lem}

abbrev held : ApiCalls
held = ("a", 70000) ∷ []

abbrev calls : List (String × ℕ)
calls = ("b", 80000) ∷ ("c", 90000) ∷ []

calls-AreNew : AreNew held calls
unfolding AreNew zcontains
calls-AreNew = (refl, (refl, tt))

verdicts_example :
    verdicts starter held calls ≡ first_calls (max_api_req_per_min starter) (length held) calls
verdicts_example =
    verdicts_lem starter 70000 held calls (omega arith, tt)
      ((omega arith, omega arith), ((omega arith, omega arith), tt)) calls-AreNew

allowed : enforce_session_limit false starter ("s1" ∷ []) ≡ true
unfolding enforce_session_limit max_concurrent_sessions
allowed = refl
