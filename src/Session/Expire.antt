-- ===== src/Session/Expire.antt =====
-- `SessionManager.expireSession`: the number goes back to the pool.
pub mod Cleanup
use relavoi_backend.Base.{
  ℕ, ◌+◌, ◌*◌, String, Bool, true, false, List, [], ◌∷◌, Option, none, some, ◌==◌, string_eq,
  if◌then◌else◌, or_else, srem, update,
}
use relavoi_backend.Store.{
  SessionRow, SessionState, Redis, NumberRow, pending, active, grace_period, expired, failed,
  no_hash,
}
use relavoi_backend.Pool.Release.{release, ReleaseFaults}
use relavoi_backend.Session.{
  World, Error, thrown, Result, ok, err, Awaited, attempt, update_row, Defaults,
  TenantSessionConfig, load_tenant_config, config_field, session_expired,
}

pub record ExpireFaults : Type 0 where
  pub read : Bool
  pub update : Bool
  pub config_read : Bool
  pub release : ReleaseFaults
  pub del : Bool
  pub srem_proxy : Bool
  pub srem_party_a : Bool
  pub srem_party_b : Bool
  pub srem_active : Bool

abbrev pub is_expired : SessionState → Bool
is_expired expired = true
is_expired pending = false
is_expired active = false
is_expired grace_period = false
is_expired failed = false

unfoldable pub expire_row : ℕ → SessionRow → SessionRow
expire_row now row = record row { state = expired; expired_at = some now }

abbrev pub on_redis : (Redis → Redis) → World → World
on_redis f w = record w { redis = f w.redis }

-- The clean-up of Redis, in one `try`.
unfoldable pub cleaning : ExpireFaults → SessionRow → List Awaited
cleaning f row =
    (
      f.del,
      on_redis λ r. record r {
        session = update r.session row.id no_hash;
        session_deadline = update r.session_deadline row.id none;
      },
    )
    ∷ (
      f.srem_proxy,
      on_redis λ r. record r { proxy_sessions = drop r.proxy_sessions row.proxy_number },
    )
    ∷ (
      f.srem_party_a,
      on_redis λ r. record r { phone_sessions = drop r.phone_sessions row.party_a_phone_hash },
    )
    ∷ (
      f.srem_party_b,
      on_redis λ r. record r { phone_sessions = drop r.phone_sessions row.party_b_phone_hash },
    )
    ∷ (
      f.srem_active,
      on_redis λ r. record r { active_sessions = drop r.active_sessions row.tenant_id },
    )
    ∷ []
  where
    drop : (String → List String) → String → String → List String
    drop m k = update m k (srem row.id (m k))

unfoldable pub with_pool : World → Bool × Redis × List NumberRow → World
with_pool w (returned, r, numbers) = record w { redis = r; numbers = numbers }

-- The number is given back with the tenant's cooldown, or else the global one.
unfoldable pub give_up_number :
    Defaults → ExpireFaults → SessionRow → ℕ → Option TenantSessionConfig × World → World
unfolding with_pool
give_up_number env f row now (config, w) = with_pool w (
    release f.release none row.proxy_number row.id
      (or_else (config_field (λ t. t.cooldown_min) config) env.cooldown_minutes) now w.redis
      w.numbers)

unfoldable pub announce_expiry : SessionRow → World → World
announce_expiry row w = record w {
  published = session_expired row.tenant_id row.id row.mode ∷ w.published;
}

unfoldable pub close_session : Defaults → ExpireFaults → SessionRow → ℕ → World → World
unfolding give_up_number announce_expiry
close_session env f row now w =
    announce_expiry row
      (attempt (cleaning f row) (
        give_up_number env f row now (
          load_tenant_config f.config_read now row.tenant_id
            (update_row row.id (expire_row now) w)))).1

unfoldable pub expire_session : Defaults → ExpireFaults → String → ℕ → World → Result Bool × World
expire_session env f id now w = if f.read then (err thrown, w) else elim (w.rows id) [
  | none ↦ (ok false, w)
  | some row ↦
      if is_expired row.state
      then (ok true, w)
      else if f.update
      then (err thrown, w)
      else (ok true, close_session env f row now w)
]
