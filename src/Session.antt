-- ===== src/Session.antt =====
-- What the methods of the session manager share, src/services/session-manager.ts. Each method is a
-- child module.
--
-- `World` is the state that the methods change. A method gets the answers of its surroundings as
-- arguments: times, random values, and which of its calls throw. Metadata, logs and metrics are
-- left out.
pub mod Create
pub mod End
pub mod Expire
pub mod Swap
pub mod Keeps
pub mod Apart
pub mod Lifecycle
mod Tests
use relavoi_backend.Base.{
  refl, ◌≡◌, All, ℕ, ◌+◌, ◌*◌, String, Bool, true, false, ◌&&◌, ◌||◌, List, [], ◌∷◌, Option, none,
  some, leb, ltb, ◌==◌, nat_eq, string_eq, bytes_eq, if◌then◌else◌, or_else, or_option, length,
  update,
}
use relavoi_backend.Crypto.{Phone, Buffer}
use relavoi_backend.Cache.{Store, get, set}
use relavoi_backend.Store.{SessionRow, Redis, NumberRow, Mode}

pub record TenantSessionConfig : Type 0 where
  pub default_grace_period : Option ℕ
  pub default_session_ttl_min : Option ℕ
  pub cooldown_min : Option ℕ

-- The settings of src/config/env.ts that the sessions use.
pub record Defaults : Type 0 where
  pub grace_period_minutes : ℕ
  pub max_duration_minutes : ℕ
  pub cooldown_minutes : ℕ

-- What is handed to the event bus and to the audit log.
pub data Published : Type 0 where
  session_created : String → String → Mode → Published
  session_expired : String → String → Mode → Published
  target_swapped : String → String → Published
  audit_swapped : String → String → String → String → Published

pub record World : Type 0 where
  pub redis : Redis
  pub numbers : List NumberRow
  pub rows : String → Option SessionRow  -- the table `sessions`, by id
  pub tenants : String → Option TenantSessionConfig  -- the table `tenants`, by id
  pub config_cache : Store (Option TenantSessionConfig)
  pub published : List Published

pub data Error : Type 0 where
  tenant_required invalid_phone same_parties consent_required pool_exhausted session_vanished :
      Error
  session_not_swappable same_as_agent target_conflict : Error
  thrown : Error  -- by a call of Postgres, Redis or the decryption

pub data Result {ℓ} (A : Type ℓ) : Type ℓ where
  ok : A → Result A
  err : Error → Result A

is_digit : ℕ → Bool
is_digit d = leb b'0' d && leb d b'9'

all_digits : List ℕ → Bool
unfolding is_digit
all_digits [] = true
all_digits (d ∷ ds) = is_digit d && all_digits ds

-- `/^\+[1-9]\d{7,14}$/`.
unfoldable pub is_e164 : Phone → Bool
unfolding all_digits
is_e164 [] = false
is_e164 (p ∷ []) = false
is_e164 (p ∷ d ∷ ds) =
    p == b'+'
    && (leb b'1' d && leb d b'9')
    && all_digits ds
    && leb 7 (length ds)
    && leb (length ds) 14

abbrev pub tenant_config_ttl_ms : ℕ
tenant_config_ttl_ms = 60000

unfoldable pub cached_config :
    Bool
    → ℕ
    → String
    → World
    → Option (Option TenantSessionConfig) × Store (Option TenantSessionConfig)
    → Option TenantSessionConfig × World
cached_config fails now tenant w (some config, cache) = (config, record w { config_cache = cache })
cached_config fails now tenant w (none, cache) =
    if fails then (none, record w { config_cache = cache }) else (
      w.tenants tenant,
      record w { config_cache = set now tenant (w.tenants tenant) tenant_config_ttl_ms cache },
    )

-- `SessionManager.loadTenantConfig`.
unfoldable pub load_tenant_config : Bool → ℕ → String → World → Option TenantSessionConfig × World
unfolding cached_config
load_tenant_config fails now tenant w =
    cached_config fails now tenant w (get now tenant w.config_cache)

-- `tenantConfig?.field`.
abbrev pub config_field : (TenantSessionConfig → Option ℕ) → Option TenantSessionConfig → Option ℕ
config_field field none = none
config_field field (some config) = field config

-- One awaited call: whether it throws, and its effect.
abbrev pub Awaited : Type 0
Awaited = Bool × (World → World)

-- Calls in sequence, and whether all were made; nothing is called after a throw.
unfoldable pub attempt : List Awaited → World → Bool × World
attempt [] w = (true, w)
attempt ((fails, effect) ∷ rest) w = if fails then (false, w) else attempt rest (effect w)

unfoldable pub all_effects : List Awaited → World → World
all_effects [] w = w
all_effects ((fails, effect) ∷ rest) w = all_effects rest (effect w)

pub attempt-all_effects :
    (calls : List Awaited) (w w' : World) → attempt calls w ≡ (true, w') → all_effects calls w ≡ w'
unfolding attempt all_effects
attempt-all_effects [] w w' e = cc
attempt-all_effects ((true, effect) ∷ rest) w w' e = cc
attempt-all_effects ((false, effect) ∷ rest) w w' e = attempt-all_effects rest (effect w) w' e

pub attempt_total :
    (calls : List Awaited) (w : World)
    → All (λ (call : Awaited). call.0 ≡ false) calls
    → attempt calls w ≡ (true, all_effects calls w)
unfolding attempt all_effects
attempt_total [] w h = refl
attempt_total ((fails, effect) ∷ rest) w (up, h) = rw up (attempt_total rest (effect w) h)

-- What every effect keeps, a sequence keeps wherever it stops.
pub attempt_keeps {ℓ} :
    (P : World → Type ℓ) (calls : List Awaited) (w : World)
    → All (λ (call : Awaited). (v : World) → P v → P (call.1 v)) calls
    → P w
    → P (attempt calls w).1
unfolding attempt
attempt_keeps P [] w h p = p
attempt_keeps P ((true, effect) ∷ rest) w h p = p
attempt_keeps P ((false, effect) ∷ rest) w h p = attempt_keeps P rest (effect w) h.1 (h.0 w p)

-- `UPDATE sessions SET … WHERE id = …`.
abbrev pub change_row : (SessionRow → SessionRow) → Option SessionRow → Option SessionRow
change_row f none = none
change_row f (some row) = some (f row)

unfoldable pub update_row : String → (SessionRow → SessionRow) → World → World
update_row id f w = record w { rows = update w.rows id (change_row f (w.rows id)) }

-- `where({ id, tenant_id: tenantId }).first()`.
abbrev of_tenant : String → Option SessionRow → Option SessionRow
of_tenant tenant none = none
of_tenant tenant (some row) = if row.tenant_id == tenant then some row else none

abbrev pub row_of : String → String → World → Option SessionRow
row_of id tenant w = of_tenant tenant (w.rows id)
