-- ===== src/Session/Create.antt =====
-- `SessionManager.createSession`.
pub mod Success
pub mod Failure
use relavoi_backend.Base.{
  ℕ, ◌+◌, ◌*◌, String, Bool, true, false, ◌&&◌, ◌||◌, not, List, [], ◌∷◌, Option, none, some, ◌==◌,
  nat_eq, string_eq, bytes_eq, if◌then◌else◌, or_else, or_option, sadd, update,
}
use relavoi_backend.Crypto.{Phone, Buffer, NodeCrypto, encrypt_phone, hash_phone}
use relavoi_backend.Store.{
  SessionRow, SessionHash, no_hash, Redis, NumberRow, Mode, sandbox, DirectionMode, bidirectional,
  ConsentPrompt, no_prompt, pending, active, failed,
}
use relavoi_backend.Pool.Allocate.{allocate}
use relavoi_backend.Pool.Release.{release, ReleaseFaults}
use relavoi_backend.Session.{
  Defaults, World, Error, tenant_required, invalid_phone, same_parties, consent_required,
  pool_exhausted, session_vanished, thrown, Result, ok, err, is_e164, load_tenant_config,
  config_field, attempt, Awaited, change_row, update_row, session_created, TenantSessionConfig,
}

pub record CreateArgs : Type 0 where
  pub tenant_id : String
  pub mode : Option Mode
  pub agent_phone : Phone
  pub customer_phone : Phone
  pub grace_period_minutes : Option ℕ
  pub max_duration_minutes : Option ℕ
  pub direction_mode : Option DirectionMode
  pub recording_enabled : Option Bool
  pub consent_prompt : Option ConsentPrompt
  pub region : Option String

-- Which calls throw.
pub record CreateFaults : Type 0 where
  pub config_read : Bool
  pub allocation : Bool
  pub insert : Bool
  pub activate : Bool
  pub hset : Bool
  pub expire : Bool
  pub sadd_active : Bool
  pub read_back : Bool
  pub release : ReleaseFaults
  pub mark_failed : Bool

-- What the surroundings answer to one call of `createSession`.
pub record Answers : Type 0 where
  pub faults : CreateFaults
  pub session_id : String
  pub iv_a : Buffer
  pub iv_b : Buffer
  pub draw : ℕ → ℕ
  pub now : ℕ

abbrev is_no_prompt : ConsentPrompt → Bool
is_no_prompt no_prompt = true
is_no_prompt _ = false

-- The checks on the arguments, in their order.
pub validate : CreateArgs → Option Error
unfolding is_e164
validate args =
    if args.tenant_id == ""
    then some tenant_required
    else if not (is_e164 args.agent_phone)
    then some invalid_phone
    else if not (is_e164 args.customer_phone)
    then some invalid_phone
    else if args.agent_phone == args.customer_phone
    then some same_parties
    else if or_else args.recording_enabled false
        && is_no_prompt (or_else args.consent_prompt no_prompt)
    then some consent_required
    else none

-- An explicit value, else the tenant's, else the environment's.
pub resolve_grace : Defaults → CreateArgs → Option TenantSessionConfig → ℕ
resolve_grace env args config =
    or_else
      (or_option args.grace_period_minutes (config_field (λ t. t.default_grace_period) config))
      env.grace_period_minutes

pub resolve_duration : Defaults → CreateArgs → Option TenantSessionConfig → ℕ
resolve_duration env args config =
    or_else
      (or_option args.max_duration_minutes (config_field (λ t. t.default_session_ttl_min) config))
      env.max_duration_minutes

module _ (c : NodeCrypto) where
  -- The row of the `INSERT`.
  unfoldable pub new_row : CreateArgs → Answers → ℕ → ℕ → String → SessionRow
  new_row args x grace duration proxy = record {
    id = x.session_id;
    tenant_id = args.tenant_id;
    party_a_phone_enc = encrypt_phone c x.iv_a args.agent_phone args.tenant_id;
    party_b_phone_enc = encrypt_phone c x.iv_b args.customer_phone args.tenant_id;
    party_a_phone_hash = hash_phone c args.agent_phone args.tenant_id;
    party_b_phone_hash = hash_phone c args.customer_phone args.tenant_id;
    proxy_number = proxy;
    state = pending;
    direction_mode = or_else args.direction_mode bidirectional;
    grace_period_min = grace;
    max_duration_min = duration;
    recording_enabled = or_else args.recording_enabled false;
    consent_prompt = or_else args.consent_prompt no_prompt;
    mode = or_else args.mode sandbox;
    expires_at = x.now + duration * 60000;
    created_at = x.now;
    activated_at = none;
    ended_at = none;
    expired_at = none;
    call_count = 0;
  }

-- The hash of the `HSET`.
unfoldable pub new_hash : SessionRow → SessionHash → SessionHash
new_hash row old = record old {
  id = some row.id;
  tenant_id = some row.tenant_id;
  party_a_hash = some row.party_a_phone_hash;
  party_b_hash = some row.party_b_phone_hash;
  proxy_number = some row.proxy_number;
  state = some active;
  direction_mode = some row.direction_mode;
  recording_enabled = some row.recording_enabled;
  consent_prompt = some row.consent_prompt;
  mode = some row.mode;
  expires_at = some row.expires_at;
  call_count = 0;
}

unfoldable pub insert_row : SessionRow → World → World
insert_row row w = record w { rows = update w.rows row.id (some row) }

unfoldable pub activate_row : SessionRow → ℕ → World → World
unfolding update_row
activate_row row now = update_row row.id (λ r. record r { state = active; activated_at = some now })

unfoldable pub write_hash : SessionRow → World → World
unfolding new_hash
write_hash row w = record w {
  redis = record (w.redis) {
    session = update w.redis.session row.id (new_hash row (w.redis.session row.id));
  };
}

-- `EXPIRE session:{id}`, in seconds; with none, Redis deletes the key.
unfoldable pub expire_hash : String → ℕ → ℕ → World → World
expire_hash id seconds now w =
    if seconds == 0
    then record w {
      redis = record (w.redis) {
        session = update w.redis.session id no_hash;
        session_deadline = update w.redis.session_deadline id none;
      };
    }
    else record w {
      redis = record (w.redis) {
        session_deadline = update w.redis.session_deadline id (some (now + seconds * 1000));
      };
    }

unfoldable pub track_active : SessionRow → World → World
track_active row w = record w {
  redis = record (w.redis) {
    active_sessions =
        update w.redis.active_sessions row.tenant_id
          (sadd row.id (w.redis.active_sessions row.tenant_id));
  };
}

-- The calls of the `try` up to the read of the row.
unfoldable pub opening : CreateFaults → SessionRow → ℕ → List Awaited
opening f row now =
    (f.insert, insert_row row)
    ∷ (f.activate, activate_row row now)
    ∷ (f.hset, write_hash row)
    ∷ (f.expire, expire_hash row.id (row.max_duration_min * 60) now)
    ∷ (f.sadd_active, track_active row)
    ∷ (f.read_back, λ w. w)
    ∷ []

unfoldable pub with_release : World → Bool × Redis × List NumberRow → World
with_release w (returned, r, numbers) = record w { redis = r; numbers = numbers }

-- The `catch`: the number is given back without a cooldown, and the row is marked.
unfoldable pub roll_back : CreateFaults → Option String → SessionRow → ℕ → World → World
unfolding with_release
roll_back f region row now w =
    let w' =
      with_release w (release f.release region row.proxy_number row.id 0 now w.redis w.numbers) in
    if f.mark_failed then w' else update_row row.id (λ r. record r { state = failed }) w'

unfoldable pub finish_create :
    CreateFaults → Option String → SessionRow → ℕ → Bool × World → Result SessionRow × World
unfolding roll_back
finish_create f region row now (false, w) = (err thrown, roll_back f region row now w)
finish_create f region row now (true, w) = elim (w.rows row.id) [
  | none ↦ (err session_vanished, roll_back f region row now w)
  | some stored ↦ (
    ok stored,
    record w { published = session_created row.tenant_id row.id row.mode ∷ w.published },
  )
]

module _ (c : NodeCrypto) where
  unfoldable pub with_number :
      CreateArgs → Answers → ℕ → ℕ → World → Option String × Redis → Result SessionRow × World
  unfolding new_row finish_create
  with_number args x grace duration w (none, r) = (err pool_exhausted, record w { redis = r })
  with_number args x grace duration w (some proxy, r) =
      let row = new_row c args x grace duration proxy in
      finish_create x.faults args.region row x.now
        (attempt (opening x.faults row x.now) (record w { redis = r }))

  -- The number for the two participants, and the pool without it.
  unfoldable pub allotment : CreateArgs → Answers → World → Option String × Redis
  allotment args x w =
      allocate x.faults.allocation args.region (hash_phone c args.agent_phone args.tenant_id)
        (hash_phone c args.customer_phone args.tenant_id) x.session_id x.draw w.redis

  unfoldable pub with_config :
      Defaults
      → CreateArgs
      → Answers
      → Option TenantSessionConfig × World
      → Result SessionRow × World
  unfolding with_number allotment resolve_grace resolve_duration
  with_config env args x (config, w) =
      with_number args x (resolve_grace env args config) (resolve_duration env args config) w
        (allotment args x w)

  unfoldable pub create_session :
      Defaults → CreateArgs → Answers → World → Result SessionRow × World
  unfolding validate with_config
  create_session env args x w = elim (validate args) [
    | some e ↦ (err e, w)
    | none ↦ with_config env args x (load_tenant_config x.faults.config_read x.now args.tenant_id w)
  ]
