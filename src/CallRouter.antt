-- ===== src/CallRouter.antt =====
-- The routing of incoming calls, src/services/call-router.ts.
--
-- `Exchange` is the state that the router reads and writes. The rows that it writes without
-- awaiting them (`void this.writeCallRecord(…)`) are written at once. Metrics and logs are left out.
pub mod Routing
pub mod Matching
pub mod Unique
pub mod Forward
pub mod Replay
mod Tests
use relavoi_backend.Base.{
  ℕ, ◌+◌, String, Bool, true, false, not, ◌&&◌, ◌||◌, List, [], ◌∷◌, Option, none, some, ltb, ◌==◌,
  string_eq, if◌then◌else◌, or_else, or_option, update,
}
use relavoi_backend.Crypto.{Phone, Buffer, NodeCrypto, decrypt_phone, hash_phone}
use relavoi_backend.Store.{
  SessionRow, SessionHash, no_hash, Redis, Mode, sandbox, live, DirectionMode, bidirectional,
  a_to_b_only, b_to_a_only, ConsentPrompt, default_prompt, custom_prompt, no_prompt, in_service,
  hash_in_service, truthy, is_text,
}

-- `status_processed` is what the webhook handler keeps for a status event, which is read back as a
-- decision; the router itself never decides it.
pub data RouteAction : Type 0 where
  forward consent_then_forward dead_line redirect play_message : RouteAction
  status_processed : RouteAction

pub record RouteDecision : Type 0 where
  pub action : RouteAction
  pub destination : Option Phone
  pub caller_id : Option String
  pub audio_url : Option String
  pub message : Option String
  pub session_id : Option String
  pub call_record_id : Option String
  pub tenant_id : Option String

pub data ExpiredBehavior : Type 0 where
  dead_line_behavior redirect_support play_message_behavior : ExpiredBehavior

pub record TenantRoutingConfig : Type 0 where
  pub expired_call_behavior : ExpiredBehavior
  pub support_phone : Option Phone
  pub recording_consent_audio_url : Option String
  pub expired_message_audio_url : Option String

-- A row of `call_records`, as it is inserted.
pub record CallRecord : Type 0 where
  pub id : String
  pub session_id : String
  pub a_to_b : Bool
  pub cpaas_call_id : String
  pub recording_consent_played : Bool
  pub party_b_phone_hash : Option String
  pub mode : Mode
  pub simulated : Bool

pub record Exchange : Type 0 where
  pub redis : Redis
  pub rows : String → Option SessionRow
  pub routing : String → Option TenantRoutingConfig
  pub dedup : String → Option (RouteDecision × ℕ)  -- webhook:dedup:{eventId}, until its expiry
  pub call_records : List CallRecord

pub record CallArgs : Type 0 where
  pub proxy_number : String
  pub caller_phone : Phone
  pub tenant_hint : Option String
  pub event_id : String

-- Which calls throw, and what the surroundings answer.
pub record CallAnswers : Type 0 where
  pub dedup_read_fails : Bool
  pub members_fail : Bool
  pub hash_fails : String → Bool
  pub phone_read_fails : Bool
  pub config_read_fails : Bool
  pub dedup_write_fails : Bool
  pub record_fails : Bool
  pub bump_fails : Bool
  pub bump_row_fails : Bool
  pub proxy_tenant : Option String  -- the tenant of the latest session on the number
  pub record_id : String
  pub now : ℕ

abbrev pub dedup_ttl_ms : ℕ
dedup_ttl_ms = 60000

abbrev pub default_consent_audio_url : String
default_consent_audio_url = "https://cdn.relavoi.com/audio/consent_default_en.mp3"

abbrev pub no_decision : RouteAction → RouteDecision
no_decision action = record {
  action = action;
  destination = none;
  caller_id = none;
  audio_url = none;
  message = none;
  session_id = none;
  call_record_id = none;
  tenant_id = none;
}

module _ (c : NodeCrypto) (hint : Option String) (caller : Phone) where
  -- The side that the caller has in a session of a tenant.
  side_in : String → SessionHash → Option Bool
  side_in tenant h =
      if is_text h.party_a_hash (hash_phone c caller tenant)
      then some true
      else if is_text h.party_b_hash (hash_phone c caller tenant)
      then some false
      else none

  -- The body of the loop: whether the session takes the call, and if the caller is party A.
  unfoldable pub side_of : SessionHash → Option Bool
  unfolding side_in
  side_of h =
      if not (truthy h.id)
        || not (hash_in_service h.state)
        || not (truthy h.tenant_id)
        || (truthy hint && not (is_text h.tenant_id (or_else hint "")))
      then none
      else side_in (or_else h.tenant_id "") h

-- `HGETALL session:{sid}`; one that throws is passed over, as one that is not there.
abbrev pub read_hash : (String → Bool) → Redis → String → SessionHash
read_hash fails r sid = if fails sid then no_hash else r.session sid

module _ (c : NodeCrypto) (hint : Option String) (caller : Phone) (fails : String → Bool)
    (r : Redis) where
  -- The loop: the first session that takes the call.
  unfoldable pub find_match : List String → Option (SessionHash × Bool)
  find_match [] = none
  find_match (sid ∷ rest) = elim (side_of c hint caller (read_hash fails r sid)) [
    | some is_a ↦ some (read_hash fails r sid, is_a)
    | none ↦ find_match rest
  ]

-- A phone number that is there and not empty.
abbrev pub dialable : Option Phone → Bool
dialable none = false
dialable (some []) = false
dialable (some (d ∷ ds)) = true

-- `buildNoSessionDecision`.
unfoldable pub no_session_decision : Option String → Option TenantRoutingConfig → RouteDecision
no_session_decision tenant none = record (no_decision dead_line) {
  message = some "This number is no longer in service";
  tenant_id = tenant;
}
no_session_decision tenant (some cfg) = by_behavior cfg.expired_call_behavior
  where
    out_of_service : RouteDecision
    out_of_service = record (no_decision dead_line) {
      message = some "This number is no longer in service";
      tenant_id = tenant;
    }

    by_behavior : ExpiredBehavior → RouteDecision
    by_behavior redirect_support =
        if dialable cfg.support_phone
        then record (no_decision redirect) { destination = cfg.support_phone; tenant_id = tenant }
        else out_of_service
    by_behavior play_message_behavior =
        if truthy cfg.expired_message_audio_url
        then record (no_decision play_message) {
          audio_url = cfg.expired_message_audio_url;
          tenant_id = tenant;
        }
        else out_of_service
    by_behavior dead_line_behavior = out_of_service

-- `cacheDecision`.
unfoldable pub cache_decision : Bool → String → ℕ → RouteDecision → Exchange → Exchange
cache_decision fails event now d x =
    if fails then x else record x { dedup = update x.dedup event (some (d, now + dedup_ttl_ms)) }

-- The answer to `GET webhook:dedup:{eventId}` at a time.
abbrev pub fresh_entry {ℓ} : {D : Type ℓ} → ℕ → Option (D × ℕ) → Option D
fresh_entry now none = none
fresh_entry now (some (d, until)) = if ltb now until then some d else none

unfoldable pub cached : ℕ → String → Exchange → Option RouteDecision
cached now event x = fresh_entry now (x.dedup event)

-- `writeCallRecord` and `bumpSessionCallCount`.
unfoldable pub write_record : CallAnswers → CallRecord → Exchange → Exchange
write_record w rec x =
    if w.record_fails then x else record x { call_records = rec ∷ x.call_records }

count_call : Option SessionRow → Option SessionRow
count_call none = none
count_call (some row) = some (record row { call_count = row.call_count + 1 })

unfoldable pub bump_count : CallAnswers → String → Exchange → Exchange
unfolding count_call
bump_count w sid x = record x {
  redis = if w.bump_fails then x.redis else record (x.redis) {
    session = update x.redis.session sid (record (x.redis.session sid) {
      last_call_at = some w.now;
      call_count = (x.redis.session sid).call_count + 1;
    });
  };
  rows = if w.bump_row_fails then x.rows else update x.rows sid (count_call (x.rows sid));
}

abbrev pub is_live : Option Mode → Bool
is_live none = false
is_live (some sandbox) = false
is_live (some live) = true

-- Whether the direction of a session bars a caller on this side.
abbrev pub barred : Option DirectionMode → Bool → Bool
barred none is_a = false
barred (some bidirectional) is_a = false
barred (some a_to_b_only) is_a = not is_a
barred (some b_to_a_only) is_a = is_a
