-- ===== src/Store.antt =====
-- What the services share: the Redis keys and the Postgres tables that they read and write.
--
-- A key space `prefix:{key}` is a function of the key. A key that is not there reads as the empty
-- set, the empty hash or `none`, as Redis answers. Values that the source compares with fixed
-- words are data types; other texts stay texts. Buffers are lists of bytes, times milliseconds.
use relavoi_backend.Base.{
  ℕ, String, Bool, true, false, List, not, Option, none, some, ◌==◌, string_eq,
}

pub data SessionState : Type 0 where
  pending active grace_period expired failed : SessionState

pub data DirectionMode : Type 0 where
  bidirectional a_to_b_only b_to_a_only : DirectionMode

pub data ConsentPrompt : Type 0 where
  default_prompt custom_prompt no_prompt : ConsentPrompt

pub data Mode : Type 0 where
  sandbox live : Mode

-- The hash `session:{id}`. `HSET` may write some of the fields alone.
pub record SessionHash : Type 0 where
  pub id : Option String
  pub tenant_id : Option String
  pub party_a_hash : Option String
  pub party_b_hash : Option String
  pub proxy_number : Option String
  pub state : Option SessionState
  pub direction_mode : Option DirectionMode
  pub recording_enabled : Option Bool
  pub consent_prompt : Option ConsentPrompt
  pub mode : Option Mode
  pub expires_at : Option ℕ
  pub ended_at : Option ℕ
  pub last_call_at : Option ℕ
  pub call_count : ℕ

-- A hash that is not there.
abbrev pub no_hash : SessionHash
no_hash = record {
  id = none;
  tenant_id = none;
  party_a_hash = none;
  party_b_hash = none;
  proxy_number = none;
  state = none;
  direction_mode = none;
  recording_enabled = none;
  consent_prompt = none;
  mode = none;
  expires_at = none;
  ended_at = none;
  last_call_at = none;
  call_count = 0;
}

pub record Redis : Type 0 where
  pub available : String → List String  -- pool:{region}:available
  pub in_use : String → List String  -- pool:{region}:in_use
  pub cooldown : String → List (String × ℕ)  -- pool:{region}:cooldown
  pub proxy_sessions : String → List String  -- proxy:{number}:sessions
  pub proxy_region : String → Option String  -- proxy:{number}:region
  pub phone_sessions : String → List String  -- phone:{hash}:sessions
  pub active_sessions : String → List String  -- tenant:{id}:active_sessions
  pub session : String → SessionHash  -- session:{id}
  pub session_deadline : String → Option ℕ  -- what EXPIRE set for session:{id}

pub data NumberStatus : Type 0 where
  available_status in_use_status cooldown_status quarantined_status : NumberStatus

-- A row of `proxy_numbers`.
pub record NumberRow : Type 0 where
  pub number : String
  pub region : Option String
  pub status : NumberStatus
  pub cooldown_until : Option ℕ
  pub last_used_at : Option ℕ

-- A row of `sessions`, without its metadata and the time of its last call.
pub record SessionRow : Type 0 where
  pub id : String
  pub tenant_id : String
  pub party_a_phone_enc : List ℕ
  pub party_b_phone_enc : List ℕ
  pub party_a_phone_hash : String
  pub party_b_phone_hash : String
  pub proxy_number : String
  pub state : SessionState
  pub direction_mode : DirectionMode
  pub grace_period_min : ℕ
  pub max_duration_min : ℕ
  pub recording_enabled : Bool
  pub consent_prompt : ConsentPrompt
  pub mode : Mode
  pub expires_at : ℕ
  pub created_at : ℕ
  pub activated_at : Option ℕ
  pub ended_at : Option ℕ
  pub expired_at : Option ℕ
  pub call_count : ℕ

-- `state === 'ACTIVE' || state === 'GRACE_PERIOD'`.
abbrev pub in_service : SessionState → Bool
in_service active = true
in_service grace_period = true
in_service pending = false
in_service expired = false
in_service failed = false

abbrev pub hash_in_service : Option SessionState → Bool
hash_in_service none = false
hash_in_service (some st) = in_service st

-- A text that is there and not empty.
abbrev pub truthy : Option String → Bool
truthy none = false
truthy (some s) = not (s == "")

-- `field === value`, for a field that may be missing.
abbrev pub is_text : Option String → String → Bool
is_text none v = false
is_text (some u) v = u == v
