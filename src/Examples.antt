-- ===== src/Examples.antt =====
-- Concrete inputs that the tests of several parts use.
pub mod Webhooks
use relavoi_backend.Pool.Release.{ReleaseFaults}
use relavoi_backend.Session.Expire.{ExpireFaults}
use relavoi_backend.Session.{Defaults, World}
use relavoi_backend.Base.{
  String, false, ◌++◌, [], ◌∷◌, none, some, replicate, ◌==◌, bytes_eq, string_eq, if◌then◌else◌,
}
use relavoi_backend.Crypto.{Phone, NodeCrypto}
use relavoi_backend.Store.{
  SessionRow, SessionHash, Redis, no_hash, live, active, bidirectional, no_prompt,
}
use relavoi_backend.Base.{◌≡◌, sym, ◌∙◌, true, Bool-cases, inl, inr, eq_iff}
use relavoi_backend.Store.{hash_in_service}
use relavoi_backend.CallRouter.{Exchange, CallAnswers}
use relavoi_backend.SmsRouter.{Outbox, SmsAnswers}
use relavoi_backend.CallRouter.Unique.{IsApart}

-- A cipher that keeps its text, and a digest that tells the agent from all others.
abbrev pub agent : Phone
agent = b'+' ∷ b'2' ∷ b'3' ∷ b'4' ∷ b'8' ∷ b'0' ∷ b'1' ∷ b'1' ∷ b'1' ∷ []

abbrev pub customer : Phone
customer = b'+' ∷ b'2' ∷ b'3' ∷ b'4' ∷ b'8' ∷ b'0' ∷ b'2' ∷ b'2' ∷ b'2' ∷ []

abbrev pub plain : NodeCrypto
plain = record {
  pbkdf2 = λ tenant. [];
  cipher = λ key iv text. (text, replicate 16 0);
  decipher = λ key iv tag text. some text;
  hmac = λ tenant phone. if phone == agent then "hash-agent" else "hash-customer";
}

abbrev pub one_number : Redis
one_number = record {
  available = λ region. if region == "lagos" then "+2341" ∷ [] else [];
  in_use = λ region. [];
  cooldown = λ region. [];
  proxy_sessions = λ number. [];
  proxy_region = λ number. some "lagos";
  phone_sessions = λ hash. [];
  active_sessions = λ tenant. [];
  session = λ id. no_hash;
  session_deadline = λ id. none;
}

abbrev pub order_hash : SessionHash
order_hash = record no_hash {
  id = some "s1";
  tenant_id = some "t1";
  party_a_hash = some "hash-agent";
  party_b_hash = some "hash-customer";
  proxy_number = some "+2341";
  state = some active;
  direction_mode = some bidirectional;
  recording_enabled = some false;
  mode = some live;
}

abbrev pub order_row : SessionRow
order_row = record {
  id = "s1";
  tenant_id = "t1";
  party_a_phone_enc = replicate 12 1 ++ (replicate 16 0 ++ agent);
  party_b_phone_enc = replicate 12 2 ++ (replicate 16 0 ++ customer);
  party_a_phone_hash = "hash-agent";
  party_b_phone_hash = "hash-customer";
  proxy_number = "+2341";
  state = active;
  direction_mode = bidirectional;
  grace_period_min = 60;
  max_duration_min = 1440;
  recording_enabled = false;
  consent_prompt = no_prompt;
  mode = live;
  expires_at = 86401000;
  created_at = 1000;
  activated_at = some 1000;
  ended_at = none;
  expired_at = none;
  call_count = 0;
}

abbrev pub one_order : Redis
one_order = record one_number {
  proxy_sessions = λ number. if number == "+2341" then "s0" ∷ "s1" ∷ [] else [];
  session = λ id. if id == "s1" then order_hash else no_hash;
}

pub only_s1 : (sid : String) → hash_in_service (one_order.session sid).state ≡ true → sid ≡ "s1"
only_s1 sid = elim (Bool-cases (sid == "s1")) [
  | inl same ↦ λ e. (eq_iff sid "s1").0 same
  | inr other ↦ rw other λ e. absurd cc
]

pub one_order-IsApart : IsApart one_order ("s0" ∷ "s1" ∷ [])
unfolding IsApart
one_order-IsApart sid sid' m m' has_id has_id' serves serves' tenants is_a is_a' hash p p' =
    only_s1 sid serves ∙ sym (only_s1 sid' serves')

abbrev pub exchange : Exchange
exchange = record {
  redis = one_order;
  rows = λ id. if id == "s1" then some order_row else none;
  routing = λ tenant. none;
  dedup = λ event. none;
  call_records = [];
}

abbrev pub call_answers : CallAnswers
call_answers = record {
  dedup_read_fails = false;
  members_fail = false;
  hash_fails = λ id. false;
  phone_read_fails = false;
  config_read_fails = false;
  dedup_write_fails = false;
  record_fails = false;
  bump_fails = false;
  bump_row_fails = false;
  proxy_tenant = none;
  record_id = "r1";
  now = 5000;
}

abbrev pub outbox : Outbox
outbox = record {
  redis = one_order;
  rows = λ id. if id == "s1" then some order_row else none;
  dedup = λ event. none;
  sms_records = [];
  carried = [];
  published = [];
}

abbrev pub sms_answers : SmsAnswers
sms_answers = record {
  dedup_read_fails = false;
  members_fail = false;
  hash_fails = λ id. false;
  phone_read_fails = false;
  dedup_write_fails = false;
  insert_fails = false;
  update_fails = false;
  is_sent = true;
  message_id = none;
  record_id = "r1";
  iv = replicate 12 3;
  now = 5000;
}

abbrev pub quiet : World
quiet = record {
  redis = one_number;
  numbers = [];
  rows = λ id. none;
  tenants = λ id. none;
  config_cache = [];
  published = [];
}

abbrev pub env : Defaults
env = record { grace_period_minutes = 60; max_duration_minutes = 1440; cooldown_minutes = 30 }

abbrev pub no_release_faults : ReleaseFaults
no_release_faults = record { region_read = false; script = false; table = false }

abbrev pub down_pool : ExpireFaults
down_pool = record {
  read = false;
  update = false;
  config_read = true;
  release = record no_release_faults { script = true };
  del = false;
  srem_proxy = false;
  srem_party_a = false;
  srem_party_b = false;
  srem_active = false;
}
