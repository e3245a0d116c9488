-- ===== src/WebhookHandler.antt =====
-- The handling of the provider's webhooks, src/services/webhook-handler.ts.
--
-- `Desk` is the state of the voice side: that of the call router, what status events write to the
-- rows of `call_records`, the events handed to the bus and the dead letters. The text messages have
-- the state of their router; their event ids begin with "sms:", so the two sides share no key of
-- the dedup cache. Metrics and logs are left out.
pub mod Voice
pub mod Sms
pub mod Signature
pub mod Replay
pub mod Status
pub mod DeadLetters
mod Tests
use relavoi_backend.Base.{
  ◌∷◌, if◌then◌else◌, ℕ, String, Bool, true, false, List, Option, none, some,
}
use relavoi_backend.AfricasTalking.VoiceParser.{VoiceBody}
use relavoi_backend.CallRouter.{Exchange, RouteDecision, no_decision, status_processed}

pub data CallStatus : Type 0 where
  ringing_status answered_status completed_status missed_status failed_status : CallStatus

-- The columns of `call_records` that status events write.
pub record Progress : Type 0 where
  pub status : CallStatus
  pub answered_at : Option ℕ
  pub ended_at : Option ℕ
  pub duration_seconds : Option ℕ
  pub recording_url : Option String

pub data EventName : Type 0 where
  call_incoming call_answered call_ended call_failed call_missed : EventName

pub record CallEvent : Type 0 where
  pub name : EventName
  pub tenant_id : Option String
  pub session_id : String
  pub duration_seconds : Option ℕ

-- A row of `webhook_dlq`: with status PENDING, no retries made and three allowed.
pub record DeadLetter {ℓ} (Payload : Type ℓ) : Type ℓ where
  pub event_id : String
  pub payload : Payload
  pub first_received_at : ℕ

pub record Desk : Type 0 where
  pub exchange : Exchange
  pub progress : String → Progress  -- by the id of the record, from how it was inserted
  pub published : List CallEvent
  pub dlq : List (DeadLetter VoiceBody)

pub data VoiceAction : Type 0 where
  routed status_update ignored : VoiceAction

pub record VoiceWebhookResult : Type 0 where
  pub decision : Option RouteDecision
  pub cached : Bool
  pub action : VoiceAction

-- A result, or a thrown error.
pub data Outcome {ℓ} (A : Type ℓ) : Type ℓ where
  returned : A → Outcome A
  threw : Outcome A

pub record Faults : Type 0 where
  pub dedup_read_fails : Bool
  pub dedup_write_fails : Bool
  pub update_fails : Bool
  pub tenant_read_fails : Bool
  pub dlq_fails : Bool
  pub now : ℕ

-- The decision that a status event leaves in the dedup cache.
abbrev pub status_marker : RouteDecision
status_marker = no_decision status_processed

-- `pushToDlq`.
unfoldable pub push_to_dlq {ℓ} :
    {Payload : Type ℓ}
    → Faults
    → String
    → Payload
    → List (DeadLetter Payload)
    → List (DeadLetter Payload)
push_to_dlq f event payload letters =
    if f.dlq_fails
    then letters
    else record { event_id = event; payload = payload; first_received_at = f.now } ∷ letters
