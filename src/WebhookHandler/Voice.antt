-- ===== src/WebhookHandler/Voice.antt =====
-- `handleVoiceWebhook` and `handleStatusEvent`.
use relavoi_backend.WebhookHandler.{
  CallStatus, Desk, EventName, Faults, Outcome, Progress, VoiceWebhookResult, answered_status,
  call_answered, call_ended, call_failed, call_incoming, call_missed, completed_status,
  failed_status, missed_status, push_to_dlq, returned, ringing_status, routed, status_marker,
  status_update, threw,
}
use relavoi_backend.Base.{
  ℕ, String, Bool, true, false, ◌&&◌, List, [], ◌∷◌, Option, none, some, ltb, ◌==◌, string_eq,
  if◌then◌else◌, or_else, update, keep_if,
}
use relavoi_backend.Crypto.{NodeCrypto}
use relavoi_backend.Store.{SessionRow, truthy}
use relavoi_backend.AfricasTalking.VoiceParser.{
  VoiceEventType, incoming_call, ringing, answered, completed, missed, failed, dtmf, unknown,
  ParsedVoiceWebhook,
}
use relavoi_backend.CallRouter.{
  Exchange, CallArgs, CallAnswers, CallRecord, RouteDecision, cached, cache_decision,
}
use relavoi_backend.CallRouter.Routing.{route_incoming_call}

abbrev pub call_args : ParsedVoiceWebhook → CallArgs
call_args p = record {
  proxy_number = p.destination_number;
  caller_phone = p.caller_number;
  tenant_hint = none;
  event_id = p.event_id;
}

-- `if (parsed.durationInSeconds) updates.duration_seconds = …`.
abbrev set_duration : Option ℕ → Option ℕ → Option ℕ
set_duration none old = old
set_duration (some seconds) old = if ltb 0 seconds then some seconds else old

abbrev set_recording : Option String → Option String → Option String
set_recording url old = if truthy url then url else old

-- `updates`, or none where the event writes nothing.
unfoldable pub updates_of : ParsedVoiceWebhook → ℕ → Option (Progress → Progress)
updates_of p now = by_event p.event_type
  where
    ends : CallStatus → Progress → Progress
    ends st q = record q { status = st; ended_at = some now }

    completes : Progress → Progress
    completes q = record q {
      status = completed_status;
      ended_at = some now;
      duration_seconds = set_duration p.duration_in_seconds q.duration_seconds;
      recording_url = set_recording p.recording_url q.recording_url;
    }

    by_event : VoiceEventType → Option (Progress → Progress)
    by_event answered = some (λ q. record q { status = answered_status; answered_at = some now })
    by_event completed = some completes
    by_event missed = some (ends missed_status)
    by_event failed = some (ends failed_status)
    by_event ringing = some (λ q. record q { status = ringing_status })
    by_event incoming_call = none
    by_event dtmf = none
    by_event unknown = none

abbrev pub event_of : VoiceEventType → Option EventName
event_of answered = some call_answered
event_of completed = some call_ended
event_of failed = some call_failed
event_of missed = some call_missed
event_of ringing = none
event_of incoming_call = none
event_of dtmf = none
event_of unknown = none

abbrev pub has_cpaas_id : String → CallRecord → Bool
has_cpaas_id cpaas rec = rec.cpaas_call_id == cpaas

-- The `UPDATE` of the rows of a call.
unfoldable pub update_progress :
    (Progress → Progress) → List CallRecord → (String → Progress) → String → Progress
update_progress f [] m = m
update_progress f (rec ∷ rest) m = update_progress f rest (update m rec.id (f (m rec.id)))

abbrev tenant_of : Option SessionRow → Option String
tenant_of none = none
tenant_of (some row) = some row.tenant_id

abbrev row_tenant : Faults → Exchange → String → Option String
row_tenant f x sid = if f.tenant_read_fails then none else tenant_of (x.rows sid)

-- The event of the first row that was updated.
unfoldable pub announce : Faults → ParsedVoiceWebhook → List CallRecord → Desk → Desk
announce f p [] x = x
announce f p (rec ∷ rest) x = if rec.session_id == "" then x else elim (event_of p.event_type) [
  | none ↦ x
  | some name ↦ record x {
    published =
        record {
          name = name;
          tenant_id = row_tenant f x.exchange rec.session_id;
          session_id = rec.session_id;
          duration_seconds = p.duration_in_seconds;
        }
        ∷ x.published;
  }
]

unfoldable pub handle_status_event : Faults → ParsedVoiceWebhook → Desk → Desk
handle_status_event f p x = elim (updates_of p f.now) [
  | none ↦ x
  | some change ↦
      let rows = keep_if (has_cpaas_id p.cpaas_session_id) x.exchange.call_records in
      if f.update_fails
      then x
      else announce f p rows (record x { progress = update_progress change rows x.progress })
]

-- `call.incoming`, for a decision with a session and its tenant.
unfoldable pub announce_call : RouteDecision → Desk → Desk
announce_call d x =
    if truthy d.session_id && truthy d.tenant_id
    then record x {
      published =
          record {
            name = call_incoming;
            tenant_id = d.tenant_id;
            session_id = or_else d.session_id "";
            duration_seconds = none;
          }
          ∷ x.published;
    }
    else x

abbrev pub is_incoming : VoiceEventType → Bool
is_incoming incoming_call = true
is_incoming ringing = false
is_incoming answered = false
is_incoming completed = false
is_incoming missed = false
is_incoming failed = false
is_incoming dtmf = false
is_incoming unknown = false

module _ (c : NodeCrypto) (f : Faults) (r : CallAnswers) (p : ParsedVoiceWebhook) where
  unfoldable pub route_call : Desk → Outcome VoiceWebhookResult × Desk
  route_call x =
      let (d, e) = route_incoming_call c r (call_args p) x.exchange in
      (
        returned (record { decision = some d; cached = false; action = routed }),
        announce_call d (record x { exchange = e }),
      )

  -- The marker of the event is kept after it is handled; a write that throws makes the event a
  -- dead letter and is thrown again.
  unfoldable pub handle_status : Desk → Outcome VoiceWebhookResult × Desk
  handle_status x =
      let y = handle_status_event f p x in
      if f.dedup_write_fails
      then (threw, record y { dlq = push_to_dlq f p.event_id p.raw y.dlq })
      else (
        returned (record { decision = none; cached = false; action = status_update }),
        record y { exchange = cache_decision false p.event_id f.now status_marker y.exchange },
      )

  unfoldable pub recall_voice : Desk → Option RouteDecision
  recall_voice x = if f.dedup_read_fails then none else cached f.now p.event_id x.exchange

  unfoldable pub handle_voice_webhook : Desk → Outcome VoiceWebhookResult × Desk
  handle_voice_webhook x = elim (recall_voice x) [
    | some d ↦ (returned (record { decision = some d; cached = true; action = routed }), x)
    | none ↦ if is_incoming p.event_type then route_call x else handle_status x
  ]
