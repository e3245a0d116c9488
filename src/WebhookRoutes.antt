-- ===== src/WebhookRoutes.antt =====
-- The routes that the provider posts to, src/api/routes/webhooks.ts: /webhooks/cpaas/voice and
-- /webhooks/cpaas/sms. The routes of the tenants are left out, as are metrics and logs.
pub mod Forged
mod Tests
use relavoi_backend.Base.{
  ℕ, String, Bool, true, false, not, ◌&&◌, Option, none, some, if◌then◌else◌, or_else,
}
use relavoi_backend.Crypto.{Phone, Buffer, NodeCrypto}
use relavoi_backend.Store.{truthy}
use relavoi_backend.AfricasTalking.{Texts}
use relavoi_backend.AfricasTalking.VoiceParser.{VoiceBody, parse_voice_webhook}
use relavoi_backend.AfricasTalking.SmsParser.{SmsBody, parse_sms_webhook}
use relavoi_backend.AfricasTalking.ResponseBuilder.{
  build_dial_response, build_reject_response, build_play_message_response, build_redirect_response,
  build_empty_response, expired,
}
use relavoi_backend.CallRouter.{
  RouteDecision, RouteAction, forward, consent_then_forward, dead_line, redirect, play_message,
  status_processed, CallAnswers,
}
use relavoi_backend.SmsRouter.{SmsAnswers}
use relavoi_backend.WebhookHandler.{Desk, Faults, Outcome, returned, threw, VoiceWebhookResult}
use relavoi_backend.WebhookHandler.Voice.{handle_voice_webhook}
use relavoi_backend.WebhookHandler.Sms.{SmsDesk, SmsWebhookResult, handle_sms_webhook}
use relavoi_backend.WebhookHandler.Signature.{verify_signature}

-- `config.AT_ENVIRONMENT`, `config.AT_API_KEY` and `config.WEBHOOK_HMAC_ALGO`.
pub record ProviderSettings : Type 0 where
  pub is_sandbox : Bool
  pub at_api_key : String
  pub webhook_hmac_algo : String

-- A request, with its signature header, if there is one, and the bytes of its body.
pub record Request {ℓ} (Body : Type ℓ) : Type ℓ where
  pub signature : Option String
  pub raw_body : Option Buffer
  pub body : Body
  pub now_text : String

pub data Content : Type 0 where
  xml : String → Content
  ok_json : Bool → Content

pub record Reply : Type 0 where
  pub status : ℕ
  pub content : Content

abbrev pub forbidden : Reply
forbidden = record { status = 403; content = xml build_empty_response }

module _ (js : Texts) where
  phone_text : Option Phone → String
  phone_text none = ""
  phone_text (some phone) = js.from_utf8 phone

  -- The `switch` over `decision.action`.
  unfoldable pub answer_decision : RouteDecision → String
  unfolding phone_text
  answer_decision d = by_action d.action
    where
      dials : Bool → String
      dials recording = build_dial_response (record {
        destination = phone_text d.destination;
        caller_id = some (or_else d.caller_id "");
        recording_enabled = recording;
        consent_audio_url = if recording then d.audio_url else none;
        consent_text = if recording then d.message else none;
        max_duration_seconds = none;
        ringback_tone = none;
      })

      by_action : RouteAction → String
      by_action forward = dials false
      by_action consent_then_forward = dials true
      by_action dead_line = build_reject_response expired d.message
      by_action redirect = build_redirect_response (phone_text d.destination) none
      by_action play_message = build_play_message_response (or_else d.audio_url "") d.message
      by_action status_processed = build_empty_response

  abbrev answer_option : Option RouteDecision → String
  answer_option none = build_empty_response
  answer_option (some d) = answer_decision d

  unfoldable pub answer_voice : Outcome VoiceWebhookResult → Reply
  answer_voice (returned r) = record { status = 200; content = xml (answer_option r.decision) }
  answer_voice threw = record { status = 200; content = xml build_empty_response }

abbrev answer_sms : Outcome SmsWebhookResult → Reply
answer_sms (returned r) = record { status = 200; content = ok_json true }
answer_sms threw = record { status = 200; content = ok_json false }

module _ (hmac : String → String → Buffer → Option String) (s : ProviderSettings) where
  unfoldable pub cpaas_signature_valid {ℓ} : {Body : Type ℓ} → Request Body → Bool
  cpaas_signature_valid q =
      if truthy q.signature
      then elim q.raw_body [
        | none ↦ false
        | some raw ↦
            verify_signature hmac s.webhook_hmac_algo s.at_api_key (or_else q.signature "") raw
      ]
      else false

  abbrev is_refused {ℓ} : {Body : Type ℓ} → Request Body → Bool
  is_refused q = not s.is_sandbox && not (cpaas_signature_valid q)

  module _ (c : NodeCrypto) (js : Texts) (f : Faults) where
    unfoldable pub voice_route : CallAnswers → Request VoiceBody → Desk → Reply × Desk
    voice_route r q x =
        if is_refused q then (forbidden, x) else elim (parse_voice_webhook js q.now_text q.body) [
          | none ↦ (record { status = 200; content = xml build_empty_response }, x)
          | some p ↦ let (res, y) = handle_voice_webhook c f r p x in (answer_voice js res, y)
        ]

    unfoldable pub sms_route : SmsAnswers → Request SmsBody → SmsDesk → Reply × SmsDesk
    sms_route r q x =
        if is_refused q
        then (forbidden, x)
        else let (res, y) =
            handle_sms_webhook c js f r (parse_sms_webhook js q.now_text q.body) x in
          (answer_sms res, y)
