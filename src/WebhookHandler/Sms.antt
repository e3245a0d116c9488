-- ===== src/WebhookHandler/Sms.antt =====
-- `handleSmsWebhook`.
use relavoi_backend.Base.{
  ◌&&◌, String, Bool, true, false, List, ◌∷◌, Option, none, some, if◌then◌else◌,
}
use relavoi_backend.Crypto.{NodeCrypto}
use relavoi_backend.AfricasTalking.{Texts}
use relavoi_backend.AfricasTalking.SmsParser.{SmsBody, ParsedSmsWebhook}
use relavoi_backend.CallRouter.{fresh_entry}
use relavoi_backend.SmsRouter.{
  SmsAction, forward, drop, SmsRouteDecision, Outbox, SmsArgs, SmsAnswers, route_incoming_sms,
}
use relavoi_backend.Store.{truthy}
use relavoi_backend.WebhookHandler.{Faults, Outcome, returned, threw, DeadLetter, push_to_dlq}

pub record SmsWebhookResult : Type 0 where
  pub decision : SmsRouteDecision
  pub cached : Bool

-- An event `sms.received`.
pub record SmsReceived : Type 0 where
  pub tenant_id : Option String
  pub session_id : Option String
  pub sms_record_id : Option String

pub record SmsDesk : Type 0 where
  pub outbox : Outbox
  pub received : List SmsReceived
  pub dlq : List (DeadLetter SmsBody)

abbrev is_forward : SmsAction → Bool
is_forward forward = true
is_forward drop = false

unfoldable pub announce_sms : SmsRouteDecision → SmsDesk → SmsDesk
announce_sms d x =
    if is_forward d.action && truthy d.tenant_id
    then record x {
      received =
          record {
            tenant_id = d.tenant_id;
            session_id = d.session_id;
            sms_record_id = d.sms_record_id;
          }
          ∷ x.received;
    }
    else x

module _ (c : NodeCrypto) (js : Texts) (f : Faults) (r : SmsAnswers) (p : ParsedSmsWebhook) where
  abbrev pub sms_args : SmsArgs
  sms_args = record {
    proxy_number = p.to;
    from_phone = js.utf8 p.from;
    body = js.utf8 p.text;
    event_id = p.event_id;
    tenant_hint = none;
  }

  unfoldable pub finish_sms :
      SmsDesk → Option SmsRouteDecision × Outbox → Outcome SmsWebhookResult × SmsDesk
  finish_sms x (none, o) =
      (threw, record x { outbox = o; dlq = push_to_dlq f p.event_id p.raw x.dlq })
  finish_sms x (some d, o) =
      (returned (record { decision = d; cached = false }), announce_sms d (record x { outbox = o }))

  unfoldable pub recall_received : SmsDesk → Option SmsRouteDecision
  recall_received x =
      if f.dedup_read_fails then none else fresh_entry f.now (x.outbox.dedup p.event_id)

  unfoldable pub handle_sms_webhook : SmsDesk → Outcome SmsWebhookResult × SmsDesk
  handle_sms_webhook x = elim (recall_received x) [
    | some d ↦ (returned (record { decision = d; cached = true }), x)
    | none ↦ finish_sms x (route_incoming_sms c r sms_args x.outbox)
  ]
