-- ===== src/WebhookHandler/DeadLetters.antt =====
-- Which webhooks become dead letters.
use relavoi_backend.AfricasTalking.SmsParser.{ParsedSmsWebhook}
use relavoi_backend.AfricasTalking.VoiceParser.{ParsedVoiceWebhook}
use relavoi_backend.AfricasTalking.{Texts}
use relavoi_backend.SmsRouter.{Outbox, SmsAnswers, SmsRouteDecision}
use relavoi_backend.CallRouter.{CallAnswers, CallRecord, RouteDecision}
use relavoi_backend.WebhookHandler.Sms.{
  SmsDesk, SmsWebhookResult, announce_sms, finish_sms, handle_sms_webhook, recall_received,
}
use relavoi_backend.WebhookHandler.Voice.{
  announce, announce_call, event_of, handle_status, handle_status_event, handle_voice_webhook,
  is_incoming, recall_voice, route_call, updates_of,
}
use relavoi_backend.WebhookHandler.{
  DeadLetter, Desk, Faults, Outcome, VoiceWebhookResult, push_to_dlq, returned, threw,
}
use relavoi_backend.Base.{
  ◌≡◌, refl, ap, ◌∙◌, Bool, String, ◌&&◌, not, Bool-cases, true, false, List, [], ◌∷◌, Option, none,
  some, if◌then◌else◌, arith, Option-cases, inl, inr, if_holds,
}
use relavoi_backend.Crypto.{NodeCrypto}

abbrev pub has_thrown {ℓ} : {A : Type ℓ} → Outcome A → Bool
has_thrown (returned a) = false
has_thrown threw = true

announce_call-dlq : (d : RouteDecision) (x : Desk) → (announce_call d x).dlq ≡ x.dlq
unfolding announce_call
announce_call-dlq d x = ground arith

announce-dlq :
    (f : Faults) (p : ParsedVoiceWebhook) (rows : List CallRecord) (x : Desk)
    → (announce f p rows x).dlq ≡ x.dlq
unfolding announce
announce-dlq f p [] x = refl
announce-dlq f p (rec ∷ rest) x = elim (Option-cases (event_of p.event_type)) [
  | inl no_event ↦ rw no_event (ground arith)
  | inr (name, named) ↦ rw named (ground arith)
]

handle_status_event-dlq :
    (f : Faults) (p : ParsedVoiceWebhook) (x : Desk) → (handle_status_event f p x).dlq ≡ x.dlq
unfolding handle_status_event
handle_status_event-dlq f p x = elim (Option-cases (updates_of p f.now)) [
  | inl nothing ↦ rw (nothing, handle_status_event) refl
  | inr (change, writes) ↦
      rw (writes, handle_status_event)
        (if_holds (λ (y : Desk). y.dlq ≡ x.dlq) f.update_fails refl (announce-dlq f p _ _))
]

announce_sms-dlq : (d : SmsRouteDecision) (x : SmsDesk) → (announce_sms d x).dlq ≡ x.dlq
unfolding announce_sms
announce_sms-dlq d x = ground arith

-- A letter under the event's id, with its body and the time, before those that were there: where the
-- handling has thrown and the table can be written.
abbrev pub letters_after {ℓ} :
    {Payload : Type ℓ}
    → Bool
    → Faults
    → String
    → Payload
    → List (DeadLetter Payload)
    → List (DeadLetter Payload)
letters_after thrown f event payload letters =
    if thrown && not f.dlq_fails
    then record { event_id = event; payload = payload; first_received_at = f.now } ∷ letters
    else letters

push_to_dlq_letters {ℓ} :
    {Payload : Type ℓ} (f : Faults) (event : String) (payload : Payload)
    (letters : List (DeadLetter Payload))
    → push_to_dlq f event payload letters ≡ letters_after true f event payload letters
unfolding push_to_dlq
push_to_dlq_letters f event payload letters = elim (Bool-cases f.dlq_fails) [
  | inl down ↦ simp down refl
  | inr up ↦ simp up refl
]

-- The dead letters after a webhook.
abbrev pub VoiceLetters :
    Faults → ParsedVoiceWebhook → Desk → Outcome VoiceWebhookResult × Desk → Type 0
VoiceLetters f p x res = res.1.dlq ≡ letters_after (has_thrown res.0) f p.event_id p.raw x.dlq

abbrev pub SmsLetters :
    Faults → ParsedSmsWebhook → SmsDesk → Outcome SmsWebhookResult × SmsDesk → Type 0
SmsLetters f p x res = res.1.dlq ≡ letters_after (has_thrown res.0) f p.event_id p.raw x.dlq

handle_status-VoiceLetters :
    (c : NodeCrypto) (f : Faults) (r : CallAnswers) (p : ParsedVoiceWebhook) (x : Desk)
    → VoiceLetters f p x (handle_status c f r p x)
unfolding handle_status
handle_status-VoiceLetters c f r p x =
    if_holds (VoiceLetters f p x) f.dedup_write_fails
      (ap (push_to_dlq f p.event_id p.raw) (handle_status_event-dlq f p x)
        ∙ push_to_dlq_letters f p.event_id p.raw x.dlq)
      (handle_status_event-dlq f p x)

finish_sms-SmsLetters :
    (c : NodeCrypto) (js : Texts) (f : Faults) (r : SmsAnswers) (p : ParsedSmsWebhook) (x : SmsDesk)
    (res : Option SmsRouteDecision × Outbox)
    → SmsLetters f p x (finish_sms c js f r p x res)
unfolding finish_sms
finish_sms-SmsLetters c js f r p x (none, o) = push_to_dlq_letters f p.event_id p.raw x.dlq
finish_sms-SmsLetters c js f r p x (some d, o) = announce_sms-dlq d _

-- A webhook, of a call or of a text message, becomes a dead letter exactly if its handling throws;
-- then, if the table can be written, one letter is added before the others, with its event id, its
-- body and the time at which it came.
pub handle_webhooks-dlq :
    (c : NodeCrypto) (js : Texts) (f : Faults) (r : CallAnswers) (r' : SmsAnswers)
    (p : ParsedVoiceWebhook) (p' : ParsedSmsWebhook) (x : Desk) (x' : SmsDesk)
    → VoiceLetters f p x (handle_voice_webhook c f r p x)
      × SmsLetters f p' x' (handle_sms_webhook c js f r' p' x')
unfolding route_call handle_voice_webhook handle_sms_webhook
handle_webhooks-dlq c js f r r' p p' x x' = (
  elim (Option-cases (recall_voice c f r p x)) [
    | inr (d, hit) ↦ rw (hit, handle_voice_webhook) refl
    | inl new ↦
        rw (new, handle_voice_webhook)
          (if_holds (VoiceLetters f p x) (is_incoming p.event_type) (announce_call-dlq _ _)
            (handle_status-VoiceLetters c f r p x))
  ],
  elim (Option-cases (recall_received c js f r' p' x')) [
    | inr (d, hit) ↦ rw (hit, handle_sms_webhook) refl
    | inl new ↦ rw (new, handle_sms_webhook) (finish_sms-SmsLetters c js f r' p' x' _)
  ],
)
