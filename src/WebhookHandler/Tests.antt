-- ===== src/WebhookHandler/Tests.antt =====
-- The handler of webhooks at concrete inputs.
use relavoi_backend.Examples.Webhooks.{
  texts, call_body, hangup_body, desk, no_faults, sms_body, sms_desk,
}
use relavoi_backend.AfricasTalking.SmsParser.{parse_sms_webhook}
use relavoi_backend.AfricasTalking.VoiceParser.{
  ParsedVoiceWebhook, completed, event_id_of, final_event, has_ended, incoming_call,
  parse_event_type, parsed_webhook,
}
use relavoi_backend.SmsRouter.{SmsAnswers}
use relavoi_backend.CallRouter.Routing.{recall}
use relavoi_backend.CallRouter.{cached}
use relavoi_backend.WebhookHandler.DeadLetters.{SmsLetters, VoiceLetters, handle_webhooks-dlq}
use relavoi_backend.WebhookHandler.Replay.{handle_voice_twice, kept_decision}
use relavoi_backend.WebhookHandler.Status.{Arrival, handle_status_event-unmatched, receive_all}
use relavoi_backend.WebhookHandler.Signature.{verify_signature, verify_signature_iff}
use relavoi_backend.WebhookHandler.Sms.{handle_sms_webhook}
use relavoi_backend.WebhookHandler.Voice.{handle_status_event, handle_voice_webhook, recall_voice}
use relavoi_backend.WebhookHandler.{Faults, returned, routed}
use mathlib.Core.Bool.{false≢true}
use relavoi_backend.Base.{
  eq_iff, ◌≡◌, ◌↔◌, refl, String, true, [], ◌∷◌, some, arith, string_eq, has_char, join,
}
use relavoi_backend.Examples.{plain, call_answers, sms_answers}

first_is_a_call : parse_event_type texts call_body ≡ incoming_call
unfolding parse_event_type has_ended
first_is_a_call = refl

last_is_completed : parse_event_type texts hangup_body ≡ completed
unfolding parse_event_type has_ended final_event
last_is_completed = refl

ids_have_events : event_id_of "AT1" "1000" incoming_call ≡ "AT1:incoming_call"
unfolding event_id_of
ids_have_events = refl

abbrev call : ParsedVoiceWebhook
call = parsed_webhook texts "5000" call_body "+234802222" "+2341"

abbrev hangup : ParsedVoiceWebhook
hangup = parsed_webhook texts "5000" hangup_body "+234802222" "+2341"

abbrev later : Faults
later = record no_faults { now = 9000 }

handle_voice_twice_example :
    handle_voice_webhook plain later call_answers call
      (handle_voice_webhook plain no_faults call_answers call desk).1
    ≡ (
      returned (record {
        decision =
            some (kept_decision (handle_voice_webhook plain no_faults call_answers call desk).0);
        cached = true;
        action = routed;
      }),
      (handle_voice_webhook plain no_faults call_answers call desk).1,
    )
unfolding recall_voice recall cached
handle_voice_twice_example =
    handle_voice_twice plain no_faults later call_answers call_answers call call desk refl refl refl
      refl refl refl refl (omega arith)

abbrev hangup_arrival : Arrival
hangup_arrival = record {
  body = call_body;
  now_text = "5000";
  faults = no_faults;
  answers = call_answers;
}

-- The call is routed and recorded, but its end is not written.
handle_status_event-unmatched_example :
    handle_status_event later hangup (receive_all plain texts (hangup_arrival ∷ []) desk)
    ≡ receive_all plain texts (hangup_arrival ∷ []) desk
unfolding has_char parsed_webhook
handle_status_event-unmatched_example =
    handle_status_event-unmatched plain texts (hangup_arrival ∷ []) desk later hangup refl refl

abbrev digest : String
digest = "5f3a"

verify_signature_iff_example :
    ((verify_signature (λ algo secret body. some digest) "sha256" "key" digest [] ≡ true)
      ↔ (digest ≡ digest))
    × ((verify_signature
            (λ algo secret body. some digest)
            "sha256"
            "key"
            (join "sha256" (join "=" digest))
            []
          ≡ true)
        ↔ (digest ≡ digest))
unfolding has_char
verify_signature_iff_example =
    verify_signature_iff (λ algo secret body. some digest) "sha256" "key" "sha256" digest digest []
      refl (λ e. false≢true ((eq_iff digest "").1 e)) (λ e. false≢true ((eq_iff "key" "").1 e)) refl
      refl

abbrev no_write : Faults
no_write = record no_faults { dedup_write_fails = true }

abbrev unread : SmsAnswers
unread = record sms_answers { hash_fails = λ id. true }

-- The mark of a status event cannot be written, and the sessions of a text message cannot be read.
handle_webhooks-dlq_example :
    VoiceLetters no_write hangup desk (handle_voice_webhook plain no_write call_answers hangup desk)
    × SmsLetters no_write (parse_sms_webhook texts "5000" sms_body) sms_desk (
        handle_sms_webhook plain texts no_write unread
          (parse_sms_webhook texts "5000" sms_body)
          sms_desk)
handle_webhooks-dlq_example =
    handle_webhooks-dlq plain texts no_write call_answers unread hangup
      (parse_sms_webhook texts "5000" sms_body) desk sms_desk
