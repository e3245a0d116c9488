-- ===== src/SmsRouter/Tests.antt =====
-- The router of text messages at concrete inputs.
use relavoi_backend.Base.{◌≡◌, ◌⊎◌, refl, [], ◌∷◌, none, some, arith, string_eq}
use relavoi_backend.Crypto.{decrypt_phone, hash_phone}
use relavoi_backend.CallRouter.{side_of}
use relavoi_backend.SmsRouter.{
  Message, SmsArgs, SmsAnswers, SmsRouteDecision, forward, search_sessions, destination_of, send,
  settle_sms, recall_sms, route_incoming_sms,
}
use relavoi_backend.SmsRouter.Delivery.{Carries, route_incoming_sms-CarriesOne}
use relavoi_backend.SmsRouter.Replay.{route_sms_twice}
use relavoi_backend.Examples.{outbox, sms_answers, customer, agent, plain}

abbrev hello : SmsArgs
hello = record {
  proxy_number = "+2341";
  from_phone = customer;
  body = b'h' ∷ b'i' ∷ [];
  event_id = "e1";
  tenant_hint = none;
}

abbrev decision : SmsRouteDecision
decision = record {
  action = forward;
  destination = some agent;
  body = some (b'h' ∷ b'i' ∷ []);
  session_id = some "s1";
  sms_record_id = some "r1";
  tenant_id = some "t1";
  reason = none;
}

new_event : recall_sms plain sms_answers hello outbox ≡ none
unfolding recall_sms
new_event = refl

decided : (route_incoming_sms plain sms_answers hello outbox).0 ≡ some decision
unfolding route_incoming_sms recall_sms search_sessions side_of settle_sms send destination_of
    decrypt_phone hash_phone
decided = refl

route_incoming_sms-CarriesOne_example :
    ((route_incoming_sms plain sms_answers hello outbox).1.carried ≡ [])
    ⊎ ((m : Message) × ((route_incoming_sms plain sms_answers hello outbox).1.carried ≡ m ∷ [])
        × Carries plain sms_answers hello outbox m)
route_incoming_sms-CarriesOne_example = route_incoming_sms-CarriesOne plain sms_answers hello outbox

abbrev answers_later : SmsAnswers
answers_later = record sms_answers { now = 64999 }

route_sms_twice_example :
    route_incoming_sms plain answers_later hello
      (route_incoming_sms plain sms_answers hello outbox).1
    ≡ (some decision, (route_incoming_sms plain sms_answers hello outbox).1)
route_sms_twice_example =
    route_sms_twice plain hello hello sms_answers answers_later outbox decision new_event decided
      refl refl refl (ground arith)
