-- ===== src/WebhookRoutes/Tests.antt =====
-- The routes at a request without a signature and one with the digest of another body.
use relavoi_backend.AfricasTalking.SmsParser.{SmsBody}
use relavoi_backend.AfricasTalking.VoiceParser.{VoiceBody}
use relavoi_backend.Crypto.{Buffer}
use relavoi_backend.WebhookRoutes.Forged.{IsForged, routes-forged, unsigned, wrong}
use relavoi_backend.WebhookRoutes.{ProviderSettings, Request, forbidden, sms_route, voice_route}
use mathlib.Core.Bool.{false≢true}
use relavoi_backend.Base.{
  String, Option, false, none, some, join, has_char, ◌≡◌, refl, [], eq_iff, inr,
}
use relavoi_backend.Examples.{plain, call_answers, sms_answers}
use relavoi_backend.Examples.Webhooks.{texts, call_body, desk, no_faults, sms_body, sms_desk}

abbrev sealing : String → String → Buffer → Option String
sealing algo secret body = some "5f3a"

abbrev live_settings : ProviderSettings
live_settings = record { is_sandbox = false; at_api_key = "key"; webhook_hmac_algo = "sha256" }

abbrev unsigned_call : Request VoiceBody
unsigned_call = record { signature = none; raw_body = some []; body = call_body; now_text = "5000" }

abbrev altered_text : Request SmsBody
altered_text = record {
  signature = some (join "sha256" (join "=" "beef"));
  raw_body = some [];
  body = sms_body;
  now_text = "5000";
}

altered_text-IsForged : IsForged sealing live_settings altered_text
unfolding has_char
altered_text-IsForged =
    wrong [] "sha256" "beef" "5f3a" (inr refl) refl refl (λ e. false≢true ((eq_iff "5f3a" "").1 e))
      (λ e. false≢true ((eq_iff "key" "").1 e)) refl refl
      (λ e. false≢true ((eq_iff "beef" "5f3a").1 e))

routes-forged_example :
    (voice_route sealing live_settings plain texts no_faults call_answers unsigned_call desk
      ≡ (forbidden, desk))
    × (sms_route sealing live_settings plain texts no_faults sms_answers altered_text sms_desk
        ≡ (forbidden, sms_desk))
routes-forged_example =
    routes-forged sealing live_settings plain texts no_faults call_answers sms_answers unsigned_call
      altered_text desk sms_desk refl (unsigned refl) altered_text-IsForged
