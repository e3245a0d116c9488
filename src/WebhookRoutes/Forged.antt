-- ===== src/WebhookRoutes/Forged.antt =====
-- Requests that the provider has not signed.
use relavoi_backend.WebhookRoutes.{
  forbidden, sms_route, voice_route, ProviderSettings, Request, cpaas_signature_valid,
}
use relavoi_backend.Base.{
  if_holds, ◌≡◌, ◌≢◌, ◌⊎◌, ◌↔◌, inl, inr, refl, String, true, false, Option, none, some, join,
  has_char, arith,
}
use relavoi_backend.Crypto.{Buffer, NodeCrypto}
use relavoi_backend.Store.{truthy}
use relavoi_backend.AfricasTalking.{Texts}
use relavoi_backend.AfricasTalking.VoiceParser.{VoiceBody}
use relavoi_backend.AfricasTalking.SmsParser.{SmsBody}
use relavoi_backend.CallRouter.{CallAnswers}
use relavoi_backend.SmsRouter.{SmsAnswers}
use relavoi_backend.WebhookHandler.{Desk, Faults}
use relavoi_backend.WebhookHandler.Sms.{SmsDesk}
use relavoi_backend.WebhookHandler.Signature.{verify_signature, verify_signature_iff}

-- The signature of a request is a text, alone or after "<prefix>=", that is not the digest of its
-- body; or there is none.
pub data IsForged {ℓ} {Body : Type ℓ} (hmac : String → String → Buffer → Option String)
    (s : ProviderSettings) (q : Request Body) : Type ℓ where
  unsigned : q.signature ≡ none → IsForged hmac s q
  wrong :
      (raw : Buffer) (prefix given digest : String)
      → (q.signature ≡ some given) ⊎ (q.signature ≡ some (join prefix (join "=" given)))
      → q.raw_body ≡ some raw
      → hmac s.webhook_hmac_algo s.at_api_key raw ≡ some digest
      → digest ≢ ""
      → s.at_api_key ≢ ""
      → has_char 61 prefix ≡ false
      → has_char 61 given ≡ false
      → given ≢ digest
      → IsForged hmac s q

module _ (hmac : String → String → Buffer → Option String) (s : ProviderSettings) where
  not_verified :
      (signature : String) (raw : Buffer) (given digest : String)
      → (verify_signature hmac s.webhook_hmac_algo s.at_api_key signature raw ≡ true)
        ↔ (given ≡ digest)
      → given ≢ digest
      → verify_signature hmac s.webhook_hmac_algo s.at_api_key signature raw ≡ false
  not_verified signature raw given digest iff other = ground (arith, iff, other)

  cpaas_signature_valid-unverified {ℓ} :
      {Body : Type ℓ} (q : Request Body) (signature : String) (raw : Buffer)
      → q.signature ≡ some signature
      → q.raw_body ≡ some raw
      → verify_signature hmac s.webhook_hmac_algo s.at_api_key signature raw ≡ false
      → cpaas_signature_valid hmac s q ≡ false
  unfolding cpaas_signature_valid
  cpaas_signature_valid-unverified q signature raw signed has_body h =
      simp (signed, has_body, h) (if_holds (λ b. b ≡ false) (truthy (some signature)) refl refl)

  cpaas_signature_valid-forged {ℓ} :
      {Body : Type ℓ} (q : Request Body)
      → IsForged hmac s q
      → cpaas_signature_valid hmac s q ≡ false
  unfolding cpaas_signature_valid
  cpaas_signature_valid-forged q (unsigned e) = simp e refl
  cpaas_signature_valid-forged q
        (wrong raw prefix given digest signed has_body sealed some_digest some_key p g other) =
      let (plain, prefixed) =
        verify_signature_iff hmac s.webhook_hmac_algo s.at_api_key prefix given digest raw sealed
          some_digest some_key p g in
      elim signed [
        | inl e ↦
            cpaas_signature_valid-unverified q given raw e has_body
              (not_verified given raw given digest plain other)
        | inr e ↦
            cpaas_signature_valid-unverified q (join prefix (join "=" given)) raw e has_body
              (not_verified (join prefix (join "=" given)) raw given digest prefixed other)
      ]

  -- Where the provider is not the sandbox, a request to either route whose signature is missing or
  -- is not the digest of its body is answered by 403 and changes nothing: no call is recorded, no
  -- message is sent and the desk of the handler stays as it is, whatever fails and whatever
  -- the body asks for.
  pub routes-forged :
      (c : NodeCrypto) (js : Texts) (f : Faults) (r : CallAnswers) (u : SmsAnswers)
      (q : Request VoiceBody) (v : Request SmsBody) (x : Desk) (y : SmsDesk)
      → s.is_sandbox ≡ false
      → IsForged hmac s q
      → IsForged hmac s v
      → (voice_route hmac s c js f r q x ≡ (forbidden, x))
        × (sms_route hmac s c js f u v y ≡ (forbidden, y))
  unfolding voice_route sms_route
  routes-forged c js f r u q v x y live forged_call forged_text = (
    simp (live, cpaas_signature_valid-forged q forged_call) refl,
    simp (live, cpaas_signature_valid-forged v forged_text) refl,
  )
