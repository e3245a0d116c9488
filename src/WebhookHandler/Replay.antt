-- ===== src/WebhookHandler/Replay.antt =====
-- A voice webhook that the provider sends again.
use relavoi_backend.WebhookHandler.Voice.{
  announce, event_of, handle_voice_webhook, is_incoming, recall_voice, updates_of, announce_call,
  call_args, handle_status, handle_status_event, route_call,
}
use relavoi_backend.WebhookHandler.{
  routed, Desk, Faults, Outcome, VoiceWebhookResult, returned, status_marker, threw,
}
use relavoi_backend.Base.{
  if_holds, [], if◌then◌else◌, sym, subst, ◌∷◌, ◌∙◌, List, ap, eq_refl, Bool-cases, true, ◌<◌, inl,
  inr, ◌≡◌, or_else, update, false, none, some, ◌+◌, arith, Option-cases, refl,
}
use relavoi_backend.Crypto.{NodeCrypto}
use relavoi_backend.CallRouter.{
  CallRecord, find_match, Exchange, CallAnswers, RouteDecision, cache_decision, dedup_ttl_ms,
}
use relavoi_backend.CallRouter.Routing.{recall, candidates}
use relavoi_backend.CallRouter.Replay.{settle-dedup, cached-some, route-new}
use relavoi_backend.AfricasTalking.VoiceParser.{ParsedVoiceWebhook}

-- What the cache keeps of a result.
abbrev pub kept_decision : Outcome VoiceWebhookResult → RouteDecision
kept_decision (returned r) = or_else r.decision status_marker
kept_decision threw = status_marker

pub announce_call-exchange :
    (d : RouteDecision) (x : Desk) → (announce_call d x).exchange ≡ x.exchange
unfolding announce_call
announce_call-exchange d x = ground arith

announce-exchange :
    (f : Faults) (p : ParsedVoiceWebhook) (rows : List CallRecord) (x : Desk)
    → (announce f p rows x).exchange ≡ x.exchange
unfolding announce
announce-exchange f p [] x = refl
announce-exchange f p (rec ∷ rest) x = elim (Option-cases (event_of p.event_type)) [
  | inl no_event ↦ rw no_event (ground arith)
  | inr (name, named) ↦ rw named (ground arith)
]

pub handle_status_event-exchange :
    (f : Faults) (p : ParsedVoiceWebhook) (x : Desk)
    → (handle_status_event f p x).exchange ≡ x.exchange
unfolding handle_status_event
handle_status_event-exchange f p x = elim (Option-cases (updates_of p f.now)) [
  | inl nothing ↦ rw (nothing, handle_status_event) refl
  | inr (change, writes) ↦
      rw (writes, handle_status_event)
        (if_holds (λ (y : Desk). y.exchange ≡ x.exchange) f.update_fails refl
          (announce-exchange f p _ _))
]

module _ (c : NodeCrypto) (f : Faults) (r : CallAnswers) (p : ParsedVoiceWebhook) where
  route_call-dedup :
      (x : Desk)
      → recall c r (call_args p) x.exchange ≡ none
      → r.dedup_write_fails ≡ false
      → (route_call c f r p x).1.exchange.dedup p.event_id
        ≡ some (kept_decision (route_call c f r p x).0, r.now + dedup_ttl_ms)
  unfolding route_call
  route_call-dedup x new up =
      let e = x.exchange in
      let args = call_args p in
      let m = find_match c none args.caller_phone r.hash_fails e.redis (candidates c r args e) in
      ap (λ (y : Exchange). y.dedup p.event_id) (announce_call-exchange _ _)
      ∙ subst
          (λ (t : RouteDecision × Exchange).
            t.1.dedup p.event_id ≡ some (t.0, r.now + dedup_ttl_ms))
          (sym (route-new c args r e new)) (settle-dedup c args r m e up)

  handle_status-dedup :
      (x : Desk)
      → f.dedup_write_fails ≡ false
      → (handle_status c f r p x).1.exchange.dedup p.event_id
        ≡ some (kept_decision (handle_status c f r p x).0, f.now + dedup_ttl_ms)
  unfolding handle_status cache_decision update
  handle_status-dedup x up = rw (up, eq_refl p.event_id) refl

  handle-new :
      (x : Desk)
      → recall_voice c f r p x ≡ none
      → handle_voice_webhook c f r p x
        ≡ (if is_incoming p.event_type then route_call c f r p x else handle_status c f r p x)
  unfolding handle_voice_webhook
  handle-new x new = rw (new, handle_voice_webhook) refl

  -- What is handled past the cache is in the cache.
  handle-dedup :
      (x : Desk)
      → recall_voice c f r p x ≡ none
      → recall c r (call_args p) x.exchange ≡ none
      → r.dedup_write_fails ≡ false
      → f.dedup_write_fails ≡ false
      → r.now ≡ f.now
      → (handle_voice_webhook c f r p x).1.exchange.dedup p.event_id
        ≡ some (kept_decision (handle_voice_webhook c f r p x).0, f.now + dedup_ttl_ms)
  handle-dedup x new unrouted up up' clock =
      rw (handle-new x new) (elim (Bool-cases (is_incoming p.event_type)) [
        | inl incoming ↦ rw incoming (
            subst
              (λ n.
                (route_call c f r p x).1.exchange.dedup p.event_id
                ≡ some (kept_decision (route_call c f r p x).0, n + dedup_ttl_ms))
              clock (route_call-dedup x unrouted up))
        | inr status ↦ rw status (handle_status-dedup x up')
      ])

  handle-hit :
      (x : Desk) (d : RouteDecision)
      → recall_voice c f r p x ≡ some d
      → handle_voice_webhook c f r p x
        ≡ (returned (record { decision = some d; cached = true; action = routed }), x)
  unfolding handle_voice_webhook
  handle-hit x d hit = rw (hit, handle_voice_webhook) refl

-- A voice webhook that the dedup cache does not know is handled and kept, whether it is a call or
-- the status of a call, by calls of Redis that answer; then a webhook of the same event id that is
-- looked up less than sixty seconds later, with whatever other contents, is answered from the cache
-- with the decision of the first, or the mark of a status event, and changes nothing: no call is
-- routed or counted, no record and no status is written, no event is published.
pub handle_voice_twice :
    (c : NodeCrypto) (f f' : Faults) (r r' : CallAnswers) (p p' : ParsedVoiceWebhook) (x : Desk)
    → recall_voice c f r p x ≡ none
    → recall c r (call_args p) x.exchange ≡ none
    → r.dedup_write_fails ≡ false
    → f.dedup_write_fails ≡ false
    → r.now ≡ f.now
    → p'.event_id ≡ p.event_id
    → f'.dedup_read_fails ≡ false
    → f'.now < f.now + dedup_ttl_ms
    → handle_voice_webhook c f' r' p' (handle_voice_webhook c f r p x).1 ≡ (
      returned (record {
        decision = some (kept_decision (handle_voice_webhook c f r p x).0);
        cached = true;
        action = routed;
      }),
      (handle_voice_webhook c f r p x).1,
    )
unfolding recall_voice
handle_voice_twice c f f' r r' p p' x new unrouted up up' clock same reads soon =
    let (res, y) = handle_voice_webhook c f r p x in
    handle-hit c f' r' p' y (kept_decision res) (
      rw reads (
        cached-some f'.now (f.now + dedup_ttl_ms) p'.event_id y.exchange (kept_decision res)
          (ap y.exchange.dedup same ∙ handle-dedup c f r p x new unrouted up up' clock) soon))
