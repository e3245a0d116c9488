-- ===== src/SmsRouter/Replay.antt =====
-- A text message that the provider reports again.
use relavoi_backend.Base.{
  ℕ, ◌+◌, ◌<◌, ◌≡◌, refl, ap, ◌∙◌, subst, String, Bool, false, Option, none, some, arith, update,
  eq_refl, Bool-cases, inl, inr,
}
use relavoi_backend.Crypto.{Phone, NodeCrypto}
use relavoi_backend.Store.{SessionHash}
use relavoi_backend.CallRouter.{dedup_ttl_ms, barred, dialable}
use relavoi_backend.SmsRouter.{
  SmsRouteDecision, SmsRecord, Outbox, SmsArgs, SmsAnswers, Search, threw, missed, found,
  destination_of, cache_sms, insert_record, forward_sms, send, settle_sms, recall_sms,
  route_incoming_sms,
}

module _ (c : NodeCrypto) (args : SmsArgs) where
  Keeps : SmsAnswers → SmsRouteDecision → Outbox → Type 0
  Keeps w d x = x.dedup args.event_id ≡ some (d, w.now + dedup_ttl_ms)

  cache_sms-Keeps :
      (w : SmsAnswers) (d : SmsRouteDecision) (x : Outbox)
      → w.dedup_write_fails ≡ false
      → Keeps w d (cache_sms c w args d x)
  unfolding cache_sms update Keeps
  cache_sms-Keeps w d x up = rw (up, eq_refl args.event_id)

  insert_record-dedup :
      (w : SmsAnswers) (rec : SmsRecord) (x : Outbox)
      → (insert_record c w args rec x).dedup ≡ x.dedup
  unfolding insert_record
  insert_record-dedup w rec x = ground arith

  same_decision :
      (w : SmsAnswers) (d e : SmsRouteDecision) (x : Outbox)
      → Keeps w d x
      → some d ≡ some e
      → Keeps w e x
  same_decision w d e x k same = let decisions : d ≡ e = cc in subst (λ t. Keeps w t x) decisions k

  send-Keeps :
      (w : SmsAnswers) (sid : String) (h : SessionHash) (is_a : Bool) (phone : Option Phone)
      (x : Outbox)
      → w.dedup_write_fails ≡ false
      → Keeps w (send c w args sid h is_a phone x).0 (send c w args sid h is_a phone x).1
  unfolding send Keeps forward_sms
  send-Keeps w sid h is_a phone x up = elim (Bool-cases (dialable phone)) [
    | inr absent ↦ rw absent (cache_sms-Keeps w _ x up)
    | inl dials ↦
        rw dials (ap (λ m. m args.event_id) (insert_record-dedup w _ _) ∙ cache_sms-Keeps w _ x up)
  ]

  -- A decision that is reached past the cache is then in it.
  settle_sms-Keeps :
      (w : SmsAnswers) (s : Search) (x : Outbox) (d : SmsRouteDecision)
      → w.dedup_write_fails ≡ false
      → (settle_sms c w args s x).0 ≡ some d
      → Keeps w d (settle_sms c w args s x).1
  unfolding settle_sms
  settle_sms-Keeps w threw x d up = λ e. absurd cc
  settle_sms-Keeps w missed x d up = same_decision w _ d _ (cache_sms-Keeps w _ x up)
  settle_sms-Keeps w (found sid h is_a) x d up = elim (Bool-cases (barred h.direction_mode is_a)) [
    | inl bar ↦ rw bar (same_decision w _ d _ (cache_sms-Keeps w _ x up))
    | inr free ↦ rw free (
        same_decision w _ d _ (send-Keeps w sid h is_a (destination_of c w args x sid h is_a) x up))
  ]

  recall_sms-kept :
      (w : SmsAnswers) (x : Outbox) (d : SmsRouteDecision) (until : ℕ)
      → w.dedup_read_fails ≡ false
      → x.dedup args.event_id ≡ some (d, until)
      → w.now < until
      → recall_sms c w args x ≡ some d
  unfolding recall_sms
  recall_sms-kept w x d until up e soon = rw (up, e) (ground (arith, soon))

  route-hit :
      (w : SmsAnswers) (x : Outbox) (d : SmsRouteDecision)
      → recall_sms c w args x ≡ some d
      → route_incoming_sms c w args x ≡ (some d, x)
  unfolding route_incoming_sms
  route-hit w x d hit = rw (hit, route_incoming_sms) refl

  route-Keeps :
      (w : SmsAnswers) (x : Outbox) (d : SmsRouteDecision)
      → recall_sms c w args x ≡ none
      → w.dedup_write_fails ≡ false
      → (route_incoming_sms c w args x).0 ≡ some d
      → Keeps w d (route_incoming_sms c w args x).1
  unfolding route_incoming_sms
  route-Keeps w x d new up = rw (new, route_incoming_sms) (settle_sms-Keeps w _ x d up)

-- A message whose event the cache does not answer is routed to a decision, which is kept; then a
-- message of the same event id that is looked up less than sixty seconds later, with whatever other
-- contents, gets the same decision and changes nothing: no second message is handed to the provider
-- and no second record is made.
pub route_sms_twice :
    (c : NodeCrypto) (args args' : SmsArgs) (w w' : SmsAnswers) (x : Outbox) (d : SmsRouteDecision)
    → recall_sms c w args x ≡ none
    → (route_incoming_sms c w args x).0 ≡ some d
    → w.dedup_write_fails ≡ false
    → args'.event_id ≡ args.event_id
    → w'.dedup_read_fails ≡ false
    → w'.now < w.now + dedup_ttl_ms
    → route_incoming_sms c w' args' (route_incoming_sms c w args x).1
      ≡ (some d, (route_incoming_sms c w args x).1)
unfolding Keeps
route_sms_twice c args args' w w' x d new decided up same reads soon =
    route-hit c args' w' (route_incoming_sms c w args x).1 d (
      recall_sms-kept c args' w' (route_incoming_sms c w args x).1 d (w.now + dedup_ttl_ms) reads
        (ap (route_incoming_sms c w args x).1.dedup same ∙ route-Keeps c args w x d new up decided)
        soon)
