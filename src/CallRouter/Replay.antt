-- ===== src/CallRouter/Replay.antt =====
-- A webhook that the provider sends again.
use relavoi_backend.Base.{
  sym, subst, ◌∙◌, ap, ℕ, ◌+◌, ◌<◌, ◌≡◌, String, Bool, false, Option, none, some, arith, update,
  eq_refl,
}
use relavoi_backend.Crypto.{NodeCrypto}
use relavoi_backend.Store.{SessionHash}
use relavoi_backend.CallRouter.{
  find_match, Exchange, CallArgs, CallAnswers, RouteDecision, cached, cache_decision, dedup_ttl_ms,
  write_record, bump_count,
}
use relavoi_backend.CallRouter.Routing.{
  candidates, recall, route_incoming_call, settle, record_call,
}

module _ (c : NodeCrypto) (args : CallArgs) where
  record_call-dedup :
      (w : CallAnswers) (h : SessionHash) (is_a : Bool) (d : RouteDecision) (x : Exchange)
      → (record_call c w args h is_a d x).dedup ≡ x.dedup
  unfolding record_call write_record bump_count
  record_call-dedup w h is_a d x = ground arith

  cache_decision-dedup :
      (w : CallAnswers) (d : RouteDecision) (x : Exchange)
      → w.dedup_write_fails ≡ false
      → (cache_decision w.dedup_write_fails args.event_id w.now d x).dedup args.event_id
        ≡ some (d, w.now + dedup_ttl_ms)
  unfolding cache_decision update
  cache_decision-dedup w d x up = rw (up, eq_refl args.event_id)

  -- After a decision made past the cache, the cache holds it.
  pub settle-dedup :
      (w : CallAnswers) (m : Option (SessionHash × Bool)) (x : Exchange)
      → w.dedup_write_fails ≡ false
      → (settle c w args m x).1.dedup args.event_id
        ≡ some ((settle c w args m x).0, w.now + dedup_ttl_ms)
  unfolding settle
  settle-dedup w none x up = cache_decision-dedup w _ x up
  settle-dedup w (some (h, is_a)) x up =
      ap (λ m. m args.event_id) (record_call-dedup w h is_a _ _) ∙ cache_decision-dedup w _ x up

  pub route-new :
      (w : CallAnswers) (x : Exchange)
      → recall c w args x ≡ none
      → route_incoming_call c w args x
        ≡ settle c w args
            (find_match c args.tenant_hint args.caller_phone w.hash_fails x.redis
              (candidates c w args x))
            x
  unfolding route_incoming_call
  route-new w x new = rw (new, route_incoming_call)

  pub route-hit :
      (w : CallAnswers) (x : Exchange) (d : RouteDecision)
      → recall c w args x ≡ some d
      → route_incoming_call c w args x ≡ (d, x)
  unfolding route_incoming_call
  route-hit w x d hit = rw (hit, route_incoming_call)

  recall-some :
      (w : CallAnswers) (x : Exchange) (d : RouteDecision)
      → w.dedup_read_fails ≡ false
      → cached w.now args.event_id x ≡ some d
      → recall c w args x ≡ some d
  unfolding recall
  recall-some w x d up hit = rw up hit

pub cached-some :
    (now until : ℕ) (event : String) (x : Exchange) (d : RouteDecision)
    → x.dedup event ≡ some (d, until)
    → now < until
    → cached now event x ≡ some d
unfolding cached
cached-some now until event x d e h = rw e (ground arith)

-- A call whose event the cache does not answer is routed, and its decision kept; then an event of the same id that is read from
-- the cache less than sixty seconds later, with whatever other contents, gets the same decision
-- and changes nothing: no record, no count.
route_twice :
    (c : NodeCrypto) (args args' : CallArgs) (w w' : CallAnswers) (x : Exchange)
    → recall c w args x ≡ none
    → w.dedup_write_fails ≡ false
    → args'.event_id ≡ args.event_id
    → w'.dedup_read_fails ≡ false
    → w'.now < w.now + dedup_ttl_ms
    → route_incoming_call c w' args' (route_incoming_call c w args x).1
      ≡ ((route_incoming_call c w args x).0, (route_incoming_call c w args x).1)
route_twice c args args' w w' x new up same reads soon =
    let m =
      find_match c args.tenant_hint args.caller_phone w.hash_fails x.redis
        (candidates c w args x) in
    subst (λ t. route_incoming_call c w' args' t.1 ≡ (t.0, t.1)) (sym (route-new c args w x new))
      (route-hit c args' w' (settle c w args m x).1 (settle c w args m x).0 (
        recall-some c args' w' (settle c w args m x).1 (settle c w args m x).0 reads (
          cached-some w'.now (w.now + dedup_ttl_ms) args'.event_id (settle c w args m x).1
            (settle c w args m x).0
            (subst
              (λ e.
                (settle c w args m x).1.dedup e
                ≡ some ((settle c w args m x).0, w.now + dedup_ttl_ms))
              (sym same) (settle-dedup c args w m x up))
            soon)))
