-- ===== src/CallRouter/Forward.antt =====
-- Which calls are connected, and what the callee sees of them.
use relavoi_backend.Base.{
  sym, ap, ◌∙◌, subst, Bool-cases, contains, refl, inl, inr, Option-cases, ◌≡◌, String, Bool, true,
  false, Option, none, some, if◌then◌else◌, or_else, arith,
}
use relavoi_backend.Crypto.{NodeCrypto}
use relavoi_backend.Store.{sandbox, SessionHash, no_hash, truthy}
use relavoi_backend.CallRouter.Unique.{Found, find_match-Found}
use relavoi_backend.CallRouter.{
  decrypt_phone, live, Mode, SessionRow, forward, consent_then_forward, RouteDecision, Exchange,
  CallArgs, CallAnswers, find_match, no_session_decision, dialable, is_live,
}
use relavoi_backend.CallRouter.Matching.{Admits, barred-Admits, Takes, find_match-Takes}
use relavoi_backend.CallRouter.Routing.{
  destination, refusal, connection, recorded_decision, live_decision, matched_decision,
  sandbox_decision, unmatched_tenant, unmatched_decision, is_connected, settle, candidates, recall,
  route_incoming_call,
}
use relavoi_backend.CallRouter.Replay.{route-new}

module _ (c : NodeCrypto) (w : CallAnswers) (args : CallArgs) where
  -- The decision puts the caller through to the other party of a session of theirs that Redis lists
  -- under the proxy number, with that number in place of their own.
  pub record Connects (x : Exchange) (d : RouteDecision) : Type 0 where
    pub sid : String
    pub listed : contains sid (x.redis.proxy_sessions args.proxy_number) ≡ true
    pub h : SessionHash
    pub read : x.redis.session sid ≡ h
    pub is_a : Bool
    pub takes : Takes c args.tenant_hint args.caller_phone h is_a
    pub goes_live : h.mode ≡ some live
    pub directed : Admits h.direction_mode is_a
    pub row : SessionRow
    pub stored : x.rows (or_else h.id "") ≡ some row
    pub dials :
        d.destination
        ≡ decrypt_phone c
            (if is_a then row.party_b_phone_enc else row.party_a_phone_enc)
            (or_else h.tenant_id "")
    pub reaches : dialable d.destination ≡ true
    pub masks : d.caller_id ≡ some args.proxy_number
    pub names : d.session_id ≡ h.id
    pub asks :
        d.action ≡ (if or_else h.recording_enabled false then consent_then_forward else forward)

  no_session-Refuses :
      (tenant : Option String) (cfg : Option _)
      → is_connected c w args (no_session_decision tenant cfg).action ≡ false
  unfolding no_session_decision
  no_session-Refuses tenant none = ground arith
  no_session-Refuses tenant (some cfg) = ground arith

  live_mode : (m : Option Mode) → is_live m ≡ true → m ≡ some live
  live_mode none e = absurd (ground arith)
  live_mode (some sandbox) e = absurd (ground arith)
  live_mode (some live) e = refl

  -- A destination that can be dialled is the decryption of a stored number.
  destination-stored :
      (x : Exchange) (h : SessionHash) (is_a : Bool)
      → dialable (destination c w args x h is_a) ≡ true
      → (row : SessionRow) × (x.rows (or_else h.id "") ≡ some row)
        × (destination c w args x h is_a
            ≡ decrypt_phone c
                (if is_a then row.party_b_phone_enc else row.party_a_phone_enc)
                (or_else h.tenant_id ""))
  unfolding destination
  destination-stored x h is_a e = elim (Option-cases (x.rows (or_else h.id ""))) [
    | inl gone ↦ absurd (ground (arith, gone, e))
    | inr (row, there) ↦ (row, there, ground (arith, there, e))
  ]

  matched-Connects :
      (x : Exchange) (sid : String) (h : SessionHash) (is_a : Bool)
      → contains sid (x.redis.proxy_sessions args.proxy_number) ≡ true
      → x.redis.session sid ≡ h
      → Takes c args.tenant_hint args.caller_phone h is_a
      → is_connected c w args (matched_decision c w args x h is_a).action ≡ true
      → Connects x (matched_decision c w args x h is_a)
  unfolding matched_decision sandbox_decision live_decision refusal recorded_decision connection
  matched-Connects x sid h is_a listed read t e =
      let reached : dialable (destination c w args x h is_a) ≡ true = ground arith in
      let (row, stored, decrypted) = destination-stored x h is_a reached in
      let dialled : (matched_decision c w args x h is_a).destination
          ≡ destination c w args x h is_a =
        ground arith in
      record {
        sid = sid;
        listed = listed;
        h = h;
        read = read;
        is_a = is_a;
        takes = t;
        goes_live = live_mode h.mode (ground arith);
        directed = barred-Admits h.direction_mode is_a (ground arith);
        row = row;
        stored = stored;
        dials = rw dialled decrypted;
        reaches = rw dialled reached;
        masks = ground arith;
        names = ground arith;
        asks = ground arith;
      }

  -- What the loop finds is the hash of a session on the number.
  listed_hash :
      (x : Exchange) (h : SessionHash) (is_a : Bool)
      → Takes c args.tenant_hint args.caller_phone h is_a
      → (o : Found c args.tenant_hint args.caller_phone w.hash_fails x.redis
          (candidates c w args x)
          h
          is_a)
      → (contains o.sid (x.redis.proxy_sessions args.proxy_number) ≡ true)
        × (x.redis.session o.sid ≡ h)
  unfolding contains
  listed_hash x h is_a t o = (
    elim (Bool-cases w.members_fail) [
      | inl down ↦ absurd (ground (arith, down, o.listed))
      | inr up ↦ ground (arith, up, o.listed)
    ],
    elim (Bool-cases (w.hash_fails o.sid)) [
      | inl down ↦
          let gone : h ≡ no_hash =
            sym o.read ∙ ap (λ b. if b then no_hash else x.redis.session o.sid) down in
          absurd (ground (arith, subst (λ g. truthy g.id ≡ true) gone t.recorded))
      | inr up ↦ sym (ap (λ b. if b then no_hash else x.redis.session o.sid) up) ∙ o.read
    ],
  )

  unmatched-Refuses :
      (x : Exchange) → is_connected c w args (unmatched_decision c w args x).action ≡ false
  unfolding unmatched_decision
  unmatched-Refuses x = elim (Option-cases (unmatched_tenant c w args)) [
    | inl e ↦ rw (e, unmatched_decision) (no_session-Refuses none none)
    | inr (tenant, e) ↦ rw (e, unmatched_decision) (no_session-Refuses (some tenant) _)
  ]

  -- A call that the dedup cache does not answer is connected only within a session that Redis lists
  -- under the proxy number and whose hash, as Redis has it, is in service, names the caller's hash as one of its parties, is live, and does not bar the caller's
  -- direction; it dials the decrypted number of the other party of that session, shows the proxy
  -- number as the caller's, and asks for consent first exactly when the session records its calls.
  pub route-Connects :
      (x : Exchange)
      → recall c w args x ≡ none
      → is_connected c w args (route_incoming_call c w args x).0.action ≡ true
      → Connects x (route_incoming_call c w args x).0
  unfolding settle
  route-Connects x new =
      rw (route-new c args w x new)
        (elim (Option-cases (
          find_match c args.tenant_hint args.caller_phone w.hash_fails x.redis
            (candidates c w args x))) [
              | inl missed ↦ rw (missed, settle) λ e. absurd (ground (arith, unmatched-Refuses x))
              | inr ((h, is_a), found) ↦
                  rw (found, settle)
                    (let takes =
                        find_match-Takes c args.tenant_hint args.caller_phone w.hash_fails x.redis
                          (candidates c w args x) h is_a found in
                      let o =
                        find_match-Found c args.tenant_hint args.caller_phone w.hash_fails x.redis
                          (candidates c w args x) h is_a found in
                      let (listed, read) = listed_hash x h is_a takes o in
                      matched-Connects x o.sid h is_a listed read takes)
            ])
