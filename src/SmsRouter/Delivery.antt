-- ===== src/SmsRouter/Delivery.antt =====
-- Which messages are handed to the provider, and what is kept of them.
use relavoi_backend.Base.{
  contains, eq_iff, string_eq, ◌≡◌, ◌⊎◌, inl, inr, refl, sym, ap, ◌∙◌, subst, String, Bool, true,
  false, List, [], ◌∷◌, Option, none, some, if◌then◌else◌, or_else, arith, Option-cases, Bool-cases,
}
use relavoi_backend.Crypto.{Phone, NodeCrypto, decrypt_phone}
use relavoi_backend.Store.{SessionRow, SessionHash, Redis, Mode, sandbox, live}
use relavoi_backend.CallRouter.{side_of, is_live, barred, dialable}
use relavoi_backend.CallRouter.Matching.{Admits, barred-Admits, Takes, side_of-Takes}
use relavoi_backend.SmsRouter.{
  Message, Outbox, SmsArgs, SmsAnswers, Search, threw, missed, found, search_sessions,
  destination_of, cache_sms, insert_record, forward_sms, send, settle_sms, recall_sms,
  route_incoming_sms,
}

module _ (c : NodeCrypto) (w : SmsAnswers) (args : SmsArgs) where
  -- The message goes to the other party of a live session of the sender that Redis lists under the
  -- proxy number, from that number.
  pub record Carries (x : Outbox) (m : Message) : Type 0 where
    pub sid : String
    pub listed : contains sid (x.redis.proxy_sessions args.proxy_number) ≡ true
    pub is_a : Bool
    pub h : SessionHash
    pub read : x.redis.session sid ≡ h
    pub takes : Takes c args.tenant_hint args.from_phone h is_a
    pub goes_live : h.mode ≡ some live
    pub directed : Admits h.direction_mode is_a
    pub row : SessionRow
    pub stored : x.rows sid ≡ some row
    pub reaches :
        decrypt_phone c
          (if is_a then row.party_b_phone_enc else row.party_a_phone_enc)
          (or_else h.tenant_id "")
        ≡ some m.to_phone
    pub masks : m.from_number ≡ args.proxy_number
    pub keeps : m.text ≡ args.body

  -- What the loop finds: a session of the list, with the hash that Redis has.
  record Finds (r : Redis) (members : List String) (sid : String) (h : SessionHash) (is_a : Bool)
      : Type 0 where
    taken : Takes c args.tenant_hint args.from_phone h is_a
    listed : contains sid members ≡ true
    read : r.session sid ≡ h

  Finds-cons :
      (r : Redis) (members : List String) (k sid : String) (h : SessionHash) (is_a : Bool)
      → Finds r members sid h is_a
      → Finds r (k ∷ members) sid h is_a
  unfolding contains
  Finds-cons r members k sid h is_a o = record {
    taken = o.taken;
    listed = ground (arith, o.listed);
    read = o.read;
  }

  search-Finds :
      (r : Redis) (members : List String) (sid : String) (h : SessionHash) (is_a : Bool)
      → search_sessions c w args r members ≡ found sid h is_a
      → Finds r members sid h is_a
  unfolding search_sessions contains
  search-Finds r [] sid h is_a = λ e. absurd cc
  search-Finds r (k ∷ rest) sid h is_a = elim (Bool-cases (w.hash_fails k)) [
    | inl down ↦ simp (down, search_sessions) λ e. absurd cc
    | inr up ↦ elim (Option-cases (side_of c args.tenant_hint args.from_phone (r.session k))) [
      | inl passed ↦
          simp (up, passed, search_sessions)
            λ e. Finds-cons r rest k sid h is_a (search-Finds r rest sid h is_a e)
      | inr (s, taken) ↦
          simp (up, taken, search_sessions)
            λ e.
              let same_hash : r.session k ≡ h = cc in
              let same_side : s ≡ is_a = cc in
              let same_id : k ≡ sid = cc in
              record {
                taken = side_of-Takes c args.tenant_hint args.from_phone h is_a (
                    subst (λ g. side_of c args.tenant_hint args.from_phone g ≡ some is_a) same_hash
                      (taken ∙ ap some same_side));
                listed = ground (arith, eq_iff k sid, same_id);
                read = ap r.session (sym same_id) ∙ same_hash;
              }
    ]
  ]

  live_message : SessionHash → Phone → Outbox → List Message
  live_message h phone x =
      if is_live h.mode
      then record { from_number = args.proxy_number; to_phone = phone; text = args.body }
        ∷ x.carried
      else x.carried

  send-carried :
      (sid : String) (h : SessionHash) (is_a : Bool) (phone : Option Phone) (x : Outbox)
      → (send c w args sid h is_a phone x).1.carried
        ≡ (if dialable phone then live_message h (or_else phone []) x else x.carried)
  unfolding send cache_sms forward_sms insert_record live_message
  send-carried sid h is_a phone x = ground arith

  live_mode : (m : Option Mode) → is_live m ≡ true → m ≡ some live
  live_mode none e = absurd (ground arith)
  live_mode (some sandbox) e = absurd (ground arith)
  live_mode (some live) e = refl

  dialable-some : (o : Option Phone) → dialable o ≡ true → o ≡ some (or_else o [])
  dialable-some none e = absurd (ground arith)
  dialable-some (some p) e = refl

  destination_of-stored :
      (x : Outbox) (sid : String) (h : SessionHash) (is_a : Bool)
      → dialable (destination_of c w args x sid h is_a) ≡ true
      → (row : SessionRow) × (x.rows sid ≡ some row)
        × (destination_of c w args x sid h is_a
            ≡ decrypt_phone c
                (if is_a then row.party_b_phone_enc else row.party_a_phone_enc)
                (or_else h.tenant_id ""))
  unfolding destination_of
  destination_of-stored x sid h is_a e = elim (Option-cases (x.rows sid)) [
    | inl gone ↦ absurd (ground (arith, gone, e))
    | inr (row, there) ↦ (row, there, ground (arith, there, e))
  ]

  -- Either nothing more is carried, or one message is, as the session allows.
  CarriesOne : Outbox → Outbox → Type 0
  CarriesOne x y =
      (y.carried ≡ x.carried) ⊎ ((m : Message) × (y.carried ≡ m ∷ x.carried) × Carries x m)

  send-CarriesOne :
      (sid : String) (h : SessionHash) (is_a : Bool) (x : Outbox)
      → Finds x.redis (x.redis.proxy_sessions args.proxy_number) sid h is_a
      → barred h.direction_mode is_a ≡ false
      → CarriesOne x (send c w args sid h is_a (destination_of c w args x sid h is_a) x).1
  unfolding CarriesOne live_message
  send-CarriesOne sid h is_a x t free =
      let phone = destination_of c w args x sid h is_a in
      elim (Bool-cases (dialable phone)) [
        | inr absent ↦ inl (send-carried sid h is_a phone x ∙ (rw absent refl))
        | inl dials ↦ elim (Bool-cases (is_live h.mode)) [
          | inr simulated ↦ inl (send-carried sid h is_a phone x ∙ ground (arith, dials, simulated))
          | inl lives ↦
              let (row, stored, decrypted) = destination_of-stored x sid h is_a dials in
              inr (
                record {
                  from_number = args.proxy_number;
                  to_phone = or_else phone [];
                  text = args.body;
                },
                send-carried sid h is_a phone x ∙ ground (arith, dials, lives),
                record {
                  sid = sid;
                  listed = t.listed;
                  is_a = is_a;
                  h = h;
                  read = t.read;
                  takes = t.taken;
                  goes_live = live_mode h.mode lives;
                  directed = barred-Admits h.direction_mode is_a free;
                  row = row;
                  stored = stored;
                  reaches = sym decrypted ∙ dialable-some phone dials;
                  masks = refl;
                  keeps = refl;
                },
              )
        ]
      ]

  settle-CarriesOne :
      (s : Search) (x : Outbox)
      → ((sid : String) (h : SessionHash) (is_a : Bool)
          → s ≡ found sid h is_a
          → Finds x.redis (x.redis.proxy_sessions args.proxy_number) sid h is_a)
      → CarriesOne x (settle_sms c w args s x).1
  unfolding CarriesOne settle_sms cache_sms
  settle-CarriesOne threw x t = inl refl
  settle-CarriesOne missed x t = inl (ground arith)
  settle-CarriesOne (found sid h is_a) x t = elim (Bool-cases (barred h.direction_mode is_a)) [
    | inl bar ↦ inl (ground (arith, bar))
    | inr free ↦ rw free (send-CarriesOne sid h is_a x (t sid h is_a refl) free)
  ]

  found_member :
      (x : Outbox) (sid : String) (h : SessionHash) (is_a : Bool)
      → search_sessions c w args x.redis
          (if w.members_fail then [] else x.redis.proxy_sessions args.proxy_number)
        ≡ found sid h is_a
      → Finds x.redis (x.redis.proxy_sessions args.proxy_number) sid h is_a
  unfolding search_sessions
  found_member x sid h is_a = elim (Bool-cases w.members_fail) [
    | inl down ↦ simp down λ e. absurd cc
    | inr up ↦ simp up (search-Finds x.redis (x.redis.proxy_sessions args.proxy_number) sid h is_a)
  ]

  -- One incoming message makes the router hand at most one message to the provider. It does so only
  -- within a session that Redis lists under the proxy number and whose hash, as Redis has it, is in
  -- service, names the sender's hash as one of its parties, is live, and
  -- does not bar the sender's direction; the message goes to the decrypted number of the other
  -- party of that session, comes from the proxy number, and has the text that came in.
  pub route_incoming_sms-CarriesOne :
      (x : Outbox)
      → ((route_incoming_sms c w args x).1.carried ≡ x.carried)
        ⊎ ((m : Message) × ((route_incoming_sms c w args x).1.carried ≡ m ∷ x.carried)
            × Carries x m)
  unfolding CarriesOne route_incoming_sms
  route_incoming_sms-CarriesOne x = elim (Option-cases (recall_sms c w args x)) [
    | inr (d, hit) ↦ rw (hit, route_incoming_sms) (inl refl)
    | inl new ↦
        rw (new, route_incoming_sms)
          (settle-CarriesOne _ x (λ sid h is_a e. found_member x sid h is_a e))
  ]
