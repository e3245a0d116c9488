-- ===== src/SmsRouter.antt =====
-- The routing of incoming text messages, src/services/sms-router.ts.
--
-- `Outbox` is the state that the router reads and writes; `carried` are the messages that it hands
-- to the provider. `forward`, which the source does not await, is run at once. The loop makes the
-- same tests as that of the call router, whose `side_of` it uses; it has no `try` of its own, so a
-- read that throws makes the whole call throw.
pub mod Delivery
pub mod Replay
mod Tests
use relavoi_backend.Base.{
  ℕ, ◌+◌, String, Bool, true, false, not, ◌&&◌, List, [], ◌∷◌, ◌++◌, map, Option, none, some, ltb,
  ◌==◌, string_eq, if◌then◌else◌, or_else, update,
}
use relavoi_backend.Crypto.{Phone, Buffer, NodeCrypto, encrypt_phone, decrypt_phone}
use relavoi_backend.Store.{SessionRow, SessionHash, Redis, Mode, sandbox, live}
use relavoi_backend.CallRouter.{side_of, is_live, barred, dialable, dedup_ttl_ms, fresh_entry}

pub data SmsAction : Type 0 where
  forward drop : SmsAction

pub record SmsRouteDecision : Type 0 where
  pub action : SmsAction
  pub destination : Option Phone
  pub body : Option (List ℕ)
  pub session_id : Option String
  pub sms_record_id : Option String
  pub tenant_id : Option String
  pub reason : Option String

pub data SmsStatus : Type 0 where
  pending delivered failed : SmsStatus

-- The provider's id of a message, or `sandbox_{smsRecordId}`.
pub data MessageId : Type 0 where
  provider_id sandbox_id : String → MessageId

-- A row of `sms_records`.
pub record SmsRecord : Type 0 where
  pub id : String
  pub session_id : String
  pub a_to_b : Bool
  pub message_text_enc : Buffer
  pub status : SmsStatus
  pub cpaas_message_id : Option MessageId
  pub mode : Option Mode
  pub simulated : Bool
  pub delivered_at : Option ℕ

-- The arguments of `sendSms`.
pub record Message : Type 0 where
  pub from_number : String
  pub to_phone : Phone
  pub text : List ℕ

pub record Outbox : Type 0 where
  pub redis : Redis
  pub rows : String → Option SessionRow
  pub dedup : String → Option (SmsRouteDecision × ℕ)
  pub sms_records : List SmsRecord
  pub carried : List Message
  pub published : List (String × String)  -- `sms.sent`: tenant and session

pub record SmsArgs : Type 0 where
  pub proxy_number : String
  pub from_phone : Phone
  pub body : List ℕ
  pub event_id : String
  pub tenant_hint : Option String

-- Which calls throw, and what the surroundings answer.
pub record SmsAnswers : Type 0 where
  pub dedup_read_fails : Bool
  pub members_fail : Bool
  pub hash_fails : String → Bool
  pub phone_read_fails : Bool
  pub dedup_write_fails : Bool
  pub insert_fails : Bool
  pub update_fails : Bool
  pub is_sent : Bool  -- the status that the provider reports
  pub message_id : Option MessageId
  pub record_id : String
  pub iv : Buffer
  pub now : ℕ

-- What the loop ends with.
pub data Search : Type 0 where
  threw missed : Search
  found : String → SessionHash → Bool → Search

abbrev pub drops : String → Option String → Option String → SmsRouteDecision
drops reason sid tenant = record {
  action = drop;
  destination = none;
  body = none;
  session_id = sid;
  sms_record_id = none;
  tenant_id = tenant;
  reason = some reason;
}

-- What `forward` takes for the result of the delivery: a sandbox session's is made up.
abbrev pub is_delivered : SmsAnswers → Bool → Bool
is_delivered w simulate = if simulate then true else w.is_sent

-- The `UPDATE` of the record.
unfoldable pub mark_record : SmsAnswers → Bool → List SmsRecord → List SmsRecord
mark_record w simulate [] = []
mark_record w simulate (r ∷ rs) =
    let rest = mark_record w simulate rs in
    if r.id == w.record_id
    then record r {
      status = if is_delivered w simulate then delivered else failed;
      cpaas_message_id = if simulate then some (sandbox_id w.record_id) else w.message_id;
      mode = some (if simulate then sandbox else live);
      simulated = simulate;
      delivered_at = if is_delivered w simulate then some w.now else none;
    }
      ∷ rest
    else r ∷ rest

module _ (c : NodeCrypto) (w : SmsAnswers) (args : SmsArgs) where
  unfoldable pub search_sessions : Redis → List String → Search
  search_sessions r [] = missed
  search_sessions r (sid ∷ rest) =
      if w.hash_fails sid
      then threw
      else elim (side_of c args.tenant_hint args.from_phone (r.session sid)) [
        | some is_a ↦ found sid (r.session sid) is_a
        | none ↦ search_sessions r rest
      ]

  unfoldable pub destination_of : Outbox → String → SessionHash → Bool → Option Phone
  destination_of x sid h is_a = if w.phone_read_fails then none else elim (x.rows sid) [
    | none ↦ none
    | some row ↦
        decrypt_phone c (if is_a then row.party_b_phone_enc else row.party_a_phone_enc)
          (or_else h.tenant_id "")
  ]

  unfoldable pub cache_sms : SmsRouteDecision → Outbox → Outbox
  cache_sms d x =
      if w.dedup_write_fails
      then x
      else record x { dedup = update x.dedup args.event_id (some (d, w.now + dedup_ttl_ms)) }

  unfoldable pub new_record : String → SessionHash → Bool → SmsRecord
  new_record sid h is_a = record {
    id = w.record_id;
    session_id = sid;
    a_to_b = is_a;
    message_text_enc = encrypt_phone c w.iv args.body (or_else h.tenant_id "");
    status = pending;
    cpaas_message_id = none;
    mode = none;
    simulated = false;
    delivered_at = none;
  }

  unfoldable pub insert_record : SmsRecord → Outbox → Outbox
  insert_record rec x = if w.insert_fails then x else record x { sms_records = rec ∷ x.sms_records }

  -- `SmsRouter.forward`: `sendSms`, unless the session is a sandbox session.
  unfoldable pub forward_sms : String → SessionHash → Phone → Outbox → Outbox
  unfolding mark_record
  forward_sms sid h phone x = record x {
    carried =
        if is_live h.mode
        then record { from_number = args.proxy_number; to_phone = phone; text = args.body }
          ∷ x.carried
        else x.carried;
    sms_records =
        if w.update_fails
        then x.sms_records
        else mark_record w (not (is_live h.mode)) x.sms_records;
    published =
        if is_delivered w (not (is_live h.mode))
        then (or_else h.tenant_id "", sid) ∷ x.published
        else x.published;
  }

  abbrev pub forwards : String → SessionHash → Phone → SmsRouteDecision
  forwards sid h phone = record {
    action = forward;
    destination = some phone;
    body = some args.body;
    session_id = some sid;
    sms_record_id = some w.record_id;
    tenant_id = h.tenant_id;
    reason = none;
  }

  -- For a session that takes the message; a destination that is the empty text is none.
  unfoldable pub send :
      String → SessionHash → Bool → Option Phone → Outbox → SmsRouteDecision × Outbox
  unfolding cache_sms insert_record new_record forward_sms
  send sid h is_a phone x =
      if dialable phone
      then (
        forwards sid h (or_else phone []),
        forward_sms sid h (or_else phone []) (
            insert_record (new_record sid h is_a)
              (cache_sms (forwards sid h (or_else phone [])) x)),
      )
      else (
        drops "destination_unavailable" (some sid) h.tenant_id,
        cache_sms (drops "destination_unavailable" (some sid) h.tenant_id) x,
      )

  unfoldable pub settle_sms : Search → Outbox → Option SmsRouteDecision × Outbox
  unfolding cache_sms send destination_of
  settle_sms threw x = (none, x)
  settle_sms missed x =
      (some (drops "no_session" none none), cache_sms (drops "no_session" none none) x)
  settle_sms (found sid h is_a) x =
      if barred h.direction_mode is_a
      then (
        some (drops "direction_mode_rejected" (some sid) h.tenant_id),
        cache_sms (drops "direction_mode_rejected" (some sid) h.tenant_id) x,
      )
      else (
        some (send sid h is_a (destination_of x sid h is_a) x).0,
        (send sid h is_a (destination_of x sid h is_a) x).1,
      )

  unfoldable pub recall_sms : Outbox → Option SmsRouteDecision
  recall_sms x = if w.dedup_read_fails then none else fresh_entry w.now (x.dedup args.event_id)

  -- `SmsRouter.routeIncomingSms`; no decision is a thrown error.
  unfoldable pub route_incoming_sms : Outbox → Option SmsRouteDecision × Outbox
  unfolding settle_sms
  route_incoming_sms x = elim (recall_sms x) [
    | some d ↦ (some d, x)
    | none ↦
        settle_sms
          (search_sessions x.redis
            (if w.members_fail then [] else x.redis.proxy_sessions args.proxy_number))
          x
  ]
