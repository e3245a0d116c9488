-- ===== src/WebhookHandler/Status.antt =====
-- The status events of calls, together with the records that the router makes.
use relavoi_backend.WebhookHandler.Replay.{announce_call-exchange, handle_status_event-exchange}
use relavoi_backend.Store.{SessionHash}
use relavoi_backend.CallRouter.Replay.{route-hit, route-new}
use relavoi_backend.AfricasTalking.VoiceParser.{
  parse_event_type, parsed_webhook, session_id_of, VoiceEventType, event_id_of, event_name,
  pick_phone, ParsedVoiceWebhook, VoiceBody, parse_voice_webhook,
}
use relavoi_backend.CallRouter.Routing.{
  call_record, record_call, settle, recall, route_incoming_call,
}
use relavoi_backend.CallRouter.{
  RouteDecision, bump_count, write_record, cache_decision, CallAnswers, CallRecord, Exchange,
}
use relavoi_backend.WebhookHandler.Voice.{
  announce, handle_status, handle_status_event, has_cpaas_id, is_incoming, recall_voice, route_call,
  update_progress, updates_of, call_args, handle_voice_webhook,
}
use relavoi_backend.WebhookHandler.{Outcome, VoiceWebhookResult, Progress, Desk, Faults}
use relavoi_backend.Base.{
  if_holds, eq_iff, sym, keep_if, string_eq, ◌||◌, ap, ◌∙◌, subst, ◌==◌, inl, inr, Bool-cases,
  Option-cases, ℕ, ◌≡◌, refl, String, Bool, true, false, List, [], ◌∷◌, Option, none, some, join,
  has_char, has_char-append, All, arith,
}
use relavoi_backend.Crypto.{NodeCrypto}
use relavoi_backend.AfricasTalking.{Texts}

-- Every webhook in turn, each with what its surroundings answer; one that does not parse is dropped.
pub record Arrival : Type 0 where
  pub body : VoiceBody
  pub now_text : String
  pub faults : Faults
  pub answers : CallAnswers

-- The records are known under event ids, which have a colon.
abbrev AllColons : List CallRecord → Type 0
AllColons recs = All (λ (rec : CallRecord). has_char 58 rec.cpaas_call_id ≡ true) recs

abbrev HasColons : Desk → Type 0
HasColons x = AllColons x.exchange.call_records

abbrev event_id_or : Option ParsedVoiceWebhook → String
event_id_or none = ""
event_id_or (some p) = p.event_id

module _ (c : NodeCrypto) (js : Texts) where
  unfoldable pub receive : Arrival → Desk → Desk
  receive a x = elim (parse_voice_webhook js a.now_text a.body) [
    | none ↦ x
    | some p ↦ (handle_voice_webhook c a.faults a.answers p x).1
  ]

  unfoldable pub receive_all : List Arrival → Desk → Desk
  receive_all [] x = x
  receive_all (a ∷ rest) x = receive_all rest (receive a x)

  record_call-HasColons :
      (r : CallAnswers) (p : ParsedVoiceWebhook) (h : SessionHash) (is_a : Bool) (d : RouteDecision)
      (x : Exchange)
      → has_char 58 p.event_id ≡ true
      → AllColons x.call_records
      → AllColons (record_call c r (call_args p) h is_a d x).call_records
  unfolding record_call write_record bump_count call_record
  record_call-HasColons r p h is_a d x colon k = ground (arith, colon, k)

  cache_decision-HasColons :
      (fails : Bool) (event : String) (now : ℕ) (d : RouteDecision) (x : Exchange)
      → AllColons x.call_records
      → AllColons (cache_decision fails event now d x).call_records
  unfolding cache_decision
  cache_decision-HasColons fails event now d x k = ground (arith, k)

  settle-HasColons :
      (r : CallAnswers) (p : ParsedVoiceWebhook) (m : Option (SessionHash × Bool)) (x : Exchange)
      → has_char 58 p.event_id ≡ true
      → AllColons x.call_records
      → AllColons (settle c r (call_args p) m x).1.call_records
  unfolding settle
  settle-HasColons r p none x colon h = cache_decision-HasColons _ _ _ _ x h
  settle-HasColons r p (some (h, is_a)) x colon k =
      record_call-HasColons r p h is_a _ _ colon (cache_decision-HasColons _ _ _ _ x k)

  event_id_of-colon :
      (session now : String) (e : VoiceEventType) → has_char 58 (event_id_of session now e) ≡ true
  unfolding event_id_of has_char
  event_id_of-colon session now e = elim (Bool-cases (session == "")) [
    | inl no_id ↦ rw no_id (has_char-append 58 "unknown:" (join now (join ":" (event_name e))))
    | inr id ↦ rw id (
        has_char-append 58 session (join ":" (event_name e))
        ∙ ap (λ b. has_char 58 session || b) (has_char-append 58 ":" (event_name e))
        ∙ ground arith)
  ]

  parse-event_id :
      (now : String) (b : VoiceBody) (p : ParsedVoiceWebhook)
      → parse_voice_webhook js now b ≡ some p
      → has_char 58 p.event_id ≡ true
  unfolding parse_voice_webhook parsed_webhook
  parse-event_id now b p = elim (Option-cases (pick_phone js b.caller_number)) [
    | inl no_caller ↦ rw (no_caller, parse_voice_webhook) λ e. absurd cc
    | inr (caller, called) ↦ elim (Option-cases (pick_phone js b.destination_number)) [
      | inl no_destination ↦ rw (called, parse_voice_webhook) (rw no_destination λ e. absurd cc)
      | inr (destination, dialled) ↦
          rw (called, parse_voice_webhook)
            (rw dialled λ e.
              subst (λ t. has_char 58 t ≡ true) (ap event_id_or e)
                (event_id_of-colon (session_id_of js b) now (parse_event_type js b)))
    ]
  ]

  route-HasColons :
      (r : CallAnswers) (p : ParsedVoiceWebhook) (x : Exchange)
      → has_char 58 p.event_id ≡ true
      → AllColons x.call_records
      → AllColons (route_incoming_call c r (call_args p) x).1.call_records
  route-HasColons r p x colon h = elim (Option-cases (recall c r (call_args p) x)) [
    | inr (d, hit) ↦ rw (route-hit c (call_args p) r x d hit) h
    | inl new ↦ rw (route-new c (call_args p) r x new) (settle-HasColons r p _ x colon h)
  ]

  handled-HasColons :
      (f : Faults) (p : ParsedVoiceWebhook) (x : Desk)
      → HasColons x
      → HasColons (handle_status_event f p x)
  handled-HasColons f p x h =
      subst (λ (e : Exchange). AllColons e.call_records) (sym (handle_status_event-exchange f p x))
        h

  status-HasColons :
      (f : Faults) (r : CallAnswers) (p : ParsedVoiceWebhook) (x : Desk)
      → HasColons x
      → HasColons (handle_status c f r p x).1
  unfolding handle_status
  status-HasColons f r p x h =
      if_holds (λ (res : Outcome VoiceWebhookResult × Desk). HasColons res.1) f.dedup_write_fails
        (handled-HasColons f p x h) (cache_decision-HasColons _ _ _ _ _ (handled-HasColons f p x h))

  handle-HasColons :
      (f : Faults) (r : CallAnswers) (p : ParsedVoiceWebhook) (x : Desk)
      → has_char 58 p.event_id ≡ true
      → HasColons x
      → HasColons (handle_voice_webhook c f r p x).1
  unfolding route_call handle_status handle_voice_webhook
  handle-HasColons f r p x colon h = elim (Option-cases (recall_voice c f r p x)) [
    | inr (d, hit) ↦ rw (hit, handle_voice_webhook) h
    | inl new ↦
        rw (new, handle_voice_webhook)
          (elim (Bool-cases (is_incoming p.event_type)) [
            | inl incoming ↦ rw incoming (
                subst (λ (e : Exchange). AllColons e.call_records)
                  (sym (announce_call-exchange _ _)) (route-HasColons r p x.exchange colon h))
            | inr status ↦ rw status (status-HasColons f r p x h)
          ])
  ]

  receive-HasColons : (a : Arrival) (x : Desk) → HasColons x → HasColons (receive a x)
  unfolding receive
  receive-HasColons a x h = elim (Option-cases (parse_voice_webhook js a.now_text a.body)) [
    | inl refused ↦ rw (refused, receive) h
    | inr (p, parsed) ↦
        rw (parsed, receive)
          (handle-HasColons a.faults a.answers p x (parse-event_id a.now_text a.body p parsed) h)
  ]

  receive_all-HasColons :
      (arrivals : List Arrival) (x : Desk) → HasColons x → HasColons (receive_all arrivals x)
  unfolding receive_all
  receive_all-HasColons [] x h = h
  receive_all-HasColons (a ∷ rest) x h =
      receive_all-HasColons rest (receive a x) (receive-HasColons a x h)

no_row_matches :
    (cpaas : String) (recs : List CallRecord)
    → has_char 58 cpaas ≡ false
    → AllColons recs
    → keep_if (has_cpaas_id cpaas) recs ≡ []
no_row_matches cpaas [] plain h = refl
no_row_matches cpaas (rec ∷ rest) plain (colon, h) =
    ground (arith, no_row_matches cpaas rest plain h, eq_iff rec.cpaas_call_id cpaas, plain, colon)

no_row-same :
    (f : Faults) (p : ParsedVoiceWebhook) (rows : List CallRecord) (change : Progress → Progress)
    (x : Desk)
    → rows ≡ []
    → announce f p rows (record x { progress = update_progress change rows x.progress }) ≡ x
unfolding announce update_progress
no_row-same f p rows change x none_there = rw none_there refl

handle_status_event-no_row :
    (f : Faults) (p : ParsedVoiceWebhook) (x : Desk)
    → keep_if (has_cpaas_id p.cpaas_session_id) x.exchange.call_records ≡ []
    → handle_status_event f p x ≡ x
unfolding handle_status_event
handle_status_event-no_row f p x none_there = elim (Option-cases (updates_of p f.now)) [
  | inl nothing ↦ rw (nothing, handle_status_event) refl
  | inr (change, writes) ↦
      rw (writes, handle_status_event)
        (if_holds (λ (y : Desk). y ≡ x) f.update_fails refl (no_row-same f p _ change x none_there))
]

-- Starting without call records, after any voice webhooks of the provider, whatever fails: a status
-- event of a call whose session id has no colon finds no record of a call. It writes no status and
-- publishes nothing.
pub handle_status_event-unmatched :
    (c : NodeCrypto) (js : Texts) (arrivals : List Arrival) (x : Desk) (f : Faults)
    (p : ParsedVoiceWebhook)
    → x.exchange.call_records ≡ []
    → has_char 58 p.cpaas_session_id ≡ false
    → handle_status_event f p (receive_all c js arrivals x) ≡ receive_all c js arrivals x
handle_status_event-unmatched c js arrivals x f p empty plain =
    let y = receive_all c js arrivals x in
    handle_status_event-no_row f p y (
      no_row_matches p.cpaas_session_id y.exchange.call_records plain
        (receive_all-HasColons c js arrivals x (subst AllColons (sym empty) tt)))
