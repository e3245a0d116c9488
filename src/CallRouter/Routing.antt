-- ===== src/CallRouter/Routing.antt =====
-- `CallRouter.routeIncomingCall`.
use relavoi_backend.Base.{
  String, Bool, true, false, not, List, [], Option, none, some, string_eq, if◌then◌else◌, or_else,
  or_option,
}
use relavoi_backend.Crypto.{Phone, NodeCrypto, decrypt_phone}
use relavoi_backend.Store.{
  SessionHash, sandbox, live, ConsentPrompt, default_prompt, custom_prompt, no_prompt, truthy,
}
use relavoi_backend.CallRouter.{
  RouteAction, forward, consent_then_forward, dead_line, redirect, play_message, status_processed,
  RouteDecision, TenantRoutingConfig, CallRecord, Exchange, CallArgs, CallAnswers,
  default_consent_audio_url, no_decision, find_match, dialable, no_session_decision, cache_decision,
  cached, write_record, bump_count, is_live, barred,
}

abbrev pub session_id_of : SessionHash → String
session_id_of h = or_else h.id ""

abbrev pub tenant_of : SessionHash → String
tenant_of h = or_else h.tenant_id ""

module _ (c : NodeCrypto) (w : CallAnswers) (args : CallArgs) where
  -- `getTenantConfig`; a read that throws is no configuration.
  unfoldable pub config_of : Exchange → String → Option TenantRoutingConfig
  config_of x tenant = if w.config_read_fails then none else x.routing tenant

  -- The decryption of the other party's number.
  unfoldable pub destination : Exchange → SessionHash → Bool → Option Phone
  destination x h is_a = if w.phone_read_fails then none else elim (x.rows (session_id_of h)) [
    | none ↦ none
    | some row ↦
        decrypt_phone c (if is_a then row.party_b_phone_enc else row.party_a_phone_enc)
          (tenant_of h)
  ]

  unfoldable pub sandbox_decision : SessionHash → RouteDecision
  sandbox_decision h = record (no_decision play_message) {
    message = some "This is a Relavoi sandbox session. No call was connected.";
    session_id = h.id;
    tenant_id = h.tenant_id;
  }

  unfoldable pub refusal : String → SessionHash → RouteDecision
  refusal text h = record (no_decision dead_line) { message = some text; tenant_id = h.tenant_id }

  unfoldable pub connection :
      RouteAction → Option String → SessionHash → Option Phone → RouteDecision
  connection action audio h phone = record {
    action = action;
    destination = phone;
    caller_id = some args.proxy_number;
    audio_url = audio;
    message = none;
    session_id = h.id;
    call_record_id = some w.record_id;
    tenant_id = h.tenant_id;
  }

  unfoldable pub custom_audio : Option TenantRoutingConfig → String
  custom_audio none = default_consent_audio_url
  custom_audio (some cfg) = or_else cfg.recording_consent_audio_url default_consent_audio_url

  unfoldable pub recorded_decision :
      Exchange → SessionHash → Option Phone → ConsentPrompt → RouteDecision
  unfolding refusal connection config_of custom_audio
  recorded_decision x h phone no_prompt = refusal "Configuration error" h
  recorded_decision x h phone default_prompt =
      connection consent_then_forward (some default_consent_audio_url) h phone
  recorded_decision x h phone custom_prompt =
      connection consent_then_forward (some (custom_audio (config_of x (tenant_of h)))) h phone

  -- The decision for a live session that takes the call.
  unfoldable pub live_decision : Exchange → SessionHash → Bool → RouteDecision
  unfolding refusal connection recorded_decision
  live_decision x h is_a =
      if barred h.direction_mode is_a
      then refusal "This number is not authorized to call this destination" h
      else if not (dialable (destination x h is_a))
      then refusal "Destination unavailable" h
      else if or_else h.recording_enabled false
      then recorded_decision x h (destination x h is_a) (or_else h.consent_prompt no_prompt)
      else connection forward none h (destination x h is_a)

  -- The decision for the session that takes the call.
  unfoldable pub matched_decision : Exchange → SessionHash → Bool → RouteDecision
  unfolding sandbox_decision
  matched_decision x h is_a = if is_live h.mode then live_decision x h is_a else sandbox_decision h

  -- The record of a call: simulated in a sandbox session, else of a call that is connected.
  unfoldable pub call_record : Bool → SessionHash → Bool → RouteDecision → CallRecord
  call_record simulated h is_a d = record {
    id = w.record_id;
    session_id = session_id_of h;
    a_to_b = is_a;
    cpaas_call_id = args.event_id;
    recording_consent_played = is_consent d.action;
    party_b_phone_hash = h.party_b_hash;
    mode = if simulated then sandbox else live;
    simulated = simulated;
  }
    where
      is_consent : RouteAction → Bool
      is_consent consent_then_forward = true
      is_consent forward = false
      is_consent dead_line = false
      is_consent redirect = false
      is_consent play_message = false
      is_consent status_processed = false

  abbrev pub is_connected : RouteAction → Bool
  is_connected forward = true
  is_connected consent_then_forward = true
  is_connected dead_line = false
  is_connected redirect = false
  is_connected play_message = false
  is_connected status_processed = false

  -- The writes that follow a decision.
  unfoldable pub record_call : SessionHash → Bool → RouteDecision → Exchange → Exchange
  unfolding call_record
  record_call h is_a d x =
      if not (is_live h.mode)
      then bump_count w (session_id_of h) (write_record w (call_record true h is_a d) x)
      else if is_connected d.action
      then bump_count w (session_id_of h) (write_record w (call_record false h is_a d) x)
      else x

  -- The tenant of a call that no session takes.
  unfoldable pub unmatched_tenant : Option String
  unmatched_tenant =
      if truthy (or_option args.tenant_hint w.proxy_tenant)
      then or_option args.tenant_hint w.proxy_tenant
      else none

  unfoldable pub unmatched_decision : Exchange → RouteDecision
  unfolding unmatched_tenant config_of
  unmatched_decision x = elim unmatched_tenant [
    | none ↦ no_session_decision none none
    | some tenant ↦ no_session_decision (some tenant) (config_of x tenant)
  ]

  -- Past the dedup cache: the decision is made, cached and recorded.
  unfoldable pub settle : Option (SessionHash × Bool) → Exchange → RouteDecision × Exchange
  settle none x = (
    unmatched_decision x,
    cache_decision w.dedup_write_fails args.event_id w.now (unmatched_decision x) x,
  )
  settle (some (h, is_a)) x = (
    matched_decision x h is_a,
    record_call h is_a (matched_decision x h is_a)
        (cache_decision w.dedup_write_fails args.event_id w.now (matched_decision x h is_a) x),
  )

  abbrev pub candidates : Exchange → List String
  candidates x = if w.members_fail then [] else x.redis.proxy_sessions args.proxy_number

  -- The answer of the dedup cache; a read that throws is a miss.
  unfoldable pub recall : Exchange → Option RouteDecision
  recall x = if w.dedup_read_fails then none else cached w.now args.event_id x

  unfoldable pub route_incoming_call : Exchange → RouteDecision × Exchange
  unfolding settle
  route_incoming_call x = elim (recall x) [
    | some d ↦ (d, x)
    | none ↦
        settle (find_match c args.tenant_hint args.caller_phone w.hash_fails x.redis (candidates x))
          x
  ]
