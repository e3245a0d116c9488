-- ===== src/AfricasTalking/VoiceParser.antt =====
-- The parser of voice webhooks, src/services/africastalking/webhook-parser.ts.
use relavoi_backend.Base.{
  ℕ, String, Bool, false, ◌&&◌, ◌||◌, Option, none, some, ltb, ◌==◌, string_eq, if◌then◌else◌,
  or_else, or_option, has_char, join,
}
use relavoi_backend.Crypto.{Phone}
use relavoi_backend.Store.{truthy}
use relavoi_backend.AfricasTalking.{Texts}

pub data VoiceEventType : Type 0 where
  incoming_call ringing answered completed missed failed dtmf unknown : VoiceEventType

pub data CallDirection : Type 0 where
  inbound outbound unknown_direction : CallDirection

-- The fields of a form that the parser reads.
pub record VoiceBody : Type 0 where
  pub session_id : Option String
  pub session_id_capital : Option String  -- `SessionId`
  pub direction : Option String
  pub is_active : Option String
  pub caller_number : Option String
  pub destination_number : Option String
  pub dtmf_digits : Option String
  pub recording_url : Option String
  pub duration_in_seconds : Option String
  pub currency_code : Option String
  pub amount : Option String
  pub status : Option String
  pub hangup_cause : Option String
  pub call_session_state : Option String

pub record ParsedVoiceWebhook : Type 0 where
  pub event_id : String
  pub cpaas_session_id : String
  pub event_type : VoiceEventType
  pub direction : CallDirection
  pub is_active : Bool
  pub caller_number : Phone
  pub destination_number : String
  pub hangup_cause : Option String
  pub status : Option String
  pub duration_in_seconds : Option ℕ
  pub recording_url : Option String
  pub dtmf_digits : Option String
  pub currency_code : Option String
  pub amount : Option String
  pub raw : VoiceBody

abbrev pub event_name : VoiceEventType → String
event_name incoming_call = "incoming_call"
event_name ringing = "ringing"
event_name answered = "answered"
event_name completed = "completed"
event_name missed = "missed"
event_name failed = "failed"
event_name dtmf = "dtmf"
event_name unknown = "unknown"

-- `value || undefined`.
abbrev or_undefined : Option String → Option String
or_undefined v = if truthy v then v else none

-- `${sessionId}:${eventType}`, or with the time where there is no session id.
unfoldable pub event_id_of : String → String → VoiceEventType → String
event_id_of session now event =
    if session == ""
    then join "unknown:" (join now (join ":" (event_name event)))
    else join session (join ":" (event_name event))

-- The number of seconds is parsed: the text "0" does not mean that the call is over.
abbrev pub has_elapsed : Option ℕ → Bool
has_elapsed none = false
has_elapsed (some seconds) = ltb 0 seconds

unfoldable pub final_event : String → VoiceEventType
final_event status =
    if status == "noanswer" || status == "no answer"
    then missed
    else if status == "failed" || status == "busy" || status == "aborted"
    then failed
    else completed

module _ (js : Texts) where
  -- No phone is a text that does not decode.
  unfoldable pub pick_phone : Option String → Option String
  pick_phone v =
      let value = or_else v "" in
      if value == ""
      then some ""
      else if has_char 37 value
      then elim (js.decode_uri_component value) [
        | none ↦ none
        | some decoded ↦ some (js.trim decoded)
      ]
      else some (js.trim value)

  abbrev pub is_active_call : VoiceBody → Bool
  is_active_call b =
      or_else b.is_active "" == "1" || js.lower_case (or_else b.is_active "") == "true"

  unfoldable pub has_ended : VoiceBody → Bool
  has_ended b =
      has_elapsed (js.to_number (or_else b.duration_in_seconds ""))
      || truthy b.hangup_cause
      || or_else b.is_active "" == "0"

  unfoldable pub parse_event_type : VoiceBody → VoiceEventType
  parse_event_type b =
      let direction = js.lower_case (or_else b.direction "") in
      let state = js.lower_case (or_else b.call_session_state "") in
      if truthy b.dtmf_digits
      then dtmf
      else if has_ended b
      then final_event (js.lower_case (or_else b.status ""))
      else if direction == "inbound" && is_active_call b
      then if state == "answered" || state == "inprogress" || state == "in-progress"
        then answered
        else incoming_call
      else if direction == "outbound" && is_active_call b
      then if state == "answered" || state == "inprogress" then answered else ringing
      else unknown

  abbrev direction_of : Option String → CallDirection
  direction_of d =
      if or_else d "" == "Inbound"
      then inbound
      else if or_else d "" == "Outbound"
      then outbound
      else unknown_direction

  abbrev pub session_id_of : VoiceBody → String
  session_id_of b = or_else (or_option b.session_id b.session_id_capital) ""

  unfoldable pub parsed_webhook : String → VoiceBody → String → String → ParsedVoiceWebhook
  parsed_webhook now b caller destination = record {
    event_id = event_id_of (session_id_of b) now (parse_event_type b);
    cpaas_session_id = session_id_of b;
    event_type = parse_event_type b;
    direction = direction_of b.direction;
    is_active = is_active_call b;
    caller_number = js.utf8 caller;
    destination_number = destination;
    hangup_cause = b.hangup_cause;
    status = b.status;
    duration_in_seconds =
        if truthy b.duration_in_seconds
        then js.to_number (or_else b.duration_in_seconds "")
        else none;
    recording_url = or_undefined b.recording_url;
    dtmf_digits = or_undefined b.dtmf_digits;
    currency_code = or_undefined b.currency_code;
    amount = or_undefined b.amount;
    raw = b;
  }

  -- No webhook is a thrown error.
  unfoldable pub parse_voice_webhook : String → VoiceBody → Option ParsedVoiceWebhook
  parse_voice_webhook now b = elim (pick_phone b.caller_number) [
    | none ↦ none
    | some caller ↦ elim (pick_phone b.destination_number) [
      | none ↦ none
      | some destination ↦ some (parsed_webhook now b caller destination)
    ]
  ]
