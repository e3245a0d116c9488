-- ===== src/Examples/Webhooks.antt =====
-- Webhooks of the provider, and what handles them.
use relavoi_backend.AfricasTalking.SmsParser.{SmsBody}
use relavoi_backend.AfricasTalking.VoiceParser.{VoiceBody}
use relavoi_backend.AfricasTalking.{Texts}
use relavoi_backend.WebhookHandler.Sms.{SmsDesk}
use relavoi_backend.WebhookHandler.{Desk, Faults, ringing_status}
use relavoi_backend.Base.{bytes_eq, false, [], none, some, ◌==◌, string_eq, if◌then◌else◌}
use relavoi_backend.Examples.{customer, agent, exchange, outbox}

-- Lower case for the words of these tests, and the number of two callers.
abbrev pub texts : Texts
texts = record {
  lower_case = λ t. if t == "Inbound" then "inbound" else if t == "Success" then "success" else t;
  trim = λ t. t;
  decode_uri_component = λ t. some t;
  to_number = λ t. if t == "61" then some 61 else if t == "0" then some 0 else none;
  utf8 = λ t. if t == "+234802222" then customer else agent;
  from_utf8 = λ b. if b == customer then "+234802222" else "+234801111";
}

abbrev pub no_fields : VoiceBody
no_fields = record {
  session_id = some "AT1";
  session_id_capital = none;
  direction = none;
  is_active = none;
  caller_number = some "+234802222";
  destination_number = some "+2341";
  dtmf_digits = none;
  recording_url = none;
  duration_in_seconds = none;
  currency_code = none;
  amount = none;
  status = none;
  hangup_cause = none;
  call_session_state = none;
}

-- The first webhook of a call has a duration of "0".
abbrev pub call_body : VoiceBody
call_body = record no_fields {
  direction = some "Inbound";
  is_active = some "1";
  duration_in_seconds = some "0";
}

abbrev pub hangup_body : VoiceBody
hangup_body = record no_fields {
  direction = some "Inbound";
  is_active = some "0";
  duration_in_seconds = some "61";
  status = some "Success";
}

abbrev pub desk : Desk
desk = record {
  exchange = exchange;
  progress = λ id. record {
    status = ringing_status;
    answered_at = none;
    ended_at = none;
    duration_seconds = none;
    recording_url = none;
  };
  published = [];
  dlq = [];
}

abbrev pub no_faults : Faults
no_faults = record {
  dedup_read_fails = false;
  dedup_write_fails = false;
  update_fails = false;
  tenant_read_fails = false;
  dlq_fails = false;
  now = 5000;
}

abbrev pub sms_body : SmsBody
sms_body = record {
  id = some "m1";
  id_capital = none;
  link_id = none;
  link_id_capital = none;
  from = some "+234802222";
  from_capital = none;
  to = some "+2341";
  to_capital = none;
  text = some "hi";
  text_capital = none;
  date = none;
  date_capital = none;
  network_code = none;
  network_code_capital = none;
}

abbrev pub sms_desk : SmsDesk
sms_desk = record { outbox = outbox; received = []; dlq = [] }
