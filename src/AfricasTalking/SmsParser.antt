-- ===== src/AfricasTalking/SmsParser.antt =====
-- The parser of incoming text messages, src/services/africastalking/sms-parser.ts.
use Prim.Native.Char.{code}
use Prim.Native.String.{[], ◌∷◌}
use relavoi_backend.Base.{
  String, Bool, true, false, ◌&&◌, Option, none, some, leb, ◌==◌, nat_eq, string_eq, if◌then◌else◌,
  or_else, or_option, join,
}
use relavoi_backend.Store.{truthy}
use relavoi_backend.AfricasTalking.{Texts}

-- The fields of a form that the parser reads, each under its two spellings.
pub record SmsBody : Type 0 where
  pub id : Option String
  pub id_capital : Option String
  pub link_id : Option String
  pub link_id_capital : Option String
  pub from : Option String
  pub from_capital : Option String
  pub to : Option String
  pub to_capital : Option String
  pub text : Option String
  pub text_capital : Option String
  pub date : Option String
  pub date_capital : Option String
  pub network_code : Option String
  pub network_code_capital : Option String

pub record ParsedSmsWebhook : Type 0 where
  pub event_id : String
  pub cpaas_message_id : String
  pub from : String
  pub to : String
  pub text : String
  pub date : Option String
  pub link_id : Option String
  pub network_code : Option String
  pub raw : SmsBody

-- `value.replace(/\+/g, '%2B')`.
unfoldable pub encode_plus : String → String
encode_plus [] = ""
encode_plus (c ∷ s) = let rest = encode_plus s in if code c == 43 then join "%2B" rest else c ∷ rest

unfoldable pub all_digits : String → Bool
all_digits [] = true
all_digits (c ∷ s) = leb 48 (code c) && leb (code c) 57 && all_digits s

abbrev starts_with_plus : String → Bool
starts_with_plus [] = false
starts_with_plus (c ∷ s) = code c == 43

module _ (js : Texts) where
  unfoldable pub decode : String → String
  decode value = if value == "" then "" else elim (js.decode_uri_component (encode_plus value)) [
    | some decoded ↦ js.trim decoded
    | none ↦ js.trim value
  ]

  unfoldable pub ensure_e164 : String → String
  ensure_e164 phone =
      let trimmed = js.trim phone in
      if trimmed == ""
      then ""
      else if starts_with_plus trimmed
      then trimmed
      else if all_digits trimmed
      then join "+" trimmed
      else trimmed

  unfoldable pub parse_sms_webhook : String → SmsBody → ParsedSmsWebhook
  parse_sms_webhook now b =
      let id = or_else (or_option b.id b.id_capital) "" in
      let link = or_option b.link_id b.link_id_capital in
      let stable = if truthy link then or_else link "" else id in
      record {
        event_id = if stable == "" then join "sms:unknown:" now else join "sms:" stable;
        cpaas_message_id = id;
        from = ensure_e164 (decode (or_else (or_option b.from b.from_capital) ""));
        to = ensure_e164 (decode (or_else (or_option b.to b.to_capital) ""));
        text = decode (or_else (or_option b.text b.text_capital) "");
        date = or_option b.date b.date_capital;
        link_id = link;
        network_code = or_option b.network_code b.network_code_capital;
        raw = b;
      }
