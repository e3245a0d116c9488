-- ===== src/AfricasTalking/ResponseBuilder.antt =====
-- The builder of voice responses, src/services/africastalking/response-builder.ts.
use Prim.Native.Char.{code}
use Prim.Native.String.{[], ◌∷◌}
use relavoi_backend.Base.{
  ℕ, String, Bool, Option, some, ◌==◌, nat_eq, string_eq, if◌then◌else◌, or_else, join,
}
use relavoi_backend.Store.{truthy}

-- `s.replace(/…/g, '…')` for one character, given by its number.
unfoldable pub replace_char : ℕ → String → String → String
replace_char n r [] = ""
replace_char n r (c ∷ s) =
    let rest = replace_char n r s in if code c == n then join r rest else c ∷ rest

unfoldable pub escape_xml : String → String
escape_xml s = replace_char 39 "&apos;" (
    replace_char 34 "&quot;"
      (replace_char 62 "&gt;" (replace_char 60 "&lt;" (replace_char 38 "&amp;" s))))

-- The arguments of `buildDialResponse` that the routes give.
pub record DialArgs : Type 0 where
  pub destination : String
  pub caller_id : Option String
  pub recording_enabled : Bool
  pub consent_audio_url : Option String
  pub consent_text : Option String
  pub max_duration_seconds : Option String  -- its digits, if it is positive
  pub ringback_tone : Option String

abbrev pub xml_head : String
xml_head = "<?xml version=\"1.0\" encoding=\"UTF-8\"?>"

abbrev pub quoted : String → String → String → String
quoted before value after = join before (join (escape_xml value) after)

-- An attribute after a space, for a value that is there and not empty.
unfoldable pub attribute : String → Option String → String
attribute before v = if truthy v then quoted before (or_else v "") "\"" else ""

unfoldable pub consent_part : DialArgs → String
consent_part a =
    if truthy a.consent_audio_url
    then quoted "<Play url=\"" (or_else a.consent_audio_url "") "\"/>"
    else if truthy a.consent_text
    then quoted "<Say voice=\"woman\">" (or_else a.consent_text "") "</Say>"
    else ""

-- The digits of a number need no escape.
unfoldable pub duration_attribute : Option String → String
duration_attribute v = if truthy v then join " maxDuration=\"" (join (or_else v "") "\"") else ""

-- `dialAttrs.join(' ')` after a space.
unfoldable pub dial_attributes : DialArgs → String
dial_attributes a = join (attribute " callerId=\"" a.caller_id) (
    join (if a.recording_enabled then " record=\"true\"" else "") (
      join (duration_attribute a.max_duration_seconds)
        (attribute " ringbackTone=\"" a.ringback_tone)))

unfoldable pub build_dial_response : DialArgs → String
build_dial_response a = join xml_head (
    join "<Response>" (
      join (consent_part a) (
        join "<Dial" (
          join (dial_attributes a)
            (join (quoted " phoneNumbers=\"" a.destination "\"/>") "</Response>")))))

pub data RejectReason : Type 0 where
  no_session expired unauthorized rate_limited : RejectReason

unfoldable pub reject_message : RejectReason → String
reject_message unauthorized = "This number is not authorized to make this call"
reject_message no_session = "This number is no longer in service"
reject_message expired = "This number is no longer in service"
reject_message rate_limited = "This number is no longer in service"

unfoldable pub build_reject_response : RejectReason → Option String → String
build_reject_response reason message = join xml_head (
    join "<Response>" (
      join (quoted "<Say voice=\"woman\">" (or_else message (reject_message reason)) "</Say>")
        "<Hangup/></Response>"))

unfoldable pub play_part : String → Option String → String
play_part audio_url text =
    if truthy (some audio_url)
    then quoted "<Play url=\"" audio_url "\"/>"
    else if truthy text
    then quoted "<Say>" (or_else text "") "</Say>"
    else ""

unfoldable pub build_play_message_response : String → Option String → String
build_play_message_response audio_url text =
    join xml_head (join "<Response>" (join (play_part audio_url text) "<Hangup/></Response>"))

unfoldable pub build_redirect_response : String → Option String → String
build_redirect_response support_phone caller_id = join xml_head (
    join "<Response>" (
      join "<Dial" (
        join (attribute " callerId=\"" caller_id)
          (join (quoted " phoneNumbers=\"" support_phone "\"/>") "</Response>"))))

unfoldable pub build_empty_response : String
build_empty_response = "<?xml version=\"1.0\" encoding=\"UTF-8\"?><Response></Response>"
