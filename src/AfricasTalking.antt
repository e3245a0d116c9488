-- ===== src/AfricasTalking.antt =====
-- What Africa's Talking posts and what it is answered, src/services/africastalking.
--
-- The operations of JavaScript's texts that the parsers use are a parameter; a body is a record of
-- the form fields that are read. A duration is a whole number of seconds.
pub mod VoiceParser
pub mod SmsParser
pub mod ResponseBuilder
mod Tests
pub mod Markup
use relavoi_backend.Base.{ℕ, String, Option}
use relavoi_backend.Crypto.{Buffer}

pub record Texts : Type 0 where
  pub lower_case : String → String  -- toLowerCase
  pub trim : String → String
  pub decode_uri_component : String → Option String  -- none: it throws
  pub to_number : String → Option ℕ  -- Number; none: not a number
  pub utf8 : String → Buffer
  pub from_utf8 : Buffer → String
