-- ===== src/AfricasTalking/Tests.antt =====
-- Responses with tags in their texts.
use relavoi_backend.AfricasTalking.ResponseBuilder.{
  DialArgs, no_session, build_dial_response, build_play_message_response, build_redirect_response,
  build_reject_response,
}
use relavoi_backend.AfricasTalking.Markup.{
  build_responses-tags, count_char, consent_tags, play_tags,
}
use relavoi_backend.Base.{◌≡◌, refl, true, none, some}

abbrev hostile : DialArgs
hostile = record {
  destination = "\"/><Record/>";
  caller_id = some "<Say>";
  recording_enabled = true;
  consent_audio_url = none;
  consent_text = some "</Say><Hangup/>";
  max_duration_seconds = some "60";
  ringback_tone = none;
}

build_responses-tags_example :
    (count_char 60 (build_dial_response hostile) ≡ 6)
    × (count_char 60 (build_reject_response no_session (some "<Dial/>")) ≡ 6)
    × (count_char 60 (build_play_message_response "" (some "<Play/>")) ≡ 6)
    × (count_char 60 (build_redirect_response "<Dial/>" none) ≡ 4)
unfolding count_char consent_tags play_tags
build_responses-tags_example =
    build_responses-tags hostile no_session (some "<Dial/>") "" (some "<Play/>") "<Dial/>" none refl
