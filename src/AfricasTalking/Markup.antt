-- ===== src/AfricasTalking/Markup.antt =====
-- The tags of the responses do not depend on the texts in them.
use relavoi_backend.AfricasTalking.ResponseBuilder.{
  DialArgs, RejectReason, attribute, build_dial_response, build_play_message_response,
  build_redirect_response, build_reject_response, consent_part, dial_attributes, duration_attribute,
  play_part, escape_xml, quoted, replace_char,
}
use Prim.Native.Char.{code}
use Prim.Native.String.{[], ◌∷◌}
use Prim.Native.String.append
use relavoi_backend.Base.{
  if_holds, ℕ, suc, ◌+◌, ◌≡◌, refl, ap, ◌∙◌, String, Option, some, ◌==◌, nat_eq, if◌then◌else◌,
  or_else, join, arith, Bool-cases, inl, inr,
}
use relavoi_backend.Store.{truthy}

-- How often a character, given by its number, is in a text.
unfoldable pub count_char : ℕ → String → ℕ
count_char n [] = 0
count_char n (c ∷ s) = let k = count_char n s in if code c == n then suc k else k

count_char-append :
    (n : ℕ) (s t : String) → count_char n (join s t) ≡ count_char n s + count_char n t
unfolding count_char
count_char-append n [] t = ap (count_char n) (append.nil t) ∙ omega arith
count_char-append n (c ∷ s) t =
    ap (count_char n) (append.cons c s t) ∙ ground (arith, count_char-append n s t)

-- A character that is replaced by a text without it is gone.
replace_char-gone :
    (n : ℕ) (r s : String) → count_char n r ≡ 0 → count_char n (replace_char n r s) ≡ 0
unfolding count_char replace_char
replace_char-gone n r [] h = refl
replace_char-gone n r (c ∷ s) h =
    ground (arith, h, count_char-append n r (replace_char n r s), replace_char-gone n r s h)

-- A character that is neither in the text nor in the replacement does not come up.
replace_char-absent :
    (n m : ℕ) (r s : String)
    → count_char m r ≡ 0
    → count_char m s ≡ 0
    → count_char m (replace_char n r s) ≡ 0
unfolding count_char replace_char
replace_char-absent n m r [] h k = refl
replace_char-absent n m r (c ∷ s) h k =
    ground (arith, h, k, count_char-append m r (replace_char n r s), replace_char-absent n m r s h)

escape_xml-less : (s : String) → count_char 60 (escape_xml s) ≡ 0
unfolding escape_xml count_char
escape_xml-less s = replace_char-absent 39 60 "&apos;" _ refl (
    replace_char-absent 34 60 "&quot;" _ refl (
      replace_char-absent 62 60 "&gt;" _ refl
        (replace_char-gone 60 "&lt;" (replace_char 38 "&amp;" s) refl)))

escape_xml-quote : (s : String) → count_char 34 (escape_xml s) ≡ 0
unfolding escape_xml count_char
escape_xml-quote s = replace_char-absent 39 34 "&apos;" _ refl (
    replace_char-gone 34 "&quot;"
      (replace_char 62 "&gt;" (replace_char 60 "&lt;" (replace_char 38 "&amp;" s))) refl)

quoted-tags :
    (before value after : String)
    → count_char 60 (quoted before value after) ≡ count_char 60 before + count_char 60 after
quoted-tags before value after = simp (count_char-append, escape_xml-less) (omega arith)

-- The tags of what is played or said before a call is connected.
unfoldable pub consent_tags : DialArgs → ℕ
consent_tags a = if truthy a.consent_audio_url then 1 else if truthy a.consent_text then 2 else 0

unfoldable pub play_tags : String → Option String → ℕ
play_tags audio_url text = if truthy (some audio_url) then 1 else if truthy text then 2 else 0

attribute-tags :
    (before : String) (v : Option String)
    → count_char 60 before ≡ 0
    → count_char 60 (attribute before v) ≡ 0
unfolding attribute count_char
attribute-tags before v none_before =
    if_holds (λ t. count_char 60 t ≡ 0) (truthy v)
      (quoted-tags before (or_else v "") "\"" ∙ ap (λ n. n + 0) none_before) refl

consent_part-tags : (a : DialArgs) → count_char 60 (consent_part a) ≡ consent_tags a
unfolding consent_part consent_tags count_char
consent_part-tags a = elim (Bool-cases (truthy a.consent_audio_url)) [
  | inl plays ↦ simp plays (quoted-tags "<Play url=\"" (or_else a.consent_audio_url "") "\"/>")
  | inr silent ↦ elim (Bool-cases (truthy a.consent_text)) [
    | inl says ↦
        simp (silent, says)
          (quoted-tags "<Say voice=\"woman\">" (or_else a.consent_text "") "</Say>")
    | inr nothing ↦ simp (silent, nothing) refl
  ]
]

play_part-tags :
    (audio_url : String) (text : Option String)
    → count_char 60 (play_part audio_url text) ≡ play_tags audio_url text
unfolding play_part play_tags count_char
play_part-tags audio_url text = elim (Bool-cases (truthy (some audio_url))) [
  | inl plays ↦ simp plays (quoted-tags "<Play url=\"" audio_url "\"/>")
  | inr silent ↦ elim (Bool-cases (truthy text)) [
    | inl says ↦ simp (silent, says) (quoted-tags "<Say>" (or_else text "") "</Say>")
    | inr nothing ↦ simp (silent, nothing) refl
  ]
]

duration_attribute-tags :
    (v : Option String)
    → count_char 60 (or_else v "") ≡ 0
    → count_char 60 (duration_attribute v) ≡ 0
unfolding duration_attribute count_char
duration_attribute-tags v digits =
    if_holds (λ t. count_char 60 t ≡ 0) (truthy v) (simp (count_char-append, digits) refl) refl

dial_attributes-tags :
    (a : DialArgs)
    → count_char 60 (or_else a.max_duration_seconds "") ≡ 0
    → count_char 60 (dial_attributes a) ≡ 0
unfolding dial_attributes count_char
dial_attributes-tags a digits =
    let recording : count_char 60 (if a.recording_enabled then " record=\"true\"" else "") ≡ 0 =
      if_holds (λ t. count_char 60 t ≡ 0) a.recording_enabled refl refl in
    simp
      (
        count_char-append,
        attribute-tags " callerId=\"" a.caller_id refl,
        attribute-tags " ringbackTone=\"" a.ringback_tone refl,
      )
      (omega (arith, recording, duration_attribute-tags a.max_duration_seconds digits))

-- No text that is put into a response opens a tag: however the destination, the caller's id, the
-- messages and the URLs read, a response has the tags of its builder and no others. The number of
-- seconds is a text of digits.
pub build_responses-tags :
    (a : DialArgs) (reason : RejectReason) (message : Option String) (audio_url : String)
    (text : Option String) (support_phone : String) (caller_id : Option String)
    → count_char 60 (or_else a.max_duration_seconds "") ≡ 0
    → (count_char 60 (build_dial_response a) ≡ 4 + consent_tags a)
      × (count_char 60 (build_reject_response reason message) ≡ 6)
      × (count_char 60 (build_play_message_response audio_url text) ≡ 4 + play_tags audio_url text)
      × (count_char 60 (build_redirect_response support_phone caller_id) ≡ 4)
unfolding build_dial_response build_reject_response build_play_message_response
    build_redirect_response count_char
build_responses-tags a reason message audio_url text support_phone caller_id digits = (
  simp (count_char-append, escape_xml-less, consent_part-tags, dial_attributes-tags a digits)
      (omega arith),
  simp (count_char-append, escape_xml-less) (omega arith),
  simp (count_char-append, play_part-tags) (omega arith),
  simp (count_char-append, escape_xml-less, attribute-tags " callerId=\"" caller_id refl)
      (omega arith),
)
