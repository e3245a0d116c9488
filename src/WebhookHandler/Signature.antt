-- ===== src/WebhookHandler/Signature.antt =====
-- `verifySignature`.
use Prim.Native.Char.{code}
use Prim.Native.String.{[], ◌∷◌, len}
use Prim.Native.String.append
use relavoi_backend.Crypto.{Buffer}
use mathlib.Core.Bool.{false≢true}
use relavoi_backend.Base.{
  none, sym, subst, refl, eq_iff, ◌↔◌, ◌≢◌, not, ◌||◌, ◌∙◌, some, Option, arith, ap,
  has_char-append, join, ◌≡◌, String, Bool, true, false, ◌==◌, nat_eq, string_eq, if◌then◌else◌,
  has_char,
}

-- The text before the first '=' and what is between it and the next one, or the end.
unfoldable pub until_equals : String → String
until_equals [] = ""
until_equals (c ∷ s) = let rest = until_equals s in if code c == 61 then "" else c ∷ rest

unfoldable pub after_equals : String → String
after_equals [] = ""
after_equals (c ∷ s) = let rest = after_equals s in if code c == 61 then s else rest

-- `signature.includes('=') ? signature.split('=')[1] : signature`.
unfoldable pub provided : String → String
provided signature =
    if has_char 61 signature then until_equals (after_equals signature) else signature

unfoldable pub same_digest : String → String → Bool
same_digest expected given =
    if given == ""
    then false
    else if not (len expected == len given)
    then false
    else expected == given

-- `hmac` gives the digest in hexadecimal of a body under an algorithm and a secret; none is a thrown
-- error, which is caught. Texts are equal where their UTF-8 is.
unfoldable pub verify_signature :
    (String → String → Buffer → Option String) → String → String → String → Buffer → Bool
verify_signature hmac algo secret signature body =
    if signature == "" || secret == "" then false else elim (hmac algo secret body) [
      | none ↦ false
      | some expected ↦ same_digest expected (provided signature)
    ]

until_equals_whole : (s : String) → has_char 61 s ≡ false → until_equals s ≡ s
unfolding until_equals has_char
until_equals_whole [] h = refl
until_equals_whole (c ∷ s) h = ground (arith, h, until_equals_whole s)

equals-join : (t : String) → join "=" t ≡ "=" ∷ t
equals-join t = append.cons "=" [] t ∙ ap (λ u. "=" ∷ u) (append.nil t)

after_equals-join : (s t : String) → has_char 61 s ≡ false → after_equals (join s (join "=" t)) ≡ t
unfolding after_equals has_char
after_equals-join [] t h = ap after_equals (append.nil (join "=" t) ∙ equals-join t)
after_equals-join (c ∷ s) t h =
    ap after_equals (append.cons c s (join "=" t)) ∙ ground (arith, h, after_equals-join s t)

provided-plain : (s : String) → has_char 61 s ≡ false → provided s ≡ s
unfolding provided
provided-plain s h = rw h refl

has_char-prefixed : (s t : String) → has_char 61 (join s (join "=" t)) ≡ true
unfolding has_char
has_char-prefixed s t =
    has_char-append 61 s (join "=" t) ∙ ground (arith, ap (has_char 61) (equals-join t))

has_char-empty : has_char 61 "" ≢ true
unfolding has_char
has_char-empty e = false≢true e

provided-prefixed :
    (s t : String)
    → has_char 61 s ≡ false
    → has_char 61 t ≡ false
    → provided (join s (join "=" t)) ≡ t
unfolding provided
provided-prefixed s t h k =
    rw (has_char-prefixed s t, after_equals-join s t h) (until_equals_whole t k)

same_digest_iff :
    (expected given : String)
    → expected ≢ ""
    → (same_digest expected given ≡ true) ↔ (given ≡ expected)
unfolding same_digest
same_digest_iff expected given some_digest = (
  λ e. ground (arith, e, eq_iff expected given),
  λ same.
      subst (λ t. same_digest expected t ≡ true) (sym same)
        (ground (arith, some_digest, eq_iff expected "", eq_iff expected expected)),
)

module _ (hmac : String → String → Buffer → Option String) where
  verify_provided :
      (algo secret signature digest : String) (body : Buffer)
      → hmac algo secret body ≡ some digest
      → digest ≢ ""
      → secret ≢ ""
      → (signature ≡ "" → provided signature ≢ digest)
      → (verify_signature hmac algo secret signature body ≡ true) ↔ (provided signature ≡ digest)
  unfolding verify_signature
  verify_provided algo secret signature digest body sealed some_digest some_secret empty =
      rw sealed (
        ground (
          arith,
          eq_iff signature "",
          eq_iff secret "",
          same_digest_iff digest (provided signature) some_digest,
          some_secret,
          empty,
        ))

  -- Where the secret is not empty and the digest of the body is neither empty nor has an '=', as no
  -- hexadecimal text has: a text without '=' is accepted as the signature, alone or after
  -- "<prefix>=", exactly if it is the digest.
  pub verify_signature_iff :
      (algo secret prefix given digest : String) (body : Buffer)
      → hmac algo secret body ≡ some digest
      → digest ≢ ""
      → secret ≢ ""
      → has_char 61 prefix ≡ false
      → has_char 61 given ≡ false
      → ((verify_signature hmac algo secret given body ≡ true) ↔ (given ≡ digest))
        × ((verify_signature hmac algo secret (join prefix (join "=" given)) body ≡ true)
            ↔ (given ≡ digest))
  verify_signature_iff algo secret prefix given digest body sealed some_digest some_secret p g = (
    subst (λ t. (verify_signature hmac algo secret given body ≡ true) ↔ (t ≡ digest))
        (provided-plain given g)
        (verify_provided algo secret given digest body sealed some_digest some_secret λ e.
          subst (λ t. t ≢ digest) (sym (provided-plain given g))
            (subst (λ t. t ≢ digest) (sym e) (λ d. some_digest (sym d)))),
    subst
        (λ t.
          (verify_signature hmac algo secret (join prefix (join "=" given)) body ≡ true)
          ↔ (t ≡ digest))
        (provided-prefixed prefix given p g)
        (verify_provided algo secret (join prefix (join "=" given)) digest body sealed some_digest
          some_secret
          λ e. absurd (has_char-empty (ap (has_char 61) (sym e) ∙ has_char-prefixed prefix given))),
  )
