-- ===== src/Crypto.antt =====
-- The encryption and hashing of phone numbers, src/utils/crypto.ts.
--
-- A text is the list of its UTF-8 bytes. What Node's `crypto` does is a parameter; `Laws` states
-- what its documentation says of AES-256-GCM.
pub mod RoundTrip
mod Tests
use relavoi_backend.Base.{
  ℕ, ◌+◌, ◌≡◌, String, List, [], ◌∷◌, ◌++◌, Option, none, some, length, take, drop, ltb,
  if◌then◌else◌,
}

abbrev pub Phone : Type 0
Phone = List ℕ

abbrev pub Buffer : Type 0
Buffer = List ℕ

pub record NodeCrypto : Type 0 where
  pub pbkdf2 : String → Buffer  -- the key of a tenant, from the master key in the environment
  pub cipher : Buffer → Buffer → Buffer → Buffer × Buffer  -- key, IV, text: ciphertext and tag
  pub decipher : Buffer → Buffer → Buffer → Buffer → Option Buffer  -- key, IV, tag, ciphertext
  pub hmac : String → List ℕ → String  -- key, text: the digest in hexadecimal

abbrev pub iv_len : ℕ
iv_len = 12

abbrev pub tag_len : ℕ
tag_len = 16

-- GCM keeps the length of the text, makes tags of 16 bytes, and opens what it sealed.
pub record Laws (c : NodeCrypto) : Type 0 where
  pub length_text : (key iv text : Buffer) → length (c.cipher key iv text).0 ≡ length text
  pub length_tag : (key iv text : Buffer) → length (c.cipher key iv text).1 ≡ tag_len
  pub opens :
      (key iv text : Buffer)
      → c.decipher key iv (c.cipher key iv text).1 (c.cipher key iv text).0 ≡ some text

module _ (c : NodeCrypto) where
  unfoldable pub derive_key : String → Buffer
  derive_key tenant = c.pbkdf2 tenant

  -- `[12-byte IV | 16-byte tag | ciphertext]`, with the IV that `randomBytes` gave.
  unfoldable pub encrypt_phone : Buffer → List ℕ → String → Buffer
  unfolding derive_key
  encrypt_phone iv text tenant =
      let (ciphertext, tag) = c.cipher (derive_key tenant) iv text in iv ++ (tag ++ ciphertext)

  -- `none` is a thrown error: too short a buffer, or one that does not authenticate.
  unfoldable pub decrypt_phone : Buffer → String → Option (List ℕ)
  unfolding derive_key
  decrypt_phone buf tenant =
      if ltb (length buf) (iv_len + tag_len + 1)
      then none
      else c.decipher (derive_key tenant) (take iv_len buf) (take tag_len (drop iv_len buf))
          (drop (iv_len + tag_len) buf)

  unfoldable pub hash_phone : Phone → String → String
  hash_phone phone tenant = c.hmac tenant phone
