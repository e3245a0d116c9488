-- ===== src/Crypto/RoundTrip.antt =====
-- Decryption of what was encrypted.
use relavoi_backend.Base.{
  ◌+◌, ◌≡◌, String, ◌++◌, none, some, length, take, drop, ltb, if◌then◌else◌, arith, length-append,
  take-append, drop-append,
}
use mathlib.Core.List.{append_assoc}
use relavoi_backend.Crypto.{Buffer, NodeCrypto, Laws, iv_len, tag_len, encrypt_phone, decrypt_phone}

module _ (c : NodeCrypto) (laws : Laws c) where
  length-encrypt_phone :
      (iv text : Buffer) (tenant : String)
      → length (encrypt_phone c iv text tenant) ≡ length iv + tag_len + length text
  unfolding encrypt_phone
  length-encrypt_phone iv text tenant =
      let key = c.pbkdf2 tenant in
      let ct = (c.cipher key iv text).0 in
      let tag = (c.cipher key iv text).1 in
      omega (
        arith,
        length-append iv (tag ++ ct),
        length-append tag ct,
        laws.length_tag key iv text,
        laws.length_text key iv text,
      )

  -- The three parts that `decryptPhone` cuts a buffer into.
  parts :
      (iv tag ct : Buffer)
      → length iv ≡ iv_len
      → length tag ≡ tag_len
      → (take iv_len (iv ++ (tag ++ ct)) ≡ iv)
        × (take tag_len (drop iv_len (iv ++ (tag ++ ct))) ≡ tag)
        × (drop (iv_len + tag_len) (iv ++ (tag ++ ct)) ≡ ct)
  parts iv tag ct h k = (
    take-append iv_len iv (tag ++ ct) h,
    rw (drop-append iv_len iv (tag ++ ct) h) (take-append tag_len tag ct k),
    rw (← append_assoc iv tag ct)
        (drop-append (iv_len + tag_len) (iv ++ tag) ct (omega (arith, length-append iv tag))),
  )

  deciphers :
      (iv text : Buffer) (tenant : String)
      → length iv ≡ iv_len
      → let buf = encrypt_phone c iv text tenant in
        c.decipher
          (c.pbkdf2 tenant)
          (take iv_len buf)
          (take tag_len (drop iv_len buf))
          (drop (iv_len + tag_len) buf)
        ≡ some text
  unfolding encrypt_phone
  deciphers iv text tenant h =
      let key = c.pbkdf2 tenant in
      let (one, two, three) =
        parts iv (c.cipher key iv text).1 (c.cipher key iv text).0 h
          (laws.length_tag key iv text) in
      rw (one, two, three) (laws.opens key iv text)

  -- For every tenant and every IV of 12 bytes, decryption gives back exactly the texts that are not
  -- empty: of the encryption of the empty text it throws, since it wants a byte of ciphertext.
  pub decrypt_phone-encrypt_phone :
      (iv text : Buffer) (tenant : String)
      → length iv ≡ iv_len
      → decrypt_phone c (encrypt_phone c iv text tenant) tenant
        ≡ (if ltb 0 (length text) then some text else none)
  unfolding decrypt_phone
  decrypt_phone-encrypt_phone iv text tenant h =
      ground (arith, length-encrypt_phone iv text tenant, deciphers iv text tenant h)
