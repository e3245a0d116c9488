-- ===== src/Crypto/Tests.antt =====
-- A round trip at a concrete input.
use relavoi_backend.Base.{◌≡◌, refl, none, some, ltb, length, if◌then◌else◌, replicate}
use relavoi_backend.Crypto.{Laws, encrypt_phone, decrypt_phone}
use relavoi_backend.Crypto.RoundTrip.{decrypt_phone-encrypt_phone}
use relavoi_backend.Examples.{agent, plain}

plain-Laws : Laws plain
plain-Laws = record {
  length_text = λ key iv text. refl;
  length_tag = λ key iv text. refl;
  opens = λ key iv text. refl;
}

decrypt_phone-encrypt_phone_example :
    decrypt_phone plain (encrypt_phone plain (replicate 12 7) agent "t1") "t1"
    ≡ (if ltb 0 (length agent) then some agent else none)
decrypt_phone-encrypt_phone_example =
    decrypt_phone-encrypt_phone plain plain-Laws (replicate 12 7) agent "t1" refl
