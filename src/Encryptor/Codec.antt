-- ===== src/Encryptor/Codec.antt =====
-- `encrypt` and `decrypt` of cpp-source/symmetric-encryptor.cpp, plain and numbered.
use libjaypea.Base.{
  ℕ, ◌%◌, ◌≡◌, refl, Bytes, [], ◌∷◌, ◌++◌, Bool, true, false, ◌==◌, ltb, if◌then◌else◌, Option,
  none, some, length, take, drop, take-append, drop-append, length-append, sym, arith,
}

-- The filters of Crypto++ under the encryptor's keys: AES in CBC mode, the SHA256 HMAC with its
-- verification, and base 64.
pub record Crypto : Type 0 where
  pub cbc_encrypt : Bytes → Bytes
  pub cbc_decrypt : Bytes → Option Bytes
  pub hmac : Bytes → Bytes
  pub verified : Bytes → Bytes → Bool
  pub base64 : Bytes → Bytes
  pub unbase64 : Bytes → Bytes

-- What their documentation says of them.
pub record IsCrypto (c : Crypto) : Type 0 where
  pub decrypts : (text : Bytes) → c.cbc_decrypt (c.cbc_encrypt text) ≡ some text
  pub digest_size : (text : Bytes) → length (c.hmac text) ≡ 32
  pub verifies : (text : Bytes) → c.verified (c.hmac text) text ≡ true
  pub decodes : (text : Bytes) → c.unbase64 (c.base64 text) ≡ text

unfoldable pub encrypt : Crypto → Bytes → Bytes
encrypt c text = let encrypted = c.cbc_encrypt text in c.base64 (c.hmac encrypted ++ encrypted)

-- `substr(32)` throws on a shorter text.
unfoldable pub decrypt : Crypto → Bytes → Option Bytes
decrypt c text =
    let encrypted = c.unbase64 text in
    if ltb (length encrypted) 32
    then none
    else if c.verified (take 32 encrypted) (drop 32 encrypted)
    then c.cbc_decrypt (drop 32 encrypted)
    else none

unfoldable pub encrypt_numbered : Crypto → Bytes → ℕ → Bytes
encrypt_numbered c text transaction = encrypt c ((transaction % 255) ∷ text)

-- The first byte of a text, 0 for none, is compared and erased.
abbrev first_of : Bytes → ℕ
first_of [] = 0
first_of (b ∷ r) = b

abbrev numbered : Option Bytes → ℕ → Option Bytes
numbered none transaction = none
numbered (some text) transaction =
    if first_of text == (transaction % 255) then some (drop 1 text) else none

unfoldable pub decrypt_numbered : Crypto → Bytes → ℕ → Option Bytes
decrypt_numbered c text transaction = numbered (decrypt c text) transaction

pub decrypt-encrypt :
    (c : Crypto) (text : Bytes) → IsCrypto c → decrypt c (encrypt c text) ≡ some text
unfolding decrypt encrypt
decrypt-encrypt c text k =
    let e = c.cbc_encrypt text in
    let l = sym (k.digest_size e) in
    let long : ltb (length (c.hmac e ++ e)) 32 ≡ false =
      ground (arith, length-append (c.hmac e) e) in
    rw
      (
        k.decodes (c.hmac e ++ e),
        long,
        take-append 32 (c.hmac e) e l,
        drop-append 32 (c.hmac e) e l,
        k.verifies e,
      )
      (k.decrypts text)

-- Under the laws of the ciphers, a text that was encrypted under one number is decrypted under the numbers that are the same
-- modulo 255, and refused under every other.
pub decrypt_numbered-encrypt_numbered :
    (c : Crypto) (text : Bytes) (sent expected : ℕ)
    → IsCrypto c
    → decrypt_numbered c (encrypt_numbered c text sent) expected
      ≡ (if (sent % 255) == (expected % 255) then some text else none)
unfolding decrypt_numbered encrypt_numbered
decrypt_numbered-encrypt_numbered c text sent expected k =
    rw (decrypt-encrypt c ((sent % 255) ∷ text) k) refl

-- What a text is decrypted to depends on what it is decoded to only.
pub decrypt_numbered-unbase64 :
    (c : Crypto) (s t : Bytes) (transaction : ℕ)
    → c.unbase64 s ≡ c.unbase64 t
    → decrypt_numbered c s transaction ≡ decrypt_numbered c t transaction
unfolding decrypt_numbered decrypt
decrypt_numbered-unbase64 c s t transaction h = rw h refl
