-- ===== src/Encryptor/Packets/Size.antt =====
-- The size of a packet of cpp-source/symmetric-encryptor.cpp: 65 bytes, and the memory behind them.
use libjaypea.Base.{
  ℕ, zero, suc, ◌+◌, ◌%◌, ◌≡◌, sym, ap, ◌∙◌, Bytes, [], ◌∷◌, ◌++◌, Bool, true, not, ◌&&◌, ◌||◌,
  ◌==◌, leb, if◌then◌else◌, none, some, length, take, length-append, arith, refl,
}
use libjaypea.Encryptor.Codec.{
  Crypto, IsCrypto, encrypt, encrypt_numbered, decrypt_numbered, decrypt_numbered-encrypt_numbered,
  decrypt_numbered-unbase64,
}
use libjaypea.Encryptor.Packets.{block_bytes}

-- A byte outside the alphabet of Base64.
abbrev pub is_outside : ℕ → Bool
is_outside b = not (
    (leb b'A' b && leb b b'Z')
    || (leb b'a' b && leb b b'z')
    || (leb b'0' b && leb b b'9')
    || b == b'+'
    || b == b'/')

abbrev pub AllOutside : Bytes → Type 0
AllOutside [] = Unit
AllOutside (b ∷ r) = (is_outside b ≡ true) × AllOutside r

-- What the documentation of the ciphers says of the encrypted size: five bytes are padded to a
-- block of 16, 48 bytes are encoded in 64 and a line end, and the decoder skips the bytes outside
-- its alphabet.
pub record IsFramed (c : Crypto) : Type 0 where
  pub block : (text : Bytes) → length text ≡ 5 → length (c.cbc_encrypt text) ≡ 16
  pub encoded : (text : Bytes) → length text ≡ 48 → length (c.base64 text) ≡ 65
  pub skips :
      (text filler : Bytes) → AllOutside filler → c.unbase64 (c.base64 text ++ filler) ≡ text

-- The 24 bytes of memory that `write` reads behind the encrypted size, none of the alphabet.
abbrev pub IsSkipped : Bytes → Type 0
IsSkipped beyond = (length (take 24 beyond) ≡ 24) × AllOutside (take 24 beyond)

pub length-encrypt_numbered :
    (c : Crypto) (n transaction : ℕ)
    → IsCrypto c
    → IsFramed c
    → length (encrypt_numbered c (block_bytes n) transaction) ≡ 65
unfolding encrypt_numbered encrypt
length-encrypt_numbered c n transaction k framed =
    let encrypted = c.cbc_encrypt ((transaction % 255) ∷ block_bytes n) in
    framed.encoded (c.hmac encrypted ++ encrypted) (
      omega (
        arith,
        length-append (c.hmac encrypted) encrypted,
        k.digest_size encrypted,
        framed.block ((transaction % 255) ∷ block_bytes n) refl,
      ))

-- The encrypted size as it is written, with the memory behind it.
abbrev pub size_text : Crypto → Bytes → ℕ → ℕ → Bytes
size_text c beyond n transaction = encrypt_numbered c (block_bytes n) transaction ++ take 24 beyond

pub take-append_more : (m k : ℕ) (s t : Bytes) → length s + k ≡ m → take m (s ++ t) ≡ s ++ take k t
take-append_more m k [] t h = ap (λ (n : ℕ). take n t) (omega arith)
take-append_more zero k (b ∷ s) t h = absurd (omega arith)
take-append_more (suc m) k (b ∷ s) t h = ap (◌∷◌ b) (take-append_more m k s t (omega arith))

pub length-size_text :
    (c : Crypto) (beyond : Bytes) (n transaction : ℕ)
    → IsCrypto c
    → IsFramed c
    → IsSkipped beyond
    → length (size_text c beyond n transaction) ≡ 89
length-size_text c beyond n transaction k framed (full, outside) = omega (
  arith,
  length-append (encrypt_numbered c (block_bytes n) transaction) (take 24 beyond),
  length-encrypt_numbered c n transaction k framed,
  full,
)

unbase64-size_text :
    (c : Crypto) (beyond : Bytes) (n sent : ℕ)
    → IsCrypto c
    → IsFramed c
    → IsSkipped beyond
    → c.unbase64 (size_text c beyond n sent) ≡ c.unbase64 (encrypt_numbered c (block_bytes n) sent)
unfolding encrypt_numbered encrypt
unbase64-size_text c beyond n sent k framed (full, outside) =
    let encrypted = c.cbc_encrypt ((sent % 255) ∷ block_bytes n) in
    framed.skips (c.hmac encrypted ++ encrypted) (take 24 beyond) outside
    ∙ sym (k.decodes (c.hmac encrypted ++ encrypted))

-- The bytes behind an encrypted size do not change what it is decrypted to.
pub decrypt_numbered-size_text :
    (c : Crypto) (beyond : Bytes) (n sent expected : ℕ)
    → IsCrypto c
    → IsFramed c
    → IsSkipped beyond
    → decrypt_numbered c (size_text c beyond n sent) expected
      ≡ (if (sent % 255) == (expected % 255) then some (block_bytes n) else none)
decrypt_numbered-size_text c beyond n sent expected k framed (full, outside) =
    decrypt_numbered-unbase64 c (size_text c beyond n sent)
      (encrypt_numbered c (block_bytes n) sent) expected
      (unbase64-size_text c beyond n sent k framed (full, outside))
    ∙ decrypt_numbered-encrypt_numbered c (block_bytes n) sent expected k
