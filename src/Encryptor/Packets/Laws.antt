-- ===== src/Encryptor/Packets/Laws.antt =====
-- What `recv` makes of the packets of `send`: the texts in order, once per number.
use libjaypea.Base.{
  ℕ, zero, suc, ◌+◌, ◌%◌, ◌^◌, ◌≤◌, ◌<◌, ◌≡◌, refl, ap, ◌∙◌, Bytes, [], ◌∷◌, ◌++◌, List, Bool-cases,
  ◌==◌, ==_iff, ltb_iff, if◌then◌else◌, some, length, replicate, map, c_str, arith, inl, inr,
}
use libjaypea.Encryptor.Codec.{
  Crypto, IsCrypto, encrypt_numbered, decrypt_numbered, decrypt_numbered-encrypt_numbered,
}
use libjaypea.Encryptor.Packets.Size.{
  IsFramed, IsSkipped, size_text, length-encrypt_numbered, take-append_more, length-size_text,
  decrypt_numbered-size_text,
}
use libjaypea.Encryptor.Packets.{
  block_bytes, block_size, Sent, send, Read, blocked, got, Outcome, stop, delivered, ends, recv,
  recv_block, with_size, sized, opened,
}

-- The encrypted text is not empty and fits the receiver's buffer.
abbrev pub Fits : Crypto → ℕ → Bytes → ℕ → Type 0
Fits c data_length plain transaction =
    (0 < length (encrypt_numbered c (c_str plain) transaction))
    × (length (encrypt_numbered c (c_str plain) transaction) < data_length)

-- The reads of a receiver that gets both texts of a packet whole, the second after some waiting.
abbrev pub arrival : ℕ → List Bytes → List Read → List Read
arrival waits (size ∷ text ∷ []) others = got size ∷ (replicate waits blocked ++ got text ∷ others)
arrival waits _ others = others

block_size-block_bytes : (n : ℕ) → n < 2 ^ 32 → block_size (block_bytes (n % 2 ^ 32)) ≡ some n
block_size-block_bytes n l = ap some (omega arith)

with_size-block_bytes :
    (c : Crypto) (limit transaction n : ℕ) (reads : List Read)
    → n < 2 ^ 32
    → n < limit
    → with_size c limit transaction reads (some (block_bytes (n % 2 ^ 32)))
      ≡ recv_block c n transaction reads
with_size-block_bytes c limit transaction n reads l room =
    ap (sized c limit transaction reads) (block_size-block_bytes n l)
    ∙ (rw ((ltb_iff n limit).1 room) refl)

recv_block_waits :
    (c : Crypto) (size transaction waits : ℕ) (reads : List Read)
    → recv_block c size transaction (replicate waits blocked ++ reads)
      ≡ recv_block c size transaction reads
unfolding recv_block
recv_block_waits c size transaction zero reads = refl
recv_block_waits c size transaction (suc waits) reads =
    recv_block_waits c size transaction waits reads

recv_block-got :
    (c : Crypto) (text : Bytes) (transaction : ℕ) (others : List Read)
    → 0 < length text
    → recv_block c (length text) transaction (got text ∷ others)
      ≡ opened (decrypt_numbered c text transaction) transaction others
unfolding recv_block
recv_block-got c [] transaction others l = absurd (omega arith)
recv_block-got c (b ∷ text) transaction others l =
    rw ((==_iff (length (b ∷ text)) (length (b ∷ text))).1 refl) refl

recv-got :
    (c : Crypto) (plain_length : ℕ) (text : Bytes) (transaction : ℕ) (others : List Read)
    → length text ≡ 89
    → recv c plain_length transaction (got text ∷ others)
      ≡ with_size c plain_length transaction others (decrypt_numbered c text transaction)
unfolding recv
recv-got c plain_length [] transaction others l = absurd (omega arith)
recv-got c plain_length (b ∷ text) transaction others l =
    rw ((==_iff (length (b ∷ text)) 89).1 l) refl

-- A call of `send` both of whose writes succeed.
abbrev pub sending : Crypto → Bytes → Bytes → ℕ → Sent
sending c beyond plain transaction =
    send c beyond plain transaction (some 89)
      (some (length (encrypt_numbered c (c_str plain) transaction)))

send-written :
    (c : Crypto) (beyond plain : Bytes) (transaction : ℕ)
    → IsCrypto c
    → IsFramed c
    → (sending c beyond plain transaction).written
      ≡ size_text c beyond
          (length (encrypt_numbered c (c_str plain) transaction) % 2 ^ 32)
          transaction
        ∷ encrypt_numbered c (c_str plain) transaction
        ∷ []
unfolding send
send-written c beyond plain transaction k framed =
    let text = encrypt_numbered c (c_str plain) transaction in
    let size = encrypt_numbered c (block_bytes (length text % 2 ^ 32)) transaction in
    let all : length size + 24 ≡ 89 =
      omega (arith, length-encrypt_numbered c (length text % 2 ^ 32) transaction k framed) in
    ap (λ (t : Bytes). t ∷ text ∷ []) (take-append_more 89 24 size beyond all)

-- The reads of a packet that `send` made, and whose texts arrive whole, the second one after some
-- waiting.
abbrev pub arriving : Crypto → Bytes → Bytes → ℕ → ℕ → List Read → List Read
arriving c beyond plain transaction waits others =
    arrival waits (sending c beyond plain transaction).written others

-- Under the laws of the ciphers, when the 24 bytes of memory that `write` reads behind the encrypted
-- size are none of the alphabet of Base64, the writes succeed and the texts arrive whole, and the
-- encrypted text is not empty and fits the receiver's buffer of at most 2 ^ 32 bytes:
-- a packet of `send` under one number, read by a receiver that expects another: the text up to
-- its first zero byte is delivered and the number moves on when the two agree modulo 255, and
-- otherwise the receiver stops with -4 and keeps its number, with the second text unread.
pub recv-send :
    (c : Crypto) (beyond plain : Bytes) (sent expected waits limit : ℕ) (others : List Read)
    → IsCrypto c
    → IsFramed c
    → IsSkipped beyond
    → Fits c limit plain sent
    → limit ≤ 2 ^ 32
    → recv c limit expected (arriving c beyond plain sent waits others) ≡ (
        if (sent % 255) == (expected % 255)
        then ends (delivered (c_str plain)) (expected + 1) others
        else ends
            (stop 4)
            expected
            (replicate waits blocked ++ got (encrypt_numbered c (c_str plain) sent) ∷ others))
recv-send c beyond plain sent expected waits limit others k framed skipped (full, fits) small =
    let text = encrypt_numbered c (c_str plain) sent in
    rw
      (
        send-written c beyond plain sent k framed,
        recv-got c limit (size_text c beyond (length text % 2 ^ 32) sent) expected
            (replicate waits blocked ++ got text ∷ others)
            (length-size_text c beyond (length text % 2 ^ 32) sent k framed skipped),
        decrypt_numbered-size_text c beyond (length text % 2 ^ 32) sent expected k framed skipped,
      )
      (elim (Bool-cases ((sent % 255) == (expected % 255))) [
        | inl same ↦
            rw
              (
                same,
                with_size-block_bytes c limit expected (length text)
                    (replicate waits blocked ++ got text ∷ others) (omega arith) fits,
                recv_block_waits c (length text) expected waits (got text ∷ others),
                recv_block-got c text expected others full,
                decrypt_numbered-encrypt_numbered c (c_str plain) sent expected k,
                same,
              )
              refl
        | inr other ↦ rw other refl
      ])

-- The reads of a receiver to whom the texts of a sender arrive, in order; each text comes with the
-- number of times that its read finds nothing.
unfoldable pub arrivals : Crypto → Bytes → ℕ → List (Bytes × ℕ) → List Read
arrivals c beyond transaction [] = []
arrivals c beyond transaction ((plain, waits) ∷ schedule) =
    arriving c beyond plain transaction waits
      (arrivals c beyond (sending c beyond plain transaction).transaction schedule)

-- So many calls of `recv`, one after the other: their outcomes and the number at their end.
unfoldable pub recv_each : ℕ → Crypto → ℕ → ℕ → List Read → List Outcome × ℕ
recv_each zero c limit transaction reads = ([], transaction)
recv_each (suc n) c limit transaction reads =
    let r = recv c limit transaction reads in
    let (outcomes, end) = recv_each n c limit r.counter r.others in (r.outcome ∷ outcomes, end)

abbrev pub AllFit : Crypto → ℕ → List (Bytes × ℕ) → ℕ → Type 0
AllFit c limit [] transaction = Unit
AllFit c limit ((plain, waits) ∷ schedule) transaction =
    Fits c limit plain transaction × AllFit c limit schedule (transaction + 1)

recv-sending :
    (c : Crypto) (beyond plain : Bytes) (transaction waits limit : ℕ) (others : List Read)
    → IsCrypto c
    → IsFramed c
    → IsSkipped beyond
    → Fits c limit plain transaction
    → limit ≤ 2 ^ 32
    → recv c limit transaction (arriving c beyond plain transaction waits others)
      ≡ ends (delivered (c_str plain)) (transaction + 1) others
recv-sending c beyond plain transaction waits limit others k framed skipped fits small =
    recv-send c beyond plain transaction transaction waits limit others k framed skipped fits small
    ∙ (rw ((==_iff (transaction % 255) (transaction % 255)).1 refl) refl)

-- Under the conditions of `recv-send`, for every encrypted text:
-- however many texts are sent, a receiver that starts at the sender's number delivers each of them
-- up to its first zero byte, in order, and ends at the sender's last number.
pub recv_each-arrivals :
    (c : Crypto) (beyond : Bytes) (transaction limit : ℕ) (schedule : List (Bytes × ℕ))
    → IsCrypto c
    → IsFramed c
    → IsSkipped beyond
    → AllFit c limit schedule transaction
    → limit ≤ 2 ^ 32
    → recv_each (length schedule) c limit transaction (arrivals c beyond transaction schedule)
      ≡ (map (λ (m : Bytes × ℕ). delivered (c_str m.0)) schedule, transaction + length schedule)
unfolding recv_each arrivals send
recv_each-arrivals c beyond transaction limit [] k framed skipped fits small =
    ap (λ (t : ℕ). ([], t)) (omega arith)
recv_each-arrivals c beyond transaction limit ((plain, waits) ∷ schedule) k framed skipped
      (fit, fits) small =
    rw
      (
        recv-sending c beyond plain transaction waits limit
            (arrivals c beyond (transaction + 1) schedule) k framed skipped fit small,
        recv_each-arrivals c beyond (transaction + 1) limit schedule k framed skipped fits small,
      )
      (ap
        (λ (t : ℕ). (map (λ (m : Bytes × ℕ). delivered (c_str m.0)) ((plain, waits) ∷ schedule), t))
        (omega arith))
