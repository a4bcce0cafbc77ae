-- ===== src/Encryptor/Packets.antt =====
-- `send` and `recv` of cpp-source/symmetric-encryptor.cpp: a packet is the encrypted size of the
-- encrypted text, in 89 bytes, and the text. The outcomes of `write` and `read` are arguments.
pub mod Size
pub mod Laws
use libjaypea.Base.{
  ℕ, ◌+◌, ◌*◌, ◌/◌, ◌%◌, ◌^◌, Bytes, [], ◌∷◌, ◌++◌, List, Bool, true, false, not, ◌==◌, ltb,
  if◌then◌else◌, Option, none, some, length, take, c_str,
}
use libjaypea.Encryptor.Codec.{Crypto, encrypt_numbered, decrypt_numbered}

-- A `uint32_t` as the four bytes of the machine.
abbrev pub block_bytes : ℕ → Bytes
block_bytes n = (n % 256) ∷ ((n / 256) % 256) ∷ ((n / 65536) % 256) ∷ ((n / 16777216) % 256) ∷ []

abbrev pub block_size : Bytes → Option ℕ
block_size (a ∷ b ∷ c ∷ d ∷ []) = some (a + 256 * b + 65536 * c + 16777216 * d)
block_size _ = none

-- `written` has the texts that were given to `write`.
pub record Sent : Type 0 where
  pub written : List Bytes
  pub transaction : ℕ
  pub failed : Bool

-- A `write` returned the number of bytes it was given; `none` is an error.
abbrev pub wrote : Option ℕ → ℕ → Bool
wrote none n = false
wrote (some m) n = m == n

-- `c_str()` of the size is read for 89 bytes, whatever its length: `beyond` is the memory behind it.
unfoldable pub send : Crypto → Bytes → Bytes → ℕ → Option ℕ → Option ℕ → Sent
send c beyond plain transaction first second =
    let send_data = encrypt_numbered c (c_str plain) transaction in
    let size =
      take 89
        (encrypt_numbered c (block_bytes (length send_data % 2 ^ 32)) transaction ++ beyond) in
    if wrote first 89
    then record {
      written = size ∷ send_data ∷ [];
      transaction = transaction + 1;
      failed = not (wrote second (length send_data));
    }
    else record { written = size ∷ []; transaction = transaction + 1; failed = true }

-- What `read` does: `EWOULDBLOCK`, another error, or bytes.
pub data Read : Type 0 where
  blocked : Read
  failed_read : Read
  got : Bytes → Read

-- What `recv` comes to: 0, a negative number, a text for the callback, or more reads.
pub data Outcome : Type 0 where
  idle : Outcome
  stop : ℕ → Outcome
  delivered : Bytes → Outcome
  unfinished : Outcome

-- The reads that are left come last.
pub record Received : Type 0 where
  pub outcome : Outcome
  pub counter : ℕ
  pub others : List Read

abbrev pub ends : Outcome → ℕ → List Read → Received
ends o t reads = record { outcome = o; counter = t; others = reads }

abbrev opened : Option Bytes → ℕ → List Read → Received
opened none transaction reads = ends (stop 4) transaction reads
opened (some text) transaction reads = ends (delivered text) (transaction + 1) reads

-- The loop that reads the text.
unfoldable pub recv_block : Crypto → ℕ → ℕ → List Read → Received
recv_block c size transaction [] = ends unfinished transaction []
recv_block c size transaction (blocked ∷ reads) = recv_block c size transaction reads
recv_block c size transaction (failed_read ∷ reads) = ends (stop 1) transaction reads
recv_block c size transaction (got [] ∷ reads) = ends (stop 2) transaction reads
recv_block c size transaction (got (b ∷ text) ∷ reads) =
    if length (b ∷ text) == size
    then opened (decrypt_numbered c (b ∷ text) transaction) transaction reads
    else ends (stop 3) transaction reads

abbrev sized : Crypto → ℕ → ℕ → List Read → Option ℕ → Received
sized c data_length transaction reads none = ends (stop 5) transaction reads
sized c data_length transaction reads (some size) =
    if ltb size data_length
    then recv_block c size transaction reads
    else ends (stop 1) transaction reads

abbrev with_size : Crypto → ℕ → ℕ → List Read → Option Bytes → Received
with_size c data_length transaction reads none = ends (stop 4) transaction reads
with_size c data_length transaction reads (some text) =
    sized c data_length transaction reads (block_size text)

unfoldable pub recv : Crypto → ℕ → ℕ → List Read → Received
recv c data_length transaction [] = ends unfinished transaction []
recv c data_length transaction (blocked ∷ reads) = ends idle transaction reads
recv c data_length transaction (failed_read ∷ reads) = ends (stop 1) transaction reads
recv c data_length transaction (got [] ∷ reads) = ends (stop 2) transaction reads
recv c data_length transaction (got (b ∷ text) ∷ reads) =
    if length (b ∷ text) == 89
    then with_size c data_length transaction reads (decrypt_numbered c (b ∷ text) transaction)
    else ends (stop 3) transaction reads
