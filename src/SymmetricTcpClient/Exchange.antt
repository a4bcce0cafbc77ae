-- ===== src/SymmetricTcpClient/Exchange.antt =====
-- A request of cpp-source/symmetric-tcp-client.cpp and its answer.
use libjaypea.Base.{
  ℕ, suc, ◌+◌, ◌%◌, Bytes, ◌∷◌, List, true, false, ◌==◌, ==_iff, some, length, c_str, Run, done,
  ◌≡◌, refl, either_way, ◌∙◌, arith,
}
use libjaypea.Encryptor.Codec.{Crypto, IsCrypto, encrypt_numbered}
use libjaypea.Encryptor.Packets.{Read, delivered, ends, send, recv}
use libjaypea.Encryptor.Packets.Size.{IsFramed, IsSkipped}
use libjaypea.Encryptor.Packets.Laws.{Fits, sending, arriving, recv-send}
use libjaypea.SymmetricTcpClient.{packet_limit, Client, Attempt, recv_loop, communicate}

-- The writes of both texts succeed.
abbrev pub written : Crypto → Bytes → Client → Attempt
written c request s = record {
  reconnects = true;
  written_size = some 89;
  written_text = some (length (encrypt_numbered c (c_str request) s.writes));
}

sending_succeeds :
    (c : Crypto) (beyond plain : Bytes) (transaction : ℕ)
    → (sending c beyond plain transaction).failed ≡ false
unfolding send
sending_succeeds c beyond plain transaction =
    rw
      ((==_iff (length (encrypt_numbered c (c_str plain) transaction))
          (length (encrypt_numbered c (c_str plain) transaction))).1
        refl)
      refl

sending_counts :
    (c : Crypto) (beyond plain : Bytes) (transaction : ℕ)
    → (sending c beyond plain transaction).transaction ≡ transaction + 1
unfolding send
sending_counts c beyond plain transaction = refl

-- Under the laws of the ciphers, when the 24 bytes of memory that `write` reads behind the encrypted
-- size are none of the alphabet of Base64, and the encrypted answer fits the client's buffer: a
-- client whose request is written, whose server's number for the answer is the client's own, and to
-- whom the texts of the answer, which is not empty up to its first zero byte, arrive whole, returns the answer up to its first zero byte and stays in step.
pub communicate-arriving :
    (f : ℕ) (c : Crypto) (beyond request answer : Bytes) (waits : ℕ) (others : List Read)
    (attempts : List Attempt) (s : Client)
    → IsCrypto c
    → IsFramed c
    → IsSkipped beyond
    → Fits c packet_limit answer s.reads
    → (length (c_str answer) == 0) ≡ false
    → communicate
        (suc f)
        c
        beyond
        request
        (written c request s ∷ attempts)
        (arriving c beyond answer s.reads waits others)
        s
      ≡ done (
        c_str (c_str answer),
        record { connected = true; writes = s.writes + 1; reads = s.reads + 1 },
      )
unfolding communicate recv_loop
communicate-arriving f c beyond request answer waits others attempts s k framed skipped fits
      nonempty =
    let came : recv c packet_limit s.reads (arriving c beyond answer s.reads waits others)
        ≡ ends (delivered (c_str answer)) (s.reads + 1) others =
      recv-send c beyond answer s.reads s.reads waits packet_limit others k framed skipped fits
        (omega arith)
      ∙ (rw ((==_iff (s.reads % 255) (s.reads % 255)).1 refl) refl) in
    let sends = sending_succeeds c beyond request s.writes in
    let Answered : Run (Bytes × Client) → Type 0 = λ (r : Run (Bytes × Client)).
      r
      ≡ done (
        c_str (c_str answer),
        record { connected = true; writes = s.writes + 1; reads = s.reads + 1 },
      ) in
    either_way Answered s.connected
      (rw (sends, sending_counts c beyond request s.writes, came, nonempty) refl)
      (rw (sends, sending_counts c beyond request s.writes, came, nonempty) refl)
