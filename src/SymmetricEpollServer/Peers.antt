-- ===== src/SymmetricEpollServer/Peers.antt =====
-- What the clients of cpp-source/symmetric-epoll-server.cpp read of a server that sends to many.
use libjaypea.Base.{
  ℕ, ◌+◌, ◌≤◌, ◌^◌, Bytes, [], ◌∷◌, List, map, false, ◌==◌, ==_iff, if◌then◌else◌, some, length,
  c_str, ◌≡◌, refl, ap, ◌∙◌, inl, inr, Bool-cases,
}
use libjaypea.Base.Tables.{find, find-set_same, find-set_other}
use libjaypea.EpollServer.Clients.{value}
use libjaypea.Encryptor.Codec.{Crypto, IsCrypto, encrypt_numbered}
use libjaypea.Encryptor.Packets.{Sent, Read, delivered}
use libjaypea.Encryptor.Packets.Size.{IsFramed, IsSkipped}
use libjaypea.Encryptor.Packets.Laws.{
  AllFit, arrival, sending, arrivals, recv_each, recv_each-arrivals,
}
use libjaypea.SymmetricEpollServer.{Counters, send}

-- A message to a connection, and how often its receiver waits for the text.
abbrev pub Message : Type 0
Message = ℕ × (Bytes × ℕ)

-- A `send` whose writes succeed.
abbrev pub deliver : Crypto → Bytes → ℕ → Bytes → Counters → Sent × Counters
deliver c beyond fd plain s =
    send c beyond fd plain (some 89)
      (some (length (encrypt_numbered c (c_str plain) (value (find fd s.write_counter))))) s

-- What comes to one connection when the messages are sent in turn.
unfoldable pub incoming : Crypto → Bytes → ℕ → List Message → Counters → List Read
incoming c beyond fd [] s = []
incoming c beyond fd ((to, (plain, waits)) ∷ messages) s =
    let result = deliver c beyond to plain s in
    let others = incoming c beyond fd messages result.1 in
    if to == fd then arrival waits result.0.written others else others

unfoldable pub addressed : ℕ → List Message → List (Bytes × ℕ)
addressed fd [] = []
addressed fd ((to, message) ∷ messages) =
    if to == fd then message ∷ addressed fd messages else addressed fd messages

-- The number of a connection moves on with a packet to it, and with no other.
counter_same :
    (c : Crypto) (beyond : Bytes) (fd : ℕ) (plain : Bytes) (s : Counters)
    → value (find fd (deliver c beyond fd plain s).1.write_counter)
      ≡ (sending c beyond plain (value (find fd s.write_counter))).transaction
unfolding send
counter_same c beyond fd plain s = ap value (
    find-set_same fd (sending c beyond plain (value (find fd s.write_counter))).transaction
      s.write_counter)

counter_other :
    (c : Crypto) (beyond : Bytes) (to fd : ℕ) (plain : Bytes) (s : Counters)
    → (to == fd) ≡ false
    → value (find fd (deliver c beyond to plain s).1.write_counter)
      ≡ value (find fd s.write_counter)
unfolding send
counter_other c beyond to fd plain s apart = ap value (
    find-set_other to fd (sending c beyond plain (value (find to s.write_counter))).transaction
      s.write_counter apart)

written_same :
    (c : Crypto) (beyond : Bytes) (fd : ℕ) (plain : Bytes) (s : Counters)
    → (deliver c beyond fd plain s).0.written
      ≡ (sending c beyond plain (value (find fd s.write_counter))).written
unfolding send
written_same c beyond fd plain s = refl

incoming-arrivals :
    (c : Crypto) (beyond : Bytes) (fd : ℕ) (messages : List Message) (s : Counters)
    → incoming c beyond fd messages s
      ≡ arrivals c beyond (value (find fd s.write_counter)) (addressed fd messages)
unfolding incoming addressed arrivals
incoming-arrivals c beyond fd [] s = refl
incoming-arrivals c beyond fd ((to, (plain, waits)) ∷ messages) s = elim (Bool-cases (to == fd)) [
  | inl same ↦
      let number = value (find fd s.write_counter) in
      let there : to ≡ fd = (==_iff to fd).0 same in
      let sent = λ (t : ℕ).
        arrival waits (deliver c beyond t plain s).0.written
          (incoming c beyond fd messages (deliver c beyond t plain s).1) in
      rw same (
        ap sent there
        ∙ (ap
              (λ (w : List Bytes).
                arrival waits w (incoming c beyond fd messages (deliver c beyond fd plain s).1))
              (written_same c beyond fd plain s)
            ∙ ap (arrival waits (sending c beyond plain number).written) (
                incoming-arrivals c beyond fd messages (deliver c beyond fd plain s).1
                ∙ ap (λ (n : ℕ). arrivals c beyond n (addressed fd messages))
                    (counter_same c beyond fd plain s))))
  | inr other ↦ rw other (
      incoming-arrivals c beyond fd messages (deliver c beyond to plain s).1
      ∙ ap (λ (n : ℕ). arrivals c beyond n (addressed fd messages))
          (counter_other c beyond to fd plain s other))
]

-- Under the laws of the ciphers, when the 24 bytes of memory that `write` reads behind an encrypted
-- size are none of the alphabet of Base64, the writes succeed and the texts arrive whole, and the
-- encrypted texts are not empty and fit the receiver's buffer of at most 2 ^ 32 bytes: however a server mixes its messages to several
-- connections, a client that starts at the number of its connection reads exactly the messages to
-- it, in their order.
pub recv_each-incoming :
    (c : Crypto) (beyond : Bytes) (fd limit : ℕ) (messages : List Message) (s : Counters)
    → IsCrypto c
    → IsFramed c
    → IsSkipped beyond
    → AllFit c limit (addressed fd messages) (value (find fd s.write_counter))
    → limit ≤ 2 ^ 32
    → recv_each
        (length (addressed fd messages))
        c
        limit
        (value (find fd s.write_counter))
        (incoming c beyond fd messages s)
      ≡ (
        map (λ (m : Bytes × ℕ). delivered (c_str m.0)) (addressed fd messages),
        value (find fd s.write_counter) + length (addressed fd messages),
      )
recv_each-incoming c beyond fd limit messages s k framed skipped fits small =
    ap (recv_each (length (addressed fd messages)) c limit (value (find fd s.write_counter)))
      (incoming-arrivals c beyond fd messages s)
    ∙ recv_each-arrivals c beyond (value (find fd s.write_counter)) limit (addressed fd messages) k
        framed skipped fits small
