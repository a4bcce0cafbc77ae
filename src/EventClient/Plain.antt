-- ===== src/EventClient/Plain.antt =====
-- `send` and `recv` of cpp-source/tcp-event-client.cpp, and those of the encrypted client in
-- cpp-source/symmetric-event-client.cpp, which counts the packets of each connection.
use libjaypea.Base.{ℕ, ◌+◌, Bytes, [], ◌∷◌, List, Bool, true, false, Option, none, some}
use libjaypea.Base.Tables.{find, set}
use libjaypea.EpollServer.Clients.{value}
use libjaypea.Encryptor.Codec.{Crypto}
use libjaypea.Encryptor.Packets.{Sent, Read, blocked, failed_read, got, Received}
use libjaypea.Encryptor.Packets
use libjaypea.EventClient.{Sockets}

module _ {ℓ} {U : Type ℓ} where
  -- `none`: the write fails. The flag is `true` then.
  abbrev pub send : ℕ → Option ℕ → Sockets U → Bool × Sockets U
  send fd none s = (true, s)
  send fd (some written) s = (
    false,
    record s { write_counter = set fd (value (find fd s.write_counter) + 1) s.write_counter },
  )

  -- One read, with the callback that gets its bytes; `true` for a negative number. The zero that
  -- is written behind the bytes is not modelled. Without an answer there is nothing to read.
  abbrev pub recv :
      (ℕ → Bytes → Sockets U → Bool × Sockets U) → ℕ → List Read → Sockets U → Bool × Sockets U
  recv on_read fd [] s = (false, s)
  recv on_read fd (blocked ∷ reads) s = (false, s)
  recv on_read fd (failed_read ∷ reads) s = (true, s)
  recv on_read fd (got [] ∷ reads) s = (true, s)
  recv on_read fd (got (b ∷ data_read) ∷ reads) s = on_read fd (b ∷ data_read) s

  abbrev pub send_encrypted :
      Crypto → Bytes → ℕ → Bytes → Option ℕ → Option ℕ → Sockets U → Sent × Sockets U
  send_encrypted c beyond fd plain written_size written_text s =
      let sent =
        Packets.send c beyond plain (value (find fd s.write_counter)) written_size written_text in
      (sent, record s { write_counter = set fd sent.transaction s.write_counter })

  abbrev pub recv_encrypted : Crypto → ℕ → ℕ → List Read → Sockets U → Received × Sockets U
  recv_encrypted c limit fd reads s =
      let r = Packets.recv c limit (value (find fd s.read_counter)) reads in
      (r, record s { read_counter = set fd r.counter s.read_counter })
