-- ===== src/SymmetricEpollServer.antt =====
-- `SymmetricEpollServer` of cpp-source/symmetric-epoll-server.cpp: a server whose connections each
-- have their own numbers of packets.
pub mod Peers
use libjaypea.Base.{ℕ, ◌+◌, Bytes, List, Bool, if◌then◌else◌, Option, length}
use libjaypea.Base.Tables.{Table, find, set}
use libjaypea.EpollServer.Clients.{value}
use libjaypea.TlsEpollServer.Calls.{Ssize, plus, minus}
use libjaypea.Encryptor.Codec.{Crypto}
use libjaypea.Encryptor.Packets.{Sent, Read, Received}
use libjaypea.Encryptor.Packets

pub record Counters : Type 0 where
  pub read_counter : Table ℕ
  pub write_counter : Table ℕ

-- `send` of the class: the packet, with its failure, and the counters. The counter of a connection
-- is read by `operator[]`.
unfoldable pub send : Crypto → Bytes → ℕ → Bytes → Option ℕ → Option ℕ → Counters → Sent × Counters
send c beyond fd plain written_size written_text s =
    let sent =
      Packets.send c beyond plain (value (find fd s.write_counter)) written_size written_text in
    (sent, record s { write_counter = set fd sent.transaction s.write_counter })

-- The other `send`: the length of the text, or -1.
abbrev pub send_text :
    Crypto → Bytes → ℕ → Bytes → Option ℕ → Option ℕ → Counters → Ssize × Counters
send_text c beyond fd plain written_size written_text s =
    let result = send c beyond fd plain written_size written_text s in
    (if result.0.failed then minus 1 else plus (length plain), result.1)

unfoldable pub recv : Crypto → ℕ → ℕ → List Read → Counters → Received × Counters
recv c limit fd reads s =
    let r = Packets.recv c limit (value (find fd s.read_counter)) reads in
    (r, record s { read_counter = set fd r.counter s.read_counter })
