-- ===== src/SymmetricTcpClient.antt =====
-- `SymmetricTcpClient::communicate` of cpp-source/symmetric-tcp-client.cpp. The outcomes of
-- connecting, writing and reading are arguments.
pub mod Exchange
use libjaypea.Base.{
  ℕ, zero, suc, Bytes, [], ◌∷◌, List, Bool, true, false, ◌==◌, if◌then◌else◌, Option, length, c_str,
  Run, done, out_of_fuel,
}
use libjaypea.Encryptor.Codec.{Crypto}
use libjaypea.Encryptor.Packets.{
  Read, send, Received, Outcome, idle, stop, delivered, unfinished, recv,
}

abbrev pub packet_limit : ℕ
packet_limit = 16384

pub record Client : Type 0 where
  pub connected : Bool
  pub writes : ℕ
  pub reads : ℕ

-- One round of `communicate`: the result of `reconnect`, if it is called, and of the two writes.
pub record Attempt : Type 0 where
  pub reconnects : Bool
  pub written_size : Option ℕ
  pub written_text : Option ℕ

abbrev pub close_client : Client → Client
close_client s = record { connected = false; writes = 0; reads = 0 }

-- What follows a `recv`, whose callback keeps the text and returns its length: the next round, or
-- the end.
abbrev pub after_recv :
    Bytes → Outcome → Client → (Bytes → Run (Bytes × Client)) → Run (Bytes × Client)
after_recv response_string idle s again = again response_string
after_recv response_string (stop n) s again = done (response_string, close_client s)
after_recv response_string unfinished s again = out_of_fuel
after_recv response_string (delivered text) s again =
    let next = again (c_str text) in if length text == 0 then next else done (c_str text, s)

-- The loop over `recv`. `out_of_fuel` is for more reads than are given, or more rounds.
unfoldable pub recv_loop : ℕ → Crypto → Bytes → List Read → Client → Run (Bytes × Client)
recv_loop zero c response_string reads s = out_of_fuel
recv_loop (suc f) c response_string reads s =
    let r = recv c packet_limit s.reads reads in
    let next = record s { reads = r.counter } in
    after_recv response_string r.outcome next (λ (kept : Bytes). recv_loop f c kept r.others next)

-- With no more attempts, more are to come.
unfoldable pub communicate :
    ℕ → Crypto → Bytes → Bytes → List Attempt → List Read → Client → Run (Bytes × Client)
communicate f c beyond request [] reads s = out_of_fuel
communicate f c beyond request (a ∷ attempts) reads s =
    let sent = send c beyond request s.writes a.written_size a.written_text in
    let again = communicate f c beyond request attempts reads (close_client s) in
    let answer =
      recv_loop f c [] reads (record s { connected = true; writes = sent.transaction }) in
    let exchange = if sent.failed then again else answer in
    if s.connected then exchange else if a.reconnects then exchange else done ([], s)
