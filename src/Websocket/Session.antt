-- ===== src/Websocket/Session.antt =====
-- `Websocket::recv` of cpp-source/websocket.hpp and `WebsocketServer` of
-- cpp-source/websocket-server.cpp: the handshake and the messages of each connection.
pub mod Log
pub mod Laws
use libjaypea.Base.{
  ℕ, suc, Bytes, codes, equal, [], ◌∷◌, ◌++◌, Bool, true, false, ◌&&◌, ◌==◌, if◌then◌else◌, Option,
  none, some, Run, done, overrun, out_of_fuel, length, List,
}
use libjaypea.Json.{JsonObject, string, object, of_type}
use libjaypea.Json.Access.{has_obj, get_str}
use libjaypea.Util.Http.{RequestResult, parse_http_request}
use libjaypea.Websocket.Frame.{parse_frame, create_frame}

-- A `ssize_t` result: a negative one, or a count.
pub data Reply : Type 0 where
  closed : Reply
  count : ℕ → Reply

-- `client_handshake_complete`.
abbrev pub Handshakes : Type 0
Handshakes = ℕ → Bool

unfoldable pub set_handshake : ℕ → Bool → Handshakes → Handshakes
set_handshake fd b h other = if other == fd then b else h other

-- The state, the texts that were written to sockets, and the messages given to `on_read`.
pub record Server : Type 0 where
  pub complete : Handshakes
  pub written : List (ℕ × Bytes)
  pub delivered : List (ℕ × Bytes)

-- `base64(sha1(...))`, whether `write` succeeds, and the callback's result are the environment's.
module _ (sha1_base64 : Bytes → Bytes) (send_fails : ℕ → Bytes → Bool)
    (on_read : ℕ → Bytes → Reply) where
  unfoldable pub get_handshake_response : Bytes → Bytes
  get_handshake_response key =
      codes
        "HTTP/1.1 101 Switching Protocols\r\nUpgrade: websocket\r\nConnection: Upgrade\r\nSec-WebSocket-Accept: "
      ++ (sha1_base64 (key ++ codes "258EAFA5-E914-47DA-95CA-C5AB0DC85B11") ++ codes "\r\n\r\n")

  -- `EpollServer::send`: `true` on an error.
  abbrev pub base_send : Server → ℕ → Bytes → Server × Bool
  base_send s fd text =
      if send_fails fd text
      then (s, true)
      else (record s { written = s.written ++ (fd, text) ∷ [] }, false)

  -- `WebsocketServer::send`.
  unfoldable pub send : Server → ℕ → Bytes → Server × Bool
  send s fd text = base_send s fd (if s.complete fd then create_frame text else text)

  abbrev first_two : Bytes → ℕ × ℕ
  first_two [] = (0, 0)
  first_two (a ∷ []) = (a, 0)
  first_two (a ∷ b ∷ r) = (a, b)

  -- A close frame's status 1001; -23 is the byte 233.
  abbrev is_disconnect : Bytes → Bool
  is_disconnect message = (first_two message).0 == 3 && (first_two message).1 == 233

  abbrev on_message : Server → ℕ → Option Bytes → Run (Server × Reply)
  on_message s fd none = overrun
  on_message s fd (some message) =
      if is_disconnect message
      then done (s, closed)
      else if equal message (codes "ping")
      then done (s, count (length (codes "pong")))
      else done (record s { delivered = s.delivered ++ (fd, message) ∷ [] }, on_read fd message)

  abbrev answer : Server → ℕ → Bytes → Run (Server × Reply)
  answer s fd key =
      let (s', failed) = send s fd (get_handshake_response key) in
      if failed
      then done (s', closed)
      else done (record s' { complete = set_handshake fd true s'.complete }, count 1)

  -- The key is there where it is looked up: `has_obj` has been asked.
  abbrev keyed : Server → ℕ → Option Bytes → Run (Server × Reply)
  keyed s fd none = overrun
  keyed s fd (some key) = answer s fd key

  abbrev handshake : Server → ℕ → Run (RequestResult × JsonObject) → Run (Server × Reply)
  handshake s fd overrun = overrun
  handshake s fd out_of_fuel = out_of_fuel
  handshake s fd (done (r, request)) =
      if has_obj (codes "Sec-WebSocket-Key") string request
      then keyed s fd (get_str (codes "Sec-WebSocket-Key") request)
      else done (s, closed)

  -- `Websocket::recv`; the request parser runs on the fuel `k` and `f`.
  unfoldable pub recv : ℕ → ℕ → Server → ℕ → Bytes → ℕ → Run (Server × Reply)
  recv k f s fd buffer data_length =
      if s.complete fd
      then on_message s fd (parse_frame buffer data_length)
      else handshake s fd (parse_http_request k f buffer (of_type object))

  -- `WebsocketServer::accept_continuation`.
  unfoldable pub accept_continuation : Server → ℕ → Server
  accept_continuation s fd = record s { complete = set_handshake fd false s.complete }
