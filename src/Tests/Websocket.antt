-- ===== src/Tests/Websocket.antt =====
-- Frames and a session of cpp-source/websocket.hpp.
use libjaypea.Base.{
  ℕ, zero, suc, Bytes, codes, [], ◌∷◌, ◌++◌, Bool, true, false, ◌≡◌, refl, arith, some, done, equal,
  length, take, replicate,
}
use libjaypea.Json.{get, put}
use libjaypea.Json.Access.{has_obj, get_str}
use libjaypea.Util.Http.{parse_http_request, read_body, start, http_loop, round}
use libjaypea.Util.Replace.{strict_compare_inequal, differ}
use libjaypea.Websocket.Frame.{create_frame, parse_frame, Mask, layout, unmask, mask_byte}
use libjaypea.Websocket.Masking.{
  AreBytes, client_frame, parse_frame-create_frame, parse_frame-create_frame_swapped,
  parse_frame-client_frame,
}
use libjaypea.Websocket.Session.{
  Reply, count, Server, recv, accept_continuation, get_handshake_response, send, set_handshake,
}
use libjaypea.Websocket.Session.Laws.{
  Marks, marked, IsGuarded, Reach-IsGuarded, started, accepted, received,
}

parse_frame-create_frame_example :
    parse_frame (create_frame (codes "pong") ++ 7 ∷ []) (length (create_frame (codes "pong")))
    ≡ some (codes "pong")
parse_frame-create_frame_example =
    parse_frame-create_frame (codes "pong") (7 ∷ []) (ground arith) (omega arith)

letters : (n : ℕ) → AreBytes (replicate n 65)
letters zero = tt
letters (suc n) = (omega arith, letters n)

-- A message of 256 bytes is read as its first byte.
parse_frame-create_frame_swapped_run :
    parse_frame (create_frame (replicate 256 65) ++ []) (length (create_frame (replicate 256 65)))
    ≡ some (take 1 (replicate 256 65))
parse_frame-create_frame_swapped_run =
    parse_frame-create_frame_swapped (replicate 256 65) [] (letters 256) (omega arith) (omega arith)

abbrev mask : Mask
mask = record { m0 = 55; m1 = 250; m2 = 33; m3 = 61 }

parse_frame-client_frame_run :
    parse_frame (client_frame mask (codes "ping") ++ []) (length (client_frame mask (codes "ping")))
    ≡ some (codes "ping")
parse_frame-client_frame_run =
    parse_frame-client_frame mask (codes "ping") []
      (record { b0 = omega arith; b1 = omega arith; b2 = omega arith; b3 = omega arith })
      (ground arith) (omega arith)

abbrev no_hash : Bytes → Bytes
no_hash key = key

abbrev sends : ℕ → Bytes → Bool
sends fd text = false

abbrev reads : ℕ → Bytes → Reply
reads fd text = count (length text)

abbrev upgrade : Bytes
upgrade = codes "GET / HTTP/1.1\r\nSec-WebSocket-Key: k\r\n\r\n"

abbrev idle : Server
idle = record { complete = λ fd. false; written = []; delivered = [] }

abbrev opened : Server
opened = record {
  complete = set_handshake 4 true (accept_continuation no_hash sends reads idle 4).complete;
  written = (4, get_handshake_response no_hash sends reads (codes "k")) ∷ [];
  delivered = [];
}

upgraded :
    recv no_hash sends reads 100 9
      (accept_continuation no_hash sends reads idle 4)
      4
      upgrade
      (length upgrade)
    ≡ done (opened, count 1)
unfolding recv parse_http_request start strict_compare_inequal differ http_loop round read_body
    has_obj get_str get put equal accept_continuation set_handshake send get_handshake_response
upgraded = refl

delivering :
    recv no_hash sends reads 100 9 opened 4 (client_frame mask (codes "hi")) 8
    ≡ done (record opened { delivered = (4, codes "hi") ∷ [] }, count 2)
unfolding recv parse_frame layout unmask mask_byte set_handshake equal
delivering = refl

-- No connection was accepted before the first text and message.
abbrev at_start : Marks no_hash sends reads
at_start = record { texts = λ fd. 0; messages = λ fd. 0 }

abbrev at_accept : Marks no_hash sends reads
at_accept = marked no_hash sends reads 4 idle at_start

Reach-IsGuarded_example :
    IsGuarded no_hash sends reads at_accept (record opened { delivered = (4, codes "hi") ∷ [] })
Reach-IsGuarded_example =
    Reach-IsGuarded no_hash sends reads at_accept
      (record opened { delivered = (4, codes "hi") ∷ [] })
      (received at_accept opened (record opened { delivered = (4, codes "hi") ∷ [] }) 100 9 4
        (client_frame mask (codes "hi")) 8 (count 2)
        (received at_accept (accept_continuation no_hash sends reads idle 4) opened 100 9 4 upgrade
          (length upgrade) (count 1) (accepted at_start idle 4 started) upgraded)
        delivering)
