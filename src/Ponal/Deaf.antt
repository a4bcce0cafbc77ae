-- ===== src/Ponal/Deaf.antt =====
-- What an answer of cpp-source/examples/ponal-server.cpp does to its connection in
-- cpp-source/tcp-server.cpp.
use libjaypea.Base.{ℕ, Bytes, ◌∷◌, true, false, Option, none, some, c_str, ◌≡◌, refl}
use libjaypea.Base.Tables.{find, find-set_same}
use libjaypea.Encryptor.Packets.{got}
use libjaypea.EpollServer.{Thread, Received, count}
use libjaypea.EpollServer.Clients.{on_readable}
use libjaypea.EpollServer.Sockets.{recv}
use libjaypea.Ponal.{Ponal, result_of, on_read, serve}

-- The callback, whose `bool` becomes the `ssize_t` of the server.
abbrev pub callback : ℕ → Ponal → Bytes → Received
callback fd s packet = count (on_read fd packet false s).1

result_of-some :
    (response : Option Bytes) (text : Bytes) → response ≡ some text → result_of response false ≡ 0
result_of-some none text h = cc
result_of-some (some other) text h = refl

-- A packet that the key-value server answers leaves its connection disarmed: the callback returns
-- 0, and the server gets no further event of its data.
pub on_readable-disarmed :
    (max_connections fd c : ℕ) (packet text : Bytes) (s : Ponal) (t : Thread)
    → (on_read fd (c ∷ packet) false s).0.response ≡ some text
    → find fd
        (on_readable max_connections fd true (recv (callback fd s) (got (c ∷ packet))) t).ready
      ≡ some false
unfolding on_readable recv on_read
on_readable-disarmed max_connections fd c packet text s t h =
    rw (result_of-some (serve (c_str (c ∷ packet)) s).response text h)
      (find-set_same fd false t.ready)
