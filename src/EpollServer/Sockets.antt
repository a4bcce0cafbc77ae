-- ===== src/EpollServer/Sockets.antt =====
-- `recv` and the `send` of a `std::string` of cpp-source/tcp-server.cpp, over the answer of one
-- call of the kernel.
use libjaypea.Base.{Bytes, [], ◌∷◌, Bool, if◌then◌else◌, length}
use libjaypea.EpollServer.{Received, ended, count}
use libjaypea.TlsEpollServer.Calls.{Ssize, plus, minus}
use libjaypea.Encryptor.Packets.{Read, blocked, failed_read, got}

-- With the callback that gets the bytes. The zero that is written behind them is not modelled.
unfoldable pub recv : (Bytes → Received) → Read → Received
recv callback blocked = count 0
recv callback failed_read = ended
recv callback (got []) = ended
recv callback (got (c ∷ data_read)) = callback (c ∷ data_read)

abbrev pub send_text : Bool → Bytes → Ssize
send_text fails text = if fails then minus 1 else plus (length text)
