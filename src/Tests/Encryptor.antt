-- ===== src/Tests/Encryptor.antt =====
-- The packets of cpp-source/symmetric-encryptor.cpp with a plain code for the ciphers.
use libjaypea.Base.{
  ℕ, ◌+◌, ap, ◌∙◌, append_assoc, Bytes, List, codes, done, true, false, [], ◌∷◌, ◌++◌, ◌≡◌, refl,
  arith, some, none, equal, equal_refl, length, take, take-append, length-append, replicate, c_str,
  if◌then◌else◌, ◌==◌, ◌%◌,
}
use libjaypea.Encryptor.Codec.{
  Crypto, IsCrypto, encrypt, encrypt_numbered, decrypt_numbered, decrypt_numbered-encrypt_numbered,
}
use libjaypea.Encryptor.Packets.{delivered, stop, recv, ends, got, blocked}
use libjaypea.Base.Tables.{find}
use libjaypea.SymmetricEpollServer.{Counters}
use libjaypea.SymmetricEpollServer.Peers.{Message, addressed, incoming, recv_each-incoming}
use libjaypea.SymmetricTcpClient.{Client, communicate}
use libjaypea.SymmetricTcpClient.Exchange.{written, communicate-arriving}
use libjaypea.Encryptor.Packets.Size.{IsFramed, IsSkipped}
use libjaypea.Encryptor.Packets.Laws.{arriving, arrivals, recv_each, recv-send, recv_each-arrivals}

abbrev digest : Bytes
digest = replicate 32 7

-- A text behind its length, in front of a filling.
abbrev pad : ℕ → Bytes → Bytes
pad n text = length text ∷ (text ++ replicate n 0)

abbrev unpad : Bytes → Bytes
unpad [] = []
unpad (n ∷ text) = take n text

unpad-pad : (n : ℕ) (text filler : Bytes) → unpad (pad n text ++ filler) ≡ text
unpad-pad n text filler =
    ap (take (length text)) (append_assoc text (replicate n 0) filler)
    ∙ take-append (length text) text (replicate n 0 ++ filler) refl

length-pad :
    (n : ℕ) (text : Bytes) → length (pad n text) ≡ 1 + length text + length {A = ℕ} (replicate n 0)
length-pad n text = omega (arith, length-append text (replicate n 0))

abbrev plain_code : Crypto
plain_code = record {
  cbc_encrypt = pad 10;
  cbc_decrypt = λ text. some (unpad text);
  hmac = λ text. digest;
  verified = λ hash text. equal hash digest;
  base64 = pad 16;
  unbase64 = unpad;
}

plain_code-IsCrypto : IsCrypto plain_code
plain_code-IsCrypto = record {
  decrypts = λ text. ap some (take-append (length text) text (replicate 10 0) refl);
  digest_size = λ text. refl;
  verifies = λ text. equal_refl digest;
  decodes = λ text. take-append (length text) text (replicate 16 0) refl;
}

plain_code-IsFramed : IsFramed plain_code
plain_code-IsFramed = record {
  block = λ text l. omega (arith, l, length-pad 10 text);
  encoded = λ text l. omega (arith, l, length-pad 16 text);
  skips = λ text filler outside. unpad-pad 16 text filler;
}

abbrev zeros : Bytes
zeros = replicate 24 0

zeros-IsSkipped : IsSkipped zeros
zeros-IsSkipped = ground arith

renumbered :
    decrypt_numbered plain_code (encrypt_numbered plain_code (codes "ls") 3) 258
    ≡ (if (3 % 255) == (258 % 255) then some (codes "ls") else none)
renumbered = decrypt_numbered-encrypt_numbered plain_code (codes "ls") 3 258 plain_code-IsCrypto

recv-send_example : recv plain_code 1000 4 (arriving plain_code zeros (codes "ls") 3 1 []) ≡ (
    if (3 % 255) == (4 % 255)
    then ends (delivered (codes "ls")) 5 []
    else ends
        (stop 4)
        4
        (replicate 1 blocked ++ got (encrypt_numbered plain_code (codes "ls") 3) ∷ []))
unfolding encrypt_numbered encrypt c_str
recv-send_example =
    recv-send plain_code zeros (codes "ls") 3 4 1 1000 [] plain_code-IsCrypto plain_code-IsFramed
      zeros-IsSkipped (omega arith, omega arith) (omega arith)

arrivals_read :
    recv_each 2 plain_code 1000 254
      (arrivals plain_code zeros 254 ((codes "ls", 2) ∷ (codes "cd /", 0) ∷ []))
    ≡ (delivered (codes "ls") ∷ delivered (codes "cd /") ∷ [], 256)
unfolding encrypt_numbered encrypt c_str
arrivals_read =
    recv_each-arrivals plain_code zeros 254 1000 ((codes "ls", 2) ∷ (codes "cd /", 0) ∷ [])
      plain_code-IsCrypto plain_code-IsFramed zeros-IsSkipped
      ((omega arith, omega arith), ((omega arith, omega arith), tt)) (omega arith)

abbrev three_messages : List Message
three_messages = (7, (codes "ls", 2)) ∷ (8, (codes "hi", 0)) ∷ (7, (codes "cd /", 0)) ∷ []

abbrev at_254 : Counters
at_254 = record { read_counter = []; write_counter = (7, 254) ∷ [] }

recv_each-incoming_example :
    recv_each 2 plain_code 1000 254 (incoming plain_code zeros 7 three_messages at_254)
    ≡ (delivered (codes "ls") ∷ delivered (codes "cd /") ∷ [], 256)
unfolding encrypt_numbered encrypt c_str addressed find
recv_each-incoming_example =
    recv_each-incoming plain_code zeros 7 1000 three_messages at_254 plain_code-IsCrypto
      plain_code-IsFramed zeros-IsSkipped
      ((omega arith, omega arith), ((omega arith, omega arith), tt)) (omega arith)

abbrev in_step : Client
in_step = record { connected = false; writes = 3; reads = 5 }

communicate-arriving_example :
    communicate 1 plain_code zeros
      (codes "ls")
      (written plain_code (codes "ls") in_step ∷ [])
      (arriving plain_code zeros (codes "a b") 5 2 [])
      in_step
    ≡ done (codes "a b", record { connected = true; writes = 4; reads = 6 })
unfolding encrypt_numbered encrypt c_str
communicate-arriving_example =
    communicate-arriving 0 plain_code zeros (codes "ls") (codes "a b") 2 [] [] in_step
      plain_code-IsCrypto plain_code-IsFramed zeros-IsSkipped (omega arith, omega arith) refl
