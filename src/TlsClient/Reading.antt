-- ===== src/TlsClient/Reading.antt =====
-- The loop of `communicate` of cpp-source/tls-client-manager.cpp that reads an answer, and
-- `get_body`.
use libjaypea.Base.{
  ℕ, ◌+◌, ◌≤◌, ◌<◌, Bytes, codes, [], ◌∷◌, ◌++◌, append_assoc, append-nil, List, Bool, true, false,
  ltb, ltb_iff, if◌then◌else◌, ◌≡◌, refl, sym, ap, ◌∙◌, inl, inr, Bool-cases, Option, none, some,
  Run, done, overrun, out_of_fuel, length, length-append, c_str, arith,
}
use libjaypea.Util.Replace.{find}

abbrev pub packet_limit : ℕ
packet_limit = 16384

-- A call of `SSL_read`: some bytes, with the milliseconds since the start behind it, or a result
-- that ends the loop, as every one but SSL_ERROR_NONE does.
pub data ClientRead : Type 0 where
  received : Bytes → ℕ → ClientRead
  ended : ClientRead

-- `buffer[len] = 0`, and `response[offset] = 0` behind the bytes that are copied.
abbrev fits : Bytes → Bytes → Bool
fits response text =
    if ltb (length text) packet_limit
    then ltb (length response + length text) packet_limit
    else false

-- `response` has `packet_limit` bytes, as the one of `get_body`. `out_of_fuel` means that more
-- reads come.
unfoldable pub read_loop : ℕ → Bytes → List ClientRead → Run Bytes
read_loop diff response [] = if ltb 10000 diff then done response else out_of_fuel
read_loop diff response (ended ∷ reads) = done response
read_loop diff response (received text elapsed ∷ reads) =
    let next = read_loop elapsed (response ++ text) reads in
    if ltb 10000 diff then done response else if fits response text then next else overrun

-- What `get_body` returns of an answer that has come. An answer of no bytes is read from memory
-- that was never set.
abbrev pub behind_head : Bytes → Option (Bytes × Bytes) → Bytes
behind_head response none = response
behind_head response (some (head, body)) = body

unfoldable pub answer_body : Bytes → Run Bytes
answer_body [] = overrun
answer_body (b ∷ response) =
    done (behind_head (c_str (b ∷ response)) (find (codes "\r\n\r\n") (c_str (b ∷ response))))

abbrev pub with_answer : Run Bytes → Run Bytes
with_answer overrun = overrun
with_answer out_of_fuel = out_of_fuel
with_answer (done response) = answer_body response

-- The flag is the failure of `communicate` before it reads.
unfoldable pub get_body : Bytes → Bool → List ClientRead → Run Bytes
get_body hostname true reads =
    done (codes "{\"error\":\"Failed to communicate to host " ++ (hostname ++ codes ".\"}"))
get_body hostname false reads = with_answer (read_loop 0 [] reads)

-- Bytes that come in time.
abbrev pub in_time : List (Bytes × ℕ) → List ClientRead
in_time [] = ended ∷ []
in_time ((text, elapsed) ∷ texts) = received text elapsed ∷ in_time texts

abbrev pub AllInTime : List (Bytes × ℕ) → Type 0
AllInTime [] = Unit
AllInTime ((text, elapsed) ∷ texts) = (elapsed ≤ 10000) × AllInTime texts

abbrev pub whole : List (Bytes × ℕ) → Bytes
whole [] = []
whole ((text, elapsed) ∷ texts) = text ++ whole texts

abbrev pub bounded : Bytes → Run Bytes
bounded text = if ltb (length text) packet_limit then done text else overrun

read_loop-bounded :
    (diff : ℕ) (response : Bytes) (texts : List (Bytes × ℕ))
    → diff ≤ 10000
    → length response < packet_limit
    → AllInTime texts
    → read_loop diff response (in_time texts) ≡ bounded (response ++ whole texts)
unfolding read_loop
read_loop-bounded diff response [] early small h = sym (
    ap bounded (append-nil response) ∙ (rw ((ltb_iff (length response) packet_limit).1 small) refl))
read_loop-bounded diff response ((text, elapsed) ∷ texts) early small (soon, h) =
    let going : ltb 10000 diff ≡ false = ground arith in
    let total = length-append response (text ++ whole texts) in
    let part = length-append text (whole texts) in
    elim (Bool-cases (ltb (length response + length text) packet_limit)) [
      | inl room ↦
          let smaller = (ltb_iff (length response + length text) packet_limit).0 room in
          let fit : fits response text ≡ true = ground arith in
          rw (going, fit)
            (read_loop-bounded elapsed (response ++ text) texts soon
                (omega (arith, length-append response text)) h
              ∙ ap bounded (append_assoc response text (whole texts)))
      | inr large ↦
          let unfit : fits response text ≡ false = ground arith in
          let beyond : ltb (length (response ++ (text ++ whole texts))) packet_limit ≡ false =
            ground (arith, total, part) in
          rw (going, unfit, beyond) refl
    ]

-- Of texts that all come within ten seconds, up to the end of the answer, `communicate` copies the
-- whole into the buffer when they are fewer than 16384 bytes together, and otherwise writes behind
-- the buffer's end.
pub read_loop-in_time :
    (texts : List (Bytes × ℕ))
    → AllInTime texts
    → read_loop 0 [] (in_time texts) ≡ bounded (whole texts)
read_loop-in_time texts h = read_loop-bounded 0 [] texts (omega arith) (omega arith) h
