-- ===== src/DistributedNode/Answers.antt =====
-- What the callback of cpp-source/distributed-node.cpp returns.
use libjaypea.Base.{
  ℕ, suc, Bytes, codes, [], ◌∷◌, Bool, true, false, ◌==◌, if◌then◌else◌, Option, none, some, length,
  c_str, done, ◌≡◌, refl, ap, subst, ◌++◌, either_way, arith,
}
use libjaypea.Json.{JsonObject, blank, of_type, of_string, set_field, object, string, put, end}
use libjaypea.Json.Cursor.{Cursor}
use libjaypea.Json.Parse.{parse}
use libjaypea.Json.Stringify.{stringify, stringify_fields}
use libjaypea.Json.Access.{has_obj, get_str}
use libjaypea.TlsEpollServer.Calls.{Ssize, plus, minus}
use libjaypea.Encryptor.Codec.{Crypto}
use libjaypea.SymmetricEpollServer.{Counters, send}
use libjaypea.DistributedNode.{Node, response, compared, answer_of, returned, on_read}

not_null : (n : ℕ) → (suc n == 0) ≡ false
not_null n = ground arith

-- The text of an object is not empty.
returned_text :
    (name text : Bytes) (data_length : ℕ) (failed : Bool)
    → returned data_length (
        if failed
        then minus 1
        else plus (length (stringify false 0 (set_field name (of_string text) (of_type object)))))
      ≡ minus 1
unfolding stringify
returned_text name text data_length true = refl
returned_text name text data_length false =
    rw (not_null (length (stringify_fields false 0 (put name (of_string text) end) ++ b'}' ∷ [])))
      refl

-- An answer that stringifies to some text.
abbrev IsRefused : JsonObject → Type 0
IsRefused answer =
    (data_length : ℕ) (failed : Bool)
    → returned data_length (if failed then minus 1 else plus (length (stringify false 0 answer)))
      ≡ minus 1

answer_of-IsRefused :
    (name : Bytes) (text : Option Bytes) (answer : JsonObject)
    → answer_of name text ≡ some answer
    → IsRefused answer
answer_of-IsRefused name none answer h = absurd (cc h)
answer_of-IsRefused name (some text) answer h =
    let made : set_field name (of_string text) (of_type object) ≡ answer = cc h in
    subst IsRefused made (returned_text name text)

response-IsRefused :
    (status request answer : JsonObject) → response status request ≡ some answer → IsRefused answer
unfolding response
response-IsRefused status request answer =
    either_way (λ (o : Option JsonObject). o ≡ some answer → IsRefused answer)
      (has_obj (codes "hash") string request)
      (answer_of-IsRefused (codes "status")
        (compared (get_str (codes "hash") request) (get_str (codes "hash") status)) answer)
      (answer_of-IsRefused (codes "hash") (get_str (codes "hash") status) answer)

-- A request that is parsed and has an answer makes the callback return -1, which ends the
-- connection, whether the answer was sent or not.
pub on_read-response :
    (f : ℕ) (c : Crypto) (beyond : Bytes) (node : Node) (fd : ℕ) (text : Bytes)
    (written_size written_text : Option ℕ) (s : Counters) (request answer : JsonObject)
    (rest : Cursor)
    → parse f blank (c_str text) ≡ done (request, rest)
    → response node.status request ≡ some answer
    → on_read f c beyond node fd text written_size written_text s
      ≡ done (
          some
            (minus 1, (send c beyond fd (stringify false 0 answer) written_size written_text s).1))
unfolding on_read
on_read-response f c beyond node fd text written_size written_text s request answer rest parsed
      answered =
    let sent = send c beyond fd (stringify false 0 answer) written_size written_text s in
    rw (parsed, answered)
      (ap (λ (r : Ssize). done (some (r, sent.1)))
        (response-IsRefused node.status request answer answered (length text) sent.0.failed))
