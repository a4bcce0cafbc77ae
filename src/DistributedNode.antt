-- ===== src/DistributedNode.antt =====
-- `DistributedNode` of cpp-source/distributed-node.cpp: its state, `set_ddata` and what its server
-- does with a request. The hash is a parameter.
pub mod Answers
use libjaypea.Base.{
  ℕ, Bytes, codes, equal, [], ◌∷◌, Bool, true, false, ◌==◌, if◌then◌else◌, Option, none, some,
  length, c_str, Run, done, ◌>>=◌,
}
use libjaypea.Json.{
  JsonObject, json_object, of_type, of_string, set_field, string, object, end, object_values,
  string_value, get, blank,
}
use libjaypea.Json.Parse.{parse}
use libjaypea.Json.Stringify.{stringify}
use libjaypea.Json.Access.{has_obj, get_str}
use libjaypea.TlsEpollServer.Calls.{Ssize, plus, minus}
use libjaypea.Encryptor.Codec.{Crypto}
use libjaypea.SymmetricEpollServer.{Counters, send_text}

pub record Node : Type 0 where
  pub status : JsonObject
  pub ddata : JsonObject

-- The objects of the constructor.
abbrev pub new_node : Node
new_node = record { status = of_type object; ddata = of_type object }

-- `objectValues.clear()`.
abbrev pub clear : JsonObject → JsonObject
clear (json_object t s fields items) = json_object t s end items

-- The fuel is that of `parse`.
unfoldable pub set_ddata : ℕ → (Bytes → Bytes) → Bytes → Node → Run Node
set_ddata f sha256_hash text node = parse f (clear node.ddata) (c_str text) >>= (λ result.
    done (record {
      status =
          set_field (codes "hash") (of_string (sha256_hash (stringify false 0 result.0)))
            node.status;
      ddata = result.0;
    }))

abbrev pub compared : Option Bytes → Option Bytes → Option Bytes
compared none mine = none
compared (some theirs) none = none
compared (some theirs) (some mine) =
    some (if equal theirs mine then codes "Up to date." else codes "Out of date.")

abbrev pub answer_of : Bytes → Option Bytes → Option JsonObject
answer_of name none = none
answer_of name (some text) = some (set_field name (of_string text) (of_type object))

-- The response to a request. `none` is the exception of a hash that is not there.
unfoldable pub response : JsonObject → JsonObject → Option JsonObject
response status request =
    if has_obj (codes "hash") string request
    then answer_of (codes "status")
        (compared (get_str (codes "hash") request) (get_str (codes "hash") status))
    else answer_of (codes "hash") (get_str (codes "hash") status)

-- What `on_read` returns; every value of `send` but 0 counts as its failure.
abbrev pub returned : ℕ → Ssize → Ssize
returned data_length (minus n) = minus 1
returned data_length (plus n) = if n == 0 then plus data_length else minus 1

abbrev pub respond :
    Crypto
    → Bytes
    → ℕ
    → ℕ
    → Option ℕ
    → Option ℕ
    → Counters
    → Option JsonObject
    → Option (Ssize × Counters)
respond c beyond fd data_length written_size written_text s none = none
respond c beyond fd data_length written_size written_text s (some answer) =
    let result = send_text c beyond fd (stringify false 0 answer) written_size written_text s in
    some (returned data_length result.0, result.1)

-- The server's callback, with the outcomes of the two writes. `none` is an exception.
unfoldable pub on_read :
    ℕ
    → Crypto
    → Bytes
    → Node
    → ℕ
    → Bytes
    → Option ℕ
    → Option ℕ
    → Counters
    → Run (Option (Ssize × Counters))
on_read f c beyond node fd text written_size written_text s =
    parse f blank (c_str text) >>= (λ result. done (
      respond c beyond fd (length text) written_size written_text s
        (response node.status result.0)))
