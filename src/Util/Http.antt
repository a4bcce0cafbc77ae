-- ===== src/Util/Http.antt =====
-- `Util::parse_http_request` of cpp-source/util.cpp. The numbers of its `state` are kept. The JSON
-- parser that it calls runs on the fuel `f`, the loop over the request on the fuel `k`.
pub mod Rounds
pub mod Requests
pub mod Faults
use libjaypea.Base.{
  ℕ, zero, suc, ◌+◌, Bytes, codes, equal, [], ◌∷◌, ◌++◌, drop, Bool, true, false, ◌&&◌, ◌||◌, ltb,
  leb, ◌==◌, if◌then◌else◌, Option, none, some, Run, done, overrun, out_of_fuel, ◌>>=◌,
}
use libjaypea.Json.{
  JsonObject, JsonType, no_type, string, json_type, blank, of_string, of_type, object_values, get,
  set_type, set_string, set_field,
}
use libjaypea.Json.Parse.{parse}
use libjaypea.Json.Access.{has_obj, get_str}
use libjaypea.Util.Replace.{strict_compare_inequal, differ}

pub data RequestResult : Type 0 where
  http http_api http_form api : RequestResult

-- The local variables of the loop and the request's object.
pub record Request : Type 0 where
  pub obj : JsonObject
  pub state : ℕ
  pub new_key : Bytes
  pub new_value : Bytes
  pub exit : Bool

abbrev or_blank : Option JsonObject → JsonObject
or_blank none = blank
or_blank (some v) = v

-- The object under a key, or the new one that is put there.
abbrev pub at_key : Bytes → JsonObject → JsonObject
at_key k o = or_blank (get k (object_values o))

abbrev pub or_text : JsonType → Bytes → JsonObject → JsonObject
or_text no_type value v = set_string value (set_type string v)
or_text _ value v = v

-- A value of the query or of a form: parsed as JSON, and taken as it stands if that finds no type.
unfoldable pub store_value : ℕ → Bytes → Bytes → JsonObject → Run JsonObject
store_value f k value o = parse f (set_type no_type (at_key k o)) value >>= λ (v, p).
    done (set_field k (or_text (json_type v) value v) o)

-- A header.
abbrev pub store_header : Bytes → Bytes → JsonObject → JsonObject
store_header k value o = set_field k (set_string value (set_type string (at_key k o))) o

abbrev pub set_text : Bytes → Bytes → JsonObject → JsonObject
set_text k value o = set_field k (set_string value (at_key k o)) o

abbrev keep : Bytes → Run JsonObject → Request → Run (Request × Bytes)
keep r run m = run >>= λ o. done (record m { obj = o }, r)

-- `it` at a `%`: the two escapes that are known; of any other the `%` alone is dropped.
abbrev pub percent : Bytes → Request → Request × Bytes
percent [] m = (m, [])
percent (a ∷ []) m = (m, a ∷ [])
percent (a ∷ b ∷ r) m =
    if a == b'2' && b == b'6'
    then (record m { new_value = m.new_value ++ b'"' ∷ [] }, r)
    else if a == b'0' && b == b'A'
    then (record m { new_value = m.new_value ++ b'\n' ∷ [] }, r)
    else (m, a ∷ b ∷ r)

abbrev value_byte : ℕ → Bytes → Request → Request × Bytes
value_byte c r m =
    if c == b'%'
    then percent r m
    else if c == b'\r'
    then (m, r)
    else (record m { new_value = m.new_value ++ c ∷ [] }, r)

-- The second `switch`, on the state.
unfoldable pub take_byte : ℕ → Bytes → Request → Request × Bytes
take_byte c r m =
    if m.state == 3 && c == b'+'
    then (record m { new_value = m.new_value ++ b' ' ∷ [] }, r)
    else if m.state == 3 || m.state == 0 || m.state == 1 || m.state == 4 || m.state == 6
    then value_byte c r m
    else if m.state == 2 || m.state == 5
    then (record m { new_key = m.new_key ++ c ∷ [] }, r)
    else (let s = if c == b'\r' || c == b'\n' then m.state + 1 else m.state in
        (record m { state = s; exit = leb 8 s || m.exit }, r))

abbrev at_space : ℕ → Bytes → Request → Run (Request × Bytes)
at_space f r m =
    if m.state == 1
    then (elim m.new_value [
      | [] ↦ done (record m { exit = true }, r)
      | c ∷ cs ↦ done (
        record m { obj = set_text (codes "route") m.new_value m.obj; state = 4; new_value = [] },
        r,
      )
    ])
    else if m.state == 2
    then done (record m { state = 4 }, r)
    else if m.state == 3
    then keep r (store_value f m.new_key m.new_value m.obj) (record m { state = 4; new_value = [] })
    else done (take_byte b' ' r m)

abbrev at_ampersand : ℕ → Bytes → Request → Run (Request × Bytes)
at_ampersand f r m =
    if m.state == 3
    then keep r (store_value f m.new_key m.new_value m.obj) (record m { new_key = []; state = 2 })
    else done (take_byte b'&' r m)

abbrev at_newline : Bytes → Request → Run (Request × Bytes)
at_newline r m =
    if m.state == 4
    then done (
      record m { obj = set_text (codes "protocol") m.new_value m.obj; new_key = []; state = 5 },
      r,
    )
    else if m.state == 5
    then done (take_byte b'\n' r (record m { state = 7 }))
    else if m.state == 6
    then done
        (record m { obj = store_header m.new_key m.new_value m.obj; new_key = []; state = 5 }, r)
    else done (take_byte b'\n' r m)

-- The byte behind the colon of a header is skipped unread; behind the terminating zero lies what
-- the buffer held before.
abbrev at_colon : Bytes → Request → Run (Request × Bytes)
at_colon [] m = if m.state == 5 then overrun else done (take_byte b':' [] m)
at_colon (d ∷ r) m =
    if m.state == 5
    then done (record m { new_value = []; state = 6 }, r)
    else done (take_byte b':' (d ∷ r) m)

-- One round of the loop at the byte `c`, with the text behind it; the result has the text that
-- is left after `++it`.
unfoldable pub round : ℕ → ℕ → Bytes → Request → Run (Request × Bytes)
unfolding take_byte
round f c r m =
    if c == b' '
    then at_space f r m
    else if c == b'?'
    then (if m.state == 1
        then done (
          record m { obj = set_text (codes "route") m.new_value m.obj; new_key = []; state = 2 },
          r,
        )
        else done (take_byte c r m))
    else if c == b'='
    then (if m.state == 2
        then done (record m { new_value = []; state = 3 }, r)
        else done (take_byte c r m))
    else if c == b'&'
    then at_ampersand f r m
    else if c == b'\n'
    then at_newline r m
    else if c == b':'
    then at_colon r m
    else done (take_byte c r m)

unfoldable pub http_loop : ℕ → ℕ → Request → Bytes → Run (Request × Bytes)
http_loop zero f m it = out_of_fuel
http_loop (suc k) f m [] = done (m, [])
http_loop (suc k) f m (c ∷ r) = elim (c == 0 || m.exit) [
  | true ↦ done (m, c ∷ r)
  | false ↦ round f c r m >>= λ (m', r'). http_loop k f m' r'
]

-- The loop over a form's body: the object, the state, the key and the value so far.
unfoldable pub form_loop : ℕ → JsonObject → Bool → Bytes → Bytes → Bytes → Run JsonObject
form_loop f o in_value k value [] = if in_value then store_value f k value o else done o
form_loop f o in_value k value (c ∷ r) = elim (c == 0) [
  | true ↦ if in_value then store_value f k value o else done o
  | false ↦ elim (c == b'&') [
    | true ↦ store_value f k value o >>= λ o'. form_loop f o' false [] [] r
    | false ↦ elim (c == b'=') [
      | true ↦ form_loop f o true k value r
      | false ↦
          form_loop f o in_value (if in_value then k else k ++ c ∷ [])
            (if in_value then value ++ c ∷ [] else value) r
    ]
  ]
]

-- The method, and the bytes of the start of the request.
pub data Start : Type 0 where
  method : Bytes → ℕ → Start
  no_method : Start

unfoldable pub start : Bytes → Start
start s =
    if strict_compare_inequal s (codes "GET /") 5
    then (if strict_compare_inequal s (codes "HEAD /") 6
        then (if strict_compare_inequal s (codes "POST /") 6
            then (if strict_compare_inequal s (codes "DELETE /") 8
                then (if strict_compare_inequal s (codes "PUT /") 5
                    then no_method
                    else method (codes "PUT") 5)
                else method (codes "DELETE") 8)
            else method (codes "POST") 6)
        else method (codes "HEAD") 6)
    else method (codes "GET") 5

-- The object with its first three texts.
abbrev pub initial : JsonObject → JsonObject
initial o = set_field (codes "protocol") (of_string (codes "JPON")) (
    set_field (codes "route") (of_type string)
      (set_field (codes "method") (of_string (codes "GET")) o))

abbrev text_is : Bytes → Option Bytes → Bool
text_is t none = false
text_is t (some s) = equal s t

abbrev pub content_type_is : Bytes → JsonObject → Bool
content_type_is t o =
    has_obj (codes "Content-Type") string o && text_is t (get_str (codes "Content-Type") o)

-- Behind the loop: the body.
unfoldable pub read_body : ℕ → JsonObject → Bytes → Run (RequestResult × JsonObject)
read_body f o it =
    if content_type_is (codes "application/json") o
    then (parse f o it >>= λ (v, p). done (http_api, v))
    else if content_type_is (codes "application/x-www-form-urlencoded") o
    then (form_loop f o false [] [] it >>= λ v. done (http_form, v))
    else done (http, o)

abbrev pub first_request : JsonObject → Request
first_request o = record { obj = o; state = 1; new_key = []; new_value = b'/' ∷ []; exit = false }

unfoldable pub parse_http_request : ℕ → ℕ → Bytes → JsonObject → Run (RequestResult × JsonObject)
parse_http_request k f s o = elim (start s) [
  | no_method ↦ parse f (initial o) s >>= λ (v, p). done (api, v)
  | method name n ↦
      http_loop k f (first_request (set_text (codes "method") name (initial o))) (drop n s)
      >>= λ (m, it). read_body f m.obj it
]
