-- ===== src/Bwackwat/Texts.antt =====
-- When the requests of cpp-source/examples/bwackwat.cpp are the JSON that they are meant to be.
use libjaypea.Base.{Bytes, codes, [], ◌∷◌, append_assoc, false, ◌≡◌, refl}
use libjaypea.Json.{JsonObject, json_object, object, of_string, Fields, end, field, nil}
use libjaypea.Json.Text.{escape, escape_byte, escape_body}
use libjaypea.Json.Stringify.{stringify}
use libjaypea.Bwackwat.{all_request, where_request, insert_request, update_request, login_request}

-- A text in which nothing is escaped.
abbrev pub IsPlain : Bytes → Type 0
IsPlain [] = Unit
IsPlain (c ∷ text) = (escape_byte c ≡ c ∷ []) × IsPlain text

escape_body-plain : (text : Bytes) → IsPlain text → escape_body text ≡ text
escape_body-plain [] p = refl
escape_body-plain (c ∷ text) (e, p) = rw (e, escape_body-plain text p) refl

-- The object of a request, by the names and the values of its members.
abbrev pub request : Fields → JsonObject
request fields = json_object object [] fields nil

abbrev pub opened_request : Bytes → Bytes → Bytes → Fields → JsonObject
opened_request table operation token others = request (
    field (codes "table") (of_string table) (
      field (codes "operation") (of_string operation)
        (field (codes "token") (of_string token) others)))

-- If none of the texts has a byte that JSON escapes, each of the five requests is what `stringify`
-- writes for the object with its members: the table, the operation, the token and the others.
pub requests-stringify :
    (table key value token id username password : Bytes) (values : JsonObject)
    → IsPlain table
    → IsPlain key
    → IsPlain value
    → IsPlain token
    → IsPlain id
    → IsPlain username
    → IsPlain password
    → (all_request table token ≡ stringify false 0 (opened_request table (codes "all") token end))
      × (where_request table key value token
          ≡ stringify false 0 (
              opened_request table (codes "where") token (
                field (codes "key") (of_string key) (field (codes "value") (of_string value) end))))
      × (insert_request table values token
          ≡ stringify false 0
              (opened_request table (codes "insert") token (field (codes "values") values end)))
      × (update_request table id values token
          ≡ stringify false 0 (
              opened_request table
                (codes "update")
                token
                (field (codes "id") (of_string id) (field (codes "values") values end))))
      × (login_request table username password
          ≡ stringify false 0 (
              opened_request table (codes "login") [] (
                field
                  (codes "username")
                  (of_string username)
                  (field (codes "password") (of_string password) end))))
unfolding all_request where_request insert_request update_request login_request stringify escape
requests-stringify table key value token id username password values a b c d e f g =
    let plain_table = escape_body-plain table a in
    let plain_token = escape_body-plain token d in
    (
      rw (plain_table, plain_token) (simp append_assoc),
      rw (plain_table, escape_body-plain key b, escape_body-plain value c, plain_token)
          (simp append_assoc),
      rw (plain_table, plain_token) (simp append_assoc),
      rw (plain_table, plain_token, escape_body-plain id e) (simp append_assoc),
      rw (plain_table, escape_body-plain username f, escape_body-plain password g)
          (simp append_assoc),
    )
