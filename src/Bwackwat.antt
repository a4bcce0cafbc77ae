-- ===== src/Bwackwat.antt =====
-- The requests that cpp-source/examples/bwackwat.cpp writes for its provider, and its routes. The
-- provider is a parameter, `communicate`.
pub mod Texts
use libjaypea.Jph2.{Action, ◌>>=◌, or_raise, or_crash}
use libjaypea.Base.{
  Bytes, codes, [], ◌∷◌, ◌++◌, Bool, true, false, equal, if◌then◌else◌, Option, none, some,
}
use libjaypea.Json.{JsonObject, object_values, get}
use libjaypea.Json.Access.{get_str}
use libjaypea.Json.Stringify.{stringify}

-- `{"table":"`, the table, `","operation":"…","token":"` and the token.
abbrev pub opening : Bytes → Bytes → Bytes → Bytes
opening table operation token =
    codes "{\"table\":\""
    ++ (table ++ (codes "\",\"operation\":\"" ++ (operation ++ (codes "\",\"token\":\"" ++ token))))

unfoldable pub all_request : Bytes → Bytes → Bytes
all_request table token = opening table (codes "all") token ++ codes "\"}"

unfoldable pub where_request : Bytes → Bytes → Bytes → Bytes → Bytes
where_request table key value token =
    opening table (codes "where") token
    ++ (codes "\",\"key\":\"" ++ (key ++ (codes "\",\"value\":\"" ++ (value ++ codes "\"}"))))

unfoldable pub insert_request : Bytes → JsonObject → Bytes → Bytes
insert_request table values token =
    opening table (codes "insert") token
    ++ (codes "\",\"values\":" ++ (stringify false 0 values ++ codes "}"))

unfoldable pub update_request : Bytes → Bytes → JsonObject → Bytes → Bytes
update_request table id values token =
    opening table (codes "update") token
    ++ (codes "\",\"id\":\""
        ++ (id ++ (codes "\",\"values\":" ++ (stringify false 0 values ++ codes "}"))))

unfoldable pub login_request : Bytes → Bytes → Bytes → Bytes
login_request table username password =
    opening table (codes "login") []
    ++ (codes "\",\"username\":\""
        ++ (username ++ (codes "\",\"password\":\"" ++ (password ++ codes "\"}"))))

module _ {ℓ} {D : Type ℓ} (communicate : Bytes → Action D Bytes) where
  abbrev pub text : Bytes → JsonObject → Action D Bytes
  text name json = or_raise (get_str name json)

  abbrev pub values_of : JsonObject → Action D JsonObject
  values_of json = or_crash (get (codes "values") (object_values json))

  abbrev pub get_users : JsonObject → Action D Bytes
  get_users json = do
    token ← text (codes "token") json
    communicate (all_request (codes "users") token)

  abbrev pub get_user : JsonObject → Action D Bytes
  get_user json = do
    username ← text (codes "username") json
    token ← text (codes "token") json
    communicate (where_request (codes "users") (codes "username") username token)

  abbrev pub post_user : JsonObject → Action D Bytes
  post_user json = do
    values ← values_of json
    communicate (insert_request (codes "users") values [])

  abbrev pub put_item : Bytes → JsonObject → Action D Bytes
  put_item table json = do
    id ← text (codes "id") json
    values ← values_of json
    token ← text (codes "token") json
    communicate (update_request table id values token)

  abbrev pub post_item : Bytes → JsonObject → Action D Bytes
  post_item table json = do
    values ← values_of json
    token ← text (codes "token") json
    communicate (insert_request table values token)

  abbrev pub put_user : JsonObject → Action D Bytes
  put_user = put_item (codes "users")

  abbrev pub login : JsonObject → Action D Bytes
  login json = do
    username ← text (codes "username") json
    password ← text (codes "password") json
    communicate (login_request (codes "users") username password)

  abbrev pub get_blog : JsonObject → Action D Bytes
  get_blog json = do
    username ← text (codes "username") json
    communicate (where_request (codes "posts") (codes "username") username [])

  abbrev pub post_blog : JsonObject → Action D Bytes
  post_blog = post_item (codes "posts")

  abbrev pub put_blog : JsonObject → Action D Bytes
  put_blog = put_item (codes "posts")

  abbrev pub get_poi : JsonObject → Action D Bytes
  get_poi json = do
    key ← text (codes "key") json
    value ← text (codes "value") json
    communicate (where_request (codes "poi") key value [])

  abbrev pub post_poi : JsonObject → Action D Bytes
  post_poi = post_item (codes "poi")

  abbrev pub put_poi : JsonObject → Action D Bytes
  put_poi = put_item (codes "poi")
