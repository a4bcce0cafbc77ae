-- ===== src/Jph2/Users.antt =====
-- The handlers of cpp-source/examples/jph2/users.cpp. The hash of a password and the encryption of
-- a token are parameters.
use libjaypea.Base.{
  Bytes, codes, [], ◌∷◌, ◌++◌, List, Bool, true, false, if◌then◌else◌, Option, none, some, is_some,
  length, ltb,
}
use libjaypea.Json.{
  JsonObject, json_object, Fields, string, object, json_type, string_value, set_string, of_string,
  of_type, set_field, object_values, array_values, get, put, drop,
}
use libjaypea.Json.Access.{get_str, same_type}
use libjaypea.Json.Stringify.{stringify}
use libjaypea.Json.Text.{escape}
use libjaypea.PgSqlModel.{Database, Reply, returned, null_pointer, thrown, undefined}
use libjaypea.PgSqlModel.Operations
use libjaypea.PgSqlModel.Operations.{all, execute, insert_into, update}
use libjaypea.Jph2.{
  Result, ok, raised, crashed, Action, pure, ◌>>=◌, or_raise, or_crash, object_of, select,
  values_of, dict_of, first_item, users, poi, threads, access, insufficient_access,
}
use libjaypea.Jph2.Records.{shown, shown_reply, has_access, is_admin, read_where}

abbrev pub short_password : Bytes
short_password = codes "{\"error\":\"Password must have at least 16 characters.\"}"

abbrev pub good_token : Bytes
good_token = codes "{\"result\":\"Token is good\"}"

-- `objectValues.erase("id")` of the request itself, when its values have an `id`.
abbrev pub without_id : Fields → JsonObject → JsonObject
without_id values (json_object t s fields items) =
    if is_some (get (codes "id") values)
    then json_object t s (drop (codes "id") fields) items
    else json_object t s fields items

-- The reply of a call that is not looked at.
abbrev pub unread {ℓ} : {D : Type ℓ} → Reply × D → Result Bool × D
unread (returned o, d) = (ok true, d)
unread (null_pointer, d) = (ok true, d)
unread (thrown, d) = (raised, d)
unread (undefined, d) = (crashed, d)

abbrev pub is_string : JsonObject → Bool
is_string o = same_type (json_type o) string

abbrev pub any_value : JsonObject → Bool
any_value o = true

-- The row that the first user gets in `access`.
abbrev pub admin_row : Bytes → List (Bytes × JsonObject)
admin_row id =
    (codes "owner_id", of_string id) ∷ (codes "access_type_id", of_string (codes "1")) ∷ []

module _ (hash : Bytes → Bytes) where
  -- The values with their password, if there is one to change, hashed. `none`: it is too short.
  abbrev pub hash_found : (JsonObject → Bool) → Option JsonObject → Fields → Option Fields
  hash_found wanted none values = some values
  hash_found wanted (some password) values =
      if wanted password
      then (if ltb (length (string_value password)) 16
          then none
          else some
              (put (codes "password") (set_string (hash (string_value password)) password) values))
      else some values

  abbrev pub hash_password : (JsonObject → Bool) → Fields → Option Fields
  hash_password wanted values = hash_found wanted (get (codes "password") values) values

module _ (encrypt : Bytes → Bytes) where
  abbrev pub token_of : JsonObject → Bytes
  token_of row = encrypt (stringify false 0 row)

  abbrev pub login_response : JsonObject → Bytes
  login_response token =
      if is_some (get (codes "error") (object_values token))
      then shown token
      else codes "{\"token\":" ++ (escape (token_of token) ++ codes "}")

  abbrev pub token_object : JsonObject → JsonObject
  token_object row = set_field (codes "token") (of_string (escape (token_of row))) (of_type object)

module _ {ℓ} {D : Type ℓ} (db : Database D) where
  -- What `create_user` does behind its insert: the first user becomes an administrator.
  abbrev pub grant : Option JsonObject → JsonObject → Action D Bytes
  grant (some other) made = pure (shown made)
  grant none made =
      if is_some (get (codes "error") (object_values made)) then pure (shown made) else do
        id ← or_raise (get_str (codes "id") made)
        granted ← (λ d. unread (insert_into db access (admin_row id) d))
        pure (shown made)

  abbrev pub insert_user : Option JsonObject → Option Fields → Action D Bytes
  insert_user first none = pure short_password
  insert_user first (some values) = do
    made ← (λ d. object_of (insert_into db users (dict_of values) d))
    grant first made

  unfoldable pub read_users : JsonObject → Action D Bytes
  read_users token = do
    allowed ← has_access db is_admin token
    if allowed then shown_reply db (all db users) else pure insufficient_access

  abbrev pub read_my_user : JsonObject → Action D Bytes
  read_my_user = read_where db users (codes "id") (codes "id")

  abbrev pub read_my_access : JsonObject → Action D Bytes
  read_my_access token = do
    id ← or_raise (get_str (codes "id") token)
    shown_reply db (
        execute db (
          codes
            "SELECT access_types.id, access_types.name, access_types.description FROM access_types, access WHERE access.access_type_id = access_types.id AND access.owner_id = "
          ++ (id ++ codes ";")))

  abbrev pub read_my_threads : JsonObject → Action D Bytes
  read_my_threads = read_where db threads (codes "owner_id") (codes "id")

  abbrev pub read_my_poi : JsonObject → Action D Bytes
  read_my_poi = read_where db poi (codes "owner_id") (codes "id")

  module _ (hash : Bytes → Bytes) where
    unfoldable pub create_user : JsonObject → Action D Bytes
    create_user json = do
      others ← (λ d. object_of (all db users d))
      values ← values_of json
      insert_user (first_item (array_values others)) (hash_password hash is_string values)

    module _ (encrypt : Bytes → Bytes) where
      unfoldable pub login : JsonObject → Action D Bytes
      login json = do
        username ← or_raise (get_str (codes "username") json)
        password ← or_raise (get_str (codes "password") json)
        token ← (λ d.
            object_of (Operations.access db users (codes "username") username (hash password) d))
        pure (login_response encrypt token)

      abbrev pub update_values : JsonObject → Option Fields → Action D Bytes
      update_values token none = pure short_password
      update_values token (some values) = do
        id ← or_raise (get_str (codes "id") token)
        done ← (λ d. unread (update db users id (dict_of values) d))
        found ← select db users (codes "id") id
        row ← or_crash (first_item (array_values found))
        pure (shown (token_object encrypt row))

      abbrev pub update_user : JsonObject → JsonObject → Action D Bytes
      update_user json token = do
        given ← values_of json
        values ← values_of (without_id given json)
        update_values token (hash_password hash any_value values)
