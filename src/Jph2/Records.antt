-- ===== src/Jph2/Records.antt =====
-- The handlers of cpp-source/examples/jph2/messages.cpp, threads.cpp and poi.cpp. The three tables
-- have the same ones, so each is written once, over a table.
use libjaypea.Base.{
  Bytes, codes, equal, Bool, true, false, ◌||◌, if◌then◌else◌, Option, none, some, insert,
}
use libjaypea.Json.{JsonObject, object_values, array_values, Items, nil, item, get}
use libjaypea.Json.Access.{get_str}
use libjaypea.Json.Stringify.{stringify}
use libjaypea.PgSqlModel.{Model, Database, Reply}
use libjaypea.PgSqlModel.Operations.{delete, insert_into, update}
use libjaypea.Jph2.{
  Action, pure, ◌>>=◌, or_raise, or_crash, object_of, select, values_of, dict_of, first_item, users,
  poi, threads, messages, access, insufficient_access, no_such_item,
}

abbrev pub bloggers_only : Bytes
bloggers_only = codes "{\"error\":\"This requires blogger access.\"}"

abbrev pub shown : JsonObject → Bytes
shown o = stringify false 0 o

-- The loop over the rows of `access`, with a test of `access_type_id` behind which it ends.
abbrev pub typed : (Bytes → Bool) → Option Bytes → Option Bool → Option Bool
typed test none others = none
typed test (some type) others = if test type then some true else others

unfoldable pub any_type : (Bytes → Bool) → Items → Option Bool
any_type test nil = some false
any_type test (item row rows) =
    let others = any_type test rows in typed test (get_str (codes "access_type_id") row) others

abbrev pub is_admin : Bytes → Bool
is_admin type = equal type (codes "1")

abbrev pub is_blogger : Bytes → Bool
is_blogger type = equal type (codes "1") || equal type (codes "2")

module _ {ℓ} {D : Type ℓ} (db : Database D) where
  abbrev pub shown_reply : (D → Reply × D) → Action D Bytes
  shown_reply ask = do o ← (λ d. object_of (ask d)); pure (shown o)

  -- The test of the owner of the row that was found.
  abbrev pub if_owner : Option JsonObject → JsonObject → Action D Bytes → Action D Bytes
  if_owner none token act = pure no_such_item
  if_owner (some row) token act = do
    owner ← or_raise (get_str (codes "owner_id") row)
    id ← or_raise (get_str (codes "id") token)
    if equal owner id then act else pure insufficient_access

  abbrev pub for_owner : Model → JsonObject → JsonObject → (Bytes → Action D Bytes) → Action D Bytes
  for_owner m json token act = do
    id ← or_raise (get_str (codes "id") json)
    found ← select db m (codes "id") id
    if_owner (first_item (array_values found)) token (act id)

  abbrev pub updated : Model → JsonObject → Bytes → Action D Bytes
  updated m json id = do values ← values_of json; shown_reply (update db m id (dict_of values))

  unfoldable pub update_item : Model → JsonObject → JsonObject → Action D Bytes
  update_item m json token = for_owner m json token (updated m json)

  unfoldable pub delete_item : Model → JsonObject → JsonObject → Action D Bytes
  delete_item m json token = for_owner m json token (λ id. shown_reply (delete db m id))

  -- `token->objectValues["id"]` of a token without one is a null pointer, which `Insert` follows.
  unfoldable pub insert_owned : Model → JsonObject → JsonObject → Action D Bytes
  insert_owned m json token = do
    values ← values_of json
    owner ← or_crash (get (codes "id") (object_values token))
    shown_reply (insert_into db m (insert (codes "owner_id") owner (dict_of values)))

  -- Whether the loop over the rows of the token's owner in `access` finds the type.
  abbrev pub has_access : (Bytes → Bool) → JsonObject → Action D Bool
  has_access test token = do
    owner ← or_raise (get_str (codes "id") token)
    accesses ← select db access (codes "owner_id") owner
    or_raise (any_type test (array_values accesses))

  unfoldable pub create_item : Model → JsonObject → JsonObject → Action D Bytes
  create_item m json token = do
    allowed ← has_access is_blogger token
    if allowed then insert_owned m json token else pure bloggers_only

  -- The rows of a table whose column is a text of the request, or of the token.
  abbrev pub read_where : Model → Bytes → Bytes → JsonObject → Action D Bytes
  read_where m column name json = do
    value ← or_raise (get_str name json)
    found ← select db m column value
    pure (shown found)

  -- The rows that belong to the first row that another table has for a text of the request.
  abbrev pub read_of_first : Model → Bytes → Option JsonObject → Action D Bytes
  read_of_first m column none = pure no_such_item
  read_of_first m column (some row) = read_where m column (codes "id") row

  abbrev pub read_through : Model → Bytes → Model → Bytes → JsonObject → Action D Bytes
  read_through other name m column json = do
    value ← or_raise (get_str name json)
    found ← select db other name value
    read_of_first m column (first_item (array_values found))

  abbrev pub create_message : JsonObject → JsonObject → Action D Bytes
  create_message = create_item messages

  abbrev pub read_message : JsonObject → Action D Bytes
  read_message = read_where messages (codes "id") (codes "id")

  abbrev pub update_message : JsonObject → JsonObject → Action D Bytes
  update_message = update_item messages

  abbrev pub delete_message : JsonObject → JsonObject → Action D Bytes
  delete_message = delete_item messages

  abbrev pub read_thread_messages : JsonObject → Action D Bytes
  read_thread_messages = read_where messages (codes "thread_id") (codes "id")

  abbrev pub read_thread_messages_by_name : JsonObject → Action D Bytes
  read_thread_messages_by_name = read_through threads (codes "name") messages (codes "thread_id")

  abbrev pub create_thread : JsonObject → JsonObject → Action D Bytes
  create_thread = create_item threads

  abbrev pub read_thread : JsonObject → Action D Bytes
  read_thread = read_where threads (codes "id") (codes "id")

  abbrev pub update_thread : JsonObject → JsonObject → Action D Bytes
  update_thread = update_item threads

  abbrev pub delete_thread : JsonObject → JsonObject → Action D Bytes
  delete_thread = delete_item threads

  abbrev pub create_poi : JsonObject → JsonObject → Action D Bytes
  create_poi = insert_owned poi

  abbrev pub read_poi : JsonObject → Action D Bytes
  read_poi = read_where poi (codes "id") (codes "id")

  abbrev pub update_poi : JsonObject → JsonObject → Action D Bytes
  update_poi = update_item poi

  abbrev pub delete_poi : JsonObject → JsonObject → Action D Bytes
  delete_poi = delete_item poi

  abbrev pub read_poi_by_username : JsonObject → Action D Bytes
  read_poi_by_username = read_through users (codes "username") poi (codes "owner_id")
