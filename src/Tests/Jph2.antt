-- ===== src/Tests/Jph2.antt =====
-- Requests to the handlers of cpp-source/examples/jph2, over a database that answers with one row
-- and keeps the statements, and messages to its chat.
use libjaypea.Base.{Bytes, codes, equal, [], ◌∷◌, ◌++◌, List, some, none, ◌⊎◌, ◌≡◌, refl}
use libjaypea.Json.{JsonObject, of_type, of_string, set_field, object, get, put}
use libjaypea.Json.Access.{get_str}
use libjaypea.PgSqlModel.{Row, Database}
use libjaypea.PgSqlModel.Operations.{where_equal}
use libjaypea.Util.Replace.{behind, find, replace_loop, replace_all}
use libjaypea.Jph2.{messages, access}
use libjaypea.Jph2.Records.{update_item, delete_item, create_item}
use libjaypea.Jph2.Owners.{Unchanged, IsOwner, update_item-IsOwner}
use libjaypea.Jph2.Creators.{Allows, InsertsOwn, create_item-InsertsOwn}
use libjaypea.Jph2.Chat.{Message, Chat, without_iframe}
use libjaypea.Jph2.Chat.Tidy.{IsTidy, IsTidy-empty, run, run-IsTidy}

abbrev row : Row
row =
    (codes "id", some (codes "7"))
    ∷ (codes "owner_id", some (codes "1"))
    ∷ (codes "access_type_id", some (codes "2"))
    ∷ []

abbrev log : Database (List Bytes)
log = record {
  quote = λ (s : Bytes). codes "'" ++ (s ++ codes "'");
  exec = λ (sql : Bytes) (d : List Bytes). (some (row ∷ []), d ++ sql ∷ []);
}

abbrev token : JsonObject
token = set_field (codes "id") (of_string (codes "1")) (of_type object)

abbrev other_token : JsonObject
other_token = set_field (codes "id") (of_string (codes "2")) (of_type object)

abbrev values : JsonObject
values = set_field (codes "title") (of_string (codes "hi")) (of_type object)

abbrev request : JsonObject
request =
    set_field (codes "values") values
      (set_field (codes "id") (of_string (codes "7")) (of_type object))

request_id : get_str (codes "id") request ≡ some (codes "7")
unfolding get_str get put equal
request_id = refl

token_id : get_str (codes "id") token ≡ some (codes "1")
unfolding get_str get put equal
token_id = refl

update_item-IsOwner_example :
    (Unchanged
        (update_item log messages request other_token [])
        (where_equal log messages (codes "id") (codes "7") []).1
      × Unchanged
          (delete_item log messages request other_token [])
          (where_equal log messages (codes "id") (codes "7") []).1)
    ⊎ IsOwner (where_equal log messages (codes "id") (codes "7") []).0 other_token
update_item-IsOwner_example =
    update_item-IsOwner log other_token messages request (codes "7") [] request_id

create_item-InsertsOwn_example :
    let asked = where_equal log access (codes "owner_id") (codes "1") [] in
    ((create_item log messages request token []).1 ≡ asked.1)
    ⊎ (Allows log token asked.0
        × InsertsOwn log token messages asked.1 (create_item log messages request token []).1)
create_item-InsertsOwn_example =
    create_item-InsertsOwn log token messages request (codes "1") [] token_id

abbrev keep : Bytes → Bytes
keep password = password

abbrev quiet : Chat
quiet = record { chat_messages = []; client_last_message = [] }

abbrev hello : Message
hello = record { color = none; handle = codes "annie"; text = codes "hello" }

run-IsTidy_example : (t : Chat) × (run (hello ∷ hello ∷ []) quiet ≡ some t) × IsTidy t
run-IsTidy_example = run-IsTidy (hello ∷ hello ∷ []) quiet IsTidy-empty

-- One run of the loop leaves an `iframe` that was around another one.
iframe_left : without_iframe (codes "<ififramerame>") ≡ some (codes "<iframe>")
unfolding replace_all replace_loop find behind
iframe_left = refl
