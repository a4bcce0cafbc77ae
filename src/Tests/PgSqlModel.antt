-- ===== src/Tests/PgSqlModel.antt =====
-- A table of users of cpp-source/pgsql-model.cpp, over a database that answers with two rows and
-- keeps the statements.
use libjaypea.Base.{
  ℕ, Bytes, codes, equal, [], ◌∷◌, ◌++◌, List, map, false, if◌then◌else◌, none, some, Dict, lookup,
  insert, erase, ◌≡◌, refl,
}
use libjaypea.Json.{JsonObject, of_type, of_string, set_field, object, object_values, get, put}
use libjaypea.PgSqlModel.{
  Column, Model, model, count_insert_values, has_column, Row, Database, returned,
}
use libjaypea.PgSqlModel.Rows.{row_loop, row_to_json, row_to_json-get, shows, seen}
use libjaypea.PgSqlModel.Statements.{
  comma, selected, col_list, with_location, insert_text, update_text, name_entry, value_entry,
  set_entry,
}
use libjaypea.PgSqlModel.Statements.Lists.{
  commas, entries, all_columns, visible, ends_hidden, col_list-commas,
}
use libjaypea.PgSqlModel.Operations.{bad_key, insert_reply, id_reply, update, insert_into, access}
use libjaypea.PgSqlModel.Operations.Guards.{
  Admitted, update-commas, insert_into-commas, access-Admitted,
}
use libjaypea.Util.Replace.{strict_compare_inequal, differ}

abbrev column : Bytes → ℕ → Column
column name flags = record { name = name; flags = flags }

abbrev columns : List Column
columns =
    column (codes "id") 1
    ∷ column (codes "username") 0
    ∷ column (codes "location") 0
    ∷ column (codes "password") 2
    ∷ []

abbrev users : Model
users = model (codes "users") columns

abbrev ann : Row
ann =
    (codes "id", some (codes "1"))
    ∷ (codes "username", some (codes "ann"))
    ∷ (codes "location", none)
    ∷ (codes "password", some (codes "pw"))
    ∷ []

abbrev shown_ann : JsonObject
shown_ann =
    set_field (codes "username") (of_string (codes "ann"))
      (set_field (codes "id") (of_string (codes "1")) (of_type object))

abbrev log : Database (List Bytes)
log = record {
  quote = λ (s : Bytes). codes "'" ++ (s ++ codes "'");
  exec = λ (sql : Bytes) (d : List Bytes). (some (ann ∷ []), d ++ sql ∷ []);
}

two_values : users.num_insert_values ≡ 3
unfolding count_insert_values strict_compare_inequal differ
two_values = refl

ann_shown : row_to_json columns ann ≡ some shown_ann
unfolding row_loop lookup equal put
ann_shown = refl

row_to_json-get_example :
    get (codes "password") (object_values shown_ann)
    ≡ (if shows columns (codes "password") then seen (lookup (codes "password") ann) none else none)
row_to_json-get_example = row_to_json-get columns ann shown_ann (codes "password") ann_shown

password_hidden : get (codes "password") (object_values shown_ann) ≡ none
unfolding get put equal
password_hidden = refl

col_list-commas_run :
    col_list columns
    ≡ commas (map selected (visible columns))
      ++ (if ends_hidden columns then comma (visible columns) else [])
col_list-commas_run = col_list-commas columns

comma_at_the_end : col_list columns ≡ codes "id, username, ST_AsGeoJSON(location) as location, "
unfolding col_list equal
comma_at_the_end = refl

ann_enters :
    (access log users (codes "username") (codes "ann") (codes "pw") []).0 ≡ returned shown_ann
unfolding access lookup equal row_loop put
ann_enters = refl

access-Admitted_example : Admitted columns (codes "pw") (some (ann ∷ [])) shown_ann
access-Admitted_example =
    access-Admitted log users (codes "username") (codes "ann") (codes "pw") [] shown_ann ann_enters

abbrev named : Dict JsonObject
named = (codes "username", of_string (codes "bob")) ∷ (codes "admin", of_string (codes "t")) ∷ []

abbrev placed : Dict JsonObject
placed =
    (codes "username", of_string (codes "bob"))
    ∷ (codes "latitude", of_string (codes "2"))
    ∷ (codes "longitude", of_string (codes "1"))
    ∷ []

abbrev place : Bytes
place = codes "ST_GeographyFromText('POINT(1 2)')"

abbrev located_values : Dict JsonObject
located_values =
    (codes "username", of_string (codes "bob"))
    ∷ (codes "location", of_string (codes "placeholder"))
    ∷ []

no_admin : all_columns columns named ≡ false
unfolding all_columns has_column equal
no_admin = refl

updated : update log users (codes "1") named [] ≡ (
    let answer =
      log.exec
        (update_text log.quote users (codes "1") (commas (entries (set_entry log.quote) named)))
        [] in
    if all_columns columns named then (id_reply answer.0, answer.1) else (bad_key, []))
updated = update-commas log users (codes "1") named []

placed_values : with_location log.quote columns placed ≡ some (place, located_values)
unfolding with_location has_column equal lookup insert erase
placed_values = refl

insert_into-commas_run : insert_into log users placed [] ≡ (
    let answer =
      log.exec
        (insert_text users
          (commas (entries name_entry located_values))
          (commas (entries (value_entry log.quote place) located_values)))
        [] in
    if all_columns columns located_values
    then (insert_reply (has_column columns (codes "id")) answer.0, answer.1)
    else (bad_key, []))
insert_into-commas_run = insert_into-commas log users placed located_values place [] placed_values
