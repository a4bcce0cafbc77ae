-- ===== src/PgSqlModel/Operations.antt =====
-- The operations of cpp-source/pgsql-model.cpp over a database.
pub mod Guards
use libjaypea.Base.{
  Bytes, codes, equal, [], ◌∷◌, List, Bool, true, false, if◌then◌else◌, Option, none, some, Dict,
  lookup,
}
use libjaypea.Json.{JsonObject, of_type, of_string, set_field, object}
use libjaypea.PgSqlModel.{
  Model, Column, has_column, error, Row, Database, Reply, returned, null_pointer, thrown, undefined,
}
use libjaypea.PgSqlModel.Rows.{any_result_to_json, result_to_json, row_to_json}
use libjaypea.PgSqlModel.Statements.{
  all_sql, where_sql, delete_sql, owner_sql, access_sql, with_location, insert_sql, update_sql,
}

abbrev pub bad_key : Reply
bad_key = returned (error (codes "Bad key."))

-- What the handlers of exceptions of `Where`, `Delete`, `Insert` and `Update` return.
abbrev pub bad_data : Reply
bad_data = returned (error (codes "You provided incomplete or bad data."))

-- The exception of `Access`.
abbrev pub no_access : Reply
no_access = returned (error (codes "Bad data."))

abbrev pub or_else : Reply → Option JsonObject → Reply
or_else failure none = failure
or_else failure (some o) = returned o

abbrev pub id_object : Bytes → JsonObject
id_object id = set_field (codes "id") (of_string id) (of_type object)

-- `res[0][0].as<const char*>()`. A null, and a row without fields, throw.
abbrev pub first_id : List Row → Reply
first_id [] = undefined
first_id ([] ∷ rows) = bad_data
first_id (((name, none) ∷ row) ∷ rows) = bad_data
first_id (((name, some id) ∷ row) ∷ rows) = returned (id_object id)

abbrev pub id_reply : Option (List Row) → Reply
id_reply none = bad_data
id_reply (some rows) = first_id rows

abbrev pub insert_reply : Bool → Option (List Row) → Reply
insert_reply has_id none = bad_data
insert_reply has_id (some rows) = if has_id then first_id rows else null_pointer

abbrev pub rows_reply : Reply → List Column → Option (List Row) → Reply
rows_reply failure cols none = failure
rows_reply failure cols (some rows) = or_else failure (result_to_json cols rows)

abbrev pub any_reply : Option (List Row) → Reply
any_reply none = thrown
any_reply (some rows) = returned (any_result_to_json rows)

-- `as<std::string>()` of a null throws.
abbrev pub owner_field : Bytes → Option (Option Bytes) → Option Bool
owner_field owner_id none = none
owner_field owner_id (some none) = none
owner_field owner_id (some (some text)) = some (equal text owner_id)

-- `none` is an exception, or the row that is not there.
abbrev pub owner_reply : Bytes → Option (List Row) → Option Bool
owner_reply owner_id none = none
owner_reply owner_id (some []) = none
owner_reply owner_id (some (row ∷ rows)) = owner_field owner_id (lookup (codes "owner_id") row)

abbrev pub password_field : List Column → Bytes → Row → Option (Option Bytes) → Reply
password_field cols password row none = no_access
password_field cols password row (some none) = no_access
password_field cols password row (some (some text)) =
    if equal text password
    then or_else no_access (row_to_json cols row)
    else returned (error (codes "Bad password."))

abbrev pub access_reply : List Column → Bytes → Option (List Row) → Reply
access_reply cols password none = no_access
access_reply cols password (some []) = returned (error (codes "Bad username."))
access_reply cols password (some (row ∷ rows)) =
    password_field cols password row (lookup (codes "password") row)

module _ {ℓ} {D : Type ℓ} (db : Database D) where
  abbrev pub execute : Bytes → D → Reply × D
  execute sql d = let answer = db.exec sql d in (any_reply answer.0, answer.1)

  abbrev pub all : Model → D → Reply × D
  all m d = let answer = db.exec (all_sql m) d in (rows_reply thrown m.cols answer.0, answer.1)

  unfoldable pub where_equal : Model → Bytes → Bytes → D → Reply × D
  where_equal m key value d =
      let answer = db.exec (where_sql db.quote m key value) d in
      if has_column m.cols key
      then (rows_reply bad_data m.cols answer.0, answer.1)
      else (bad_key, d)

  abbrev pub delete : Model → Bytes → D → Reply × D
  delete m id d = let answer = db.exec (delete_sql db.quote m id) d in (id_reply answer.0, answer.1)

  -- The statement of `Insert`, or the error for a key.
  abbrev pub run_insert : Model → Option Bytes → D → Reply × D
  run_insert m none d = (bad_key, d)
  run_insert m (some sql) d =
      let answer = db.exec sql d in
      (insert_reply (has_column m.cols (codes "id")) answer.0, answer.1)

  abbrev pub insert_located : Model → Option (Bytes × Dict JsonObject) → D → Reply × D
  insert_located m none d = (returned (error (codes "Missing location information.")), d)
  insert_located m (some (location, values)) d =
      run_insert m (insert_sql db.quote m location values) d

  unfoldable pub insert_into : Model → Dict JsonObject → D → Reply × D
  insert_into m values d = insert_located m (with_location db.quote m.cols values) d

  abbrev pub is_owner : Model → Bytes → Bytes → D → Option Bool × D
  is_owner m id owner_id d =
      let answer = db.exec (owner_sql db.quote m id) d in (owner_reply owner_id answer.0, answer.1)

  abbrev pub run_update : Option Bytes → D → Reply × D
  run_update none d = (bad_key, d)
  run_update (some sql) d = let answer = db.exec sql d in (id_reply answer.0, answer.1)

  unfoldable pub update : Model → Bytes → Dict JsonObject → D → Reply × D
  update m id values d = run_update (update_sql db.quote m id values) d

  unfoldable pub access : Model → Bytes → Bytes → Bytes → D → Reply × D
  access m key value password d =
      let answer = db.exec (access_sql db.quote m key value) d in
      (access_reply m.cols password answer.0, answer.1)
