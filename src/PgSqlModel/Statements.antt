-- ===== src/PgSqlModel/Statements.antt =====
-- The texts of the statements of cpp-source/pgsql-model.cpp.
pub mod Lists
use libjaypea.Base.{
  Bytes, codes, equal, [], ◌∷◌, ◌++◌, List, Bool, true, false, ◌&&◌, if◌then◌else◌, Option, none,
  some, Dict, is_some, lookup, insert, erase,
}
use libjaypea.Json.{JsonObject, of_string, string_value}
use libjaypea.PgSqlModel.{Column, is_hidden, Model, has_column}

-- A text that is there only when the table has a column.
abbrev pub if_column : List Column → Bytes → Bytes → Bytes
if_column cols name text = if has_column cols name then text else []

-- The separator, where another entry follows.
abbrev pub comma {ℓ} : {A : Type ℓ} → List A → Bytes
comma [] = []
comma (x ∷ xs) = codes ", "

abbrev pub all_sql : Model → Bytes
all_sql m =
    codes "SELECT * FROM "
    ++ (m.table
        ++ (if_column m.cols (codes "deleted") (codes " WHERE deleted IS NULL") ++ codes ";"))

abbrev pub selected : Column → Bytes
selected c =
    if equal c.name (codes "location") then codes "ST_AsGeoJSON(location) as location" else c.name

unfoldable pub col_list : List Column → Bytes
col_list [] = []
col_list (c ∷ cols) =
    if is_hidden c then col_list cols else selected c ++ (comma cols ++ col_list cols)

abbrev pub where_sql : (Bytes → Bytes) → Model → Bytes → Bytes → Bytes
where_sql quote m key value =
    codes "SELECT "
    ++ (col_list m.cols
        ++ (codes " FROM "
            ++ (m.table
                ++ (codes " WHERE "
                    ++ (key
                        ++ (codes " = "
                            ++ (quote value
                                ++ (if_column m.cols (codes "deleted")
                                      (codes " AND deleted IS NULL")
                                    ++ if_column m.cols (codes "created")
                                        (codes " ORDER BY created DESC;")))))))))

abbrev pub delete_sql : (Bytes → Bytes) → Model → Bytes → Bytes
delete_sql quote m id =
    codes "UPDATE "
    ++ (m.table
        ++ (codes " SET deleted = now() WHERE id = "
            ++ (quote id ++ (if_column m.cols (codes "id") (codes " RETURNING id") ++ codes ";"))))

abbrev pub owner_sql : (Bytes → Bytes) → Model → Bytes → Bytes
owner_sql quote m id =
    codes "SELECT * FROM " ++ (m.table ++ (codes " WHERE id = " ++ (quote id ++ codes ";")))

abbrev pub access_sql : (Bytes → Bytes) → Model → Bytes → Bytes → Bytes
access_sql quote m key value =
    codes "SELECT * FROM "
    ++ (m.table
        ++ (codes " WHERE "
            ++ (key
                ++ (codes " = "
                    ++ (quote value
                        ++ (if_column m.cols (codes "deleted") (codes " AND deleted IS NULL")
                            ++ codes ";"))))))

-- A loop over the values, in the order of their iteration, which writes a text for each. `none`
-- is the error for a name that is no column.
unfoldable pub each_value :
    List Column → (Bytes → JsonObject → Bytes) → Dict JsonObject → Option Bytes
each_value cols entry [] = some []
each_value cols entry ((name, value) ∷ values) =
    let others = each_value cols entry values in
    if has_column cols name
    then elim others [ none ↦ none | some text ↦ some (entry name value ++ (comma values ++ text)) ]
    else none

abbrev pub point : (Bytes → Bytes) → JsonObject → JsonObject → Bytes
point quote longitude latitude =
    codes "ST_GeographyFromText("
    ++ (quote (
          codes "POINT("
          ++ (string_value longitude ++ (codes " " ++ (string_value latitude ++ codes ")"))))
        ++ codes ")")

-- The text of the location, and the values without its two coordinates and with a place for it.
abbrev pub located :
    (Bytes → Bytes)
    → Dict JsonObject
    → Option JsonObject
    → Option JsonObject
    → Option (Bytes × Dict JsonObject)
located quote values none latitude = none
located quote values (some longitude) none = none
located quote values (some longitude) (some latitude) = some (
  point quote longitude latitude,
  insert (codes "location") (of_string (codes "placeholder"))
      (erase (codes "latitude") (erase (codes "longitude") values)),
)

unfoldable pub with_location :
    (Bytes → Bytes) → List Column → Dict JsonObject → Option (Bytes × Dict JsonObject)
with_location quote cols values =
    if has_column cols (codes "location")
    then located quote values (lookup (codes "longitude") values) (lookup (codes "latitude") values)
    else some ([], values)

abbrev pub name_entry : Bytes → JsonObject → Bytes
name_entry name value = name

abbrev pub value_entry : (Bytes → Bytes) → Bytes → Bytes → JsonObject → Bytes
value_entry quote location name value =
    if equal name (codes "location") then location else quote (string_value value)

abbrev pub insert_text : Model → Bytes → Bytes → Bytes
insert_text m names values =
    codes "INSERT INTO "
    ++ (m.table
        ++ (codes " ("
            ++ (names
                ++ (codes ") VALUES ("
                    ++ (values
                        ++ (if has_column m.cols (codes "id")
                            then codes ") RETURNING id;"
                            else codes ");"))))))

-- The two loops of `Insert`.
abbrev pub insert_parts : Model → Option Bytes → Option Bytes → Option Bytes
insert_parts m none values = none
insert_parts m (some names) none = none
insert_parts m (some names) (some values) = some (insert_text m names values)

unfoldable pub insert_sql : (Bytes → Bytes) → Model → Bytes → Dict JsonObject → Option Bytes
insert_sql quote m location values =
    insert_parts m (each_value m.cols name_entry values)
      (each_value m.cols (value_entry quote location) values)

abbrev pub set_entry : (Bytes → Bytes) → Bytes → JsonObject → Bytes
set_entry quote name value = name ++ (codes " = " ++ quote (string_value value))

abbrev pub update_text : (Bytes → Bytes) → Model → Bytes → Bytes → Bytes
update_text quote m id settings =
    codes "UPDATE "
    ++ (m.table
        ++ (codes " SET "
            ++ (if_column m.cols (codes "modified") (codes "modified = now(), ")
                ++ (settings ++ (codes " WHERE id = " ++ (quote id ++ codes " RETURNING id;"))))))

abbrev pub update_part : (Bytes → Bytes) → Model → Bytes → Option Bytes → Option Bytes
update_part quote m id none = none
update_part quote m id (some settings) = some (update_text quote m id settings)

unfoldable pub update_sql : (Bytes → Bytes) → Model → Bytes → Dict JsonObject → Option Bytes
update_sql quote m id values = update_part quote m id (each_value m.cols (set_entry quote) values)
