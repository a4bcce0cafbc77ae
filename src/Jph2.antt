-- ===== src/Jph2.antt =====
-- The application cpp-source/examples/jph2.cpp: its tables (jph2/models.cpp), and the handlers of
-- its routes as actions on the database. The state of the database is a parameter.
pub mod Records
pub mod Owners
pub mod Creators
pub mod Grants
pub mod Users
pub mod Chat
pub mod Tanks
use libjaypea.Base.{
  ℕ, Bytes, codes, equal, [], ◌∷◌, List, Bool, true, false, if◌then◌else◌, Option, none, some, Dict,
}
use libjaypea.Json.{
  JsonObject, Fields, end, field, Items, nil, item, object_values, array_values, get,
}
use libjaypea.Json.Access.{get_str}
use libjaypea.PgSqlModel.{
  Column, Model, model, Database, Reply, returned, null_pointer, thrown, undefined,
}
use libjaypea.PgSqlModel.Operations.{where_equal}

abbrev pub column : Bytes → ℕ → Column
column name flags = record { name = name; flags = flags }

-- The last columns of most tables.
abbrev pub dated : List Column
dated = column (codes "deleted") 3 ∷ column (codes "modified") 1 ∷ column (codes "created") 1 ∷ []

abbrev pub users : Model
users = model (codes "users") (
    column (codes "id") 1
    ∷ column (codes "username") 0
    ∷ column (codes "password") 2
    ∷ column (codes "primary_token") 0
    ∷ column (codes "secondary_token") 0
    ∷ column (codes "email") 0
    ∷ column (codes "first_name") 0
    ∷ column (codes "last_name") 0
    ∷ column (codes "color") 0
    ∷ dated)

abbrev pub poi : Model
poi = model (codes "poi") (
    column (codes "id") 1
    ∷ column (codes "owner_id") 0
    ∷ column (codes "label") 0
    ∷ column (codes "description") 0
    ∷ column (codes "location") 0
    ∷ dated)

abbrev pub threads : Model
threads = model (codes "threads") (
    column (codes "id") 1
    ∷ column (codes "owner_id") 0
    ∷ column (codes "name") 0
    ∷ column (codes "description") 0
    ∷ dated)

abbrev pub messages : Model
messages = model (codes "messages") (
    column (codes "id") 1
    ∷ column (codes "owner_id") 0
    ∷ column (codes "thread_id") 0
    ∷ column (codes "title") 0
    ∷ column (codes "content") 0
    ∷ dated)

abbrev pub access : Model
access =
    model (codes "access") (column (codes "owner_id") 0 ∷ column (codes "access_type_id") 0 ∷ [])

abbrev pub insufficient_access : Bytes
insufficient_access = codes "{\"error\":\"Insufficient access.\"}"

abbrev pub no_such_item : Bytes
no_such_item = codes "{\"error\":\"That record doesn't exist.\"}"

-- How a handler ends: with a value, an exception, or a null pointer or an index that is followed.
pub data Result (A : Type 0) : Type 0 where
  ok : A → Result A
  raised : Result A
  crashed : Result A

abbrev pub Action {ℓ} : Type ℓ → Type 0 → Type ℓ
Action D A = D → Result A × D

abbrev pub pure {ℓ} : {D : Type ℓ} {A : Type 0} → A → Action D A
pure a d = (ok a, d)

abbrev pub after {ℓ} : {D : Type ℓ} {A B : Type 0} → (A → Action D B) → Result A → D → Result B × D
after f (ok a) d = f a d
after f raised d = (raised, d)
after f crashed d = (crashed, d)

infixl 5 ◌>>=◌
abbrev pub ◌>>=◌ {ℓ} : {D : Type ℓ} {A B : Type 0} → Action D A → (A → Action D B) → Action D B
◌>>=◌ m f d = let r = m d in after f r.0 r.1

abbrev pub or_raise {ℓ} : {D : Type ℓ} {A : Type 0} → Option A → Action D A
or_raise none d = (raised, d)
or_raise (some a) d = (ok a, d)

abbrev pub or_crash {ℓ} : {D : Type ℓ} {A : Type 0} → Option A → Action D A
or_crash none d = (crashed, d)
or_crash (some a) d = (ok a, d)

-- A member of a reply is looked at.
abbrev pub object_of {ℓ} : {D : Type ℓ} → Reply × D → Result JsonObject × D
object_of (returned o, d) = (ok o, d)
object_of (null_pointer, d) = (crashed, d)
object_of (thrown, d) = (raised, d)
object_of (undefined, d) = (crashed, d)

abbrev pub select {ℓ} : {D : Type ℓ} → Database D → Model → Bytes → Bytes → Action D JsonObject
select db m key value d = object_of (where_equal db m key value d)

-- `objectValues` of a member that `operator[]` finds.
abbrev pub member_values : Option JsonObject → Option Fields
member_values none = none
member_values (some v) = some (object_values v)

-- `json->objectValues["values"]->objectValues`.
abbrev pub values_of {ℓ} : {D : Type ℓ} → JsonObject → Action D Fields
values_of json = or_crash (member_values (get (codes "values") (object_values json)))

abbrev pub dict_of : Fields → Dict JsonObject
dict_of end = []
dict_of (field name value fields) = (name, value) ∷ dict_of fields

abbrev pub first_item : Items → Option JsonObject
first_item nil = none
first_item (item v vs) = some v
