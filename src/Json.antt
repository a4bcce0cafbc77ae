-- ===== src/Json.antt =====
-- cpp-source/json.hpp: the data of a `JsonObject`. One object holds its type, a text, a map of
-- named children and a vector of children, whichever of them its type uses.
pub mod Text
pub mod Cursor
pub mod Parse
pub mod Stringify
pub mod Rounds
pub mod Nested
pub mod Normal
pub mod Parts
pub mod RoundTrip
pub mod Faults
pub mod Access
use libjaypea.Base.{
  Bytes, equal, equal_iff, [], Option, none, some, if◌then◌else◌, ◌≡◌, refl, arith,
}

pub data JsonType : Type 0 where
  no_type string object array : JsonType

mutual
  pub data JsonObject : Type 0 where
    json_object : JsonType → Bytes → Fields → Items → JsonObject

  -- `objectValues`, in the order of its iteration.
  pub data Fields : Type 0 where
    end : Fields
    field : Bytes → JsonObject → Fields → Fields

  -- `arrayValues`.
  pub data Items : Type 0 where
    nil : Items
    item : JsonObject → Items → Items

abbrev pub json_type : JsonObject → JsonType
json_type (json_object t s o a) = t

abbrev pub string_value : JsonObject → Bytes
string_value (json_object t s o a) = s

abbrev pub object_values : JsonObject → Fields
object_values (json_object t s o a) = o

abbrev pub array_values : JsonObject → Items
array_values (json_object t s o a) = a

-- The three constructors of the class.
abbrev pub of_type : JsonType → JsonObject
of_type t = json_object t [] end nil

abbrev pub of_string : Bytes → JsonObject
of_string s = json_object string s end nil

abbrev pub blank : JsonObject
blank = json_object no_type [] end nil

abbrev pub set_type : JsonType → JsonObject → JsonObject
set_type t (json_object _ s o a) = json_object t s o a

abbrev pub set_string : Bytes → JsonObject → JsonObject
set_string s (json_object t _ o a) = json_object t s o a

-- `objectValues.find`.
unfoldable pub get : Bytes → Fields → Option JsonObject
get k end = none
get k (field j v fs) = if equal j k then some v else get k fs

-- `objectValues[k] = v`.
unfoldable pub put : Bytes → JsonObject → Fields → Fields
put k v end = field k v end
put k v (field j w fs) = if equal j k then field k v fs else field j w (put k v fs)

-- `objectValues.erase`.
unfoldable pub drop : Bytes → Fields → Fields
drop k end = end
drop k (field j v fs) = if equal j k then drop k fs else field j v (drop k fs)

-- `arrayValues.push_back`.
unfoldable pub push_back : Items → JsonObject → Items
push_back nil v = item v nil
push_back (item x xs) v = item x (push_back xs v)

abbrev pub set_field : Bytes → JsonObject → JsonObject → JsonObject
set_field k v (json_object t s o a) = json_object t s (put k v o) a

abbrev pub add_item : JsonObject → JsonObject → JsonObject
add_item v (json_object t s o a) = json_object t s o (push_back a v)

pub get-put :
    (key other : Bytes) (v : JsonObject) (fs : Fields)
    → get other (put key v fs) ≡ (if equal key other then some v else get other fs)
unfolding get put
get-put key other v end = refl
get-put key other v (field name w fs) =
    ground
      (arith, get-put key other v fs, equal_iff key other, equal_iff name key, equal_iff name other)
