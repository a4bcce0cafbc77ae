-- ===== src/Json/Normal.antt =====
-- The specification of the round trip through `stringify` and `parse`: which part of an object
-- survives it, and which objects it is stated for.
use libjaypea.Base.{[], NoZero}
use libjaypea.Json.{
  JsonObject, json_object, no_type, string, object, array, Fields, end, field, Items, nil, item,
  put, push_back, of_string,
}
use libjaypea.Json.Rounds.{strip}

-- What is left of an object: texts and keys without the bytes that `parse` drops, an empty string
-- for an object with no type, and nothing that its type does not use. Of two keys that become
-- equal the later one stays.
unfoldable mutual
  pub normal : JsonObject → JsonObject
  normal (json_object no_type s o a) = of_string []
  normal (json_object string s o a) = of_string (strip s)
  normal (json_object object s o a) = json_object object [] (put_all end o) nil
  normal (json_object array s o a) = json_object array [] end (push_all nil a)

  pub put_all : Fields → Fields → Fields
  put_all acc end = acc
  put_all acc (field k v fs) = put_all (put (strip k) (normal v) acc) fs

  pub push_all : Items → Items → Items
  push_all acc nil = acc
  push_all acc (item v xs) = push_all (push_back acc (normal v)) xs

-- No text or key that `stringify` writes holds a zero byte.
abbrev mutual
  pub IsText : JsonObject → Type 0
  IsText (json_object no_type s o a) = Unit
  IsText (json_object string s o a) = NoZero s
  IsText (json_object object s o a) = IsTextFields o
  IsText (json_object array s o a) = IsTextItems a

  pub IsTextFields : Fields → Type 0
  IsTextFields end = Unit
  IsTextFields (field k v fs) = NoZero k × IsText v × IsTextFields fs

  pub IsTextItems : Items → Type 0
  IsTextItems nil = Unit
  IsTextItems (item v xs) = IsText v × IsTextItems xs
