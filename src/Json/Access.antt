-- ===== src/Json/Access.antt =====
-- The accessors of `JsonObject` in cpp-source/json.cpp.
use libjaypea.Base.{ℕ, Bytes, Bool, true, false, Option, none, some}
use libjaypea.Json.{
  JsonType, no_type, string, object, array, JsonObject, json_type, string_value, object_values, get,
}
use libjaypea.Util.Url.{url_encode, url_decode}

abbrev pub same_type : JsonType → JsonType → Bool
same_type no_type no_type = true
same_type string string = true
same_type object object = true
same_type array array = true
same_type _ _ = false

unfoldable pub has_obj : Bytes → JsonType → JsonObject → Bool
has_obj k t o = elim (get k (object_values o)) [ none ↦ false | some v ↦ same_type (json_type v) t ]

-- `none` is the exception that a missing key throws.
unfoldable pub get_str : Bytes → JsonObject → Option Bytes
get_str k o = elim (get k (object_values o)) [ none ↦ none | some v ↦ some (string_value v) ]

unfoldable pub get_url_encoded_str : Bytes → JsonObject → Option Bytes
unfolding get_str
get_url_encoded_str k o = elim (get_str k o) [ none ↦ none | some s ↦ some (url_encode s) ]

-- `ii` is the uninitialised variable of `url_decode`.
unfoldable pub get_url_decoded_str : ℕ → Bytes → JsonObject → Option Bytes
unfolding get_str
get_url_decoded_str ii k o = elim (get_str k o) [ none ↦ none | some s ↦ some (url_decode ii s) ]
