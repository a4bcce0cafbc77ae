-- ===== src/Json/Nested.antt =====
-- The rounds of `JsonObject::parse` that parse a nested object: where the nested call stops, and
-- where the loop goes on.
use libjaypea.Base.{done, ℕ, suc, Bytes, [], ◌∷◌, ◌≡◌}
use libjaypea.Json.{
  JsonObject, json_object, json_type, JsonType, no_type, string, object, array, Fields, Items,
  blank, put, push_back,
}
use libjaypea.Json.Cursor.{Cursor, at}
use libjaypea.Json.Parse.{no_state, got_key, parse_loop}
use libjaypea.Json.Rounds.{scan}

-- The byte that opens a value of each type; an object with no type is written as an empty string.
abbrev pub opening : JsonType → ℕ
opening no_type = b'"'
opening string = b'"'
opening object = b'{'
opening array = b'['

-- The pointer that `parse` returns: behind a string's closing quote, at a closing bracket.
abbrev pub ending : JsonType → Bytes → Bytes → Cursor
ending no_type b r = at (b'"' ∷ b) r
ending string b r = at (b'"' ∷ b) r
ending object b r = at b (b'}' ∷ r)
ending array b r = at b (b']' ∷ r)

-- The bytes behind the cursor once the loop has gone on.
abbrev pub closed : JsonType → Bytes → Bytes
closed no_type b = b'"' ∷ b
closed string b = b'"' ∷ b
closed object b = b'}' ∷ b
closed array b = b']' ∷ b

module _ (f : ℕ) (b b' x r : Bytes) (o : Fields) (a : Items) where
  pub member_round :
      (k : Bytes) (v : JsonObject)
      → parse_loop f (scan blank [] no_state b (b':' ∷ x)) ≡ done (v, ending (json_type v) b' r)
      → parse_loop (suc f) (scan (json_object object [] o a) k got_key b (b':' ∷ x))
        ≡ parse_loop f
            (scan (json_object object [] (put k v o) a) [] no_state (closed (json_type v) b') r)
  unfolding parse_loop
  member_round k (json_object no_type s p q) e = rw e
  member_round k (json_object string s p q) e = rw e
  member_round k (json_object object s p q) e = rw e
  member_round k (json_object array s p q) e = rw e

  pub item_round :
      (v : JsonObject)
      → parse_loop f (scan blank [] no_state b (opening (json_type v) ∷ x))
        ≡ done (v, ending (json_type v) b' r)
      → parse_loop
          (suc f)
          (scan (json_object array [] o a) [] no_state b (opening (json_type v) ∷ x))
        ≡ parse_loop f
            (scan (json_object array [] o (push_back a v)) [] no_state (closed (json_type v) b') r)
  unfolding parse_loop
  item_round (json_object no_type s p q) e = rw e
  item_round (json_object string s p q) e = rw e
  item_round (json_object object s p q) e = rw e
  item_round (json_object array s p q) e = rw e
