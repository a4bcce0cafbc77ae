-- ===== src/Json/Parts.antt =====
-- One part of an object or an array at a time: its filler, a member or an item, its bracket.
use libjaypea.Base.{
  done, ℕ, suc, zero, ◌+◌, ◌≤◌, ◌<◌, Bool, true, false, Bytes, [], ◌∷◌, ◌++◌, append_assoc, ◌≡◌,
  refl, length, arith,
}
use libjaypea.Json.{
  JsonObject, json_object, json_type, no_type, string, object, array, Fields, Items, end, field,
  nil, item, blank, put, push_back,
}
use libjaypea.Json.Cursor.{at}
use libjaypea.Json.Text.{escape}
use libjaypea.Json.Parse.{no_state, got_key, parse_loop}
use libjaypea.Json.Rounds.{scan, Moves, IsFiller}
use libjaypea.Json.Nested.{opening, ending, closed, member_round, item_round}
use libjaypea.Json.Normal.{normal}
use libjaypea.Json.Stringify.{stringify, tabs, line, field_comma, item_comma}

pub tabs-IsFiller : (p : Bool) (d : ℕ) → IsFiller (tabs p d)
tabs-IsFiller false d = tt
tabs-IsFiller true zero = tt
tabs-IsFiller true (suc d) = (refl, tabs-IsFiller true d)

pub line-IsFiller : (p : Bool) → IsFiller (line p)
line-IsFiller false = tt
line-IsFiller true = (refl, tt)

pub field_comma-IsFiller : (fs : Fields) → IsFiller (field_comma fs)
field_comma-IsFiller end = tt
field_comma-IsFiller (field k v fs) = (refl, tt)

pub item_comma-IsFiller : (xs : Items) → IsFiller (item_comma xs)
item_comma-IsFiller nil = tt
item_comma-IsFiller (item v xs) = (refl, tt)

-- What is proved of the nested call on `v`.
abbrev pub Reads : JsonObject → Bytes → Type 0
Reads v text =
    (f : ℕ) (b r : Bytes)
    → length text ≤ f
    → (b' : Bytes) × (parse_loop f (scan blank [] no_state b (text ++ r))
        ≡ done (normal v, ending (json_type (normal v)) b' r))

pub stringify-opening :
    (p : Bool) (d : ℕ) (v : JsonObject)
    → (x : Bytes) × (stringify p d v ≡ opening (json_type (normal v)) ∷ x)
unfolding stringify normal escape
stringify-opening p d (json_object no_type s o a) = (_, refl)
stringify-opening p d (json_object string s o a) = (_, refl)
stringify-opening p d (json_object object s o a) = (_, refl)
stringify-opening p d (json_object array s o a) = (_, refl)

module _ (v : JsonObject) (text : Bytes) (reads : Reads v text) where
  pub member_value :
      (f : ℕ) (b r k : Bytes) (acc : Fields)
      → length text + 2 ≤ f
      → Moves 1 f
          (scan (json_object object [] acc nil) k got_key b (b':' ∷ (text ++ r)))
          (json_object object [] (put k (normal v) acc) nil)
          []
          no_state
          r
  member_value zero b r k acc l = absurd (omega arith)
  member_value (suc zero) b r k acc l = absurd (omega arith)
  member_value (suc (suc f)) b r k acc l =
      let (b', e) = reads f (b':' ∷ b) r (omega arith) in
      (
        suc f,
        closed (json_type (normal v)) b',
        omega arith,
        member_round (suc f) b b' (text ++ r) r acc nil k (normal v) (unfold parse_loop in e),
      )

  pub item_value :
      (f : ℕ) (b r x : Bytes) (acc : Items)
      → text ≡ opening (json_type (normal v)) ∷ x
      → length text + 1 ≤ f
      → Moves 1 f
          (scan (json_object array [] end acc) [] no_state b (text ++ r))
          (json_object array [] end (push_back acc (normal v)))
          []
          no_state
          r
  item_value zero b r x acc q l = absurd (omega arith)
  item_value (suc f) b r x acc q l =
      let (b', e) = reads f b r (omega arith) in
      (
        f,
        closed (json_type (normal v)) b',
        omega arith,
        rw q (item_round f b b' (x ++ r) r end acc (normal v) (rw q at e)),
      )

pub close_object :
    (f : ℕ) (o : Fields) (b r : Bytes)
    → 0 < f
    → parse_loop f (scan (json_object object [] o nil) [] no_state b (b'}' ∷ r))
      ≡ done (json_object object [] o nil, at b (b'}' ∷ r))
unfolding parse_loop
close_object zero o b r l = absurd (omega arith)
close_object (suc f) o b r l = refl

pub close_array :
    (f : ℕ) (a : Items) (b r : Bytes)
    → 0 < f
    → parse_loop f (scan (json_object array [] end a) [] no_state b (b']' ∷ r))
      ≡ done (json_object array [] end a, at b (b']' ∷ r))
unfolding parse_loop
close_array zero a b r l = absurd (omega arith)
close_array (suc f) a b r l = refl

pub regroup_body :
    (x y z : Bytes) (c : ℕ) (r : Bytes)
    → (x ++ (y ++ (z ++ c ∷ []))) ++ r ≡ x ++ (y ++ (z ++ c ∷ r))
regroup_body x y z c r = simp append_assoc

pub regroup_field :
    (t k v c l f r : Bytes)
    → (t ++ (k ++ (b':' ∷ (v ++ (c ++ (l ++ f)))))) ++ r
      ≡ t ++ (k ++ (b':' ∷ (v ++ (c ++ (l ++ (f ++ r))))))
regroup_field t k v c l f r = simp append_assoc

pub regroup_item :
    (t v c l f r : Bytes) → (t ++ (v ++ (c ++ (l ++ f)))) ++ r ≡ t ++ (v ++ (c ++ (l ++ (f ++ r))))
regroup_item t v c l f r = simp append_assoc
