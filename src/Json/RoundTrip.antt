-- ===== src/Json/RoundTrip.antt =====
-- `JsonObject::parse` on the output of `JsonObject::stringify`.
use libjaypea.Base.{
  done, ℕ, suc, zero, ◌+◌, ◌≤◌, ◌<◌, Bool, Bytes, [], ◌∷◌, ◌++◌, ◌≡◌, refl, ◌∙◌, ap, inl, inr,
  length, length-append, append-nil, arith,
}
use libjaypea.Json.{
  JsonObject, json_object, json_type, no_type, string, object, array, Fields, Items, end, field,
  nil, item, blank, put, push_back,
}
use libjaypea.Json.Text.{escape}
use libjaypea.Json.Parse.{no_state, parse_loop, parse}
use libjaypea.Json.Rounds.{scan, strip, Moves, skip, parse_string, parse_key}
use libjaypea.Json.Nested.{ending}
use libjaypea.Json.Normal.{normal, put_all, push_all, IsText, IsTextFields, IsTextItems}
use libjaypea.Json.Parts.{
  tabs-IsFiller, line-IsFiller, field_comma-IsFiller, item_comma-IsFiller, Reads, stringify-opening,
  member_value, item_value, close_object, close_array, regroup_body, regroup_field, regroup_item,
}
use libjaypea.Json.Stringify.{
  stringify, stringify_fields, stringify_items, tabs, line, deeper, field_comma, item_comma,
}

open_object :
    (f : ℕ) (b x : Bytes)
    → parse_loop (suc f) (scan blank [] no_state b (b'{' ∷ x))
      ≡ parse_loop f (scan (json_object object [] end nil) [] no_state (b'{' ∷ b) x)
unfolding parse_loop
open_object f b x = refl

open_array :
    (f : ℕ) (b x : Bytes)
    → parse_loop (suc f) (scan blank [] no_state b (b'[' ∷ x))
      ≡ parse_loop f (scan (json_object array [] end nil) [] no_state (b'[' ∷ b) x)
unfolding parse_loop
open_array f b x = refl

-- An object with no type is written as an empty string.
parse_empty :
    (s : Bytes) (o : Fields) (a : Items) → Reads (json_object no_type s o a) (b'"' ∷ b'"' ∷ [])
unfolding strip escape normal
parse_empty s o a f b r l = parse_string [] f b r tt l

length_body :
    (x y z : Bytes) (c d : ℕ)
    → length (c ∷ (x ++ (y ++ (z ++ d ∷ [])))) ≡ 2 + length x + length y + length z
length_body x y z c d = omega (
  arith,
  length-append x (y ++ (z ++ d ∷ [])),
  length-append y (z ++ d ∷ []),
  length-append z (d ∷ []),
)

length_field :
    (t k v c l f : Bytes)
    → length (t ++ (k ++ (b':' ∷ (v ++ (c ++ (l ++ f))))))
      ≡ 1 + length t + length k + length v + length c + length l + length f
length_field t k v c l f = omega (
  arith,
  length-append t (k ++ (b':' ∷ (v ++ (c ++ (l ++ f))))),
  length-append k (b':' ∷ (v ++ (c ++ (l ++ f)))),
  length-append v (c ++ (l ++ f)),
  length-append c (l ++ f),
  length-append l f,
)

length_item :
    (t v c l f : Bytes)
    → length (t ++ (v ++ (c ++ (l ++ f)))) ≡ length t + length v + length c + length l + length f
length_item t v c l f = omega (
  arith,
  length-append t (v ++ (c ++ (l ++ f))),
  length-append v (c ++ (l ++ f)),
  length-append c (l ++ f),
  length-append l f,
)

mutual
  unfolding stringify normal

  parse_value : (v : JsonObject) (p : Bool) (d : ℕ) → IsText v → Reads v (stringify p d v)
  parse_value (json_object no_type s o a) p d h f b r l = parse_empty s o a f b r l
  parse_value (json_object string s o a) p d h f b r l = parse_string s f b r h l
  parse_value (json_object object s o a) p d h zero b r l = absurd (omega arith)
  parse_value (json_object object s o a) p d h (suc f) b r l =
      let w = line p in
      let t = tabs p d in
      let fs = stringify_fields p (deeper p d) o in
      let n : length (b'{' ∷ (w ++ (fs ++ (t ++ b'}' ∷ []))))
          ≡ 2 + length w + length fs + length t =
        length_body w fs t b'{' b'}' in
      let (f1, b1, m1, e1) =
        skip object [] end nil w f (b'{' ∷ b) (fs ++ (t ++ b'}' ∷ r)) (inl refl) (line-IsFiller p)
          (omega arith) in
      let (f2, b2, m2, e2) =
        parse_fields o p (deeper p d) h end f1 b1 (t ++ b'}' ∷ r) (omega arith) in
      let (f3, b3, m3, e3) =
        skip object [] (put_all end o) nil t f2 b2 (b'}' ∷ r) (inl refl) (tabs-IsFiller p d)
          (omega arith) in
      let e4 = close_object f3 (put_all end o) b3 r (omega arith) in
      (
        b3,
        ap (λ (y : Bytes). parse_loop (suc f) (scan blank [] no_state b (b'{' ∷ y)))
              (regroup_body w fs t b'}' r)
            ∙ open_object f b _
            ∙ e1
            ∙ e2
            ∙ e3
            ∙ e4,
      )
  parse_value (json_object array s o a) p d h zero b r l = absurd (omega arith)
  parse_value (json_object array s o a) p d h (suc f) b r l =
      let w = line p in
      let t = tabs p d in
      let xs = stringify_items p (deeper p d) a in
      let n : length (b'[' ∷ (w ++ (xs ++ (t ++ b']' ∷ []))))
          ≡ 2 + length w + length xs + length t =
        length_body w xs t b'[' b']' in
      let (f1, b1, m1, e1) =
        skip array [] end nil w f (b'[' ∷ b) (xs ++ (t ++ b']' ∷ r)) (inr refl) (line-IsFiller p)
          (omega arith) in
      let (f2, b2, m2, e2) =
        parse_items a p (deeper p d) h nil f1 b1 (t ++ b']' ∷ r) (omega arith) in
      let (f3, b3, m3, e3) =
        skip array [] end (push_all nil a) t f2 b2 (b']' ∷ r) (inr refl) (tabs-IsFiller p d)
          (omega arith) in
      let e4 = close_array f3 (push_all nil a) b3 r (omega arith) in
      (
        b3,
        ap (λ (y : Bytes). parse_loop (suc f) (scan blank [] no_state b (b'[' ∷ y)))
              (regroup_body w xs t b']' r)
            ∙ open_array f b _
            ∙ e1
            ∙ e2
            ∙ e3
            ∙ e4,
      )

  parse_fields :
      (fs : Fields) (p : Bool) (d : ℕ)
      → IsTextFields fs
      → (acc : Fields) (f : ℕ) (b r : Bytes) → length (stringify_fields p d fs) < f
      → Moves
          (length (stringify_fields p d fs))
          f
          (scan (json_object object [] acc nil) [] no_state b (stringify_fields p d fs ++ r))
          (json_object object [] (put_all acc fs) nil)
          []
          no_state
          r
  parse_fields end p d h acc f b r l = (f, b, omega arith, refl)
  parse_fields (field k v fs) p d (hk, hv, hs) acc f b r l =
      let t = tabs p d in
      let x = stringify p d v in
      let c = field_comma fs in
      let w = line p in
      let rest = stringify_fields p d fs in
      let n = length_field t (escape k) x c w rest in
      let acc' = put (strip k) (normal v) acc in
      let (f1, b1, m1, e1) =
        skip object [] acc nil t f b (escape k ++ (b':' ∷ (x ++ (c ++ (w ++ (rest ++ r))))))
          (inl refl) (tabs-IsFiller p d) (omega arith) in
      let (f2, b2, m2, e2) =
        parse_key [] acc nil k f1 b1 (b':' ∷ (x ++ (c ++ (w ++ (rest ++ r))))) hk (omega arith) in
      let (f3, b3, m3, e3) =
        member_value v x (parse_value v p d hv) f2 b2 (c ++ (w ++ (rest ++ r))) (strip k) acc
          (omega arith) in
      let (f4, b4, m4, e4) =
        skip object [] acc' nil c f3 b3 (w ++ (rest ++ r)) (inl refl) (field_comma-IsFiller fs)
          (omega arith) in
      let (f5, b5, m5, e5) =
        skip object [] acc' nil w f4 b4 (rest ++ r) (inl refl) (line-IsFiller p) (omega arith) in
      let (f6, b6, m6, e6) = parse_fields fs p d hs acc' f5 b5 r (omega arith) in
      (
        f6,
        b6,
        omega arith,
        ap (λ (y : Bytes). parse_loop f (scan (json_object object [] acc nil) [] no_state b y))
              (regroup_field t (escape k) x c w rest r)
            ∙ e1
            ∙ e2
            ∙ e3
            ∙ e4
            ∙ e5
            ∙ e6,
      )

  parse_items :
      (xs : Items) (p : Bool) (d : ℕ)
      → IsTextItems xs
      → (acc : Items) (f : ℕ) (b r : Bytes) → length (stringify_items p d xs) < f
      → Moves
          (length (stringify_items p d xs))
          f
          (scan (json_object array [] end acc) [] no_state b (stringify_items p d xs ++ r))
          (json_object array [] end (push_all acc xs))
          []
          no_state
          r
  parse_items nil p d h acc f b r l = (f, b, omega arith, refl)
  parse_items (item v xs) p d (hv, hs) acc f b r l =
      let t = tabs p d in
      let x = stringify p d v in
      let c = item_comma xs in
      let w = line p in
      let rest = stringify_items p d xs in
      let n = length_item t x c w rest in
      let acc' = push_back acc (normal v) in
      let (y, q) = stringify-opening p d v in
      let (f1, b1, m1, e1) =
        skip array [] end acc t f b (x ++ (c ++ (w ++ (rest ++ r)))) (inr refl) (tabs-IsFiller p d)
          (omega arith) in
      let (f3, b3, m3, e3) =
        item_value v x (parse_value v p d hv) f1 b1 (c ++ (w ++ (rest ++ r))) y acc q
          (omega arith) in
      let (f4, b4, m4, e4) =
        skip array [] end acc' c f3 b3 (w ++ (rest ++ r)) (inr refl) (item_comma-IsFiller xs)
          (omega arith) in
      let (f5, b5, m5, e5) =
        skip array [] end acc' w f4 b4 (rest ++ r) (inr refl) (line-IsFiller p) (omega arith) in
      let (f6, b6, m6, e6) = parse_items xs p d hs acc' f5 b5 r (omega (arith, ap length q)) in
      (
        f6,
        b6,
        omega (arith, ap length q),
        ap (λ (y : Bytes). parse_loop f (scan (json_object array [] end acc) [] no_state b y))
              (regroup_item t x c w rest r)
            ∙ e1
            ∙ e3
            ∙ e4
            ∙ e5
            ∙ e6,
      )

-- With fuel for each byte, `parse` on what `stringify` wrote, in either layout and at any depth,
-- returns, and has read the normal form of the object and the whole text.
pub parse-stringify :
    (v : JsonObject) (pretty : Bool) (depth f : ℕ)
    → IsText v
    → length (stringify pretty depth v) ≤ f
    → (b : Bytes) × (parse f blank (stringify pretty depth v)
        ≡ done (normal v, ending (json_type (normal v)) b []))
unfolding parse
parse-stringify v pretty depth f h l =
    let (b, e) = parse_value v pretty depth h f [] [] l in (b, rw append-nil at e)
