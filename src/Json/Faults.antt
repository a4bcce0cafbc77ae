-- ===== src/Json/Faults.antt =====
-- Inputs on which the loop of `JsonObject::parse` does not end, or leaves the text.
use libjaypea.Base.{
  out_of_fuel, overrun, ℕ, suc, zero, ◌+◌, ◌≤◌, ◌<◌, Bytes, [], ◌∷◌, ◌++◌, append_assoc, append-nil,
  ◌≡◌, refl, ◌∙◌, ap, inr, length, arith, NoZero,
}
use libjaypea.Json.{
  JsonObject, json_object, array, no_type, set_type, Fields, Items, blank, of_string, push_back,
}
use libjaypea.Json.Text.{escape_byte, escape_body}
use libjaypea.Json.Parse.{JsonObjectState, no_state, parse_loop, parse}
use libjaypea.Json.Rounds.{
  scan, strip, gather, pass, Moves, IsFiller, skip, string_round, gather-strip, one-le-escape_byte,
}

module _ (s : Bytes) (o : Fields) where
  -- The nested call stops in front of the same quote, since both ends of it step back.
  hang_round :
      (f : ℕ) (a : Items) (b : Bytes)
      → parse_loop (suc (suc (suc f))) (scan (json_object array s o a) [] no_state b (b'"' ∷ []))
        ≡ parse_loop
            (suc (suc f))
            (scan (json_object array s o (push_back a (of_string []))) [] no_state b (b'"' ∷ []))
  unfolding parse_loop
  hang_round f a [] = refl
  hang_round f a (c ∷ b) = refl

  hang_loop :
      (f : ℕ) (a : Items) (b : Bytes)
      → parse_loop f (scan (json_object array s o a) [] no_state b (b'"' ∷ [])) ≡ out_of_fuel
  hang_loop zero a b = unfold parse_loop in refl
  hang_loop (suc zero) a b = unfold parse_loop in refl
  hang_loop (suc (suc zero)) a b = unfold parse_loop in refl
  hang_loop (suc (suc (suc f))) a b =
      hang_round f a b ∙ hang_loop (suc (suc f)) (push_back a (of_string [])) b

  hang_from :
      (f : ℕ) (a : Items) (w : Bytes)
      → IsFiller w
      → length w ≤ f
      → parse_loop f (scan (json_object array s o a) [] no_state (b'[' ∷ []) (w ++ b'"' ∷ []))
        ≡ out_of_fuel
  hang_from f a w h l =
      let (f', b', m, e) = skip array s o a w f (b'[' ∷ []) (b'"' ∷ []) (inr refl) h l in
      e ∙ hang_loop f' a b'

-- On an opening bracket, filler and a quote, an array without items whose last byte opens a string,
-- `parse` does not return, with however much fuel from one unit for each byte on, from whichever
-- object with its type cleared.
pub parse-hangs :
    (u : JsonObject) (w : Bytes) (f : ℕ)
    → IsFiller w
    → length w < f
    → parse f (set_type no_type u) (b'[' ∷ (w ++ b'"' ∷ [])) ≡ out_of_fuel
unfolding parse
parse-hangs (json_object t s o a) w zero h l = absurd (omega arith)
parse-hangs (json_object t s o a) w (suc f) h l = hang_from s o f a w h (omega arith)

string_prefix :
    (s : Bytes) (f : ℕ) (ss : Bytes) (st : JsonObjectState) (b r : Bytes)
    → NoZero s
    → length (escape_body s) ≤ f
    → Moves
        (length (escape_body s))
        f
        (scan (of_string []) ss st b (escape_body s ++ r))
        (of_string [])
        (ss ++ strip s)
        st
        r
string_prefix [] f ss st b r h l = (f, b, omega arith, unfold strip in rw append-nil)
string_prefix (c ∷ cs) zero ss st b r (nz, h) l =
    absurd (omega (arith, one-le-escape_byte c (escape_body cs)))
string_prefix (c ∷ cs) (suc f) ss st b r (nz, h) l =
    let (f', b', m, e) =
      string_prefix cs f (gather ss c) st (pass (escape_byte c) b) r h
        (omega (arith, one-le-escape_byte c (escape_body cs))) in
    (
      f',
      b',
      omega (arith, one-le-escape_byte c (escape_body cs)),
      ap (λ (x : Bytes). parse_loop (suc f) (scan (of_string []) ss st b x))
            (append_assoc (escape_byte c) (escape_body cs) r)
          ∙ string_round f ss b c _ nz st
          ∙ e
          ∙ ap (λ (x : Bytes). parse_loop f' (scan (of_string []) x st b' r))
              (gather-strip ss c cs),
    )

overrun_round :
    (f : ℕ) (ss : Bytes) (st : JsonObjectState) (b : Bytes)
    → 0 < f
    → parse_loop f (scan (of_string []) ss st b (b'\\' ∷ [])) ≡ overrun
unfolding parse_loop
overrun_round zero ss st b l = absurd (omega arith)
overrun_round (suc f) ss st b l = refl

-- A string that ends in a single backslash: `parse` reads on behind the terminating zero.
pub parse-overruns :
    (s : Bytes) (f : ℕ)
    → NoZero s
    → length (escape_body s) + 2 ≤ f
    → parse f blank (b'"' ∷ (escape_body s ++ b'\\' ∷ [])) ≡ overrun
parse-overruns s zero h l = absurd (omega arith)
parse-overruns s (suc f) h l =
    let (f', b', m, e) = string_prefix s f [] no_state (b'"' ∷ []) (b'\\' ∷ []) h (omega arith) in
    unfold parse in e ∙ overrun_round f' (strip s) no_state b' (omega arith)
