-- ===== src/Tests/Tanks.antt =====
-- A short game of cpp-source/examples/jph2/tanks-wss.cpp, with natural numbers for its `double`.
use libjaypea.Base.{
  ℕ, ◌+◌, ◌-◌, ◌*◌, Bytes, codes, [], ◌∷◌, List, false, ltb, leb, equal, if◌then◌else◌, none, some,
  ◌≡◌, refl, length,
}
use libjaypea.Base.Tables.{find}
use libjaypea.Json.{JsonObject, of_type, of_string, set_field, object, put, get}
use libjaypea.Json.Access.{get_str, has_obj}
use libjaypea.Jph2.Tanks.{Double, new_game, on_read}
use libjaypea.Jph2.Tanks.Whole.Messages.{IsWhole, GoesOn}
use libjaypea.Jph2.Tanks.Whole.Ticks.{
  Happening, arrives, goes, ticks, AllNumbers, happen_all, happen_all-GoesOn,
}

abbrev numbers : Double ℕ
numbers = record {
  literal = λ text. length text;
  plus = λ a b. a + b;
  minus = λ a b. a - b;
  times = λ a b. a * b;
  negate = λ a. a;
  less = λ a b. ltb a b;
  at_most = λ a b. leb a b;
  abs = λ a. a;
  cos = λ a. a;
  sin = λ a. a;
  nan = 0;
  is_nan = λ a. false;
  stod = λ text. if equal text [] then none else some (length text);
  to_string = λ a. codes "0";
}

abbrev announced : JsonObject
announced = set_field (codes "announce") (of_string (codes "ann")) (of_type object)

abbrev spawning : Bytes → JsonObject
spawning x = set_field (codes "handle") (of_string (codes "ann")) (
    set_field (codes "x") (of_string x)
      (set_field (codes "y") (of_string (codes "7")) (of_type object)))

abbrev hour : List Happening
hour = arrives 5 announced ∷ arrives 5 (spawning (codes "20")) ∷ ticks ∷ goes 5 ∷ ticks ∷ []

numbers_of_hour : AllNumbers numbers hour
unfolding put get equal get_str has_obj
numbers_of_hour = (tt, tt, (refl, refl, tt))

new_game-IsWhole : IsWhole (new_game {R = ℕ})
unfolding find
new_game-IsWhole = record { players = tt; clients = λ fd details h. cc }

happen_all-GoesOn_example : GoesOn (happen_all numbers 0 hour new_game)
happen_all-GoesOn_example =
    happen_all-GoesOn numbers 0 hour new_game numbers_of_hour new_game-IsWhole

-- A text that is no number is an exception that ends the thread.
bad_number : on_read numbers 5 (spawning []) new_game ≡ none
unfolding on_read put get equal get_str has_obj
bad_number = refl
