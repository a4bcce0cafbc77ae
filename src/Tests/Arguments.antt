-- ===== src/Tests/Arguments.antt =====
-- A command line for `parse_arguments` of cpp-source/util.cpp.
use libjaypea.Base.{
  Bytes, codes, equal, equal_iff, [], ◌∷◌, List, true, false, some, none, ◌≡◌, arith, refl, sym,
  subst, inl, inr, Bool-cases, done,
}
use libjaypea.Util.Arguments.{
  pos, negsuc, arg_string, arg_integer, Argument, define_argument, digits, stoi, alts_loop,
  scan_word, scan_words, parse_arguments, thrown,
}
use libjaypea.Util.Arguments.Apart.{
  spells, scan_alone, each, NoneSpelled, AreApart, HaveOwn, scan_words-each,
}

abbrev port : Argument
port = define_argument 3 arg_integer (codes "port") [] (pos 80) false (codes "-p" ∷ []) true false

abbrev host : Argument
host =
    define_argument 4 arg_string (codes "host") (codes "localhost") (pos 0) false (codes "-h" ∷ [])
      false true

numbers : stoi (codes " -12x") ≡ some (negsuc 11)
unfolding stoi digits
numbers = refl

too_large : stoi (codes "2147483648") ≡ none
unfolding stoi digits
too_large = refl

abbrev line : List Bytes
line = codes "server" ∷ codes "-p" ∷ codes "8080" ∷ codes "--host" ∷ codes "a.b" ∷ []

port_apart : (word : Bytes) → spells word port ≡ true → NoneSpelled word (host ∷ [])
unfolding equal
port_apart word spelled = elim (Bool-cases (equal word (codes "--port"))) [
  | inl name ↦
      subst (λ (w : Bytes). NoneSpelled w (host ∷ []))
        (sym ((equal_iff word (codes "--port")).0 name)) (refl, tt)
  | inr other ↦ elim (Bool-cases (equal word (codes "-p"))) [
    | inl alt ↦
        subst (λ (w : Bytes). NoneSpelled w (host ∷ [])) (sym ((equal_iff word (codes "-p")).0 alt))
          (refl, tt)
    | inr another ↦
        let neither : spells word port ≡ false = rw (other, another) refl in
        absurd (cc (spelled, neither))
  ]
]

both_apart : AreApart (port ∷ host ∷ [])
both_apart = (port_apart, (λ (word : Bytes) (spelled : spells word host ≡ true). tt, tt))

two_variables : HaveOwn (port ∷ host ∷ [])
two_variables = ((λ e. ground arith, tt), (tt, tt))

scan_words-each_example :
    scan_words line (port ∷ host ∷ []) ≡ each (scan_alone line) (port ∷ host ∷ [])
scan_words-each_example = scan_words-each line (port ∷ host ∷ []) two_variables both_apart

both_set :
    scan_words line (port ∷ host ∷ [])
    ≡ some (
        record port { integer = pos 8080; is_set = true; calls = 1 }
        ∷ record host { text = codes "a.b"; is_set = true }
        ∷ [])
unfolding scan_words scan_word alts_loop equal stoi digits
both_set = refl

not_a_number :
    parse_arguments 9 (λ (path : Bytes). none) (port ∷ []) (codes "-p" ∷ codes "x" ∷ [])
    ≡ done thrown
unfolding parse_arguments scan_words scan_word alts_loop equal stoi digits
not_a_number = refl
