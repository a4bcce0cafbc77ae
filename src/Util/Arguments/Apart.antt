-- ===== src/Util/Arguments/Apart.antt =====
-- Arguments of `parse_arguments` in cpp-source/util.cpp that share no spelling.
use libjaypea.Base.{
  ℕ, ◌≢◌, Bytes, equal, [], ◌∷◌, List, Bool, true, false, if◌then◌else◌, Option, none, some, ◌≡◌,
  refl, sym, subst, ap, ◌∙◌, inl, inr, Bool-cases, either_way,
}
use libjaypea.Util.Arguments.{
  ℤ, ArgumentType, arg_string, arg_integer, arg_boolean, Argument, stoi, call_back, set_text,
  set_integer, set_boolean, assign, is_name, alts_loop, then_do, push_some, scan_word, scan_words,
}

abbrev pub is_alt : Bytes → List Bytes → Bool
is_alt word [] = false
is_alt word (alt ∷ alts) = if equal word alt then true else is_alt word alts

-- The word is a spelling of the argument.
abbrev pub spells : Bytes → Argument → Bool
spells word a = if is_name word a then true else is_alt word a.alts

-- What a word does to one argument alone.
abbrev pub scan_one : Bytes → List Bytes → Argument → Option Argument
scan_one word following a = if spells word a then assign a.type following a else some a

-- What the words do to one argument alone.
unfoldable pub scan_alone : List Bytes → Argument → Option Argument
scan_alone [] a = some a
scan_alone (word ∷ words) a = then_do (scan_one word words a) (scan_alone words)

unfoldable pub each : (Argument → Option Argument) → List Argument → Option (List Argument)
each f [] = some []
each f (a ∷ arguments) = push_some (f a) (each f arguments)

abbrev pub NoneSpelled : Bytes → List Argument → Type 0
NoneSpelled word [] = Unit
NoneSpelled word (a ∷ arguments) = (spells word a ≡ false) × NoneSpelled word arguments

-- No word is a spelling of two arguments.
abbrev pub AreApart : List Argument → Type 0
AreApart [] = Unit
AreApart (a ∷ arguments) =
    ((word : Bytes) → spells word a ≡ true → NoneSpelled word arguments) × AreApart arguments

-- No two arguments refer to one variable.
abbrev pub RefersElsewhere : ℕ → List Argument → Type 0
RefersElsewhere variable [] = Unit
RefersElsewhere variable (a ∷ arguments) =
    (variable ≢ a.variable) × RefersElsewhere variable arguments

abbrev pub HaveOwn : List Argument → Type 0
HaveOwn [] = Unit
HaveOwn (a ∷ arguments) = RefersElsewhere a.variable arguments × HaveOwn arguments

alts_loop-is_alt :
    (word : Bytes) (following alts : List Bytes) (a : Argument)
    → alts_loop word following alts a
      ≡ (if is_alt word alts then assign a.type following a else some a)
unfolding alts_loop
alts_loop-is_alt word following [] a = refl
alts_loop-is_alt word following (alt ∷ alts) a = elim (Bool-cases (equal word alt)) [
  | inl same ↦ rw same refl
  | inr other ↦ rw other (alts_loop-is_alt word following alts a)
]

none_spelled :
    (word : Bytes) (following : List Bytes) (arguments : List Argument)
    → NoneSpelled word arguments
    → each (scan_one word following) arguments ≡ some arguments
unfolding each
none_spelled word following [] free = refl
none_spelled word following (a ∷ arguments) (not_this, free) =
    rw (not_this, none_spelled word following arguments free) refl

scan_word-each :
    (word : Bytes) (following : List Bytes) (arguments : List Argument)
    → AreApart arguments
    → scan_word word following arguments ≡ each (scan_one word following) arguments
unfolding scan_word each
scan_word-each word following [] apart = refl
scan_word-each word following (a ∷ arguments) (this, apart) = elim (Bool-cases (is_name word a)) [
  | inl name ↦
      let spelled : spells word a ≡ true = rw name refl in
      rw (name, none_spelled word following arguments (this word spelled)) refl
  | inr other ↦
      rw
        (
          other,
          alts_loop-is_alt word following a.alts a,
          scan_word-each word following arguments apart,
        )
        refl
]

-- The spellings stay.
abbrev Keeps : (Argument → Option Argument) → Type 0
Keeps f = (a b : Argument) → f a ≡ some b → (word : Bytes) → spells word b ≡ spells word a

kept :
    (a x b : Argument)
    → ((word : Bytes) → spells word x ≡ spells word a)
    → some x ≡ some b
    → (word : Bytes) → spells word b ≡ spells word a
kept a x b h e word = let same : x ≡ b = cc e in sym (ap (spells word) same) ∙ h word

set_integer-Keeps : (n : Option ℤ) → Keeps (set_integer n)
set_integer-Keeps none a b e word = absurd (cc e)
set_integer-Keeps (some n) a b e word =
    kept a (call_back (record a { integer = n; is_set = true })) b (λ (w : Bytes). refl) e word

assign-Keeps : (type : ArgumentType) (following : List Bytes) → Keeps (assign type following)
assign-Keeps arg_boolean following a b e word =
    kept a (set_boolean a) b (λ (w : Bytes). refl) e word
assign-Keeps arg_string [] a b e word = kept a a b (λ (w : Bytes). refl) e word
assign-Keeps arg_string (next ∷ following) a b e word =
    kept a (set_text next a) b (λ (w : Bytes). refl) e word
assign-Keeps arg_integer [] a b e word = kept a a b (λ (w : Bytes). refl) e word
assign-Keeps arg_integer (next ∷ following) a b e word = set_integer-Keeps (stoi next) a b e word

scan_one-Keeps : (word : Bytes) (following : List Bytes) → Keeps (scan_one word following)
scan_one-Keeps word following a b =
    either_way (λ (o : Option Argument). o ≡ some b → (w : Bytes) → spells w b ≡ spells w a)
      (spells word a) (assign-Keeps a.type following a b) (kept a a b (λ (w : Bytes). refl))

abbrev Pushed : Option Argument → Option (List Argument) → List Argument → Type 0
Pushed o r out =
    (b : Argument) × (bs : List Argument) × (o ≡ some b) × (r ≡ some bs) × (b ∷ bs ≡ out)

push_some_inverse :
    (o : Option Argument) (r : Option (List Argument)) (out : List Argument)
    → push_some o r ≡ some out
    → Pushed o r out
push_some_inverse none r out e = absurd (cc e)
push_some_inverse (some b) none out e = absurd (cc e)
push_some_inverse (some b) (some bs) out e = (b, bs, refl, refl, cc e)

module _ (f : Argument → Option Argument) (keeps : Keeps f) where
  each-NoneSpelled :
      (word : Bytes) (arguments out : List Argument)
      → each f arguments ≡ some out
      → NoneSpelled word arguments
      → NoneSpelled word out
  unfolding each
  each-NoneSpelled word [] out e free =
      let nothing : [] ≡ out = cc e in subst (NoneSpelled word) nothing tt
  each-NoneSpelled word (a ∷ arguments) out e (not_this, free) =
      let parts = push_some_inverse (f a) (each f arguments) out e in
      subst (NoneSpelled word) parts.4 (
        keeps a parts.0 parts.2 word ∙ not_this,
        each-NoneSpelled word arguments parts.1 parts.3 free,
      )

  each-AreApart :
      (arguments out : List Argument)
      → each f arguments ≡ some out
      → AreApart arguments
      → AreApart out
  unfolding each
  each-AreApart [] out e apart = let nothing : [] ≡ out = cc e in subst AreApart nothing tt
  each-AreApart (a ∷ arguments) out e (this, apart) =
      let parts = push_some_inverse (f a) (each f arguments) out e in
      subst AreApart parts.4 (
        λ (word : Bytes) (spelled : spells word parts.0 ≡ true).
            each-NoneSpelled word arguments parts.1 parts.3
              (this word (sym (keeps a parts.0 parts.2 word) ∙ spelled)),
        each-AreApart arguments parts.1 parts.3 apart,
      )

push_some-none : (o : Option Argument) → push_some o none ≡ none
push_some-none none = refl
push_some-none (some b) = refl

then_each :
    (g : Argument → Option Argument) (o : Option Argument) (r : Option (List Argument))
    → then_do (push_some o r) (each g) ≡ push_some (then_do o g) (then_do r (each g))
unfolding each
then_each g none r = refl
then_each g (some b) none = sym (push_some-none (g b))
then_each g (some b) (some bs) = refl

each-each :
    (f g : Argument → Option Argument) (arguments : List Argument)
    → then_do (each f arguments) (each g) ≡ each (λ (a : Argument). then_do (f a) g) arguments
unfolding each
each-each f g [] = refl
each-each f g (a ∷ arguments) =
    then_each g (f a) (each f arguments)
    ∙ ap (push_some (then_do (f a) g)) (each-each f g arguments)

each-some : (arguments : List Argument) → each some arguments ≡ some arguments
unfolding each
each-some [] = refl
each-some (a ∷ arguments) = rw (each-some arguments) refl

then_same :
    (r : Option (List Argument)) (f g : List Argument → Option (List Argument))
    → ((out : List Argument) → r ≡ some out → f out ≡ g out)
    → then_do r f ≡ then_do r g
then_same none f g h = refl
then_same (some out) f g h = h out refl

scan_words_apart :
    (words : List Bytes) (arguments : List Argument)
    → AreApart arguments
    → scan_words words arguments ≡ each (scan_alone words) arguments
unfolding scan_words scan_alone
scan_words_apart [] arguments apart = sym (each-some arguments)
scan_words_apart (word ∷ words) arguments apart =
    ap (λ (r : Option (List Argument)). then_do r (scan_words words))
      (scan_word-each word words arguments apart)
    ∙ (then_same (each (scan_one word words) arguments) (scan_words words) (each (scan_alone words))
          (λ (out : List Argument) (e : each (scan_one word words) arguments ≡ some out).
            scan_words_apart words out (
              each-AreApart (scan_one word words) (scan_one-Keeps word words) arguments out e
                apart))
        ∙ each-each (scan_one word words) (scan_alone words) arguments)

-- When no word is a spelling of two arguments, and no two arguments refer to one variable, the
-- command line does to each argument what it does to it alone, and ends in an exception exactly when
-- it does for one of them.
pub scan_words-each :
    (words : List Bytes) (arguments : List Argument)
    → HaveOwn arguments
    → AreApart arguments
    → scan_words words arguments ≡ each (scan_alone words) arguments
scan_words-each words arguments own apart = scan_words_apart words arguments apart
