-- ===== src/Util/Arguments.antt =====
-- `define_argument` and `parse_arguments` of cpp-source/util.cpp.
pub mod Apart
use libjaypea.Base.{
  cons_some, ℕ, ◌+◌, ◌*◌, ◌-◌, ◌^◌, Bytes, codes, equal, [], ◌∷◌, ◌++◌, List, Bool, true, false,
  not, ◌||◌, ◌==◌, leb, ◌&&◌, if◌then◌else◌, Option, none, some, length, drop, c_str, Run, done,
  ◌>>=◌,
}
use libjaypea.Json.{JsonObject, blank, object_values, string_value, get}
use libjaypea.Json.Parse.{parse}

pub data ℤ : Type 0 where
  pos negsuc : ℕ → ℤ

pub data ArgumentType : Type 0 where
  arg_string arg_integer arg_boolean : ArgumentType

-- `Argument`, with the calls of its callback. `variable` says which variable of its type it refers
-- to, and `text`, `integer` or `boolean` is what stands there. The model keeps the contents with
-- each argument, so it is that of the code when no two arguments refer to one variable, as `HaveOwn`
-- of Util.Arguments.Apart says; two that do, such as send-file and recv-file of
-- cpp-source/examples/com.cpp, are not modelled.
pub record Argument : Type 0 where
  pub variable : ℕ
  pub name : Bytes
  pub alts : List Bytes
  pub has_callback : Bool
  pub required : Bool
  pub is_set : Bool
  pub type : ArgumentType
  pub text : Bytes
  pub integer : ℤ
  pub boolean : Bool
  pub calls : ℕ

abbrev pub define_argument :
    ℕ → ArgumentType → Bytes → Bytes → ℤ → Bool → List Bytes → Bool → Bool → Argument
define_argument variable type name text integer boolean alts has_callback required = record {
  variable = variable;
  name = name;
  alts = alts;
  has_callback = has_callback;
  required = required;
  is_set = false;
  type = type;
  text = text;
  integer = integer;
  boolean = boolean;
  calls = 0;
}

abbrev is_space : ℕ → Bool
is_space c = (leb 9 c && leb c 13) || c == b' '

abbrev is_digit : ℕ → Bool
is_digit c = leb b'0' c && leb c b'9'

-- The number that the digits in front of a text have, behind a number.
unfoldable pub digits : ℕ → Bytes → ℕ
digits n [] = n
digits n (c ∷ s) = let rest = digits (n * 10 + (c - b'0')) s in if is_digit c then rest else n

abbrev pub signed : Bool → ℕ → Option ℤ
signed false n = if leb n (2 ^ 31 - 1) then some (pos n) else none
signed true n =
    if n == 0 then some (pos 0) else if leb n (2 ^ 31) then some (negsuc (n - 1)) else none

-- Behind the sign a digit has to come.
abbrev pub with_sign : Bool → Bytes → Option ℤ
with_sign negative [] = none
with_sign negative (c ∷ s) = if is_digit c then signed negative (digits 0 (c ∷ s)) else none

-- `std::stoi`: `none` is an exception.
unfoldable pub stoi : Bytes → Option ℤ
stoi [] = none
stoi (c ∷ s) =
    let rest = stoi s in
    if is_space c
    then rest
    else if c == b'-'
    then with_sign true s
    else if c == b'+'
    then with_sign false s
    else with_sign false (c ∷ s)

abbrev pub call_back : Argument → Argument
call_back a = record a { calls = if a.has_callback then a.calls + 1 else a.calls }

abbrev pub set_text : Bytes → Argument → Argument
set_text text a = call_back (record a { text = text; is_set = true })

abbrev pub set_integer : Option ℤ → Argument → Option Argument
set_integer none a = none
set_integer (some n) a = some (call_back (record a { integer = n; is_set = true }))

abbrev pub set_boolean : Argument → Argument
set_boolean a = call_back (record a { boolean = true; is_set = true })

-- What the lambdas do with a word that is the argument's, and the words behind it. `none` is the
-- exception of `stoi`.
abbrev pub assign : ArgumentType → List Bytes → Argument → Option Argument
assign arg_boolean following a = some (set_boolean a)
assign arg_string [] a = some a
assign arg_string (next ∷ following) a = some (set_text next a)
assign arg_integer [] a = some a
assign arg_integer (next ∷ following) a = set_integer (stoi next) a

abbrev pub is_name : Bytes → Argument → Bool
is_name word a = equal word (codes "--" ++ a.name)

-- The loop over the other spellings: the first that is the word ends it.
unfoldable pub alts_loop : Bytes → List Bytes → List Bytes → Argument → Option Argument
alts_loop word following [] a = some a
alts_loop word following (alt ∷ alts) a =
    let rest = alts_loop word following alts a in
    if equal word alt then assign a.type following a else rest

abbrev pub then_do {ℓ κ} : {A : Type ℓ} {B : Type κ} → Option A → (A → Option B) → Option B
then_do none next = none
then_do (some a) next = next a

abbrev pub push_some {ℓ} : {A : Type ℓ} → Option A → Option (List A) → Option (List A)
push_some none rest = none
push_some (some a) rest = cons_some a rest

-- The loop over the arguments for one word. A name ends it, another spelling does not.
unfoldable pub scan_word : Bytes → List Bytes → List Argument → Option (List Argument)
scan_word word following [] = some []
scan_word word following (a ∷ arguments) =
    let rest = scan_word word following arguments in
    if is_name word a
    then push_some (assign a.type following a) (some arguments)
    else push_some (alts_loop word following a.alts a) rest

unfoldable pub scan_words : List Bytes → List Argument → Option (List Argument)
scan_words [] arguments = some arguments
scan_words (word ∷ words) arguments = then_do (scan_word word words arguments) (scan_words words)

abbrev pub asks_help : List Bytes → Bool
asks_help [] = false
asks_help (word ∷ words) =
    if equal word (codes "--help")
    then true
    else if equal word (codes "-h")
    then true
    else asks_help words

-- A value of the configuration. It does not count as set.
abbrev pub configure_integer : Option ℤ → Argument → Option Argument
configure_integer none a = none
configure_integer (some n) a = some (call_back (record a { integer = n }))

abbrev pub configure : ArgumentType → Bytes → Argument → Option Argument
configure arg_string value a = some (call_back (record a { text = value }))
configure arg_integer value a = configure_integer (stoi value) a
configure arg_boolean value a = some (call_back (record a { boolean = true }))

abbrev pub configure_found : Option JsonObject → Argument → Option Argument
configure_found none a = some a
configure_found (some v) a = if a.is_set then some a else configure a.type (string_value v) a

unfoldable pub config_loop : JsonObject → List Argument → Option (List Argument)
config_loop config [] = some []
config_loop config (a ∷ arguments) =
    push_some (configure_found (get a.name (object_values config)) a) (config_loop config arguments)

-- The three arguments that are always there, with the variables 0 to 2.
abbrev pub own_arguments : List Argument
own_arguments =
    define_argument 0 arg_boolean (codes "verbose") [] (pos 0) false (codes "-v" ∷ []) false false
    ∷ define_argument 1 arg_string (codes "configuration_file")
        (codes "artifacts/configuration.json") (pos 0) false (codes "-cf" ∷ []) false false
    ∷ define_argument 2 arg_string (codes "secret_captcha_url") [] (pos 0) false (codes "-scu" ∷ [])
        false false
    ∷ []

-- `config_path`, the variable of the second of them.
abbrev pub text_of_first : List Argument → Bytes
text_of_first [] = []
text_of_first (a ∷ arguments) = a.text

abbrev pub config_path : List Argument → List Argument → Bytes
config_path defined arguments = text_of_first (drop (length defined + 1) arguments)

-- How `parse_arguments` ends: by `exit` behind the help, by an exception, or with the arguments.
pub data Parsed : Type 0 where
  exited : Parsed
  thrown : Parsed
  parsed : List Argument → Parsed

abbrev pub or_thrown : Option (List Argument) → Parsed
or_thrown none = thrown
or_thrown (some arguments) = parsed arguments

abbrev pub with_config : ℕ → Option Bytes → List Argument → Run Parsed
with_config f none arguments = done (parsed arguments)
with_config f (some data_) arguments =
    parse f blank (c_str data_) >>= (λ result. done (or_thrown (config_loop result.0 arguments)))

abbrev pub behind_words :
    ℕ → (Bytes → Option Bytes) → List Argument → Option (List Argument) → Run Parsed
behind_words f files defined none = done thrown
behind_words f files defined (some arguments) =
    with_config f (files (config_path defined arguments)) arguments

-- The files give the texts of those that can be opened. The fuel is that of `parse`.
unfoldable pub parse_arguments :
    ℕ → (Bytes → Option Bytes) → List Argument → List Bytes → Run Parsed
parse_arguments f files defined argv =
    if asks_help argv
    then done exited
    else behind_words f files defined (scan_words argv (defined ++ own_arguments))
