-- ===== src/HttpApi/Caught.antt =====
-- Which parts of the handler of requests end in an exception.
use libjaypea.Base.{
  ℕ, Bytes, not, ◌++◌, c_str, Run, done, overrun, out_of_fuel, codes, [], ◌∷◌, Bool, true, false,
  Bool-cases, ◌≡◌, refl, inl, inr, ◌⊎◌, Option, none, some, is_some, Dict, insert, arith,
  if◌then◌else◌,
}
use libjaypea.Json.{JsonType, JsonObject, string, object_values, string_value, blank, get}
use libjaypea.Json.Cursor.{Cursor}
use libjaypea.Json.Parse.{parse}
use libjaypea.Json.Text.{deescape}
use libjaypea.Util.Url.{url_decode}
use libjaypea.Json.Access.{has_obj, get_str, get_url_decoded_str}
use libjaypea.Util.Http.{RequestResult, http, http_api, http_form, api}
use libjaypea.HttpApi.{
  HttpResponse, View, Called, gives, throws, throws_other, Route, Session, Environment, Function,
  function, form_function, token_function,
}
use libjaypea.HttpApi.Identity.{text_of}
use libjaypea.HttpApi.Admission.{
  Outcome, thrown, Verdict, after_copy, after_rate, after_parameters, ask_human, copy_parameters,
  lacking, is_early, stamped, refuse, type_string,
}
use libjaypea.HttpApi.Handler.{
  dispatch, concluded, called, called_form, called_token, on_token, on_decrypted,
}

-- The request has a value for each of the required parameters, of whatever type.
abbrev pub has_all : JsonObject → Dict JsonType → Bool
has_all request [] = true
has_all request ((name, t) ∷ required) =
    if is_some (get name (object_values request)) then has_all request required else false

abbrev pub is_thrown : Outcome → Bool
is_thrown thrown = true
is_thrown _ = false

pub copy_parameters-has_all :
    (residue : ℕ) (request : JsonObject) (required : Dict JsonType) (parameters : Dict Bytes)
    → is_some (copy_parameters residue request required parameters) ≡ has_all request required
unfolding copy_parameters get_url_decoded_str get_str
copy_parameters-has_all residue request [] parameters = refl
copy_parameters-has_all residue request ((name, t) ∷ required) parameters =
    elim (get name (object_values request))
      as (λ g.
        is_some
          (elim (elim (elim g as (λ x. Option Bytes) [
            | none ↦ none
            | some v ↦ some (string_value v)
          ])
              as (λ x. Option Bytes) [ none ↦ none | some text ↦ some (url_decode residue text) ])
            as (λ x. Option (Dict Bytes)) [
              | none ↦ none
              | some text ↦ copy_parameters residue request required (insert name text parameters)
            ])
        ≡ (if is_some g then has_all request required else false)) [
          | none ↦ refl
          | some v ↦
              copy_parameters-has_all residue request required
                (insert name (url_decode residue (string_value v)) parameters)
        ]

refuse_caught :
    (kind : RequestResult) (view : View) (response : HttpResponse) (message : Bytes)
    → is_thrown (refuse kind view response message) ≡ false
unfolding refuse
refuse_caught http view response message = refl
refuse_caught http_api view response message = refl
refuse_caught http_form view response message = refl
refuse_caught api view response message = refl

-- An exception of a call that no handler takes.
abbrev pub Escapes : {A : Type 0} → Called A → Type 0
Escapes c = (c ≡ throws) ⊎ (c ≡ throws_other)

-- The route's function, called with the request for its kind, lets an exception out: any one, or one
-- that is no `std::exception` for a function with a token.
abbrev pub FunctionThrows : RequestResult → JsonObject → Function → Type 0
FunctionThrows http request f = ⊥
FunctionThrows api request f = ⊥
FunctionThrows http_form request (function f) = ⊥
FunctionThrows http_form request (form_function f) = Escapes (f request)
FunctionThrows http_form request (token_function f) = ⊥
FunctionThrows http_api request (function f) = Escapes (f request)
FunctionThrows http_api request (form_function f) = ⊥
FunctionThrows http_api request (token_function f) =
    (token : JsonObject) × (f request token ≡ throws_other)

-- An outcome is an exception only if the function lets one out.
abbrev Throws : RequestResult → JsonObject → Function → Outcome → Type 0
Throws kind request f outcome =
    (is_thrown outcome ≡ false) ⊎ (FunctionThrows kind request f × (is_thrown outcome ≡ true))

called-Throws :
    (response : HttpResponse) (c : Called Bytes)
    → (is_thrown (called response c) ≡ false) ⊎ (Escapes c × (is_thrown (called response c) ≡ true))
called-Throws response (gives body) = inl refl
called-Throws response throws = inr (inl refl, refl)
called-Throws response throws_other = inr (inr refl, refl)

called_form-Throws :
    (response : HttpResponse) (c : Called View)
    → (is_thrown (called_form response c) ≡ false)
      ⊎ (Escapes c × (is_thrown (called_form response c) ≡ true))
called_form-Throws response (gives view) = inl refl
called_form-Throws response throws = inr (inl refl, refl)
called_form-Throws response throws_other = inr (inr refl, refl)

module _ (f : JsonObject → JsonObject → Called Bytes) (response : HttpResponse)
    (request : JsonObject) where
  called_token-Throws :
      (token : JsonObject) (c : Called Bytes)
      → f request token ≡ c
      → Throws http_api request (token_function f) (called_token response c)
  called_token-Throws token (gives body) e = inl refl
  called_token-Throws token throws e = inl refl
  called_token-Throws token throws_other e = inr ((token, e), refl)

  token-Throws :
      (parsed : Run (JsonObject × Cursor))
      → Throws http_api request (token_function f) (on_token f response request parsed)
  token-Throws overrun = inl refl
  token-Throws out_of_fuel = inl refl
  token-Throws (done (token, end)) = called_token-Throws token (f request token) refl

  decrypted-Throws :
      (fuel : ℕ) (text : Option Bytes)
      → Throws http_api request (token_function f) (on_decrypted fuel f response request text)
  decrypted-Throws fuel none = inl refl
  decrypted-Throws fuel (some text) = token-Throws (parse fuel blank (c_str text))

dispatch-Throws :
    (fuel : ℕ) (env : Environment) (kind : RequestResult) (request : JsonObject) (view : View)
    (response : HttpResponse) (f : Function)
    → Throws kind request f (dispatch fuel env kind request view response f)
unfolding dispatch
dispatch-Throws fuel env http request view response f = inl refl
dispatch-Throws fuel env api request view response f = inl refl
dispatch-Throws fuel env http_form request view response (function f) = inl refl
dispatch-Throws fuel env http_form request view response (form_function f) =
    called_form-Throws response (f request)
dispatch-Throws fuel env http_form request view response (token_function f) = inl refl
dispatch-Throws fuel env http_api request view response (function f) =
    called-Throws response (f request)
dispatch-Throws fuel env http_api request view response (form_function f) = inl refl
dispatch-Throws fuel env http_api request view response (token_function f) =
    elim (Bool-cases (has_obj (codes "token") string request)) [
      | inl given ↦ rw given (
          decrypted-Throws f response request fuel
            (env.decrypt (deescape (text_of (codes "token") request))))
      | inr missing ↦ rw missing (inl refl)
    ]

module _ (fuel : ℕ) (env : Environment) (kind : RequestResult) (request : JsonObject)
    (response : HttpResponse) (f : Function) where
  abbrev Concludes : Verdict → Type 0
  Concludes verdict = Throws kind request f (concluded fuel env kind request response f verdict)

  ask_human-Concludes :
      (view : View) (route : Route) (session : Session)
      → Concludes (ask_human kind request view response route session).1
  unfolding ask_human
  ask_human-Concludes view route session = ground (
    arith,
    dispatch-Throws fuel env kind request view response f,
    refuse_caught kind view response (codes "Provided answer to the captcha is incorrect."),
    refuse_caught kind view response (codes "An answer is required for the captcha."),
  )

  after_parameters-Concludes :
      (view : View) (route : Route) (session : Session) (found : Option (Bytes × JsonType))
      → Concludes (after_parameters kind request view response route session found).1
  after_parameters-Concludes view route session none = ask_human-Concludes view route session
  after_parameters-Concludes view route session (some (name, t)) = inl (
      refuse_caught kind view response
        (codes "'" ++ (name ++ (codes "' requires a " ++ (type_string t ++ codes ".")))))

  after_rate-Concludes :
      (view : View) (route : Route) (session : Session) (early : Bool)
      → Concludes (after_rate env kind request view response route session early).1.1
  after_rate-Concludes view route session true =
      inl (refuse_caught kind view response (codes "This route is rate-limited, wait a bit."))
  after_rate-Concludes view route session false =
      after_parameters-Concludes view (stamped env route) session
        (lacking request route.required_parameters)

  -- An exception comes of a missing parameter, or of the route's function with all there.
  abbrev pub Causes : Bool → Outcome → Type 0
  Causes complete outcome =
      (is_thrown outcome ≡ not complete)
      ⊎ ((complete ≡ true) × FunctionThrows kind request f × (is_thrown outcome ≡ true))

  pub after_copy-Causes :
      (view : View) (route : Route) (session : Session) (copied : Option (Dict Bytes))
      → Causes (is_some copied) (
          concluded fuel env kind request response f
            (after_copy env kind request view response route session copied).1.1)
  after_copy-Causes view route session none = inl refl
  after_copy-Causes view route session (some parameters) =
      elim (after_rate-Concludes (record view { parameters = parameters }) route session
        (is_early env route)) [
          | inl calm ↦ inl calm
          | inr (escapes, bad) ↦ inr (refl, escapes, bad)
        ]
