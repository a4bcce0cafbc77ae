-- ===== src/Tests/HttpApi.antt =====
-- Requests for the routes of cpp-source/http-api.cpp.
use libjaypea.Base.{
  Bytes, codes, [], ◌∷◌, ◌++◌, true, false, ◌≡◌, refl, arith, ◌⊎◌, some, equal, lookup,
}
use libjaypea.Json.{JsonObject, string, object, of_type, of_string, set_field, get, put}
use libjaypea.Json.Access.{has_obj, get_str, get_url_decoded_str}
use libjaypea.Util.Http.{http_api, http_form}
use libjaypea.Util.Url.{url_decode}
use libjaypea.HttpApi.{Route, Session, Api, Environment, gives, function}
use libjaypea.HttpApi.Identity.{session_name, text_of, is_current}
use libjaypea.HttpApi.Admission.{admit, ask_human, copy_parameters, lacking, is_early, stamped}
use libjaypea.HttpApi.Handler.{initial_view, initial_response}
use libjaypea.HttpApi.Captcha.{is_admitted, Answers, admit-Answers, admit_fresh}
use libjaypea.HttpApi.Rate.{admit-admit}
use libjaypea.HttpApi.Exceptions.{session_request}
use libjaypea.HttpApi.Known.{session_request_known}

abbrev around : Environment
around = record {
  details = codes "1.2.3.4";
  now = 5000000;
  drawn_captcha = codes "aB4@cd";
  sha256_hash = λ text. text;
  decrypt = λ text. some text;
  secret_captcha_url = [];
  https_get = λ url. [];
  residue = 0;
}

abbrev soon : Environment
soon = record around { now = 5000500 }

abbrev login : Route
login = record {
  run = function (λ request. gives (codes "{}"));
  required_parameters = (codes "user", string) ∷ [];
  requires_human = true;
  minimum_ms_between_call = 1000;
  client_ms_at_call = [];
}

abbrev site : Api
site = record { sessions = []; routemap = (codes "POST /api/login/", login) ∷ [] }

abbrev post : JsonObject
post =
    set_field (codes "route") (of_string (codes "/api/login"))
      (set_field (codes "method") (of_string (codes "POST")) (of_type object))

abbrev answering : Bytes → JsonObject
answering answer =
    set_field (codes "captcha") (of_string answer)
      (set_field (codes "user") (of_string (codes "ann")) post)

abbrev asked : Session
asked = record { captcha = codes "aB4@cd"; created = 4000 }

session_request_known_run :
    (is_current around.now
        (lookup (text_of session_name (session_request around site post)) site.sessions)
      ≡ true)
    ⊎ ((rest : Bytes) × (text_of session_name (session_request around site post)
          ≡ around.sha256_hash (around.details ++ rest)))
session_request_known_run = session_request_known around site post

abbrev right : JsonObject
right = answering (codes "aB4@cd")

right_answer :
    is_admitted
      (admit around http_api right (initial_view post) (initial_response []) login asked).1.1
    ≡ true
unfolding admit copy_parameters get_url_decoded_str get_str get put equal is_early lookup lacking
    has_obj ask_human url_decode stamped
right_answer = refl

admit-Answers_example :
    Answers right asked
      (admit around http_api right (initial_view post) (initial_response []) login asked).1.0
admit-Answers_example =
    admit-Answers around http_api right (initial_view post) (initial_response []) login asked refl
      right_answer

admit_fresh_run :
    is_admitted
      (admit around http_api
        (answering [])
        (initial_view post)
        (initial_response [])
        login
        (record asked { captcha = [] })).1.1
    ≡ true
unfolding copy_parameters get_url_decoded_str get_str get put equal is_early lookup lacking has_obj
    url_decode
admit_fresh_run =
    admit_fresh around http_api (answering []) (initial_view post) (initial_response []) login
      (record asked { captcha = [] }) refl refl refl refl refl refl

admit-admit_example :
    let between =
      (admit around http_api right (initial_view post) (initial_response []) login asked).0 in
    (is_admitted
        (admit soon http_form right (initial_view post) (initial_response []) between asked).1.1
      ≡ false)
    × ((admit soon http_form right (initial_view post) (initial_response []) between asked).0
        ≡ between)
admit-admit_example =
    admit-admit around soon http_api http_form right right (initial_view post) (initial_view post)
      (initial_response []) (initial_response []) login asked asked right_answer refl (omega arith)
      (omega arith)
