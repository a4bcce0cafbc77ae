-- ===== src/Tests/Examples.antt =====
-- Runs of the programs of cpp-source/examples on concrete inputs.
use libjaypea.Base.{Bytes, codes, [], ◌∷◌, List, true, false, none, some, lookup, c_str, ◌≡◌, refl}
use libjaypea.Base.Tables.{find}
use libjaypea.Encryptor.Packets.{got}
use libjaypea.EpollServer.Clients.{on_readable}
use libjaypea.EpollServer.Events.{initial}
use libjaypea.EpollServer.Sockets.{recv}
use libjaypea.Json.{of_type, of_string, object, end, field}
use libjaypea.Json.Stringify.{stringify}
use libjaypea.Ponal
use libjaypea.Ponal.{Ponal, split, set_value}
use libjaypea.Ponal.Map.{Command, get, set, answers, spec_answers, answers-spec_answers}
use libjaypea.Ponal.Deaf.{callback, on_readable-disarmed}
use libjaypea.Redirect
use libjaypea.Redirect.{get_redirection_html, on_read-get_redirection_html}
use libjaypea.Bwackwat.{all_request, where_request, insert_request, update_request, login_request}
use libjaypea.Bwackwat.Texts.{opened_request, requests-stringify}
use libjaypea.Util.Replace.{strict_compare_inequal, differ}

abbrev no_values : Ponal
no_values = record { values = []; transaction = [] }

abbrev commands : List Command
commands = set (codes "k") (codes "v w") ∷ get (codes "k") ∷ get (codes "x") ∷ []

answers-spec_answers_example : answers 5 commands no_values ≡ spec_answers commands (λ key. none)
unfolding lookup
answers-spec_answers_example =
    answers-spec_answers 5 commands no_values (λ key. none)
      (
        ((refl, tt), (refl, tt), (refl, (refl, (refl, tt))), refl, refl),
        ((refl, tt), ((refl, tt), tt)),
      )
      (λ key. refl)

asked : (Ponal.on_read 5 (codes "get k") false no_values).0.response ≡ some (codes "failure")
unfolding Ponal.on_read c_str strict_compare_inequal differ lookup
asked = refl

on_readable-disarmed_example :
    find 5
      (on_readable 100 5 true (recv (callback 5 no_values) (got (codes "get k"))) initial).ready
    ≡ some false
on_readable-disarmed_example =
    on_readable-disarmed 100 5 b'g' (codes "et k") (codes "failure") no_values initial asked

redirected :
    Redirect.on_read (codes "jph2.net") (codes "GET /a HTTP/1.1")
    ≡ get_redirection_html (codes "jph2.net/a")
unfolding Redirect.on_read Redirect.behind_space Redirect.url_text c_str
redirected = refl

abbrev letter : Bytes
letter = codes "a"

requests-stringify_example :
    (all_request letter letter ≡ stringify false 0 (opened_request letter (codes "all") letter end))
    × (where_request letter letter letter letter
        ≡ stringify false 0 (
            opened_request letter (codes "where") letter (
              field
                (codes "key")
                (of_string letter)
                (field (codes "value") (of_string letter) end))))
    × (insert_request letter (of_type object) letter
        ≡ stringify false 0 (
            opened_request letter
              (codes "insert")
              letter
              (field (codes "values") (of_type object) end)))
    × (update_request letter letter (of_type object) letter
        ≡ stringify false 0 (
            opened_request letter (codes "update") letter (
              field (codes "id") (of_string letter) (field (codes "values") (of_type object) end))))
    × (login_request letter letter letter
        ≡ stringify false 0 (
            opened_request letter (codes "login") [] (
              field
                (codes "username")
                (of_string letter)
                (field (codes "password") (of_string letter) end))))
requests-stringify_example =
    requests-stringify letter letter letter letter letter letter letter (of_type object) (refl, tt)
      (refl, tt) (refl, tt) (refl, tt) (refl, tt) (refl, tt) (refl, tt)

-- A value with a quote becomes a member of its own.
injected :
    where_request letter letter (codes "\",\"token\":\"b") letter
    ≡ codes
        "{\"table\":\"a\",\"operation\":\"where\",\"token\":\"a\",\"key\":\"a\",\"value\":\"\",\"token\":\"b\"}"
unfolding where_request
injected = refl
