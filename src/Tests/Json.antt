-- ===== src/Tests/Json.antt =====
-- The JSON text format of cpp-source/json.cpp on small inputs.
use libjaypea.Base.{
  true, false, equal, Bytes, codes, [], ◌≡◌, refl, arith, Run, done, overrun, out_of_fuel,
}
use libjaypea.Json.{
  put, push_back, JsonObject, json_object, of_string, object, array, blank, end, field, nil, item,
  json_type, set_type, no_type,
}
use libjaypea.Json.Cursor.{Cursor}
use libjaypea.Json.Parse.{parse}
use libjaypea.Json.Stringify.{stringify}
use libjaypea.Json.Text.{escape, deescape}
use libjaypea.Json.Nested.{ending}
use libjaypea.Json.Normal.{normal}
use libjaypea.Json.RoundTrip.{parse-stringify}
use libjaypea.Json.Faults.{parse-hangs, parse-overruns}
use libjaypea.Json.Text.{deescape-escape}

abbrev letters : JsonObject
letters =
    json_object array [] end (item (of_string (codes "a\n")) (item (of_string (codes "b")) nil))

abbrev tree : JsonObject
tree =
    json_object object []
      (field (codes "k") (of_string (codes "v\"")) (field (codes "l") letters end)) nil

written_tree : stringify false 0 tree ≡ codes "{\"k\":\"v\\\"\",\"l\":[\"a\\n\",\"b\"]}"
unfolding stringify escape
written_tree = refl

stringify_pretty : stringify true 0 letters ≡ codes "[\n\t\"a\\n\",\n\t\"b\"\n]"
unfolding stringify escape
stringify_pretty = refl

abbrev object_of : Run (JsonObject × Cursor) → Run JsonObject
object_of (done (v, p)) = done v
object_of overrun = overrun
object_of out_of_fuel = out_of_fuel

-- The newline of `"a\n"` is lost on the way back.
read_back :
    object_of (parse 40 blank (codes "{\"k\":\"v\\\"\",\"l\":[\"a\\n\",\"b\"]}"))
    ≡ done (
        json_object object []
          (field (codes "k") (of_string (codes "v\"")) (
            field
              (codes "l")
              (json_object array [] end
                (item (of_string (codes "a")) (item (of_string (codes "b")) nil)))
              end))
          nil)
unfolding parse put equal push_back
read_back = refl

-- A number is no value: what follows it is taken for the member's text.
parse_number :
    object_of (parse 40 blank (codes "{\"a\":1,\"b\":\"x\"}"))
    ≡ done (json_object object [] (field (codes "a") (of_string (codes "b")) end) nil)
unfolding parse put equal push_back
parse_number = refl

parse-stringify_example :
    (b : Bytes) × (parse 60 blank (stringify true 0 tree)
      ≡ done (normal tree, ending (json_type (normal tree)) b []))
unfolding stringify escape
parse-stringify_example = parse-stringify tree true 0 60 (ground arith) (omega arith)

deescape-escape_run : deescape (escape (codes "a\"\n")) ≡ codes "\"a\"\n\""
deescape-escape_run = deescape-escape (codes "a\"\n")

parse-hangs_example : parse 1000 (set_type no_type blank) (codes "[,\"") ≡ out_of_fuel
parse-hangs_example = parse-hangs blank (codes ",") 1000 (ground arith) (omega arith)

parse-overruns_run : parse 10 blank (codes "\"ab\\") ≡ overrun
parse-overruns_run = parse-overruns (codes "ab") 10 (ground arith) (omega arith)
