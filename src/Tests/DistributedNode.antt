-- ===== src/Tests/DistributedNode.antt =====
-- A node of cpp-source/distributed-node.cpp that is asked for its hash.
use libjaypea.Base.{codes, equal, true, false, [], some, done, c_str, ◌≡◌, refl}
use libjaypea.Json.{JsonObject, of_type, of_string, set_field, object, get, put}
use libjaypea.Json.Cursor.{at}
use libjaypea.Json.Parse.{parse}
use libjaypea.Json.Stringify.{stringify}
use libjaypea.Json.Access.{has_obj, get_str}
use libjaypea.TlsEpollServer.Calls.{minus}
use libjaypea.Encryptor.Codec.{Crypto}
use libjaypea.SymmetricEpollServer.{Counters, send}
use libjaypea.DistributedNode.{Node, new_node, response, on_read}
use libjaypea.DistributedNode.Answers.{on_read-response}

abbrev no_code : Crypto
no_code = record {
  cbc_encrypt = λ text. text;
  cbc_decrypt = λ text. some text;
  hmac = λ text. [];
  verified = λ hash text. true;
  base64 = λ text. text;
  unbase64 = λ text. text;
}

abbrev hashed : Node
hashed = record new_node {
  status = set_field (codes "hash") (of_string (codes "12")) (of_type object);
}

abbrev no_packets : Counters
no_packets = record { read_counter = []; write_counter = [] }

abbrev answer : JsonObject
answer = set_field (codes "hash") (of_string (codes "12")) (of_type object)

on_read-response_example :
    on_read 9 no_code [] hashed 7 (codes "{}") (some 89) (some 20) no_packets
    ≡ done (
        some (
          minus 1,
          (send no_code [] 7 (stringify false 0 answer) (some 89) (some 20) no_packets).1,
        ))
unfolding parse response has_obj get_str get put equal c_str
on_read-response_example =
    on_read-response 9 no_code [] hashed 7 (codes "{}") (some 89) (some 20) no_packets
      (of_type object) answer (at (codes "{") (codes "}")) refl refl
