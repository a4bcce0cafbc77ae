-- ===== src/Jph2/Chat.antt =====
-- The chat of cpp-source/examples/jph2/chat.cpp.
pub mod Tidy
use libjaypea.Base.{
  ℕ, suc, Bytes, codes, equal, [], ◌∷◌, List, Bool, true, false, ltb, if◌then◌else◌, Option, none,
  some, Dict, lookup, insert, length,
}
use libjaypea.Json.{
  JsonObject, Items, nil, item, string, object, array, of_string, of_type, set_field, add_item,
  array_values,
}
use libjaypea.Json.Access.{get_str, has_obj}
use libjaypea.Json.Stringify.{stringify}
use libjaypea.PgSqlModel.{Database}
use libjaypea.Util.Replace.{replace_all}
use libjaypea.Jph2.{
  Result, ok, raised, crashed, Action, pure, ◌>>=◌, or_raise, select, first_item, users,
}

-- The object that a handler makes for a message: it always has a handle and a text.
pub record Message : Type 0 where
  pub color : Option Bytes
  pub handle : Bytes
  pub text : Bytes

pub record Chat : Type 0 where
  pub chat_messages : List Message
  pub client_last_message : Dict Bytes

abbrev pub iframe : Bytes
iframe = codes "iframe"

-- The loop that takes `iframe` out of a text. `none` means that the fuel ran out.
abbrev pub without_iframe : Bytes → Option Bytes
without_iframe text = replace_all (suc (length text)) text iframe []

unfoldable pub pop_back : List Message → List Message
pop_back [] = []
pop_back (m ∷ []) = []
pop_back (m ∷ (n ∷ ms)) = m ∷ pop_back (n ∷ ms)

abbrev pub push_front : Message → List Message → List Message
push_front m ms = if ltb 100 (length (m ∷ ms)) then pop_back (m ∷ ms) else m ∷ ms

abbrev pub too_short : Bytes
too_short = codes "{\"error\":\"Message too short.\"}"

abbrev pub too_long : Bytes
too_long = codes "{\"error\":\"Message too long.\"}"

abbrev pub same_message : Bytes
same_message = codes "{\"error\":\"Do not send the same message.\"}"

abbrev pub sent : Bytes
sent = codes "{\"status\":\"Sent.\"}"

abbrev pub is_repeated : Bytes → Option Bytes → Bool
is_repeated text none = false
is_repeated text (some last) = equal text last

abbrev pub store : Message → Chat → Chat
store m s = record {
  chat_messages = push_front m s.chat_messages;
  client_last_message = insert m.handle m.text s.client_last_message;
}

abbrev pub checked : Message → Chat → Bytes × Chat
checked m s =
    if ltb (length m.text) 2
    then (too_short, s)
    else if ltb 256 (length m.text)
    then (too_long, s)
    else if is_repeated m.text (lookup m.handle s.client_last_message)
    then (same_message, s)
    else (sent, store m s)

abbrev pub cleaned : Message → Chat → Option Bytes → Option (Bytes × Chat)
cleaned m s none = none
cleaned m s (some text) = some (checked (record m { text = text }) s)

unfoldable pub chat_msg : Message → Chat → Option (Bytes × Chat)
chat_msg m s = cleaned m s (without_iframe m.text)

abbrev pub with_color : Option Bytes → JsonObject → JsonObject
with_color none o = o
with_color (some color) o = set_field (codes "color") (of_string color) o

abbrev pub new_msg : Message → JsonObject
new_msg m =
    set_field (codes "message") (of_string m.text)
      (set_field (codes "handle") (of_string m.handle) (with_color m.color (of_type object)))

abbrev pub add_messages : List Message → JsonObject → JsonObject
add_messages [] o = o
add_messages (m ∷ ms) o = add_messages ms (add_item (new_msg m) o)

abbrev pub read_chat : Chat → Bytes
read_chat s =
    stringify false 0
      (set_field (codes "messages") (add_messages s.chat_messages (of_type array)) (of_type object))

-- What a handler does in front of `chat_msg`: it answers, or it makes a message.
pub data Admission : Type 0 where
  answered : Bytes → Admission
  admitted : Message → Admission

abbrev pub existing_username : Bytes
existing_username = codes "{\"error\":\"That's an existing username. Please login as that user.\"}"

abbrev pub handle_too_short : Bytes
handle_too_short = codes "{\"error\":\"Handle too short.\"}"

abbrev pub handle_too_long : Bytes
handle_too_long = codes "{\"error\":\"Handle too long.\"}"

abbrev pub authenticated_message : JsonObject → JsonObject → Option Message
authenticated_message json token =
    made (get_str (codes "color") token) (get_str (codes "username") token)
      (get_str (codes "message") json)
  where
    made : Option Bytes → Option Bytes → Option Bytes → Option Message
    made (some color) (some handle) (some text) =
        some (record { color = some color; handle = handle; text = text })
    made _ _ _ = none

abbrev pub post : Admission → Chat → Option (Bytes × Chat)
post (answered reply) s = some (reply, s)
post (admitted m) s = chat_msg m s

abbrev pub create_authenticated_chat :
    JsonObject → JsonObject → Chat → Result (Option (Bytes × Chat))
create_authenticated_chat json token s = elim (authenticated_message json token) [
  | none ↦ raised
  | some m ↦ ok (chat_msg m s)
]

module _ {ℓ} {D : Type ℓ} (db : Database D) where
  abbrev pub admit_handle : Option JsonObject → JsonObject → Bytes → Action D Admission
  admit_handle (some user) json handle = pure (answered existing_username)
  admit_handle none json handle =
      if ltb (length handle) 5
      then pure (answered handle_too_short)
      else if ltb 32 (length handle)
      then pure (answered handle_too_long)
      else do
        text ← or_raise (get_str (codes "message") json)
        pure (admitted (record { color = none; handle = handle; text = text }))

  abbrev pub admit_chat : JsonObject → Action D Admission
  admit_chat json = do
    handle ← or_raise (get_str (codes "handle") json)
    found ← select db users (codes "username") handle
    admit_handle (first_item (array_values found)) json handle

  abbrev pub create_chat : JsonObject → Chat → Action D (Option (Bytes × Chat))
  create_chat json s = do admission ← admit_chat json; pure (post admission s)
