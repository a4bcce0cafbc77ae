-- ===== src/Jph2/Chat/Tidy.antt =====
-- What holds of the chat of cpp-source/examples/jph2/chat.cpp after any messages.
use libjaypea.Base.{
  suc, ◌≤◌, Bytes, equal, equal_iff, [], ◌∷◌, List, true, false, if◌then◌else◌, ltb, Option, none,
  some, Dict, lookup, insert, lookup-insert, length, ◌≡◌, ◌≢◌, refl, ap, ◌∙◌, inl, inr, Bool-cases,
  arith,
}
use libjaypea.Util.Replace.Laws.{replace_all-Joined}
use libjaypea.Jph2.Chat.{
  Message, Chat, iframe, pop_back, push_front, is_repeated, store, checked, chat_msg,
}

-- The messages one after the other. `none` means that the fuel of a loop ran out.
abbrev pub next_chat : (Chat → Option Chat) → Option (Bytes × Chat) → Option Chat
next_chat k none = none
next_chat k (some (reply, s)) = k s

unfoldable pub run : List Message → Chat → Option Chat
run [] s = some s
run (m ∷ ms) s = next_chat (run ms) (chat_msg m s)

-- The newest text of a handle.
unfoldable pub newest : Bytes → List Message → Option Bytes
newest handle [] = none
newest handle (m ∷ ms) = if equal m.handle handle then some m.text else newest handle ms

-- Each text has 2 to 256 bytes and is not the text in front of it of the same handle.
abbrev pub AllGood : List Message → Type 0
AllGood [] = Unit
AllGood (m ∷ ms) =
    (2 ≤ length m.text) × (length m.text ≤ 256) × (newest m.handle ms ≢ some m.text) × AllGood ms

pub record IsTidy (s : Chat) : Type 0 where
  pub few : length s.chat_messages ≤ 100
  pub good : AllGood s.chat_messages
  pub latest :
      (handle text : Bytes)
      → newest handle s.chat_messages ≡ some text
      → lookup handle s.client_last_message ≡ some text

newest-pop_back :
    (handle text : Bytes) (ms : List Message)
    → newest handle (pop_back ms) ≡ some text
    → newest handle ms ≡ some text
unfolding newest pop_back
newest-pop_back handle text [] h = h
newest-pop_back handle text (m ∷ []) h = cc
newest-pop_back handle text (m ∷ (n ∷ ms)) h = ground (arith, newest-pop_back handle text (n ∷ ms))

AllGood-pop_back : (ms : List Message) → AllGood ms → AllGood (pop_back ms)
unfolding pop_back
AllGood-pop_back [] g = tt
AllGood-pop_back (m ∷ []) g = tt
AllGood-pop_back (m ∷ (n ∷ ms)) (a, b, c, g) =
    (a, b, λ e. c (newest-pop_back m.handle m.text (n ∷ ms) e), AllGood-pop_back (n ∷ ms) g)

length-pop_back : (m : Message) (ms : List Message) → length (pop_back (m ∷ ms)) ≡ length ms
unfolding pop_back
length-pop_back m [] = refl
length-pop_back m (n ∷ ms) = ap suc (length-pop_back n ms)

push_front-few :
    (m : Message) (ms : List Message) → length ms ≤ 100 → length (push_front m ms) ≤ 100
push_front-few m ms h = elim (Bool-cases (ltb 100 (length (m ∷ ms)))) [
  | inl over ↦ rw (over, length-pop_back m ms) h
  | inr fits ↦ rw fits (ground (arith, fits))
]

push_front-newest :
    (m : Message) (ms : List Message) (handle text : Bytes)
    → newest handle (push_front m ms) ≡ some text
    → newest handle (m ∷ ms) ≡ some text
push_front-newest m ms handle text h = elim (Bool-cases (ltb 100 (length (m ∷ ms)))) [
  | inl over ↦ newest-pop_back handle text (m ∷ ms) (rw over at h)
  | inr fits ↦ rw fits at h
]

push_front-AllGood :
    (m : Message) (ms : List Message) → AllGood (m ∷ ms) → AllGood (push_front m ms)
push_front-AllGood m ms g = elim (Bool-cases (ltb 100 (length (m ∷ ms)))) [
  | inl over ↦ rw over (AllGood-pop_back (m ∷ ms) g)
  | inr fits ↦ rw fits g
]

latest-insert :
    (m : Message) (ms : List Message) (last : Dict Bytes) (handle text : Bytes)
    → (newest handle ms ≡ some text → lookup handle last ≡ some text)
    → newest handle (m ∷ ms) ≡ some text
    → lookup handle (insert m.handle m.text last) ≡ some text
unfolding newest
latest-insert m ms last handle text older h = elim (Bool-cases (equal m.handle handle)) [
  | inl own ↦ lookup-insert m.handle handle m.text last ∙ rw own (rw own at h)
  | inr other ↦ lookup-insert m.handle handle m.text last ∙ rw other (older (rw other at h))
]

is_repeated-some :
    (text : Bytes) (last : Option Bytes) → last ≡ some text → is_repeated text last ≡ true
is_repeated-some text none h = cc
is_repeated-some text (some last) h = (equal_iff text last).1 (cc h)

store-IsTidy :
    (m : Message) (s : Chat)
    → ltb (length m.text) 2 ≡ false
    → ltb 256 (length m.text) ≡ false
    → is_repeated m.text (lookup m.handle s.client_last_message) ≡ false
    → IsTidy s
    → IsTidy (store m s)
store-IsTidy m s short long fresh t = record {
  few = push_front-few m s.chat_messages t.few;
  good = push_front-AllGood m s.chat_messages (
    ground (arith, short),
    ground (arith, long),
    λ e. absurd (
        cc (
          is_repeated-some m.text (lookup m.handle s.client_last_message)
              (t.latest m.handle m.text e),
          fresh,
        )),
    t.good,
  );
  latest = λ handle text h.
      latest-insert m s.chat_messages s.client_last_message handle text (t.latest handle text)
        (push_front-newest m s.chat_messages handle text h);
}

checked-IsTidy : (m : Message) (s : Chat) → IsTidy s → IsTidy (checked m s).1
checked-IsTidy m s t = elim (Bool-cases (ltb (length m.text) 2)) [
  | inl short ↦ rw short t
  | inr long_enough ↦ rw long_enough (elim (Bool-cases (ltb 256 (length m.text))) [
    | inl long ↦ rw long t
    | inr short_enough ↦
        rw short_enough
          (elim (Bool-cases (is_repeated m.text (lookup m.handle s.client_last_message))) [
            | inl repeated ↦ rw repeated t
            | inr fresh ↦ rw fresh (store-IsTidy m s long_enough short_enough fresh t)
          ])
  ])
]

-- A chat that is tidy answers each message, and stays tidy: at most 100 messages are kept, of 2 to
-- 256 bytes each, none of which repeats the one of its handle before it, and the newest of each
-- handle is the last one that is remembered for it.
pub run-IsTidy :
    (ms : List Message) (s : Chat) → IsTidy s → (t : Chat) × (run ms s ≡ some t) × IsTidy t
unfolding run chat_msg
run-IsTidy [] s t = (s, refl, t)
run-IsTidy (m ∷ ms) s t =
    let (text, e, j) =
      replace_all-Joined (suc (length m.text)) m.text iframe [] (λ e. cc) (omega arith) in
    let (u, f, v) =
      run-IsTidy ms (checked (record m { text = text }) s).1
        (checked-IsTidy (record m { text = text }) s t) in
    (u, rw e f, v)

pub IsTidy-empty : IsTidy (record { chat_messages = []; client_last_message = [] })
unfolding newest
IsTidy-empty = record { few = omega arith; good = tt; latest = λ handle text h. cc }
