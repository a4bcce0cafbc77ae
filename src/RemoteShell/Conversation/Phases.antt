-- ===== src/RemoteShell/Conversation/Phases.antt =====
-- The phases of a conversation of cpp-source/examples/com.cpp with cpp-source/examples/comd.cpp.
use libjaypea.Base.{
  ℕ, Bytes, [], ◌∷◌, ◌++◌, List, map, Bool, true, false, if◌then◌else◌, c_str, Option, none, some,
  length, ◌≡◌, refl, ap, ◌∙◌, append-nil, equal, drop-append,
}
use libjaypea.RemoteShell.{
  ComdState, verify_identity, select_routine, exchange_packets, shell, identity, verified,
  start_routine, routines, Comd, on_read, verify, select, exchange, sopen, shell_output,
}
use libjaypea.RemoteShell.Com.{Com, initial, on_event_loop}
use libjaypea.RemoteShell.Com
use libjaypea.RemoteShell.Conversation.{
  Both, Happening, arrives, answers, types, output, added, started, happen, arriving, answering,
}

-- How far the two are: a text of the greeting is on its way, or lines are.
pub record Shelling : Type 0 where
  pub opened : Bool
  pub lines : List Bytes
  pub input : List Bytes
  pub queue : List Bytes
  pub outputs : List Bytes
  pub shown : List Bytes
  pub coming : List Bytes

pub data Phase : Type 0 where
  greeting greeted asking starting : Phase
  shelling : Shelling → Phase

abbrev client_at : ComdState → Option ℕ → List Bytes → List Bytes → Com
client_at state fd sent shown = record {
  state = state;
  routine = shell;
  shell_client_fd = fd;
  sent = sent;
  shown = shown;
}

abbrev server_at : ComdState → Bool → List Bytes → List Bytes → List Bytes → Comd
server_at state opened sent accepted input = record {
  state = state;
  routine = shell;
  opened = opened;
  sent = sent;
  accepted = accepted;
  input = input;
}

-- The state of both programs in a phase.
abbrev pub concrete : ℕ → Phase → Both
concrete fd greeting = record {
  client = client_at verify_identity none (identity ∷ []) [];
  server = server_at verify_identity false [] [] [];
  to_server = identity ∷ [];
  to_client = [];
}
concrete fd greeted = record {
  client = client_at verify_identity none (identity ∷ []) [];
  server = server_at select_routine false (verified ∷ []) (identity ∷ []) [];
  to_server = [];
  to_client = verified ∷ [];
}
concrete fd asking = record {
  client = client_at select_routine none (identity ∷ routines shell ∷ []) [];
  server = server_at select_routine false (verified ∷ []) (identity ∷ []) [];
  to_server = routines shell ∷ [];
  to_client = [];
}
concrete fd starting = record {
  client = client_at select_routine none (identity ∷ routines shell ∷ []) [];
  server =
      server_at exchange_packets false (verified ∷ start_routine ∷ [])
        (identity ∷ routines shell ∷ []) [];
  to_server = [];
  to_client = start_routine ∷ [];
}
concrete fd (shelling s) = record {
  client = client_at exchange_packets (some fd) (identity ∷ routines shell ∷ s.lines) s.shown;
  server =
      server_at exchange_packets s.opened (verified ∷ start_routine ∷ s.outputs)
        (identity ∷ routines shell ∷ s.input) s.input;
  to_server = s.queue;
  to_client = s.coming;
}

abbrev pub take_line : Shelling → List Bytes → Shelling
take_line s [] = s
take_line s (line ∷ others) = record s {
  opened = true;
  input = s.input ++ line ∷ [];
  queue = others;
}

abbrev pub show_text : Shelling → List Bytes → Shelling
show_text s [] = s
show_text s (text ∷ others) = record s { shown = s.shown ++ c_str text ∷ []; coming = others }

-- The shell writes a text; an empty one closes it.
abbrev pub emit : Shelling → Bytes → Shelling
emit s [] = record s { opened = false }
emit s (c ∷ text) = record s {
  outputs = s.outputs ++ (c ∷ text) ∷ [];
  coming = s.coming ++ c_str (c ∷ text) ∷ [];
}

-- What a happening does to a phase.
abbrev pub advance : Happening → Phase → Phase
advance arrives greeting = greeted
advance arrives greeted = greeted
advance arrives asking = starting
advance arrives starting = starting
advance arrives (shelling s) = shelling (take_line s s.queue)
advance answers greeting = greeting
advance answers greeted = asking
advance answers asking = asking
advance answers starting = shelling (record {
  opened = false;
  lines = [];
  input = [];
  queue = [];
  outputs = [];
  shown = [];
  coming = [];
})
advance answers (shelling s) = shelling (show_text s s.coming)
advance (types line) (shelling s) =
    shelling (record s { lines = s.lines ++ line ∷ []; queue = s.queue ++ c_str line ∷ [] })
advance (types line) greeting = greeting
advance (types line) greeted = greeted
advance (types line) asking = asking
advance (types line) starting = starting
advance (output text) (shelling s) = shelling (if s.opened then emit s text else s)
advance (output text) greeting = greeting
advance (output text) greeted = greeted
advance (output text) asking = asking
advance (output text) starting = starting

added-same : (texts : List Bytes) → added texts texts ≡ []
added-same [] = refl
added-same (t ∷ ts) = added-same ts

added-append : (before new : List Bytes) → added before (before ++ new) ≡ map c_str new
added-append before new = ap (map c_str) (drop-append (length before) before new refl)

pub started-concrete : (fd : ℕ) (server : Comd) → started server ≡ concrete fd greeting
unfolding Com.on_connect libjaypea.RemoteShell.on_connect c_str
started-concrete fd server = refl

-- The server sends nothing.
silent :
    (fd : ℕ) (s : Shelling)
    → record (concrete fd (shelling s)) { to_client = s.coming ++ added s.outputs s.outputs }
      ≡ concrete fd (shelling s)
silent fd s =
    ap (λ (texts : List Bytes). record (concrete fd (shelling s)) { to_client = texts })
      (ap (λ (texts : List Bytes). s.coming ++ texts) (added-same s.outputs) ∙ append-nil s.coming)

arrived :
    (fd : ℕ) (opened : Bool) (s : Shelling) (line : Bytes) (others : List Bytes)
    → arriving (concrete fd (shelling (record s { opened = opened }))) (line ∷ others)
      ≡ concrete fd (shelling (take_line s (line ∷ others)))
unfolding on_read exchange sopen
arrived fd true s line others = silent fd (take_line s (line ∷ others))
arrived fd false s line others = silent fd (take_line s (line ∷ others))

arriving-concrete :
    (fd : ℕ) (s : Shelling) (queue : List Bytes)
    → s.queue ≡ queue
    → arriving (concrete fd (shelling s)) queue ≡ concrete fd (shelling (take_line s queue))
arriving-concrete fd s [] e = refl
arriving-concrete fd s (line ∷ others) e = arrived fd s.opened s line others

answering-concrete :
    (fd : ℕ) (s : Shelling) (coming : List Bytes)
    → s.coming ≡ coming
    → answering fd (concrete fd (shelling s)) coming ≡ concrete fd (shelling (show_text s coming))
unfolding Com.on_read
answering-concrete fd s [] e = refl
answering-concrete fd s (text ∷ others) e =
    ap
      (λ (texts : List Bytes). record (concrete fd (shelling (show_text s (text ∷ others)))) {
        to_server = texts;
      })
      (ap (λ (texts : List Bytes). s.queue ++ texts) (added-same s.lines) ∙ append-nil s.queue)

typing-concrete :
    (fd : ℕ) (s : Shelling) (line : Bytes)
    → happen fd (types line) (concrete fd (shelling s))
      ≡ concrete fd (advance (types line) (shelling s))
unfolding happen on_event_loop
typing-concrete fd s line =
    ap
      (λ (texts : List Bytes). record (concrete fd (advance (types line) (shelling s))) {
        to_server = s.queue ++ texts;
      })
      (added-append s.lines (line ∷ []))

emitted :
    (fd : ℕ) (s : Shelling) (opened : Bool) (text : Bytes)
    → let t = record s { opened = opened } in
      happen fd (output text) (concrete fd (shelling t))
      ≡ concrete fd (shelling (if opened then emit t text else t))
unfolding happen shell_output
emitted fd s false text = silent fd (record s { opened = false })
emitted fd s true [] = silent fd (record s { opened = false })
emitted fd s true (c ∷ text) =
    ap
      (λ (texts : List Bytes).
        record (concrete fd (shelling (emit (record s { opened = true }) (c ∷ text)))) {
          to_client = s.coming ++ texts;
        })
      (added-append s.outputs ((c ∷ text) ∷ []))

output-concrete :
    (fd : ℕ) (s : Shelling) (text : Bytes)
    → happen fd (output text) (concrete fd (shelling s))
      ≡ concrete fd (advance (output text) (shelling s))
output-concrete fd s text = emitted fd s s.opened text

pub happen-advance :
    (fd : ℕ) (h : Happening) (p : Phase) → happen fd h (concrete fd p) ≡ concrete fd (advance h p)
unfolding happen on_read verify select shell_output equal c_str Com.on_read on_event_loop
happen-advance fd arrives greeting = refl
happen-advance fd arrives greeted = refl
happen-advance fd arrives asking = refl
happen-advance fd arrives starting = refl
happen-advance fd arrives (shelling s) = arriving-concrete fd s s.queue refl
happen-advance fd answers greeting = refl
happen-advance fd answers greeted = refl
happen-advance fd answers asking = refl
happen-advance fd answers starting = refl
happen-advance fd answers (shelling s) = answering-concrete fd s s.coming refl
happen-advance fd (types line) (shelling s) = typing-concrete fd s line
happen-advance fd (types line) greeting = refl
happen-advance fd (types line) greeted = refl
happen-advance fd (types line) asking = refl
happen-advance fd (types line) starting = refl
happen-advance fd (output text) (shelling s) = output-concrete fd s text
happen-advance fd (output text) greeting = refl
happen-advance fd (output text) greeted = refl
happen-advance fd (output text) asking = refl
happen-advance fd (output text) starting = refl
