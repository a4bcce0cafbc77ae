-- ===== src/RemoteShell/Conversation/Order.antt =====
-- The order of the lines in a conversation of cpp-source/examples/com.cpp with
-- cpp-source/examples/comd.cpp.
use mathlib.Core.List.{map-append}
use libjaypea.Base.{
  ℕ, Bytes, [], ◌∷◌, ◌++◌, List, map, c_str, ◌≡◌, refl, sym, ap, ◌∙◌, append_assoc, inl, inr,
  Bool-cases, Bool, true, false, if◌then◌else◌, ◌==◌, NoZero, c_str-NoZero,
}
use libjaypea.RemoteShell.{Comd}
use libjaypea.RemoteShell.Conversation.{
  Both, Happening, arrives, answers, types, output, started, happen, happen_all,
}
use libjaypea.RemoteShell.Conversation.Phases.{
  Shelling, Phase, greeting, greeted, asking, starting, shelling, concrete, take_line, show_text,
  emit, advance, started-concrete, happen-advance,
}

-- The lines that were typed are those that the shell got and those on their way to it, in order;
-- the outputs of the shell are those that were shown and those on their way.
abbrev pub IsInOrder : Phase → Type 0
IsInOrder greeting = Unit
IsInOrder greeted = Unit
IsInOrder asking = Unit
IsInOrder starting = Unit
IsInOrder (shelling s) =
    (s.input ++ s.queue ≡ map c_str s.lines) × (s.shown ++ map c_str s.coming ≡ map c_str s.outputs)

NoZero-c_str : (text : Bytes) → NoZero (c_str text)
unfolding c_str
NoZero-c_str [] = tt
NoZero-c_str (c ∷ text) = elim (Bool-cases (c == 0)) [
  | inl zero_byte ↦ rw zero_byte tt
  | inr other ↦ rw other (other, NoZero-c_str text)
]

c_str-c_str : (text : Bytes) → c_str (c_str text) ≡ c_str text
c_str-c_str text = c_str-NoZero (c_str text) (NoZero-c_str text)

take_line-IsInOrder :
    (s : Shelling) (queue : List Bytes)
    → s.queue ≡ queue
    → IsInOrder (shelling s)
    → IsInOrder (shelling (take_line s queue))
take_line-IsInOrder s [] e o = o
take_line-IsInOrder s (line ∷ others) e (to_shell, from_shell) = (
  append_assoc s.input (line ∷ []) others
      ∙ ap (λ (ts : List Bytes). s.input ++ ts) (sym e)
      ∙ to_shell,
  from_shell,
)

show_text-IsInOrder :
    (s : Shelling) (coming : List Bytes)
    → s.coming ≡ coming
    → IsInOrder (shelling s)
    → IsInOrder (shelling (show_text s coming))
show_text-IsInOrder s [] e o = o
show_text-IsInOrder s (text ∷ others) e (to_shell, from_shell) = (
  to_shell,
  append_assoc s.shown (c_str text ∷ []) (map c_str others)
      ∙ ap (λ (ts : List Bytes). s.shown ++ map c_str ts) (sym e)
      ∙ from_shell,
)

-- A text behind those that are on their way.
behind :
    (here coming all : List Bytes) (text : Bytes)
    → here ++ coming ≡ map c_str all
    → here ++ (coming ++ c_str text ∷ []) ≡ map c_str (all ++ text ∷ [])
behind here coming all text h =
    sym (append_assoc here coming (c_str text ∷ []))
    ∙ ap (λ (ts : List Bytes). ts ++ c_str text ∷ []) h
    ∙ sym (map-append c_str all (text ∷ []))

emit-IsInOrder :
    (s : Shelling) (text : Bytes) → IsInOrder (shelling s) → IsInOrder (shelling (emit s text))
emit-IsInOrder s [] o = o
emit-IsInOrder s (c ∷ text) (to_shell, from_shell) = (
  to_shell,
  ap (λ (ts : List Bytes). s.shown ++ ts)
        (map-append c_str s.coming (c_str (c ∷ text) ∷ [])
          ∙ ap (λ (t : Bytes). map c_str s.coming ++ t ∷ []) (c_str-c_str (c ∷ text)))
      ∙ behind s.shown (map c_str s.coming) s.outputs (c ∷ text) from_shell,
)

output-IsInOrder :
    (opened : Bool) (s : Shelling) (text : Bytes)
    → IsInOrder (shelling s)
    → IsInOrder (shelling (if opened then emit s text else s))
output-IsInOrder true s text o = emit-IsInOrder s text o
output-IsInOrder false s text o = o

advance-IsInOrder : (h : Happening) (p : Phase) → IsInOrder p → IsInOrder (advance h p)
advance-IsInOrder arrives greeting o = tt
advance-IsInOrder arrives greeted o = tt
advance-IsInOrder arrives asking o = tt
advance-IsInOrder arrives starting o = tt
advance-IsInOrder arrives (shelling s) o = take_line-IsInOrder s s.queue refl o
advance-IsInOrder answers greeting o = tt
advance-IsInOrder answers greeted o = tt
advance-IsInOrder answers asking o = tt
advance-IsInOrder answers starting o = (refl, refl)
advance-IsInOrder answers (shelling s) o = show_text-IsInOrder s s.coming refl o
advance-IsInOrder (types line) (shelling s) (to_shell, from_shell) =
    (behind s.input s.queue s.lines line to_shell, from_shell)
advance-IsInOrder (types line) greeting o = tt
advance-IsInOrder (types line) greeted o = tt
advance-IsInOrder (types line) asking o = tt
advance-IsInOrder (types line) starting o = tt
advance-IsInOrder (output text) (shelling s) o = output-IsInOrder s.opened s text o
advance-IsInOrder (output text) greeting o = tt
advance-IsInOrder (output text) greeted o = tt
advance-IsInOrder (output text) asking o = tt
advance-IsInOrder (output text) starting o = tt

advance_all-IsInOrder :
    (fd : ℕ) (hs : List Happening) (p : Phase) (b : Both)
    → b ≡ concrete fd p
    → IsInOrder p
    → (q : Phase) × (happen_all fd hs b ≡ concrete fd q) × IsInOrder q
unfolding happen_all
advance_all-IsInOrder fd [] p b e o = (p, e, o)
advance_all-IsInOrder fd (h ∷ hs) p b e o =
    advance_all-IsInOrder fd hs (advance h p) (happen fd h b)
      (ap (happen fd h) e ∙ happen-advance fd h p) (advance-IsInOrder h p o)

-- When no send, no opening of the shell and no write fails: whatever happens next, again and
-- again, a client that wants a shell and its server are in one of the phases, with everything that
-- both have sent. Once the shell is agreed on, the lines that it got and those on their way to it
-- are, in order, the lines that were typed, and the texts that were shown and those on their way
-- are, in order, its outputs, each up to its first zero.
pub happen_all-IsInOrder :
    (fd : ℕ) (server : Comd) (hs : List Happening)
    → (p : Phase) × (happen_all fd hs (started server) ≡ concrete fd p) × IsInOrder p
happen_all-IsInOrder fd server hs =
    advance_all-IsInOrder fd hs greeting (started server) (started-concrete fd server) tt
