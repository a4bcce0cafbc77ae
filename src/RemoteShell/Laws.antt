-- ===== src/RemoteShell/Laws.antt =====
-- What a client has shown before its packets reach the shell.
use libjaypea.Base.{
  Bytes, [], ◌∷◌, ◌++◌, List, Bool-cases, equal, equal_iff, c_str, ◌≡◌, refl, sym, ap, ◌∙◌, inl,
  inr, subst,
}
use libjaypea.RemoteShell.{
  ComdState, verify_identity, select_routine, exchange_packets, ComdRoutine, shell, send_file,
  recv_file, identity, routines, Comd, Luck, on_connect, on_disconnect, sopen, verify, select,
  exchange, on_read, on_read_in,
}

-- By the state: nothing was accepted; the identity was; or the identity, the wish for a shell, and
-- then the packets that were written to the shell, all of them and in order.
abbrev pub Progress : ComdState → List Bytes → List Bytes → Type 0
Progress verify_identity accepted input = (accepted ≡ []) × (input ≡ [])
Progress select_routine accepted input =
    (first : Bytes) × (accepted ≡ first ∷ []) × (c_str first ≡ identity) × (input ≡ [])
Progress exchange_packets accepted input =
    (first : Bytes) × (second : Bytes) × (accepted ≡ first ∷ second ∷ input)
    × (c_str first ≡ identity)
    × (c_str second ≡ routines shell)

abbrev pub IsOrderly : Comd → Type 0
IsOrderly s = Progress s.state s.accepted s.input

verify-Progress :
    (luck : Luck) (packet : Bytes) (s : Comd)
    → s.state ≡ verify_identity
    → Progress verify_identity s.accepted s.input
    → IsOrderly (verify luck packet s).0
unfolding verify
verify-Progress luck packet s here (none_yet, no_input) =
    let still : IsOrderly s =
      subst (λ (c : ComdState). Progress c s.accepted s.input) (sym here) (none_yet, no_input) in
    elim (Bool-cases (equal (c_str packet) identity)) [
      | inr other ↦ rw other still
      | inl right ↦ elim (Bool-cases luck.send_fails) [
        | inl bad ↦ rw (right, bad) still
        | inr good ↦
            rw (right, good)
              (
                packet,
                ap (λ (l : List Bytes). l ++ packet ∷ []) none_yet,
                (equal_iff (c_str packet) identity).0 right,
                no_input,
              )
      ]
    ]

select-Progress :
    (luck : Luck) (packet : Bytes) (s : Comd)
    → s.state ≡ select_routine
    → Progress select_routine s.accepted s.input
    → IsOrderly (select luck packet s).0
unfolding select
select-Progress luck packet s here (first, one, named, no_input) =
    let still : IsOrderly s =
      subst (λ (c : ComdState). Progress c s.accepted s.input) (sym here)
        (first, one, named, no_input) in
    elim (Bool-cases (equal (c_str packet) (routines shell))) [
      | inr other ↦ elim (Bool-cases luck.send_fails) [
        | inl bad ↦ rw (other, bad) still
        | inr good ↦ rw (other, good) still
      ]
      | inl right ↦ elim (Bool-cases luck.send_fails) [
        | inl bad ↦ rw (right, bad) still
        | inr good ↦
            rw (right, good)
              (
                first,
                packet,
                ap (λ (l : List Bytes). l ++ packet ∷ []) one
                    ∙ ap (λ (l : List Bytes). first ∷ packet ∷ l) (sym no_input),
                named,
                (equal_iff (c_str packet) (routines shell)).0 right,
              )
      ]
    ]

-- Opening the shell changes nothing of the connection.
record Same (s t : Comd) : Type 0 where
  state : t.state ≡ s.state
  accepted : t.accepted ≡ s.accepted
  input : t.input ≡ s.input

sopen-Same : (luck : Luck) (s : Comd) → Same s (sopen luck s).0
unfolding sopen
sopen-Same luck s = elim (Bool-cases s.opened) [
  | inl there_is ↦ rw there_is (record { state = refl; accepted = refl; input = refl })
  | inr closed ↦ elim (Bool-cases luck.open_fails) [
    | inl bad ↦ rw (closed, bad) (record { state = refl; accepted = refl; input = refl })
    | inr good ↦ rw (closed, good) (record { state = refl; accepted = refl; input = refl })
  ]
]

Same-IsOrderly : (s t : Comd) → Same s t → IsOrderly s → IsOrderly t
Same-IsOrderly s t same g =
    subst (λ (c : ComdState). Progress c t.accepted t.input) (sym same.state)
      (subst (λ (l : List Bytes). Progress s.state l t.input) (sym same.accepted)
        (subst (λ (l : List Bytes). Progress s.state s.accepted l) (sym same.input) g))

exchange-Progress :
    (luck : Luck) (packet : Bytes) (routine : ComdRoutine) (s : Comd)
    → s.state ≡ exchange_packets
    → Progress exchange_packets s.accepted s.input
    → IsOrderly (exchange luck packet routine s).0
unfolding exchange sopen
exchange-Progress luck packet send_file s here progress =
    subst (λ (c : ComdState). Progress c s.accepted s.input) (sym here) progress
exchange-Progress luck packet recv_file s here progress =
    subst (λ (c : ComdState). Progress c s.accepted s.input) (sym here) progress
exchange-Progress luck packet shell s here (first, second, all, named, chosen) =
    let same = sopen-Same luck s in
    let t = (sopen luck s).0 in
    let still : IsOrderly t = Same-IsOrderly s t same (
      subst (λ (c : ComdState). Progress c s.accepted s.input) (sym here)
        (first, second, all, named, chosen)) in
    elim (Bool-cases (sopen luck s).1) [
      | inl bad ↦ rw bad still
      | inr good ↦ elim (Bool-cases luck.write_fails) [
        | inl bad ↦ rw (good, bad) still
        | inr fine ↦
            rw (good, fine)
              (subst
                (λ (c : ComdState). Progress c (t.accepted ++ packet ∷ []) (s.input ++ packet ∷ []))
                (sym (same.state ∙ here))
                (
                  first,
                  second,
                  ap (λ (l : List Bytes). l ++ packet ∷ []) (same.accepted ∙ all),
                  named,
                  chosen,
                ))
      ]
    ]

on_read-Progress :
    (luck : Luck) (packet : Bytes) (s : Comd) (c : ComdState)
    → s.state ≡ c
    → Progress c s.accepted s.input
    → IsOrderly (on_read_in luck packet s c).0
on_read-Progress luck packet s verify_identity here progress =
    verify-Progress luck packet s here progress
on_read-Progress luck packet s select_routine here progress =
    select-Progress luck packet s here progress
on_read-Progress luck packet s exchange_packets here progress =
    exchange-Progress luck packet s.routine s here progress

-- What happens to the program.
pub data Reach : Comd → Type 0 where
  connected : (s : Comd) → Reach (on_connect s)
  disconnected : (s : Comd) → Reach s → Reach (on_disconnect s)
  packet_read :
      (s : Comd) (luck : Luck) (packet : Bytes) → Reach s → Reach (on_read luck packet s).0

-- From the moment of a connection, whatever comes from it and whatever fails: before the shell gets
-- a packet the client has sent the identity and then the name of the shell's routine, and the
-- shell's input is every packet that was accepted behind these two, in order.
pub Reach-IsOrderly : (s : Comd) → Reach s → IsOrderly s
unfolding on_connect on_disconnect on_read
Reach-IsOrderly _ (connected s) = (refl, refl)
Reach-IsOrderly _ (disconnected s h) = Reach-IsOrderly s h
Reach-IsOrderly _ (packet_read s luck packet h) =
    on_read-Progress luck packet s s.state refl (Reach-IsOrderly s h)
