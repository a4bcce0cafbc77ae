-- ===== src/Websocket/Session/Laws.antt =====
-- No message reaches the callback before its connection's handshake has been answered.
use libjaypea.Base.{
  ℕ, ◌≤◌, length, length-append, drop, Bytes, codes, [], ◌∷◌, ◌++◌, Bool, true, false, ◌==◌, ==_iff,
  ◌≡◌, sym, ap, subst, ◌⊎◌, inl, inr, Bool-cases, List, Option, none, some, Run, done, overrun,
  out_of_fuel, arith, if◌then◌else◌,
}
use libjaypea.Websocket.Session.Log.{
  Among, Among-left, Among-last, Among-snoc, drop-append_short, drop-length,
}
use libjaypea.Json.{JsonObject, string, object, of_type}
use libjaypea.Json.Access.{has_obj, get_str}
use libjaypea.Util.Http.{RequestResult, parse_http_request}
use libjaypea.Websocket.Frame.{parse_frame, create_frame}
use libjaypea.Websocket.Session.{
  Reply, Server, set_handshake, recv, send, accept_continuation, get_handshake_response, on_message,
  handshake, answer, keyed, base_send,
}

module _ (sha1_base64 : Bytes → Bytes) (send_fails : ℕ → Bytes → Bool)
    (on_read : ℕ → Bytes → Reply) where
  -- The handshake of the connection was answered.
  abbrev pub Answered : ℕ → List (ℕ × Bytes) → Type 0
  Answered fd written =
      (key : Bytes) × Among (fd, get_handshake_response sha1_base64 send_fails on_read key) written

  -- How many texts had been written, and messages delivered, when each connection was accepted.
  pub record Marks : Type 0 where
    pub texts : ℕ → ℕ
    pub messages : ℕ → ℕ

  -- A connection that is complete or that delivered a message since it was accepted had its
  -- handshake answered since then.
  pub record IsGuarded (b : Marks) (s : Server) : Type 0 where
    pub complete_answered :
        (fd : ℕ) → s.complete fd ≡ true → Answered fd (drop (b.texts fd) s.written)
    pub delivered_answered :
        (fd : ℕ) (message : Bytes)
        → Among (fd, message) (drop (b.messages fd) s.delivered)
        → Answered fd (drop (b.texts fd) s.written)
    pub texts_short : (fd : ℕ) → b.texts fd ≤ length s.written
    pub messages_short : (fd : ℕ) → b.messages fd ≤ length s.delivered

  Answered-append :
      (fd n : ℕ) (xs : List (ℕ × Bytes)) (y : ℕ × Bytes)
      → n ≤ length xs
      → Answered fd (drop n xs)
      → Answered fd (drop n (xs ++ y ∷ []))
  Answered-append fd n xs y l (key, m) = (
    key,
    subst (Among (fd, get_handshake_response sha1_base64 send_fails on_read key))
        (sym (drop-append_short n xs (y ∷ []) l)) (Among-left (y ∷ []) m),
  )

  -- One more text was written.
  written-IsGuarded :
      (b : Marks) (s : Server) (y : ℕ × Bytes)
      → IsGuarded b s
      → IsGuarded b (record s { written = s.written ++ y ∷ [] })
  written-IsGuarded b s y g = record {
    complete_answered = λ other c.
        Answered-append other (b.texts other) s.written y (g.texts_short other)
          (g.complete_answered other c);
    delivered_answered = λ other message m.
        Answered-append other (b.texts other) s.written y (g.texts_short other)
          (g.delivered_answered other message m);
    texts_short = λ other. omega (arith, g.texts_short other, length-append s.written (y ∷ []));
    messages_short = g.messages_short;
  }

  base_send-IsGuarded :
      (b : Marks) (s : Server) (fd : ℕ) (text : Bytes)
      → IsGuarded b s
      → IsGuarded b (base_send sha1_base64 send_fails on_read s fd text).0
  base_send-IsGuarded b s fd text g = elim (Bool-cases (send_fails fd text)) [
    | inl bad ↦ rw bad g
    | inr good ↦ rw good (written-IsGuarded b s (fd, text) g)
  ]

  pub send-IsGuarded :
      (b : Marks) (s : Server) (fd : ℕ) (text : Bytes)
      → IsGuarded b s
      → IsGuarded b (send sha1_base64 send_fails on_read s fd text).0
  unfolding send
  send-IsGuarded b s fd text g =
      base_send-IsGuarded b s fd (if s.complete fd then create_frame text else text) g

  -- The descriptor stands for a new connection.
  abbrev pub marked : ℕ → Server → Marks → Marks
  marked fd s b = record {
    texts = λ other. if other == fd then length s.written else b.texts other;
    messages = λ other. if other == fd then length s.delivered else b.messages other;
  }

  pub accept_continuation-IsGuarded :
      (b : Marks) (s : Server) (fd : ℕ)
      → IsGuarded b s
      → IsGuarded (marked fd s b) (accept_continuation sha1_base64 send_fails on_read s fd)
  unfolding accept_continuation set_handshake
  accept_continuation-IsGuarded b s fd g = record {
    complete_answered = λ other c. elim (Bool-cases (other == fd)) [
      | inl new ↦ cc (rw new at c)
      | inr old ↦ rw old (g.complete_answered other (rw old at c))
    ];
    delivered_answered = λ other message m. elim (Bool-cases (other == fd)) [
      | inl new ↦ elim (subst (Among (other, message)) (drop-length s.delivered) (rw new at m)) [ ]
      | inr old ↦ rw old (g.delivered_answered other message (rw old at m))
    ];
    texts_short = λ other. ground (arith, g.texts_short other);
    messages_short = λ other. ground (arith, g.messages_short other);
  }

  -- The state of a result is guarded, if there is one.
  abbrev pub Guards : Marks → Run (Server × Reply) → Type 0
  Guards b overrun = Unit
  Guards b out_of_fuel = Unit
  Guards b (done (s, r)) = IsGuarded b s

  delivered_last :
      (b : Marks) (s : Server) (fd other : ℕ) (message text : Bytes)
      → IsGuarded b s
      → Among (other, text) (drop (b.messages other) (s.delivered ++ (fd, message) ∷ []))
      → Among (other, text) (drop (b.messages other) s.delivered)
        ⊎ (◌≡◌ {A = ℕ × Bytes} (other, text) (fd, message))
  delivered_last b s fd other message text g m =
      Among-snoc (drop (b.messages other) s.delivered) (fd, message)
        (subst (Among (other, text))
          (drop-append_short (b.messages other) s.delivered ((fd, message) ∷ [])
            (g.messages_short other))
          m)

  deliver-IsGuarded :
      (b : Marks) (s : Server) (fd : ℕ) (message : Bytes)
      → s.complete fd ≡ true
      → IsGuarded b s
      → IsGuarded b (record s { delivered = s.delivered ++ (fd, message) ∷ [] })
  deliver-IsGuarded b s fd message c g = record {
    complete_answered = g.complete_answered;
    delivered_answered = λ other text m. elim (delivered_last b s fd other message text g m) [
      | inl old ↦ g.delivered_answered other text old
      | inr e ↦
          subst (λ (x : ℕ). Answered x (drop (b.texts x) s.written))
            (sym (ap (λ (p : ℕ × Bytes). p.0) e)) (g.complete_answered fd c)
    ];
    texts_short = g.texts_short;
    messages_short = λ other.
        omega (arith, g.messages_short other, length-append s.delivered ((fd, message) ∷ []));
  }

  on_message-Guards :
      (b : Marks) (s : Server) (fd : ℕ) (m : Option Bytes)
      → s.complete fd ≡ true
      → IsGuarded b s
      → Guards b (on_message sha1_base64 send_fails on_read s fd m)
  on_message-Guards b s fd none c g = tt
  on_message-Guards b s fd (some message) c g = ground (arith, deliver-IsGuarded b s fd message c g)

  answered-IsGuarded :
      (b : Marks) (s : Server) (fd : ℕ) (key : Bytes)
      → IsGuarded b s
      → let y : ℕ × Bytes = (fd, get_handshake_response sha1_base64 send_fails on_read key) in
        IsGuarded b
          (record s { complete = set_handshake fd true s.complete; written = s.written ++ y ∷ [] })
  unfolding set_handshake
  answered-IsGuarded b s fd key g =
      let y : ℕ × Bytes = (fd, get_handshake_response sha1_base64 send_fails on_read key) in
      let h : IsGuarded b (record s { written = s.written ++ y ∷ [] }) =
        written-IsGuarded b s y g in
      record {
        complete_answered = λ other c. elim (Bool-cases (other == fd)) [
          | inl new ↦
              subst (λ (x : ℕ). Answered x (drop (b.texts x) (s.written ++ y ∷ [])))
                (sym ((==_iff other fd).0 new))
                (
                  key,
                  subst (Among y)
                      (sym (drop-append_short (b.texts fd) s.written (y ∷ []) (g.texts_short fd)))
                      (Among-last y (drop (b.texts fd) s.written)),
                )
          | inr old ↦ h.complete_answered other (rw old at c)
        ];
        delivered_answered = h.delivered_answered;
        texts_short = h.texts_short;
        messages_short = h.messages_short;
      }

  answer-Guards :
      (b : Marks) (s : Server) (fd : ℕ) (key : Bytes)
      → s.complete fd ≡ false
      → IsGuarded b s
      → Guards b (answer sha1_base64 send_fails on_read s fd key)
  unfolding send
  answer-Guards b s fd key c g =
      elim (Bool-cases
        (send_fails fd (get_handshake_response sha1_base64 send_fails on_read key))) [
          | inl bad ↦ rw (c, bad) g
          | inr good ↦ rw (c, good) (answered-IsGuarded b s fd key g)
        ]

  keyed-Guards :
      (b : Marks) (s : Server) (fd : ℕ) (key : Option Bytes)
      → s.complete fd ≡ false
      → IsGuarded b s
      → Guards b (keyed sha1_base64 send_fails on_read s fd key)
  keyed-Guards b s fd none c g = tt
  keyed-Guards b s fd (some key) c g = answer-Guards b s fd key c g

  handshake-Guards :
      (b : Marks) (s : Server) (fd : ℕ) (r : Run (RequestResult × JsonObject))
      → s.complete fd ≡ false
      → IsGuarded b s
      → Guards b (handshake sha1_base64 send_fails on_read s fd r)
  handshake-Guards b s fd overrun c g = tt
  handshake-Guards b s fd out_of_fuel c g = tt
  handshake-Guards b s fd (done (r, request)) c g =
      elim (Bool-cases (has_obj (codes "Sec-WebSocket-Key") string request)) [
        | inl there_is ↦
            rw there_is (keyed-Guards b s fd (get_str (codes "Sec-WebSocket-Key") request) c g)
        | inr without ↦ rw without g
      ]

  pub recv-Guards :
      (b : Marks) (k f : ℕ) (s : Server) (fd : ℕ) (buffer : Bytes) (data_length : ℕ)
      → IsGuarded b s
      → Guards b (recv sha1_base64 send_fails on_read k f s fd buffer data_length)
  unfolding recv
  recv-Guards b k f s fd buffer data_length g = elim (Bool-cases (s.complete fd)) [
    | inl there_is ↦
        rw there_is (on_message-Guards b s fd (parse_frame buffer data_length) there_is g)
    | inr without ↦
        rw without
          (handshake-Guards b s fd (parse_http_request k f buffer (of_type object)) without g)
  ]

  -- What happens to the server, in any order and on any connections.
  pub data Reach : Marks → Server → Type 0 where
    started :
        Reach
          (record { texts = λ fd. 0; messages = λ fd. 0 })
          (record { complete = λ fd. false; written = []; delivered = [] })
    accepted :
        (b : Marks) (s : Server) (fd : ℕ)
        → Reach b s
        → Reach (marked fd s b) (accept_continuation sha1_base64 send_fails on_read s fd)
    sent :
        (b : Marks) (s : Server) (fd : ℕ) (text : Bytes)
        → Reach b s
        → Reach b (send sha1_base64 send_fails on_read s fd text).0
    received :
        (b : Marks) (s t : Server) (k f fd : ℕ) (buffer : Bytes) (data_length : ℕ) (r : Reply)
        → Reach b s
        → recv sha1_base64 send_fails on_read k f s fd buffer data_length ≡ done (t, r)
        → Reach b t

  -- In every state that connections, sends and receptions lead to, a connection whose handshake is
  -- complete, or that delivered a message since it was accepted, had a handshake response written to
  -- it since it was accepted, also when its descriptor belonged to an earlier connection.
  pub Reach-IsGuarded : (b : Marks) (s : Server) → Reach b s → IsGuarded b s
  Reach-IsGuarded _ _ started = record {
    complete_answered = λ fd c. ground arith;
    delivered_answered = λ fd message m. elim m [ ];
    texts_short = λ fd. omega arith;
    messages_short = λ fd. omega arith;
  }
  Reach-IsGuarded _ _ (accepted b s fd h) =
      accept_continuation-IsGuarded b s fd (Reach-IsGuarded b s h)
  Reach-IsGuarded _ _ (sent b s fd text h) = send-IsGuarded b s fd text (Reach-IsGuarded b s h)
  Reach-IsGuarded b t (received _ s _ k f fd buffer data_length r h e) =
      subst (Guards b) e (recv-Guards b k f s fd buffer data_length (Reach-IsGuarded b s h))
