-- ===== src/EventClient.antt =====
-- `EventClient` of cpp-source/tcp-event-client.cpp: connections that one thread opens, connects and
-- reads in rounds. What the system answers in a round is an argument; so are the callbacks and the
-- `recv` of a derived class, over the counters and the state `U` of the program around it.
pub mod Looks
pub mod Counted
pub mod Over
pub mod Plain
use libjaypea.Base.{
  ℕ, suc, ◌+◌, ◌-◌, ◌==◌, Bytes, [], ◌∷◌, ◌++◌, List, Bool, true, false, not, ◌||◌, equal,
  if◌then◌else◌, Option, none, some, Dict, lookup, insert,
}
use libjaypea.Base.Tables.{Table, set}
use libjaypea.Encryptor.Packets.{Read}

pub data ConnectionState : Type 0 where
  disconnected connecting connected dead : ConnectionState

-- `address` is the `sin_addr` and the port of `server_address`, once they are set; `fd` is `none`
-- for -1.
pub record Connection : Type 0 where
  pub fd : Option ℕ
  pub hostname : Bytes
  pub ip_address : Bytes
  pub port : ℕ
  pub state : ConnectionState
  pub address : Option (ℕ × ℕ)

-- The two constructors of `Connection`.
abbrev pub by_hostname : Bytes → ℕ → Connection
by_hostname hostname port = record {
  fd = none;
  hostname = hostname;
  ip_address = [];
  port = port;
  state = disconnected;
  address = none;
}

abbrev pub by_ip : ℕ → Bytes → Connection
by_ip port ip_address = record {
  fd = none;
  hostname = [];
  ip_address = ip_address;
  port = port;
  state = disconnected;
  address = none;
}

pub record Sockets {ℓ} (U : Type ℓ) : Type ℓ where
  pub read_counter : Table ℕ
  pub write_counter : Table ℕ
  pub user : U

-- The client without its connections. `closed` has what was given to `close`, the last one first.
-- The class gives `alive_connections` no first value: it is taken to be 0 or more.
pub record Client {ℓ} (U : Type ℓ) : Type ℓ where
  pub alive_connections : ℕ
  pub host_addresses : Dict ℕ
  pub closed : List (Option ℕ)
  pub sockets : Sockets U

pub data Opened : Type 0 where
  descriptor : ℕ → Opened
  too_many : Opened
  no_socket : Opened

pub data Connecting : Type 0 where
  established pending refused : Connecting

-- What the system answers while one connection is looked at: `socket`, `gethostbyname`, `connect`,
-- and the reads.
pub record Answers : Type 0 where
  pub socket : Opened
  pub host : Option ℕ
  pub connect : Connecting
  pub reads : List Read

-- The callbacks, which give `true` to end, and `recv`, which gives `true` for a negative number.
pub record Callbacks {ℓ} (U : Type ℓ) : Type ℓ where
  pub on_event_loop : Option (Sockets U → Bool × Sockets U)
  pub on_connect : Option (ℕ → Sockets U → Bool × Sockets U)
  pub recv : ℕ → List Read → Sockets U → Bool × Sockets U
  pub inet_addr : Bytes → ℕ

-- What a look at a connection leaves: the connection, `running`, and the client.
pub record Looked {ℓ} (U : Type ℓ) : Type ℓ where
  pub connection : Connection
  pub running : Bool
  pub client : Client U

-- How `run` ends: by its event loop, by itself, or not in the rounds whose answers are given.
pub data Ended {ℓ} (U : Type ℓ) : Type ℓ where
  broken : List Connection → Client U → Ended U
  over : List Connection → Client U → Ended U
  more_rounds : List Connection → Client U → Ended U

module _ {ℓ} {U : Type ℓ} where
  abbrev pub add : Connection → List Connection × Client U → List Connection × Client U
  add conn (connections, s) =
      (connections ++ conn ∷ [], record s { alive_connections = s.alive_connections + 1 })

  abbrev pub looked : Connection → Bool → Client U → Looked U
  looked conn running s = record { connection = conn; running = running; client = s }

  abbrev pub close_client : Connection → Client U → Connection × Client U
  close_client conn s = (
    record conn { state = dead },
    record s { alive_connections = s.alive_connections - 1; closed = conn.fd ∷ s.closed },
  )

  abbrev pub closing : Connection → Bool → Client U → Looked U
  closing conn running s = looked (close_client conn s).0 running (close_client conn s).1

  abbrev pub addressed : Connection → ℕ → Client U → Looked U
  addressed conn address s =
      looked (record conn { address = some (address, conn.port); state = connecting }) true s

  -- `gethostbyname`, for a name that was not found before.
  abbrev pub asked : Connection → Option ℕ → Client U → Looked U
  asked conn none s = closing conn false s
  asked conn (some address) s =
      addressed conn address
        (record s { host_addresses = insert conn.hostname address s.host_addresses })

  abbrev pub resolved : Connection → Option ℕ → Option ℕ → Client U → Looked U
  resolved conn host (some address) s = addressed conn address s
  resolved conn host none s = asked conn host s

  abbrev pub reset : ℕ → Sockets U → Sockets U
  reset fd s = record s {
    read_counter = set fd 0 s.read_counter;
    write_counter = set fd 0 s.write_counter;
  }

  abbrev pub told : Connection → Client U → Bool × Sockets U → Looked U
  told conn s (ends, sockets) =
      if ends
      then closing conn true (record s { sockets = sockets })
      else looked conn true (record s { sockets = sockets })

  abbrev pub announce :
      Connection → ℕ → Client U → Option (ℕ → Sockets U → Bool × Sockets U) → Looked U
  announce conn fd s none = looked conn true s
  announce conn fd s (some on_connect) = told conn s (on_connect fd s.sockets)

  abbrev pub event_loop : Option (Sockets U → Bool × Sockets U) → Client U → Bool × Client U
  event_loop none s = (false, s)
  event_loop (some f) s = let r = f s.sockets in (r.0, record s { sockets = r.1 })

  module _ (callbacks : Callbacks U) where
    abbrev pub open_socket : Answers → Connection → Opened → Client U → Looked U
    open_socket answers conn too_many s = looked (record conn { fd = none }) false s
    open_socket answers conn no_socket s = closing (record conn { fd = none }) false s
    open_socket answers conn (descriptor fd) s =
        if equal conn.hostname []
        then addressed (record conn { fd = some fd }) (callbacks.inet_addr conn.ip_address) s
        else resolved (record conn { fd = some fd }) answers.host
            (lookup conn.hostname s.host_addresses) s

    abbrev pub connect : Connection → ℕ → Connecting → Client U → Looked U
    connect conn fd established s =
        announce (record conn { state = connected }) fd (record s { sockets = reset fd s.sockets })
          callbacks.on_connect
    connect conn fd pending s = looked conn true s
    connect conn fd refused s = closing conn false s

    -- A connection behind `disconnected` has a descriptor; without one, the calls fail.
    abbrev pub look_at : Answers → Connection → ConnectionState → Option ℕ → Client U → Looked U
    look_at answers conn disconnected fd s = open_socket answers conn answers.socket s
    look_at answers conn connecting (some fd) s = connect conn fd answers.connect s
    look_at answers conn connecting none s = closing conn false s
    look_at answers conn connected (some fd) s =
        told conn s (callbacks.recv fd answers.reads s.sockets)
    look_at answers conn connected none s = closing conn true s
    look_at answers conn dead fd s = looked conn false s

    unfoldable pub look : Answers → Connection → Client U → Looked U
    look answers conn s = look_at answers conn conn.state conn.fd s

    -- The loop over the connections, with the answers for each.
    unfoldable pub round :
        (ℕ → Answers) → List Connection → Bool → Client U → List Connection × Bool × Client U
    round answers [] running s = ([], running, s)
    round answers (conn ∷ connections) running s =
        let l = look (answers 0) conn s in
        let r = round (λ n. answers (suc n)) connections (running || l.running) l.client in
        (l.connection ∷ r.0, r.1, r.2)

    -- The `while` loop, for the rounds whose answers are given.
    unfoldable pub run : List (ℕ → Answers) → List Connection → Client U → Ended U
    run [] connections s = more_rounds connections s
    run (answers ∷ others) connections s =
        let e = event_loop callbacks.on_event_loop s in
        let r = round answers connections false e.1 in
        let rest = run others r.0 r.2 in
        if e.0
        then broken connections e.1
        else if r.2.alive_connections == 0 || not r.1
        then over r.0 r.2
        else rest
