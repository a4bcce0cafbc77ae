-- ===== src/Jph2/Tanks/Whole/Messages.antt =====
-- Messages, events and collisions keep the game of cpp-source/examples/jph2/tanks-wss.cpp whole.
use libjaypea.Base.{
  ℕ, Bytes, codes, equal, [], ◌∷◌, List, ◌==◌, ◌&&◌, not, true, Option, none, some, Dict, is_some,
  ◌≡◌, refl, subst, inl, inr, Bool-cases,
}
use libjaypea.Base.Tables.{Table, find, set, remove, find-set, find-remove}
use libjaypea.Json.{JsonObject, get, put}
use libjaypea.Jph2.Tanks.{
  Double, Game, Event, connect, disconnect, destroy, tank_of, new_player, handle_event, handle_each,
  push_event, on_disconnect, forget, handle_of, steer, details, announce, spawn, spawn_at, new_tank,
  received,
}
use libjaypea.Jph2.Tanks.Collision.{collides, collide_with, collide_all}
use libjaypea.Jph2.Tanks.Whole.{
  Has, HasAll-Keeps, write_member-Keeps, get_str-some, new_player-HasAll, is_some-emplace,
  is_some-emplaced, AllWhole, AllWhole-get, AllWhole-put, AllWhole-mono, AllWhole-drop,
}

details-Has : (handle : Bytes) (color : Option Bytes) → Has (codes "handle") (details handle color)
unfolding get put equal
details-Has handle none = refl
details-Has handle (some color) = refl

find_before :
    (fd other : ℕ) (m : Table JsonObject) (o : JsonObject)
    → find other (remove fd m) ≡ some o
    → find other m ≡ some o
find_before fd other m o h = elim (Bool-cases (fd == other)) [
  | inl same ↦ cc (rw (find-remove fd other m, same) at h)
  | inr apart ↦ rw (find-remove fd other m, apart) at h
]

find_details :
    (fd other : ℕ) (handle : Bytes) (color : Option Bytes) (m : Table JsonObject) (o : JsonObject)
    → (find other m ≡ some o → Has (codes "handle") o)
    → find other (set fd (details handle color) m) ≡ some o
    → Has (codes "handle") o
find_details fd other handle color m o before h = elim (Bool-cases (fd == other)) [
  | inl same ↦
      let e : details handle color ≡ o =
        cc (rw (find-set fd other (details handle color) m, same) at h) in
      subst (Has (codes "handle")) e (details-Has handle color)
  | inr apart ↦ before (rw (find-set fd other (details handle color) m, apart) at h)
]

module _ {ℓ} {R : Type ℓ} where
  pub record IsWhole (g : Game R) : Type ℓ where
    pub players : AllWhole g.tanks g.players
    pub clients :
        (fd : ℕ) (details : JsonObject)
        → find fd g.client_details ≡ some details
        → Has (codes "handle") details

  handle_event-IsWhole : (event : Event) (g : Game R) → IsWhole g → IsWhole (handle_event event g)
  unfolding handle_event
  handle_event-IsWhole (connect player) g w = record { players = w.players; clients = w.clients }
  handle_event-IsWhole (disconnect player) g w = record {
    players = AllWhole-drop g.tanks (tank_of player) g.players w.players;
    clients = w.clients;
  }
  handle_event-IsWhole (destroy player) g w = record {
    players = AllWhole-drop g.tanks player g.players w.players;
    clients = w.clients;
  }

  pub handle_each-IsWhole :
      (events : List Event) (g : Game R) → IsWhole g → IsWhole (handle_each events g)
  handle_each-IsWhole [] g w = w
  handle_each-IsWhole (event ∷ events) g w =
      handle_each-IsWhole events (handle_event event g) (handle_event-IsWhole event g w)

  push_event-IsWhole : (event : Event) (g : Game R) → IsWhole g → IsWhole (push_event event g)
  push_event-IsWhole event g w = record { players = w.players; clients = w.clients }

  abbrev pub GoesOn : Option (Game R) → Type ℓ
  GoesOn r = (h : Game R) × (r ≡ some h) × IsWhole h

  handle_found :
      (found : Option JsonObject)
      → ((details : JsonObject) → found ≡ some details → Has (codes "handle") details)
      → (fd : ℕ) (g : Game R) → IsWhole g
      → GoesOn (forget fd found (handle_of found) g)
  handle_found none known fd g w = (g, refl, w)
  handle_found (some d) known fd g w =
      let (handle, e) = get_str-some (codes "handle") d (known d refl) in
      (
        record (push_event (disconnect handle) g) { client_details = remove fd g.client_details },
        rw e refl,
        record {
          players = w.players;
          clients =
              λ other o found. w.clients other o (find_before fd other g.client_details o found);
        },
      )

  pub on_disconnect-GoesOn : (fd : ℕ) (g : Game R) → IsWhole g → GoesOn (on_disconnect fd g)
  unfolding on_disconnect
  on_disconnect-GoesOn fd g w = handle_found (find fd g.client_details) (w.clients fd) fd g w

  steer-GoesOn :
      (name input : Bytes) (found : Option JsonObject) (g : Game R)
      → get name g.players ≡ found
      → IsWhole g
      → GoesOn (steer name input found g)
  steer-GoesOn name input none g e w = (g, refl, w)
  steer-GoesOn name input (some player) g e w =
      let (at, members) = AllWhole-get g.tanks name g.players player w.players e in
      let (p, f, k) = write_member-Keeps (codes "i") input player members.0 in
      (
        record g { players = put name p g.players },
        rw f refl,
        record {
          players =
              AllWhole-put g.tanks name p g.players w.players (at, HasAll-Keeps player p k members);
          clients = w.clients;
        },
      )

  announce-IsWhole :
      (fd : ℕ) (handle : Bytes) (color : Option Bytes) (g : Game R)
      → IsWhole g
      → IsWhole (announce fd handle color g)
  announce-IsWhole fd handle color g w = elim (Bool-cases (is_some (find fd g.client_details))) [
    | inl there ↦ rw there w
    | inr new ↦ rw new (record {
      players = w.players;
      clients = λ other o found.
          find_details fd other handle color g.client_details o (w.clients other o) found;
    })
  ]

  collide_with-IsWhole :
      (ops : Double R) (name : Bytes) (at : R × R) (others : Dict (R × R)) (g : Game R)
      → IsWhole g
      → IsWhole (collide_with ops name at others g)
  unfolding collide_with
  collide_with-IsWhole ops name at [] g w = w
  collide_with-IsWhole ops name at ((other, there) ∷ others) g w =
      elim (Bool-cases (not (equal name other) && collides ops at there)) [
        | inl hit ↦ rw hit (
            collide_with-IsWhole ops name at others (push_event (destroy name) g)
              (push_event-IsWhole (destroy name) g w))
        | inr miss ↦ rw miss (collide_with-IsWhole ops name at others g w)
      ]

  pub collide_all-IsWhole :
      (ops : Double R) (tanks all : Dict (R × R)) (g : Game R)
      → IsWhole g
      → IsWhole (collide_all ops tanks all g)
  unfolding collide_all
  collide_all-IsWhole ops [] all g w = w
  collide_all-IsWhole ops ((name, at) ∷ others) all g w =
      collide_all-IsWhole ops others all (collide_with ops name at all g)
        (collide_with-IsWhole ops name at all g w)

  module _ (ops : Double R) where
    spawn_at-GoesOn :
        (name x y : Bytes) (a b : Option R) (g : Game R)
        → is_some a ≡ true
        → is_some b ≡ true
        → IsWhole g
        → GoesOn (spawn_at ops name x y a b g)
    spawn_at-GoesOn name x y none b g h k w = cc
    spawn_at-GoesOn name x y (some a) none g h k w = cc
    spawn_at-GoesOn name x y (some a) (some b) g h k w =
        let others : AllWhole (new_tank ops name (a, b) g.tanks) g.players =
          AllWhole-mono g.tanks (new_tank ops name (a, b) g.tanks) g.players
            (λ other there. is_some-emplace name other (a, b) g.tanks.locations there) w.players in
        (
          record g {
            tanks = new_tank ops name (a, b) g.tanks;
            players = put name (new_player x y) g.players;
          },
          refl,
          record {
            players =
                AllWhole-put (new_tank ops name (a, b) g.tanks) name (new_player x y) g.players
                  others (is_some-emplaced name (a, b) g.tanks.locations, new_player-HasAll x y);
            clients = w.clients;
          },
        )

    -- A text, if there is one, is a number.
    abbrev pub IsNumber : Option Bytes → Type 0
    IsNumber none = Unit
    IsNumber (some text) = is_some (ops.stod text) ≡ true

    spawn-GoesOn :
        (name x y : Bytes) (g : Game R)
        → IsNumber (some x)
        → IsNumber (some y)
        → IsWhole g
        → GoesOn (spawn ops name x y g)
    spawn-GoesOn name x y g h k w = elim (Bool-cases (is_some (get name g.players))) [
      | inl there ↦ rw there (g, refl, w)
      | inr new ↦ rw new (spawn_at-GoesOn name x y (ops.stod x) (ops.stod y) g h k w)
    ]

    pub received-GoesOn :
        (fd : ℕ) (handle i announced x y color : Option Bytes) (g : Game R)
        → IsNumber x
        → IsNumber y
        → IsWhole g
        → GoesOn (received ops fd handle i announced x y color g)
    received-GoesOn fd (some handle) (some i) announced x y color g h k w =
        steer-GoesOn (tank_of handle) i (get (tank_of handle) g.players) g refl w
    received-GoesOn fd (some handle) none (some announced) x y color g h k w =
        (announce fd announced color g, refl, announce-IsWhole fd announced color g w)
    received-GoesOn fd none none (some announced) x y color g h k w =
        (announce fd announced color g, refl, announce-IsWhole fd announced color g w)
    received-GoesOn fd none (some i) (some announced) x y color g h k w =
        (announce fd announced color g, refl, announce-IsWhole fd announced color g w)
    received-GoesOn fd (some handle) none none (some x) (some y) color g h k w =
        spawn-GoesOn (tank_of handle) x y g h k w
    received-GoesOn fd (some handle) none none (some x) none color g h k w = (g, refl, w)
    received-GoesOn fd (some handle) none none none y color g h k w = (g, refl, w)
    received-GoesOn fd none none none x y color g h k w = (g, refl, w)
    received-GoesOn fd none (some i) none x y color g h k w = (g, refl, w)
