-- ===== src/Connections/Connect/Outcomes.antt =====
-- How the two halves of Connect in internal/control/handler.go end.
use midori_vpn_core.Prelude.{
  ℕ, ◌≡◌, refl, sym, subst, Bool, true, false, ◌&&◌, not, List, [], ◌∷◌, Option, none, some,
  Outcome, ok, err, panic, diverges, ◌==◌, if◌then◌else◌, ◌⊎◌, inl, inr, arith, Bool-cases,
  Option-cases,
}
use midori_vpn_core.Prelude.Int.{ℤ}
use midori_vpn_core.Prelude.Equality.{text_eq, ◌=?◌}
use midori_vpn_core.Net.{Text}
use midori_vpn_core.Strings.{is_empty}
use midori_vpn_core.Inputs.{is_valid_wg_key, without_mask}
use midori_vpn_core.Connections.{
  Peer, Server, Database, Effect, core_add, core_remove, ConnectError, server_full, server_error,
  device_limit, core_failed, Reply, find_peer, find_server, is_taken, is_some, is_available,
  insert_peer, has_room, least_loaded, less_loaded, lighter, one_more, on_server, release_slot,
  reserve_slot, save_server,
}
use midori_vpn_core.Connections.Meshing.{Settings}
use midori_vpn_core.Connections.Connect
use midori_vpn_core.Connections.Connect.{
  Wanted, ConnectRequest, Config, Looked, Answers, Begun, answered, repeated, held, selected,
  or_refused, take_slot, reserve_on, choose, begin, complete, device_count_ok, new_peer,
}

-- The limit of devices, where there is one, is not reached.
abbrev pub HasDevice : Settings → ℕ → Database → Type 0
HasDevice h user db = (h.max_devices ≡ 0) ⊎ (device_count_ok h user db ≡ true)

abbrev pub with_slot : Server → Database → Database
with_slot s db = record db { servers = on_server s.id one_more db.servers }

-- A row of the table.
pub data In (s : Server) : List Server → Type 0 where
  here : (ss : List Server) → In s (s ∷ ss)
  there : (t : Server) (ss : List Server) → In s ss → In s (t ∷ ss)

find_server-In : (i : ℕ) (ss : List Server) (s : Server) → find_server i ss ≡ some s → In s ss
unfolding find_server
find_server-In i [] s h = cc
find_server-In i (t ∷ ss) s h = elim (Bool-cases (t.id == i)) [
  | inl e ↦ let same : t ≡ s = ground arith in rw same (here ss)
  | inr e ↦ there t ss (find_server-In i ss s (ground arith))
]

pub least_loaded-In : (ss : List Server) (s : Server) → least_loaded ss ≡ some s → In s ss
unfolding least_loaded lighter
least_loaded-In [] s h = cc
least_loaded-In (t ∷ ss) s h = elim (Bool-cases (t.is_active && has_room t)) [
  | inl e ↦ elim (Option-cases (least_loaded ss)) [
    | inl n ↦ let same : t ≡ s = ground arith in rw same (here ss)
    | inr (u, n) ↦ elim (Bool-cases (less_loaded u t)) [
      | inl l ↦ there t ss (least_loaded-In ss s (ground arith))
      | inr l ↦ let same : t ≡ s = ground arith in rw same (here ss)
    ]
  ]
  | inr e ↦ there t ss (least_loaded-In ss s (ground arith))
]

selected-In :
    (reads : Bool) (wanted : Wanted) (db : Database) (s : Server)
    → selected reads wanted db ≡ ok s
    → In s db.servers
unfolding selected or_refused
selected-In reads Connect.no_uuid db s h = cc
selected-In reads Connect.any_server db s h =
    least_loaded-In db.servers s (ground (arith, Option-cases (least_loaded db.servers)))
selected-In reads (Connect.server i) db s h =
    find_server-In i db.servers s (ground (arith, Option-cases (find_server i db.servers)))

-- The body of a request was decoded, and has a key of a WireGuard peer.
pub record Asks (body : Option ConnectRequest) (req : ConnectRequest) : Type 0 where
  pub decodes : body ≡ some req
  pub present : is_empty req.public_key ≡ false
  pub valid : is_valid_wg_key req.public_key ≡ true

-- The first half keeps the tables and answers, or takes a slot of a server that has one for a user
-- who may have another device, or finds no slot.
pub data Begins (h : Settings) (user : ℕ) (db : Database) (body : Option ConnectRequest)
    : Database × Begun → Type 0 where
  refused : (e : ConnectError) → Begins h user db body (db, answered (err e))
  existed : (i : ℕ) (c : Config) → c.is_new ≡ false → Begins h user db body (db, repeated i c)
  took :
      (s : Server) (req : ConnectRequest)
      → Asks body req
      → In s db.servers
      → is_available (find_server s.id db.servers) ≡ true
      → HasDevice h user db
      → Begins h user db body (with_slot s db, held s req)
  full :
      (s : Server)
      → is_available (find_server s.id db.servers) ≡ false
      → Begins h user db body (with_slot s db, answered (err server_full))

module _ (h : Settings) (user : ℕ) (db : Database) (body : Option ConnectRequest) where
  refusing :
      (b : Bool) (e : ConnectError) (r : Database × Begun)
      → Begins h user db body r
      → Begins h user db body (if b then (db, answered (err e)) else r)
  refusing true e r a = refused _
  refusing false e r a = a

  take_slot-Begins :
      (executes : Bool) (s : Server) (req : ConnectRequest)
      → Asks body req
      → In s db.servers
      → HasDevice h user db
      → Begins h user db body (take_slot executes db s req (reserve_slot s.id db))
  unfolding take_slot reserve_slot
  take_slot-Begins false s req g i d = refused _
  take_slot-Begins true s req g i d =
      elim (Bool-cases (is_available (find_server s.id db.servers))) [
        | inl e ↦ rw e (took s req g i e d)
        | inr e ↦ rw e (full s e)
      ]

  reserve_on-Begins :
      (executes : Bool) (req : ConnectRequest) (o : Outcome ConnectError Server)
      → Asks body req
      → ((s : Server) → o ≡ ok s → In s db.servers)
      → HasDevice h user db
      → Begins h user db body (reserve_on executes db req o)
  unfolding reserve_on
  reserve_on-Begins executes req (ok s) g i d = take_slot-Begins executes s req g (i s refl) d
  reserve_on-Begins executes req (err e) g i d = refused _
  reserve_on-Begins executes req panic g i d = refused _
  reserve_on-Begins executes req diverges g i d = refused _

  choose-Begins :
      (q : Looked) (req : ConnectRequest)
      → Asks body req
      → Begins h user db body (choose h q user req db)
  unfolding choose
  choose-Begins q req g = elim (Bool-cases (h.max_devices == 0)) [
    | inl e ↦ rw e (
        reserve_on-Begins q.reserves req (selected q.selects req.wanted db) g
          (selected-In q.selects req.wanted db) (inl (ground arith)))
    | inr e ↦
        rw e (refusing (not q.counts) server_error _ (counted (device_count_ok h user db) refl))
  ]
    where
      counted :
          (b : Bool)
          → device_count_ok h user db ≡ b
          → Begins h user db body (
              if b
              then reserve_on q.reserves db req (selected q.selects req.wanted db)
              else (db, answered (err device_limit)))
      counted true e =
          reserve_on-Begins q.reserves req (selected q.selects req.wanted db) g
            (selected-In q.selects req.wanted db) (inr e)
      counted false e = refused _

  module _ (endpoint : Text → ℤ → Text) where
    existing-Begins :
        (q : Looked) (core_key : Option Text) (r : Database × Begun) (o : Option Peer)
        → Begins h user db body r
        → Begins h user db body (Connect.existing endpoint q core_key db r o)
    unfolding Connect.existing Connect.existing_on
    existing-Begins q core_key r none b = b
    existing-Begins q core_key r (some p) b =
        on_server_found (if q.reads_existing then find_server p.server_id db.servers else none) b
      where
        on_server_found :
            (o : Option Server)
            → Begins h user db body r
            → Begins h user db body (Connect.existing_on endpoint core_key db p r o)
        on_server_found none b = b
        on_server_found (some s) b =
            existed s.id (Connect.existing_config endpoint core_key p s)
              (unfold Connect.existing_config in refl)

    body_decoded-Begins :
        (q : Looked) (core_key : Option Text) (o : Option ConnectRequest)
        → body ≡ o
        → Begins h user db body (Connect.body_decoded endpoint h q core_key user db o)
    unfolding Connect.body_decoded Connect.known
    body_decoded-Begins q core_key none d = refused _
    body_decoded-Begins q core_key (some req) d = elim (Bool-cases (is_empty req.public_key)) [
      | inl e ↦ rw e (refused _)
      | inr e ↦ rw e (elim (Bool-cases (is_valid_wg_key req.public_key)) [
        | inl v ↦ rw v (
            existing-Begins q core_key _ _
              (choose-Begins q req (record { decodes = d; present = e; valid = v })))
        | inr v ↦ rw v (refused _)
      ])
    ]

    pub begin-Begins :
        (q : Looked) (core_key : Option Text) (admits : Bool)
        → Begins h user db body (begin endpoint h q core_key admits db user body)
    unfolding begin
    begin-Begins q core_key true = body_decoded-Begins q core_key body refl
    begin-Begins q core_key false = refused _

-- What an INSERT that is executed has met and done.
pub record Inserts (p : Peer) (db new : Database) : Type 0 where
  pub unused : find_peer p.id db.peers ≡ none
  pub untaken : is_taken p.server_id p.public_key db.peers ≡ false
  pub served : is_some (find_server p.server_id db.servers) ≡ true
  pub result : new ≡ record db { peers = p ∷ db.peers }

pub insert_peer-Inserts :
    (accepts : Bool) (p : Peer) (db new : Database)
    → insert_peer accepts p db ≡ some new
    → Inserts p db new
unfolding insert_peer
insert_peer-Inserts accepts p db new e = elim (Option-cases (find_peer p.id db.peers)) [
  | inl n ↦ record {
    unused = n;
    untaken = ground arith;
    served = ground arith;
    result = ground arith;
  }
  | inr (q, n) ↦ absurd (ground arith)
]

-- The table of servers after a refresh of the key: as it was, or with the row as the handler read it
-- but for its key, and the count of the table.
abbrev pub saved : Server → Text → List Server → List Server
saved s key ss =
    on_server s.id (λ t. record s { public_key = key; current_peers = t.current_peers }) ss

-- The second half releases the slot and fails, or stores an active peer of the server for the user.
-- Where the INSERT fails, the core is told to remove the peer that it has added.
pub data Finishes (w : Answers) (user : ℕ) (s : Server) (req : ConnectRequest) (db : Database)
    : Reply Config → Type 0 where
  unreached :
      w.core_address ≡ none
      → Finishes w user s req db (record {
        db = release_slot w.releases s.id db;
        effects = core_add s.id req.public_key ∷ [];
        result = err core_failed;
      })
  undone :
      (ip : Text)
      → w.core_address ≡ some ip
      → Finishes w user s req db (record {
        db = release_slot w.releases s.id db;
        effects = core_add s.id req.public_key ∷ core_remove s.id req.public_key ∷ [];
        result = err server_error;
      })
  stored :
      (ip : Text) (new : Database) (fx : List Effect) (c : Config)
      → find_peer w.peer_id db.peers ≡ none
      → is_taken s.id req.public_key db.peers ≡ false
      → is_some (find_server s.id db.servers) ≡ true
      → new.peers ≡ new_peer w user s req ip ∷ db.peers
      → (new.servers ≡ db.servers) ⊎ ((key : Text) × (new.servers ≡ saved s key db.servers))
      → c.peer_id ≡ w.peer_id
      → c.is_new ≡ true
      → c.peer_ip ≡ without_mask ip
      → Finishes w user s req db
          (record { db = new; effects = core_add s.id req.public_key ∷ fx; result = ok c })

refreshed-servers :
    (saves : Bool) (s : Server) (key : Text) (db : Database)
    → (((Connect.refreshed saves s key db).servers ≡ db.servers)
        ⊎ ((k : Text) × ((Connect.refreshed saves s key db).servers ≡ saved s k db.servers)))
unfolding Connect.refreshed save_server
refreshed-servers saves s key db = elim (Bool-cases (s.public_key =? key)) [
  | inl e ↦ rw e (inl refl)
  | inr e ↦ rw e (written saves s key db)
]
  where
    written :
        (saves : Bool) (s : Server) (key : Text) (db : Database)
        → (((save_server saves (record s { public_key = key }) db).servers ≡ db.servers)
            ⊎ ((k : Text) × ((save_server saves (record s { public_key = key }) db).servers
                  ≡ saved s k db.servers)))
    written true s key db = inr (key, refl)
    written false s key db = inl refl

refreshed-peers :
    (saves : Bool) (s : Server) (key : Text) (db : Database)
    → (Connect.refreshed saves s key db).peers ≡ db.peers
unfolding Connect.refreshed save_server
refreshed-peers true s key db = ground arith
refreshed-peers false s key db = ground arith

module _ (endpoint : Text → ℤ → Text) (h : Settings) where
  connected-Finishes :
      (w : Answers) (user : ℕ) (s : Server) (req : ConnectRequest) (db : Database) (ip : Text)
      {new : Database}
      → Inserts (new_peer w user s req ip) db new
      → Finishes w user s req db (
          Connect.connected endpoint h w user s
            (new_peer w user s req ip)
            (record db { peers = new_peer w user s req ip ∷ db.peers }))
  unfolding Connect.connected new_peer Connect.new_config
  connected-Finishes w user s req db ip i =
      stored ip _ _ _ i.unused i.untaken i.served (refreshed-peers w.saves s _ _)
        (refreshed-servers w.saves s _ _) refl refl refl

  pub complete-Finishes :
      (w : Answers) (user : ℕ) (s : Server) (req : ConnectRequest) (db : Database)
      → Finishes w user s req db (complete endpoint h w user s req db)
  unfolding complete Connect.added
  complete-Finishes w user s req db = reached w.core_address refl
    where
      found :
          (ip : Text) (o : Option Database)
          → insert_peer w.inserts (new_peer w user s req ip) db ≡ o
          → w.core_address ≡ some ip
          → Finishes w user s req db
              (Connect.peer_inserted endpoint h w user s (new_peer w user s req ip) db o)
      found ip none e a = unfold Connect.peer_inserted new_peer in undone ip a
      found ip (some new) e a =
          let i = insert_peer-Inserts w.inserts (new_peer w user s req ip) db new e in
          subst
            (λ d.
              Finishes w user s req db
                (Connect.connected endpoint h w user s (new_peer w user s req ip) d))
            (sym i.result) (connected-Finishes w user s req db ip i)

      reached :
          (o : Option Text)
          → w.core_address ≡ o
          → Finishes w user s req db (Connect.added endpoint h w user s req db o)
      reached none e = unreached e
      reached (some ip) e = found ip _ refl e
