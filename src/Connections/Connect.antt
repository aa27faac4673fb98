-- ===== src/Connections/Connect.antt =====
-- Connect of internal/control/handler.go in its two halves: up to the reservation of a slot, and
-- from the call of the core on. What the core, the database and the limiter answer is an input.
pub mod Outcomes
pub mod Retry
use midori_vpn_core.Prelude.{
  ℕ, Bool, true, false, ◌&&◌, not, List, [], ◌∷◌, ◌++◌, Option, none, some, Outcome, ok, err, ltb,
  leb, ◌==◌, if◌then◌else◌,
}
use midori_vpn_core.Prelude.Int.{ℤ}
use midori_vpn_core.Prelude.Equality.{text_eq, ◌=?◌}
use midori_vpn_core.Net.{Text, codes}
use midori_vpn_core.Strings.{is_empty}
use midori_vpn_core.Inputs.{is_valid_wg_key, sanitize_device_name, without_mask}
use midori_vpn_core.Connections.{
  Peer, Server, Database, Effect, core_add, core_remove, core_stats, audit, ConnectError,
  too_many_requests, invalid_body, key_required, bad_key, device_limit, bad_server_id,
  server_not_found, no_servers, server_full, core_failed, server_error, Reply, refuse, find_server,
  get_active_by_user_and_public_key, count_by_user, insert_peer, reserve_slot, release_slot,
  save_server, least_loaded,
}
use midori_vpn_core.Connections.Meshing.{Settings, Statements, attach_peer, Meshed}

-- The field server_id is empty, is no UUID, or is one.
pub data Wanted : Type 0 where
  any_server : Wanted
  no_uuid : Wanted
  server : ℕ → Wanted

pub record ConnectRequest : Type 0 where
  pub wanted : Wanted
  pub public_key : Text
  pub device_name : Text

-- ConnectionConfig, without the DNS server and the constant AllowedIPs, and the status: 201 for a
-- new peer, 200 for one that was there.
pub record Config : Type 0 where
  pub is_new : Bool
  pub peer_id : ℕ
  pub peer_ip : Text
  pub server_public_key : Text
  pub server_endpoint : Text

-- Which statements the database executes in the first half.
pub record Looked : Type 0 where
  pub looks_up : Bool
  pub reads_existing : Bool
  pub counts : Bool
  pub selects : Bool
  pub reserves : Bool

-- What the second half meets: the address from the core, the id and the time of the new row, the
-- statements executed, and the key in the statistics of the core (none where the call failed).
pub record Answers : Type 0 where
  pub core_address : Option Text
  pub peer_id : ℕ
  pub now : ℕ
  pub inserts : Bool
  pub releases : Bool
  pub mesh : Statements
  pub core_key : Option Text
  pub saves : Bool

-- The first half ends with an answer, with an answer for the peer that is there, after its server was
-- asked for its statistics, or with a slot held on a server.
pub data Begun : Type 0 where
  answered : Outcome ConnectError Config → Begun
  repeated : ℕ → Config → Begun
  held : Server → ConnectRequest → Begun

-- The key of the server: that of the core's statistics, unless it is missing.
pub current_key : Text → Option Text → Text
current_key key none = key
current_key key (some k) = if is_empty k then key else k

unfoldable pub device_count_ok : Settings → ℕ → Database → Bool
device_count_ok h user db = ltb (count_by_user user db.peers) h.max_devices

pub or_refused : ConnectError → Option Server → Outcome ConnectError Server
or_refused e none = err e
or_refused e (some s) = ok s

-- The server that the request names, or the least loaded one.
unfoldable pub selected : Bool → Wanted → Database → Outcome ConnectError Server
unfolding or_refused
selected reads no_uuid db = err bad_server_id
selected reads any_server db =
    or_refused no_servers (if reads then least_loaded db.servers else none)
selected reads (server i) db =
    or_refused server_not_found (if reads then find_server i db.servers else none)

pub take_slot : Bool → Database → Server → ConnectRequest → Database × Bool → Database × Begun
take_slot executes db s req (new, done) =
    if not executes
    then (db, answered (err server_error))
    else (new, if done then held s req else answered (err server_full))

pub reserve_on : Bool → Database → ConnectRequest → Outcome ConnectError Server → Database × Begun
reserve_on executes db req (ok s) = take_slot executes db s req (reserve_slot s.id db)
reserve_on executes db req (err e) = (db, answered (err e))
reserve_on executes db req _ = (db, answered (err server_error))

-- From the limit of devices on.
unfoldable pub choose : Settings → Looked → ℕ → ConnectRequest → Database → Database × Begun
unfolding device_count_ok reserve_on take_slot
choose h q user req db =
    let go = reserve_on q.reserves db req (selected q.selects req.wanted db) in
    if h.max_devices == 0
    then go
    else if not q.counts
    then (db, answered (err server_error))
    else if device_count_ok h user db
    then go
    else (db, answered (err device_limit))

-- The row of the new peer, as the database returns it.
unfoldable pub new_peer : Answers → ℕ → Server → ConnectRequest → Text → Peer
new_peer w user s req ip = record {
  id = w.peer_id;
  user_id = user;
  server_id = s.id;
  public_key = req.public_key;
  assigned_ip = ip;
  is_active = true;
  device_name = sanitize_device_name req.device_name;
  last_handshake = none;
  bytes_sent = 0;
  bytes_received = 0;
  created_at = w.now;
  expires_at = none;
}

-- The key of the core is stored where it is another one.
pub refreshed : Bool → Server → Text → Database → Database
refreshed saves s key db =
    if s.public_key =? key then db else save_server saves (record s { public_key = key }) db

module _ (endpoint : Text → ℤ → Text) where
  -- wireGuardEndpointForServerHost of the endpoint, or of the host where there is none
  unfoldable pub server_endpoint : Server → Text
  server_endpoint s = endpoint (if is_empty s.endpoint then s.host else s.endpoint) s.wg_port

  pub existing_config : Option Text → Peer → Server → Config
  existing_config core_key p s = record {
    is_new = false;
    peer_id = p.id;
    peer_ip = without_mask p.assigned_ip;
    server_public_key = current_key s.public_key core_key;
    server_endpoint = server_endpoint s;
  }

  pub existing_on :
      Option Text → Database → Peer → Database × Begun → Option Server → Database × Begun
  existing_on core_key db p otherwise none = otherwise
  existing_on core_key db p otherwise (some s) = (db, repeated s.id (existing_config core_key p s))

  pub existing : Looked → Option Text → Database → Database × Begun → Option Peer → Database × Begun
  existing q core_key db otherwise none = otherwise
  existing q core_key db otherwise (some p) =
      existing_on core_key db p otherwise
        (if q.reads_existing then find_server p.server_id db.servers else none)

  -- The checks of the decoded body, and the peer that is there.
  pub known : Settings → Looked → Option Text → ℕ → ConnectRequest → Database → Database × Begun
  known h q core_key user req db =
      existing q core_key db (choose h q user req db) (
        if q.looks_up then get_active_by_user_and_public_key user req.public_key db.peers else none)

  pub body_decoded :
      Settings → Looked → Option Text → ℕ → Database → Option ConnectRequest → Database × Begun
  body_decoded h q core_key user db none = (db, answered (err invalid_body))
  body_decoded h q core_key user db (some req) =
      if is_empty req.public_key
      then (db, answered (err key_required))
      else if not (is_valid_wg_key req.public_key)
      then (db, answered (err bad_key))
      else known h q core_key user req db

  -- Connect up to the reservation. `admits` is what the limiter answers, or true without one.
  unfoldable pub begin :
      Settings
      → Looked
      → Option Text
      → Bool
      → Database
      → ℕ
      → Option ConnectRequest
      → Database × Begun
  unfolding body_decoded known existing existing_on existing_config current_key
  begin h q core_key admits db user body =
      if admits
      then body_decoded h q core_key user db body
      else (db, answered (err too_many_requests))

  pub new_config : Peer → Server → Config
  new_config p s = record {
    is_new = true;
    peer_id = p.id;
    peer_ip = without_mask p.assigned_ip;
    server_public_key = s.public_key;
    server_endpoint = server_endpoint s;
  }

  pub connected : Settings → Answers → ℕ → Server → Peer → Database → Reply Config
  connected h w user s p db =
      let a = attach_peer h w.mesh user p db in
      let key = current_key s.public_key w.core_key in
      record {
        db = refreshed w.saves s key (record db { members = a.members });
        effects =
            core_add s.id p.public_key
            ∷ (a.effects ++ (audit (codes "peer.connect") user p.id ∷ core_stats s.id ∷ []));
        result = ok (new_config p (record s { public_key = key }));
      }

  -- Without the row of the peer, the core is told to forget it and the slot is released.
  pub peer_inserted :
      Settings → Answers → ℕ → Server → Peer → Database → Option Database → Reply Config
  peer_inserted h w user s p db none = record {
    db = release_slot w.releases s.id db;
    effects = core_add s.id p.public_key ∷ core_remove s.id p.public_key ∷ [];
    result = err server_error;
  }
  peer_inserted h w user s p db (some new) = connected h w user s p new

  pub added :
      Settings → Answers → ℕ → Server → ConnectRequest → Database → Option Text → Reply Config
  added h w user s req db none = record {
    db = release_slot w.releases s.id db;
    effects = core_add s.id req.public_key ∷ [];
    result = err core_failed;
  }
  added h w user s req db (some ip) =
      let p = new_peer w user s req ip in peer_inserted h w user s p db (insert_peer w.inserts p db)

  -- Connect from the call of the core on, with a slot held on the server. A call that failed may have
  -- added the peer or not.
  unfoldable pub complete :
      Settings → Answers → ℕ → Server → ConnectRequest → Database → Reply Config
  unfolding added peer_inserted connected refreshed new_config new_peer current_key
  complete h w user s req db = added h w user s req db w.core_address

  unfoldable pub continued : Settings → Answers → ℕ → Database × Begun → Reply Config
  continued h w user (db, answered r) = record { db = db; effects = []; result = r }
  continued h w user (db, repeated i c) = record {
    db = db;
    effects = core_stats i ∷ [];
    result = ok c;
  }
  continued h w user (db, held s req) = complete h w user s req db

  -- Connect with no other request between its halves.
  unfoldable pub connect :
      Settings → Looked → Answers → Bool → Database → ℕ → Option ConnectRequest → Reply Config
  unfolding continued
  connect h q w admits db user body = continued h w user (begin h q w.core_key admits db user body)
