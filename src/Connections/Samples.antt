-- ===== src/Connections/Samples.antt =====
-- The theorems on the connections at one server and three users.
use midori_vpn_core.Prelude.{
  ℕ, suc, ◌+◌, ◌-◌, ◌≤◌, ◌≡◌, refl, ap, true, List, [], ◌∷◌, Option, none, some, ok, err, ◌==◌,
  length, if◌then◌else◌, arith,
}
use midori_vpn_core.Prelude.Counting.{one_if}
use midori_vpn_core.Prelude.Int.{ℤ, pos}
use midori_vpn_core.Prelude.Equality.{text_beq}
use midori_vpn_core.Strings.{is_empty}
use midori_vpn_core.Base64.{decode}
use midori_vpn_core.Net.{Text, codes}
use midori_vpn_core.Inputs.{
  is_valid_wg_key, is_admin, is_name_char, sanitize_device_name, without_mask,
}
use midori_vpn_core.Connections.{
  Peer, Server, Database, find_peer, count_by_user, least_loaded, on_server, insert_peer,
  release_slot, save_server, is_taken, core_failed, find_server, has_room, reserve_slot,
  get_active_by_user_and_public_key,
}
use midori_vpn_core.Connections.Meshing.{Settings, Statements, attach_peer}
use midori_vpn_core.Connections.Connect.{
  any_server, ConnectRequest, Config, Looked, Answers, held, begin, complete, connect, continued,
  new_peer, server_endpoint, choose, device_count_ok, selected,
}
use midori_vpn_core.Connections.Disconnect.{User, Executed, is_owner, disconnect, delete_connection}
use midori_vpn_core.Connections.Disconnect.Access.{other_user-kept}
use midori_vpn_core.Connections.Disconnect.Repeated.{disconnect-disconnect}
use midori_vpn_core.Connections.Jobs.{
  CorePeer, Synced, is_stale, list_stale, peer_cleanup, stats_sync,
}
use midori_vpn_core.Connections.Jobs.Healing.{AreHealed, IsSynced, stats_sync-AreHealed}
use midori_vpn_core.Connections.Counts.{IsKeyed, active_on}
use midori_vpn_core.Connections.Slots.{AreKeyed, Counts}
use midori_vpn_core.Connections.Even.{IsEven}
use midori_vpn_core.Connections.Histories.{World, Event, start, finish, stop, IsComplete}
use midori_vpn_core.Connections.Refunds.{IsRefunded, connect-IsRefunded}
use midori_vpn_core.Connections.Devices.{Call, connect_all, connect_all-count, connect_both-exceeds}
use midori_vpn_core.Connections.Selection.{Picks, least_loaded-Picks}
use midori_vpn_core.Connections.Sweeps.{swept, peer_cleanup-swept}

abbrev server : Server
server = record {
  id = 7;
  name = codes "one";
  host = codes "vpn.example";
  endpoint = [];
  port = pos 443;
  wg_port = pos 51820;
  public_key = codes "sk";
  core_token = codes "t";
  location = [];
  country_code = [];
  max_peers = pos 3;
  current_peers = 1;
  is_active = true;
  proxy_port = pos 0;
}

-- 32 bytes of 0
abbrev key : Text
key = codes "AAAAAAAAAAAAAAAAAAAAAAAAAAAAAAAAAAAAAAAAAAA="

abbrev peer : Peer
peer = record {
  id = 1;
  user_id = 5;
  server_id = 7;
  public_key = codes "pk";
  assigned_ip = codes "10.8.0.2/32";
  is_active = true;
  device_name = codes "phone";
  last_handshake = none;
  bytes_sent = 0;
  bytes_received = 0;
  created_at = 100;
  expires_at = none;
}

abbrev tables : Database
tables = record { peers = peer ∷ []; servers = server ∷ []; meshes = []; members = [] }

abbrev settings : Settings
settings = record { max_devices = 2; has_wg = true; has_hub = true }

abbrev looked : Looked
looked = record {
  looks_up = true;
  reads_existing = true;
  counts = true;
  selects = true;
  reserves = true;
}

abbrev mesh : Statements
mesh = record { lists = true; reads = λ i. true; updates = λ i. true }

abbrev answers : ℕ → Option Text → Answers
answers id ip = record {
  core_address = ip;
  peer_id = id;
  now = 200;
  inserts = true;
  releases = true;
  mesh = mesh;
  core_key = none;
  saves = true;
}

abbrev address : Option Text
address = some (codes "10.8.0.3/32")

abbrev request : ConnectRequest
request = record { wanted = any_server; public_key = key; device_name = codes "laptop" }

abbrev other_request : ConnectRequest
other_request = record {
  wanted = any_server;
  public_key = codes "AAAAAAAAAAAAAAAAAAAAAAAAAAAAAAAAAAAAAAAAAAE=";
  device_name = codes "tablet";
}

abbrev endpoint : Text → ℤ → Text
endpoint host port = host

abbrev executed : Executed
executed = record {
  reads_peer = true;
  reads_server = true;
  releases = true;
  clears = true;
  writes = true;
}

whole : IsComplete executed
whole = record { reads = refl; releases = refl; writes = refl }

abbrev owner : User
owner = record { id = 5; groups = codes "users" ∷ [] }

abbrev stranger : User
stranger = record { id = 6; groups = codes "users" ∷ [] }

abbrev idle : World
idle = record { db = tables; pending = [] }

-- User 6 takes a slot, the peer of user 5 is disconnected, and the connect of user 6 ends.
abbrev history : List Event
history =
    start looked none true 6 (some request)
    ∷ stop executed owner (some 1)
    ∷ finish 0 (answers 2 address)
    ∷ []

even : IsEven (λ j. 0) tables.peers tables.servers
unfolding IsKeyed AreKeyed Counts active_on find_server
even = record {
  peers_keyed = (unfold find_peer in refl, tt);
  servers_keyed = (refl, tt);
  counts = (refl, tt);
}

least_loaded-Picks_example : Picks (server ∷ []) (least_loaded (server ∷ []))
least_loaded-Picks_example = least_loaded-Picks (server ∷ [])

-- The core does not answer.
refused_result :
    (connect endpoint settings looked (answers 2 none) true tables 6 (some request)).result
    ≡ err core_failed
unfolding connect begin is_empty is_valid_wg_key decode get_active_by_user_and_public_key text_beq
    choose device_count_ok count_by_user selected least_loaded has_room reserve_slot find_server
    on_server continued complete new_peer insert_peer release_slot save_server is_taken find_peer
    server_endpoint attach_peer is_name_char sanitize_device_name without_mask
refused_result = refl

connect-IsRefunded_example :
    IsRefunded tables none
      (connect endpoint settings looked (answers 2 none) true tables 6 (some request))
connect-IsRefunded_example =
    connect-IsRefunded tables (unfold AreKeyed in (unfold find_server in refl, tt)) endpoint
      settings looked (answers 2 none) refl true 6 (some request) core_failed refused_result

abbrev config : Config
config = record {
  is_new = true;
  peer_id = 2;
  peer_ip = codes "10.8.0.3";
  server_public_key = codes "sk";
  server_endpoint = codes "vpn.example";
}

abbrev call : Call
call = record {
  looked = looked;
  answers = answers 2 address;
  admits = true;
  user = 5;
  body = some request;
}

one_device : count_by_user 5 (peer ∷ []) ≡ 1
unfolding count_by_user
one_device = refl

connect_all-count_example :
    count_by_user 5 (connect_all endpoint settings tables (call ∷ call ∷ [])).peers ≤ 2
connect_all-count_example =
    connect_all-count endpoint settings tables (call ∷ call ∷ []) 5 (omega arith)
      (omega (arith, one_device))

disconnect-disconnect_example :
    let once = (disconnect settings executed tables owner (some 1)).db in
    let twice = (disconnect settings executed once owner (some 1)).db in
    ((disconnect settings executed tables owner (some 1)).result ≡ ok tt)
    × ((disconnect settings executed once owner (some 1)).result ≡ ok tt)
    × (twice.peers ≡ once.peers)
    × Counts (λ j. active_on j twice.peers + 0 - one_if (j == 7)) twice.servers
disconnect-disconnect_example =
    disconnect-disconnect settings executed whole refl (λ j. 0) tables owner 1 peer
      (unfold find_peer in refl) (unfold is_owner in refl) refl even

other_user-kept_example :
    (find_peer 1 (disconnect settings executed tables stranger (some 1)).db.peers ≡ some peer)
    × (find_peer 1 (delete_connection settings executed tables stranger (some 1)).db.peers
        ≡ some peer)
unfolding text_beq
other_user-kept_example =
    other_user-kept settings executed tables stranger (some 1) 1 peer (unfold is_admin in refl)
      (unfold find_peer in refl) (λ e. omega (arith, e))

keyed : IsKeyed (peer ∷ [])
unfolding IsKeyed find_peer
keyed = (refl, tt)

peer_cleanup-swept_example :
    let new = (peer_cleanup true (λ j. executed) 2000 tables).db in
    (new.peers ≡ swept (is_stale 2000) (peer ∷ [])) × (list_stale 2000 new.peers ≡ [])
peer_cleanup-swept_example = peer_cleanup-swept (λ j. executed) 2000 tables (λ j. whole) keyed

abbrev core_peer : CorePeer
core_peer = record {
  public_key = codes "pk";
  bytes_sent = 10;
  bytes_received = 20;
  last_handshake = some 150;
}

-- Each core answers with one peer for each that is active.
abbrev core_peers : ℕ → List CorePeer
core_peers j = if 7 == j then core_peer ∷ [] else []

abbrev synced : Synced
synced = record { counts = true; lists = true; updates = λ i. true }

-- The count of the server is wrong at first.
abbrev wrong : Database
wrong = record tables { servers = record server { current_peers = 0 } ∷ [] }

answering : (j : ℕ) → IsSynced (λ i. active_on i (peer ∷ [])) synced (some (core_peers j)) j
answering j = record { peers = core_peers j; answers = refl; size = sizes; stores = refl }
  where
    sizes : length (core_peers j) ≡ active_on j (peer ∷ [])
    sizes = unfold active_on in ground arith

stats_sync-AreHealed_example :
    let new = stats_sync (λ j. synced) (λ j. some (core_peers j)) wrong.servers wrong in
    AreHealed (λ j. active_on j new.peers) new.servers
stats_sync-AreHealed_example =
    stats_sync-AreHealed (λ j. synced) (λ j. some (core_peers j)) wrong answering

-- User 5 has one device and asks for two more at once.
abbrev first : Database
first = record tables { servers = record server { current_peers = 2 } ∷ [] }

abbrev second : Database
second = record tables { servers = record server { current_peers = 3 } ∷ [] }

abbrev config_of : ℕ → Config
config_of i = record config { peer_id = i }

one_held :
    begin endpoint settings looked none true tables 5 (some request) ≡ (first, held server request)
unfolding begin is_empty is_valid_wg_key decode get_active_by_user_and_public_key text_beq choose
    device_count_ok count_by_user selected least_loaded has_room reserve_slot find_server on_server
one_held = refl

two_held :
    begin endpoint settings looked none true first 5 (some other_request)
    ≡ (second, held (record server { current_peers = 2 }) other_request)
unfolding begin is_empty is_valid_wg_key decode get_active_by_user_and_public_key text_beq choose
    device_count_ok count_by_user selected least_loaded has_room reserve_slot find_server on_server
two_held = refl

first_done :
    (complete endpoint settings (answers 2 address) 5 server request second).result
    ≡ ok (config_of 2)
unfolding connect begin is_empty is_valid_wg_key decode get_active_by_user_and_public_key text_beq
    choose device_count_ok count_by_user selected least_loaded has_room reserve_slot find_server
    on_server continued complete new_peer insert_peer release_slot save_server is_taken find_peer
    server_endpoint attach_peer is_name_char sanitize_device_name without_mask
first_done = refl

second_done :
    (complete endpoint settings
      (answers 3 address)
      5
      (record server { current_peers = 2 })
      other_request
      (complete endpoint settings (answers 2 address) 5 server request second).db).result
    ≡ ok (config_of 3)
unfolding connect begin is_empty is_valid_wg_key decode get_active_by_user_and_public_key text_beq
    choose device_count_ok count_by_user selected least_loaded has_room reserve_slot find_server
    on_server continued complete new_peer insert_peer release_slot save_server is_taken find_peer
    server_endpoint attach_peer is_name_char sanitize_device_name without_mask
second_done = refl

connect_both-exceeds_example :
    count_by_user 5
      (complete endpoint settings
        (answers 3 address)
        5
        (record server { current_peers = 2 })
        other_request
        (complete endpoint settings (answers 2 address) 5 server request second).db).db.peers
    ≡ 3
connect_both-exceeds_example =
    connect_both-exceeds endpoint settings looked looked (answers 2 address) (answers 3 address)
      true tables first second 5 (some request) (some other_request) server
      (record server { current_peers = 2 }) request other_request (config_of 2) (config_of 3)
      (ap suc one_device) one_held two_held first_done second_done
