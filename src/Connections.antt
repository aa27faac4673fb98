-- ===== src/Connections.antt =====
-- The peers of the control plane: the tables peers and vpn_servers of internal/repo/peer.go and
-- internal/repo/server.go, and the parts of mesh_networks and mesh_members that a connection
-- touches. A UUID and a time are numbers; the columns of type INTEGER that an administrator sets are
-- integers, and current_peers, which the statements keep at or above 0, is a number.
pub mod Meshing
pub mod Connect
pub mod Disconnect
pub mod Jobs
pub mod Counts
pub mod Slots
pub mod Histories
pub mod Even
pub mod Balance
pub mod Capacity
pub mod Refunds
pub mod Sweeps
pub mod Selection
pub mod Devices
pub mod Samples
use midori_vpn_core.Prelude.{
  ℕ, zero, suc, ◌+◌, ◌-◌, ◌*◌, Bool, true, false, ◌&&◌, ◌||◌, not, List, [], ◌∷◌, ◌++◌, Option,
  none, some, Outcome, ok, err, ltb, ◌==◌, if◌then◌else◌,
}
use midori_vpn_core.Prelude.Int.{ℤ, pos, negsuc, pos_part}
use midori_vpn_core.Prelude.Equality.{text_eq, ◌=?◌}
use midori_vpn_core.Net.{Text}
use midori_vpn_core.Meshes.{Mesh, MeshMember}

-- A row of peers.
pub record Peer : Type 0 where
  pub id : ℕ
  pub user_id : ℕ
  pub server_id : ℕ
  pub public_key : Text
  pub assigned_ip : Text
  pub is_active : Bool
  pub device_name : Text
  pub last_handshake : Option ℕ
  pub bytes_sent : ℕ
  pub bytes_received : ℕ
  pub created_at : ℕ
  pub expires_at : Option ℕ

-- A row of vpn_servers.
pub record Server : Type 0 where
  pub id : ℕ
  pub name : Text
  pub host : Text
  pub endpoint : Text
  pub port : ℤ
  pub wg_port : ℤ
  pub public_key : Text
  pub core_token : Text
  pub location : Text
  pub country_code : Text
  pub max_peers : ℤ
  pub current_peers : ℕ
  pub is_active : Bool
  pub proxy_port : ℤ

pub record Database : Type 0 where
  pub peers : List Peer
  pub servers : List Server
  pub meshes : List Mesh
  pub members : List MeshMember

-- PeerRepo.GetByID
unfoldable pub find_peer : ℕ → List Peer → Option Peer
find_peer i [] = none
find_peer i (p ∷ ps) = let rest = find_peer i ps in if p.id == i then some p else rest

-- ServerRepo.GetByID
unfoldable pub find_server : ℕ → List Server → Option Server
find_server i [] = none
find_server i (s ∷ ss) = let rest = find_server i ss in if s.id == i then some s else rest

pub is_active_of : ℕ → Text → Peer → Bool
is_active_of user key p = p.user_id == user && (p.public_key =? key && p.is_active)

-- GetActiveByUserAndPublicKey
unfoldable pub get_active_by_user_and_public_key : ℕ → Text → List Peer → Option Peer
unfolding is_active_of
get_active_by_user_and_public_key user key [] = none
get_active_by_user_and_public_key user key (p ∷ ps) =
    let rest = get_active_by_user_and_public_key user key ps in
    if is_active_of user key p then some p else rest

-- CountByUser
unfoldable pub count_by_user : ℕ → List Peer → ℕ
count_by_user user [] = 0
count_by_user user (p ∷ ps) =
    let rest = count_by_user user ps in if p.user_id == user && p.is_active then suc rest else rest

-- The rows that satisfy a condition, in the order of the table.
unfoldable pub rows : (Peer → Bool) → List Peer → List Peer
rows f [] = []
rows f (p ∷ ps) = let rest = rows f ps in if f p then p ∷ rest else rest

-- ListByUser
unfoldable pub list_by_user : ℕ → List Peer → List Peer
list_by_user user = rows (λ p. p.user_id == user)

-- ListActiveByServer
unfoldable pub list_active_by_server : ℕ → List Peer → List Peer
list_active_by_server server = rows (λ p. p.server_id == server && p.is_active)

-- The unique index idx_peers_server_pubkey_active.
unfoldable pub is_taken : ℕ → Text → List Peer → Bool
is_taken server key [] = false
is_taken server key (p ∷ ps) =
    (p.server_id == server && (p.public_key =? key && p.is_active)) || is_taken server key ps

pub is_some {ℓ} : {A : Type ℓ} → Option A → Bool
is_some none = false
is_some (some a) = true

-- The INSERT of PeerRepo.Create: the primary key, the unique index and the reference to the server
-- may refuse it.
unfoldable pub insert_peer : Bool → Peer → Database → Option Database
unfolding is_some
insert_peer accepts p db =
    if accepts
      && (not (is_some (find_peer p.id db.peers))
          && (not (is_taken p.server_id p.public_key db.peers)
              && is_some (find_server p.server_id db.servers)))
    then some (record db { peers = p ∷ db.peers })
    else none

unfoldable pub deactivate : ℕ → List Peer → List Peer
deactivate i [] = []
deactivate i (p ∷ ps) = (if p.id == i then record p { is_active = false } else p) ∷ deactivate i ps

unfoldable pub without_peer : ℕ → List Peer → List Peer
without_peer i [] = []
without_peer i (p ∷ ps) = let rest = without_peer i ps in if p.id == i then rest else p ∷ rest

unfoldable pub update_stats : ℕ → ℕ → ℕ → Option ℕ → List Peer → List Peer
update_stats i sent received handshake [] = []
update_stats i sent received handshake (p ∷ ps) =
    (if p.id == i
      then record p { bytes_sent = sent; bytes_received = received; last_handshake = handshake }
      else p)
    ∷ update_stats i sent received handshake ps

-- An UPDATE of the server with an id.
unfoldable pub on_server : ℕ → (Server → Server) → List Server → List Server
on_server i f [] = []
on_server i f (s ∷ ss) = (if s.id == i then f s else s) ∷ on_server i f ss

-- UpdatePeerCount by -1: GREATEST(current_peers - 1, 0)
unfoldable pub one_less : Server → Server
one_less s = record s { current_peers = s.current_peers - 1 }

unfoldable pub release_slot : Bool → ℕ → Database → Database
release_slot accepts i db =
    if accepts then record db { servers = on_server i one_less db.servers } else db

-- current_peers < max_peers
unfoldable pub has_room : Server → Bool
has_room s = ltb s.current_peers (pos_part s.max_peers)

pub one_more : Server → Server
one_more s =
    if s.is_active && has_room s then record s { current_peers = s.current_peers + 1 } else s

pub is_available : Option Server → Bool
is_available none = false
is_available (some s) = s.is_active && has_room s

-- ReserveSlot, where the database executes the statement: whether one row was changed.
unfoldable pub reserve_slot : ℕ → Database → Database × Bool
unfolding one_more is_available
reserve_slot i db = (
  record db { servers = on_server i one_more db.servers },
  is_available (find_server i db.servers),
)

-- SetPeerCount
unfoldable pub set_peer_count : Bool → ℕ → ℕ → Database → Database
set_peer_count accepts i n db =
    if accepts
    then record db { servers = on_server i (λ s. record s { current_peers = n }) db.servers }
    else db

-- ServerRepo.Update: every column but the count
unfoldable pub save_server : Bool → Server → Database → Database
save_server accepts new db =
    if accepts
    then record db {
      servers = on_server new.id (λ s. record new { current_peers = s.current_peers }) db.servers;
    }
    else db

-- current_peers::float / GREATEST(max_peers, 1), compared as fractions
pub capacity : Server → ℕ
capacity s = if ltb 1 (pos_part s.max_peers) then pos_part s.max_peers else 1

unfoldable pub less_loaded : Server → Server → Bool
unfolding capacity
less_loaded s t = ltb (s.current_peers * capacity t) (t.current_peers * capacity s)

pub lighter : Server → Option Server → Option Server
lighter s none = some s
lighter s (some t) = if less_loaded t s then some t else some s

-- LeastLoaded
unfoldable pub least_loaded : List Server → Option Server
unfolding lighter
least_loaded [] = none
least_loaded (s ∷ ss) =
    let rest = least_loaded ss in if s.is_active && has_room s then lighter s rest else rest

-- ClearMemberPeerByPeerID, which is also what deleting the row of the peer does
unfoldable pub clear_member_peer : ℕ → List MeshMember → List MeshMember
clear_member_peer i [] = []
clear_member_peer i (m ∷ ms) = cleared i m m.peer_id ∷ clear_member_peer i ms
  where
    cleared : ℕ → MeshMember → Option ℕ → MeshMember
    cleared i m none = m
    cleared i m (some j) = if j == i then record m { peer_id = none } else m

-- What a handler makes of its request: the tables, the calls to other components in their order,
-- whether they fail or not, and the answer.
pub data Effect : Type 0 where
  core_add core_remove : ℕ → Text → Effect
  core_stats : ℕ → Effect
  add_mesh_ip : Text → Text → Effect
  remove_mesh_ip : Text → Effect
  mesh_list_changed : Effect
  notify : Text → List ℕ → ℕ → Effect
  audit : Text → ℕ → ℕ → Effect

pub data ConnectError : Type 0 where
  too_many_requests invalid_body key_required bad_key device_limit bad_server_id : ConnectError
  server_not_found no_servers server_full core_failed bad_peer_id peer_not_found : ConnectError
  not_your_peer own_account server_error : ConnectError

pub record Reply {ℓ} (A : Type ℓ) : Type ℓ where
  pub db : Database
  pub effects : List Effect
  pub result : Outcome ConnectError A

abbrev pub refuse {ℓ} : {A : Type ℓ} → Database → ConnectError → Reply A
refuse db e = record { db = db; effects = []; result = err e }
