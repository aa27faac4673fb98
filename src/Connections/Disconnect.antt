-- ===== src/Connections/Disconnect.antt =====
-- Disconnect, DeleteConnection, AdminForceDisconnectPeer and AdminBanUser of
-- internal/control/handler.go over the tables.
pub mod Access
pub mod Cases
pub mod Evenness
pub mod Lowering
pub mod Repeated
pub mod Loops
use midori_vpn_core.Prelude.{
  ℕ, Bool, true, false, ◌&&◌, ◌||◌, not, List, [], ◌∷◌, ◌++◌, Option, none, some, Outcome, ok, err,
  ◌==◌, if◌then◌else◌,
}
use midori_vpn_core.Net.{Text, codes}
use midori_vpn_core.Inputs.{is_admin}
use midori_vpn_core.Connections.{
  Peer, Server, Database, Effect, core_remove, audit, ConnectError, bad_peer_id, peer_not_found,
  not_your_peer, own_account, invalid_body, server_error, Reply, refuse, find_peer, find_server,
  deactivate, without_peer, release_slot, list_by_user, clear_member_peer,
}
use midori_vpn_core.Connections.Meshing.{Settings, Meshed, detach_peer}

-- The user of a request, as the context holds it.
pub record User : Type 0 where
  pub id : ℕ
  pub groups : List Text

-- Which statements the database executes.
pub record Executed : Type 0 where
  pub reads_peer : Bool
  pub reads_server : Bool
  pub releases : Bool
  pub clears : Bool
  pub writes : Bool

-- The tables and the calls so far.
pub record Change : Type 0 where
  pub db : Database
  pub effects : List Effect

pub removed_from : Executed → Peer → Database → Option Server → Change
removed_from q p db none = record { db = db; effects = [] }
removed_from q p db (some s) = record {
  db = release_slot q.releases p.server_id db;
  effects = core_remove s.id p.public_key ∷ [];
}

-- The call of the core and the release of the slot, where the server is found.
unfoldable pub remove_from_server : Executed → Peer → Database → Change
unfolding removed_from
remove_from_server q p db =
    removed_from q p db (if q.reads_server then find_server p.server_id db.servers else none)

pub then_detach : Settings → Executed → Peer → Change → Change
then_detach h q p c =
    let a = detach_peer h q.clears p c.db in
    record { db = record c.db { members = a.members }; effects = c.effects ++ a.effects }

unfoldable pub deactivated : Bool → ℕ → Database → Database
deactivated executes i db = if executes then record db { peers = deactivate i db.peers } else db

-- What Disconnect, AdminForceDisconnectPeer and AdminBanUser do with one peer. They ignore the
-- errors of the statements.
unfoldable pub drop_peer : Settings → Executed → Peer → Database → Change
unfolding then_detach deactivated
drop_peer h q p db =
    let c = then_detach h q p (remove_from_server q p db) in
    record { db = deactivated q.writes p.id c.db; effects = c.effects }

unfoldable pub is_owner : User → Peer → Bool
is_owner u p = p.user_id == u.id || is_admin (some u.groups)

pub dropped_by : Text → ℕ → Settings → Executed → Peer → Database → Reply (Unit {0})
dropped_by action by h q p db =
    let c = drop_peer h q p db in
    record { db = c.db; effects = c.effects ++ (audit action by p.id ∷ []); result = ok tt }

pub owned : (Peer → Reply (Unit {0})) → Database → User → Option Peer → Reply (Unit {0})
owned act db u none = refuse db peer_not_found
owned act db u (some p) = if is_owner u p then act p else refuse db not_your_peer

-- The checks that Disconnect, DeleteConnection and the exports of a configuration share.
pub with_own_peer : (Peer → Reply (Unit {0})) → Bool → Database → User → Option ℕ → Reply (Unit {0})
with_own_peer act reads db u none = refuse db bad_peer_id
with_own_peer act reads db u (some i) =
    owned act db u (if reads then find_peer i db.peers else none)

-- Disconnect
unfoldable pub disconnect : Settings → Executed → Database → User → Option ℕ → Reply (Unit {0})
unfolding with_own_peer owned is_owner dropped_by
disconnect h q db u i =
    with_own_peer (λ p. dropped_by (codes "peer.disconnect") u.id h q p db) q.reads_peer db u i

pub force_found : Settings → Executed → Database → ℕ → Option Peer → Reply (Unit {0})
force_found h q db admin none = refuse db peer_not_found
force_found h q db admin (some p) = dropped_by (codes "admin.peer.disconnect") admin h q p db

-- AdminForceDisconnectPeer
unfoldable pub admin_force_disconnect_peer :
    Settings → Executed → Database → ℕ → Option ℕ → Reply (Unit {0})
unfolding force_found dropped_by
admin_force_disconnect_peer h q db admin none = refuse db bad_peer_id
admin_force_disconnect_peer h q db admin (some i) =
    force_found h q db admin (if q.reads_peer then find_peer i db.peers else none)

-- Deleting the row of a peer clears the references of the members to it.
pub deleted_peer : ℕ → Database → Database
deleted_peer i db = record db {
  peers = without_peer i db.peers;
  members = clear_member_peer i db.members;
}

pub delete_rest : Settings → Executed → User → Peer → Change → Reply (Unit {0})
delete_rest h q u p start =
    let c = then_detach h q p start in
    if q.writes
    then record {
      db = deleted_peer p.id c.db;
      effects = c.effects ++ (audit (codes "peer.delete") u.id p.id ∷ []);
      result = ok tt;
    }
    else record { db = c.db; effects = c.effects; result = err server_error }

-- Only an active peer is removed from its server.
pub delete_found : Settings → Executed → User → Database → Peer → Reply (Unit {0})
delete_found h q u db p =
    delete_rest h q u p
      (if p.is_active then remove_from_server q p db else record { db = db; effects = [] })

-- DeleteConnection
unfoldable pub delete_connection :
    Settings → Executed → Database → User → Option ℕ → Reply (Unit {0})
unfolding with_own_peer owned is_owner delete_found delete_rest then_detach deleted_peer
delete_connection h q db u i = with_own_peer (delete_found h q u db) q.reads_peer db u i

pub drop_if_active : Settings → Executed → Peer → Change → Change
drop_if_active h q p c =
    let d = drop_peer h q p c.db in
    if p.is_active then record { db = d.db; effects = c.effects ++ d.effects } else c

-- The loop of AdminBanUser over the peers as they were listed. `q` is what is executed for a peer.
unfoldable pub drop_active : Settings → (ℕ → Executed) → List Peer → Change → Change
unfolding drop_if_active
drop_active h q [] c = c
drop_active h q (p ∷ ps) c = drop_active h q ps (drop_if_active h (q p.id) p c)

-- AdminBanUser: whether the UPDATE of the user and the listing of the peers are executed. The
-- column is_banned stands in another table.
unfoldable pub admin_ban_user :
    Settings → Bool → Bool → (ℕ → Executed) → Database → ℕ → Option ℕ → Bool → Reply (Unit {0})
admin_ban_user h bans lists q db admin none has_body = refuse db bad_peer_id
admin_ban_user h bans lists q db admin (some user) has_body =
    let c =
      drop_active h q (if lists then list_by_user user db.peers else [])
        (record { db = db; effects = [] }) in
    if admin == user
    then refuse db own_account
    else if not has_body
    then refuse db invalid_body
    else if not bans
    then refuse db server_error
    else record {
      db = c.db;
      effects = c.effects ++ (audit (codes "admin.user.ban") admin user ∷ []);
      result = ok tt;
    }
