-- ===== src/Nodes/Handlers.antt =====
-- ActivateNode, AutoMesh, LeaveMesh, DeleteAutoMesh and DeactivateNode of
-- internal/control/mesh_handler.go.
pub mod Calls
pub mod Leaving
pub mod Ownership
pub mod Preserved
pub mod Status
pub mod Soundness
use midori_vpn_core.Prelude.{
  ℕ, ◌+◌, Bool, true, false, ◌||◌, not, List, [], ◌∷◌, ◌++◌, Option, none, some, Outcome, ok, err,
  ltb, ◌==◌, if◌then◌else◌,
}
use midori_vpn_core.Net.{Text, codes}
use midori_vpn_core.Meshes.{Mesh, MeshMember}
use midori_vpn_core.Meshes.Rows.{find_mesh, find_member, meshes_of, list_members}
use midori_vpn_core.Meshes.{without_member}
use midori_vpn_core.Connections.{Peer, Database, Effect, remove_mesh_ip, notify, audit, find_peer}
use midori_vpn_core.Connections.Meshing.{Settings, hub_effect}
use midori_vpn_core.Nodes.{
  Queries, NodeError, list_failed, bad_mesh_id, mesh_not_found, not_a_member, delete_failed,
  leave_failed, Provisioned, Ensured, delete_mesh, ensure_auto_mesh,
}
use midori_vpn_core.Nodes.Linking.{attach_member_to_active_peer}

-- The answer of a handler: the tables, the calls in their order, and the result.
pub record NodeReply {ℓ} (A : Type ℓ) : Type ℓ where
  pub db : Database
  pub effects : List Effect
  pub result : Outcome NodeError A

abbrev pub declined {ℓ} : {A : Type ℓ} → Database → NodeError → NodeReply A
declined db e = record { db = db; effects = []; result = err e }

-- What ActivateNode and AutoMesh share.
pub activated : Text → Settings → Queries → ℕ → Ensured → NodeReply Provisioned
activated action h q user (db, ok p) =
    let a = attach_member_to_active_peer h q user p.mesh.id p.mesh_ip db in
    record {
      db = a.0;
      effects =
          a.1 ++ (audit action user p.mesh.id ∷ (if p.is_new then hub_effect h.has_hub else []));
      result = ok p;
    }
activated action h q user (db, o) = record { db = db; effects = []; result = o }

-- ActivateNode
unfoldable pub activate_node : Settings → Queries → Text → ℕ → Database → NodeReply Provisioned
unfolding activated
activate_node h q origin user db =
    activated (codes "mesh.node.activate") h q user (ensure_auto_mesh q origin user db)

-- AutoMesh
unfoldable pub auto_mesh : Settings → Queries → Text → ℕ → Database → NodeReply Provisioned
unfolding activated
auto_mesh h q origin user db =
    activated (codes "mesh.auto.create") h q user (ensure_auto_mesh q origin user db)

pub unrouted_peer : Option Peer → List Effect
unrouted_peer none = []
unrouted_peer (some p) = remove_mesh_ip p.public_key ∷ []

pub unrouted_id : Queries → List Peer → Option ℕ → List Effect
unfolding unrouted_peer
unrouted_id q ps none = []
unrouted_id q ps (some i) = unrouted_peer (if q.reads_peer i then find_peer i ps else none)

-- RemoveMeshIP for the peer of a member, where the row has one.
pub unrouted : Settings → Queries → List Peer → MeshMember → List Effect
unfolding unrouted_id
unrouted h q ps m = if h.has_wg then unrouted_id q ps m.peer_id else []

pub unrouted_all : Settings → Queries → List Peer → List MeshMember → List Effect
unrouted_all h q ps [] = []
unrouted_all h q ps (m ∷ ms) = unrouted h q ps m ++ unrouted_all h q ps ms

pub unrouted_mesh : Settings → Queries → ℕ → Database → List Effect
unfolding unrouted_all
unrouted_mesh h q i db =
    if q.reads_members i then unrouted_all h q db.peers (list_members i db.members) else []

pub user_ids : List MeshMember → List ℕ
user_ids [] = []
user_ids (m ∷ ms) = m.user_id ∷ user_ids ms

-- memberUserIDs
unfoldable pub member_user_ids : Queries → ℕ → Database → List ℕ
unfolding user_ids
member_user_ids q i db = if q.reads_ids then user_ids (list_members i db.members) else []

pub told : Settings → List ℕ → Effect → List Effect
told h [] e = []
told h (u ∷ us) e = if h.has_hub then e ∷ [] else []

-- The owner deletes the network.
pub deleted_by : Settings → Queries → ℕ → Mesh → Database → NodeReply ℕ
unfolding unrouted_mesh told
deleted_by h q user n db =
    let ids = member_user_ids q n.id db in
    let routes = unrouted_mesh h q n.id db in
    if q.deletes n.id
    then record {
      db = delete_mesh q n.id db;
      effects =
          routes
          ++ (audit (codes "mesh.delete") user n.id
              ∷ told h ids (notify (codes "mesh.deleted") ids n.id));
      result = ok n.id;
    }
    else record { db = db; effects = routes; result = err delete_failed }

-- RemoveMember
unfoldable pub leave_row : Queries → ℕ → ℕ → Database → Database
leave_row q mesh user db =
    if q.removes mesh then record db { members = without_member mesh user db.members } else db

pub left_by : Settings → Queries → ℕ → Mesh → Database → Option MeshMember → NodeReply ℕ
unfolding unrouted
left_by h q user n db none = declined db not_a_member
left_by h q user n db (some m) =
    let routes = unrouted h q db.peers m in
    let new = leave_row q n.id user db in
    let news = notify (codes "mesh.member_left") (member_user_ids q n.id new) n.id in
    if q.removes n.id
    then record {
      db = new;
      effects =
          routes ++ (audit (codes "mesh.leave") user n.id ∷ (if h.has_hub then news ∷ [] else []));
      result = ok n.id;
    }
    else record { db = db; effects = routes; result = err leave_failed }

pub leave_found : Settings → Queries → ℕ → Database → Option Mesh → NodeReply ℕ
unfolding deleted_by left_by
leave_found h q user db none = declined db mesh_not_found
leave_found h q user db (some n) =
    if n.owner_id == user
    then deleted_by h q user n db
    else left_by h q user n db
        (if q.reads_member n.id then find_member n.id user db.members else none)

-- LeaveMesh
unfoldable pub leave_mesh : Settings → Queries → ℕ → Database → Option ℕ → NodeReply ℕ
unfolding leave_found
leave_mesh h q user db none = declined db bad_mesh_id
leave_mesh h q user db (some i) =
    leave_found h q user db (if q.reads_mesh then find_mesh i db.meshes else none)

-- The tables, the calls and the number of networks deleted so far.
pub record Purged : Type 0 where
  pub db : Database
  pub effects : List Effect
  pub deleted : ℕ

pub purged : Settings → Queries → Mesh → Purged → Purged
unfolding unrouted_mesh
purged h q n a = record {
  db = delete_mesh q n.id a.db;
  effects = a.effects ++ unrouted_mesh h q n.id a.db;
  deleted = if q.deletes n.id then a.deleted + 1 else a.deleted;
}

pub purge_sessions : Settings → Queries → ℕ → List Mesh → Purged → Purged
purge_sessions h q user [] a = a
purge_sessions h q user (n ∷ ns) a =
    purge_sessions h q user ns
      (if not n.is_session || not (n.owner_id == user) then a else purged h q n a)

-- DeleteAutoMesh
unfoldable pub delete_auto_mesh : Settings → Queries → ℕ → Database → NodeReply ℕ
unfolding purge_sessions purged
delete_auto_mesh h q user db =
    let start : Purged = record { db = db; effects = []; deleted = 0 } in
    let a = purge_sessions h q user (meshes_of user db.members db.meshes) start in
    if q.lists
    then record {
      db = a.db;
      effects =
          a.effects
          ++ (audit (codes "mesh.auto.delete") user a.deleted
              ∷ (if ltb 0 a.deleted then hub_effect h.has_hub else []));
      result = ok a.deleted;
    }
    else declined db list_failed

-- One network of DeactivateNode, where the membership was found.
pub resigned :
    Settings → Queries → ℕ → Mesh → Database × List Effect → MeshMember → Database × List Effect
unfolding unrouted
resigned h q user n (db, fx) m = (
  if n.owner_id == user then delete_mesh q n.id db else leave_row q n.id user db,
  fx ++ unrouted h q db.peers m,
)

pub resign_from :
    Settings
    → Queries
    → ℕ
    → Mesh
    → Database × List Effect
    → Option MeshMember
    → Database × List Effect
unfolding resigned
resign_from h q user n a none = a
resign_from h q user n a (some m) = resigned h q user n a m

pub resign_all :
    Settings → Queries → ℕ → List Mesh → Database × List Effect → Database × List Effect
unfolding resign_from
resign_all h q user [] a = a
resign_all h q user (n ∷ ns) a = resign_all h q user ns (
    resign_from h q user n a
      (if q.reads_member n.id then find_member n.id user a.0.members else none))

-- DeactivateNode
unfoldable pub deactivate_node : Settings → Queries → ℕ → Database → NodeReply (Unit {0})
unfolding resign_all
deactivate_node h q user db =
    let a = resign_all h q user (meshes_of user db.members db.meshes) (db, []) in
    if q.lists
    then record {
      db = a.0;
      effects = a.1 ++ (audit (codes "mesh.node.deactivate") user user ∷ hub_effect h.has_hub);
      result = ok tt;
    }
    else declined db list_failed
