-- ===== src/Connections/Meshing.antt =====
-- attachPeerToMeshSessions and detachPeerFromMeshSessions of internal/control/handler.go.
use midori_vpn_core.Prelude.{
  ℕ, Bool, true, false, ◌&&◌, List, [], ◌∷◌, ◌++◌, Option, none, some, if◌then◌else◌,
}
use midori_vpn_core.Meshes.{Mesh, MeshMember}
use midori_vpn_core.Meshes.Rows.{is_valid_public_mesh, find_member, meshes_of, update_member_peer}
use midori_vpn_core.Connections.{
  Peer, Database, Effect, add_mesh_ip, remove_mesh_ip, mesh_list_changed, clear_member_peer,
}

-- What a handler was set up with: the two components may be missing. A limit of 0 is none.
pub record Settings : Type 0 where
  pub max_devices : ℕ
  pub has_wg : Bool
  pub has_hub : Bool

-- The members as they are changed, the calls, and whether a row was updated.
pub record Meshed : Type 0 where
  pub members : List MeshMember
  pub effects : List Effect
  pub changed : Bool

-- Which statements the database executes: the listing, and for each network the reading of the
-- member and the update of it.
pub record Statements : Type 0 where
  pub lists : Bool
  pub reads : ℕ → Bool
  pub updates : ℕ → Bool

pub wg_effect : Bool → Effect → List Effect
wg_effect has_wg e = if has_wg then e ∷ [] else []

pub hub_effect : Bool → List Effect
hub_effect has_hub = if has_hub then mesh_list_changed ∷ [] else []

pub attach_member : Settings → Statements → ℕ → Peer → Mesh → Meshed → Option MeshMember → Meshed
attach_member h q user p n a none = a
attach_member h q user p n a (some m) =
    let fx = a.effects ++ wg_effect h.has_wg (add_mesh_ip p.public_key m.mesh_ip) in
    if q.updates n.id
    then record {
      members = update_member_peer n.id user p.id a.members;
      effects = fx;
      changed = true;
    }
    else record a { effects = fx }

pub attach_all : Settings → Statements → ℕ → Peer → List Mesh → Meshed → Meshed
attach_all h q user p [] a = a
attach_all h q user p (n ∷ ns) a =
    let found = if q.reads n.id then find_member n.id user a.members else none in
    attach_all h q user p ns
      (if is_valid_public_mesh n then attach_member h q user p n a found else a)

pub announced : Settings → Meshed → Meshed
announced h a = if a.changed then record a { effects = a.effects ++ hub_effect h.has_hub } else a

-- attachPeerToMeshSessions, of a peer that the database has just made active
unfoldable pub attach_peer : Settings → Statements → ℕ → Peer → Database → Meshed
unfolding attach_all attach_member announced wg_effect hub_effect
attach_peer h q user p db =
    let start : Meshed = record { members = db.members; effects = []; changed = false } in
    if p.is_active && q.lists
    then announced h (attach_all h q user p (meshes_of user db.members db.meshes) start)
    else start

-- detachPeerFromMeshSessions
unfoldable pub detach_peer : Settings → Bool → Peer → Database → Meshed
unfolding wg_effect hub_effect
detach_peer h clears p db =
    let fx = wg_effect h.has_wg (remove_mesh_ip p.public_key) in
    if clears
    then record {
      members = clear_member_peer p.id db.members;
      effects = fx ++ hub_effect h.has_hub;
      changed = true;
    }
    else record { members = db.members; effects = fx; changed = false }
