-- ===== src/Nodes/Handlers/Status.antt =====
-- NodeStatus of internal/control/mesh_handler.go: nodeStatusForUser.
use midori_vpn_core.Prelude.{
  ℕ, Bool, true, false, not, List, [], ◌∷◌, Option, none, some, ◌==◌, if◌then◌else◌,
}
use midori_vpn_core.Net.{Text}
use midori_vpn_core.Meshes.{Mesh, MeshMember}
use midori_vpn_core.Meshes.Rows.{find_member, meshes_of, list_members}
use midori_vpn_core.Connections.{Database}
use midori_vpn_core.Nodes.{Queries}

pub record NodeStatus : Type 0 where
  pub active : Bool
  pub mesh_ip : Text
  pub mesh_id : Option ℕ
  pub public_ip : Text
  pub peers : List Text

abbrev pub inactive : NodeStatus
inactive = record { active = false; mesh_ip = []; mesh_id = none; public_ip = []; peers = [] }

pub others_of : ℕ → List MeshMember → List Text
others_of user [] = []
others_of user (m ∷ ms) =
    let rest = others_of user ms in if m.user_id == user then rest else m.mesh_ip ∷ rest

unfoldable pub status_in :
    Queries → ℕ → Database → Mesh → NodeStatus → Option MeshMember → NodeStatus
unfolding others_of
status_in q user db n rest none = rest
status_in q user db n rest (some m) = record {
  active = true;
  mesh_ip = m.mesh_ip;
  mesh_id = some n.id;
  public_ip = n.public_ip;
  peers = if q.reads_members n.id then others_of user (list_members n.id db.members) else [];
}

unfoldable pub status_of : Queries → ℕ → Database → List Mesh → NodeStatus
unfolding status_in
status_of q user db [] = inactive
status_of q user db (n ∷ ns) =
    let rest = status_of q user db ns in
    if not n.is_active
    then rest
    else status_in q user db n rest
        (if q.reads_member n.id then find_member n.id user db.members else none)

-- nodeStatusForUser
unfoldable pub node_status_for_user : Queries → ℕ → Database → NodeStatus
unfolding status_of
node_status_for_user q user db =
    if q.lists then status_of q user db (meshes_of user db.members db.meshes) else inactive
