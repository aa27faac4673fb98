-- ===== src/Nodes/Linking.antt =====
-- attachMemberToActivePeer of internal/control/mesh_handler.go, which links the member row of a user
-- to a peer.
use midori_vpn_core.Prelude.{ℕ, ◌&&◌, ◌||◌, not, List, [], ◌∷◌, if◌then◌else◌}
use midori_vpn_core.Prelude.Equality.{text_eq}
use midori_vpn_core.Net.{Text}
use midori_vpn_core.Meshes.Rows.{update_member_peer}
use midori_vpn_core.Connections.{Peer, Database, Effect, add_mesh_ip, list_by_user}
use midori_vpn_core.Connections.Meshing.{Settings, wg_effect}
use midori_vpn_core.Nodes.{Queries}

unfoldable pub linked : Settings → Queries → ℕ → ℕ → Text → Peer → Database → Database × List Effect
linked h q user mesh ip p db = (
  if q.links then record db { members = update_member_peer mesh user p.id db.members } else db,
  wg_effect h.has_wg (add_mesh_ip p.public_key ip),
)

-- The first active peer that the manager knows.
unfoldable pub link_first :
    Settings → Queries → ℕ → ℕ → Text → List Peer → Database → Database × List Effect
link_first h q user mesh ip [] db = (db, [])
link_first h q user mesh ip (p ∷ ps) db =
    let rest = link_first h q user mesh ip ps db in
    if p.is_active && (not h.has_wg || q.wg_accepts p.id)
    then linked h q user mesh ip p db
    else rest

-- attachMemberToActivePeer
unfoldable pub attach_member_to_active_peer :
    Settings → Queries → ℕ → ℕ → Text → Database → Database × List Effect
unfolding link_first linked
attach_member_to_active_peer h q user mesh ip db =
    if q.lists_peers then link_first h q user mesh ip (list_by_user user db.peers) db else (db, [])
