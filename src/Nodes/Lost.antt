-- ===== src/Nodes/Lost.antt =====
-- ensureAutoMesh of internal/control/mesh_handler.go where the listing of the networks fails.
use midori_vpn_core.Prelude.{ℕ, ◌≡◌, refl, true, false, List, [], ◌∷◌, none, some, err, arith, ap}
use midori_vpn_core.Net.{Text}
use midori_vpn_core.Meshes.{Mesh, MeshMember, MeshError, is_member, next_available_subnet}
use midori_vpn_core.Meshes.Joins.{add_member-cases}
use midori_vpn_core.Meshes.Rows.{
  normalize_public_mesh_name, find_row, without_mesh, without_members_of, session_of,
}
use midori_vpn_core.Meshes.Searches.{normalize-id}
use midori_vpn_core.Connections.{Database}
use midori_vpn_core.Nodes.{
  Queries, init_failed, Ensured, deleted_mesh, delete_mesh, join_mesh, entered, opened_mesh,
  existing_session, create_session_row, new_mesh, in_subnet, in_country, provision_mesh,
  ensure_auto_mesh,
}

find_row-without_mesh : (i : ℕ) (ns : List Mesh) → find_row i (without_mesh i ns) ≡ none
unfolding find_row without_mesh
find_row-without_mesh i [] = refl
find_row-without_mesh i (n ∷ ns) = ground (arith, find_row-without_mesh i ns)

is_member-without_members_of :
    (i user : ℕ) (ms : List MeshMember) → is_member i user (without_members_of i ms) ≡ false
unfolding is_member without_members_of
is_member-without_members_of i user [] = refl
is_member-without_members_of i user (m ∷ ms) =
    ground (arith, is_member-without_members_of i user ms)

-- A call failed, and the network is gone with all its members.
pub record IsLost (i : ℕ) (r : Ensured) : Type 0 where
  pub failed : r.1 ≡ err init_failed
  pub deleted : find_row i r.0.meshes ≡ none
  pub removed : (user : ℕ) → is_member i user r.0.members ≡ false

module _ (q : Queries) (user : ℕ) (n : Mesh) (db : Database) (deletes : q.deletes n.id ≡ true)
    (member : is_member n.id user db.members ≡ true) where
  refused-IsLost :
      (e : MeshError) → IsLost n.id (entered q user (normalize_public_mesh_name n) (db, err e))
  unfolding entered delete_mesh deleted_mesh
  refused-IsLost e =
      rw (normalize-id n, deletes)
        (record {
          failed = refl;
          deleted = find_row-without_mesh n.id db.meshes;
          removed = λ u. is_member-without_members_of n.id u db.members;
        })

  contradicted :
      is_member (normalize_public_mesh_name n).id user db.members ≡ is_member n.id user db.members
      → is_member (normalize_public_mesh_name n).id user db.members ≡ false
      → ⊥
  contradicted e gone = ground (arith, e, gone, member)

  entered-IsLost : IsLost n.id (
      entered q user
        (normalize_public_mesh_name n)
        (join_mesh q (normalize_public_mesh_name n).id user db))
  unfolding join_mesh
  entered-IsLost =
      add_member-cases (record { meshes = db.meshes; members = db.members })
        (normalize_public_mesh_name n).id user
        (λ r. IsLost n.id (
          entered q user (normalize_public_mesh_name n) (record db { members = r.0.members }, r.1)))
        (λ ip gone.
          absurd (contradicted (ap (λ i. is_member i user db.members) (normalize-id n)) gone))
        refused-IsLost q.begins q.accepts

-- Where the listing of the networks fails once and the other statements up to the DELETE are
-- executed, a country is found for the address of the request, and a subnet is free, ensureAutoMesh
-- answers a user who has a session network and is its member with an error, and deletes the network
-- with all its members.
pub ensure_auto_mesh-IsLost :
    (q : Queries) (origin : Text) (user : ℕ) (db : Database) (n : Mesh) (c s : Text)
    → q.lists ≡ false
    → q.inserts ≡ true
    → q.reads_session ≡ true
    → q.reads_subnets ≡ true
    → q.deletes n.id ≡ true
    → session_of user db.meshes ≡ some n
    → is_member n.id user db.members ≡ true
    → q.country origin ≡ some c
    → next_available_subnet db.meshes ≡ some s
    → IsLost n.id (ensure_auto_mesh q origin user db)
unfolding ensure_auto_mesh provision_mesh in_country in_subnet create_session_row existing_session
    opened_mesh new_mesh join_mesh delete_mesh
ensure_auto_mesh-IsLost q origin user db n c s lists inserts reads subnets deletes own member
      country free =
    rw (lists, country, subnets)
      (rw (free, inserts) (rw (own, reads) (entered-IsLost q user n db deletes member)))
