-- ===== src/Nodes/Preserved.antt =====
-- Predicates on the tables of internal/repo/mesh.go that the statements of one user preserve.
pub mod Ensuring
use midori_vpn_core.Prelude.{
  ℕ, ◌≡◌, refl, sym, subst, Bool, true, false, ◌||◌, not, List, [], ◌∷◌, Option, none, some,
  Outcome, ok, err, panic, diverges, ◌==◌, if◌then◌else◌, inl, inr, Option-cases,
}
use midori_vpn_core.Prelude.Equality.{text_eq, ◌=?◌}
use midori_vpn_core.Net.{Text}
use midori_vpn_core.Strings.{is_empty}
use midori_vpn_core.Meshes.{
  Mesh, MeshMember, MeshError, add_member, taken, subnets, subnet_candidate, next_available_subnet,
  without_member,
}
use midori_vpn_core.Meshes.Lowest.{Searched-free, next_available_subnet-Searched}
use midori_vpn_core.Meshes.Rows.{
  is_valid_public_mesh, normalize_public_mesh_name, find_row, meshes_of, session_of, on_session,
  update_member_peer,
}
use midori_vpn_core.Connections.{Peer, Database, Effect, list_by_user}
use midori_vpn_core.Connections.Meshing.{Settings}
use midori_vpn_core.Nodes.{
  Queries, create_failed, Ensured, delete_mesh, deleted_mesh, join_mesh, touched, renamed, moved,
  reused, rejoined, with_member, scan_sessions, inserted_mesh, existing_session, create_session_row,
  new_mesh, entered, opened_mesh, in_subnet, in_country, provision_mesh, ensure_auto_mesh,
}
use midori_vpn_core.Meshes.Searches.{normalize-id}

-- An UPDATE that keeps what tells networks apart.
pub record Keeps (f : Mesh → Mesh) : Type 0 where
  pub id : (n : Mesh) → (f n).id ≡ n.id
  pub subnet : (n : Mesh) → (f n).subnet ≡ n.subnet
  pub owner : (n : Mesh) → (f n).owner_id ≡ n.owner_id
  pub session : (n : Mesh) → (f n).is_session ≡ n.is_session

-- A row that a user may insert.
pub record IsNew (user : ℕ) (new : Mesh) (db : Database) : Type 0 where
  pub owner : new.owner_id ≡ user
  pub session : new.is_session ≡ true
  pub id : find_row new.id db.meshes ≡ none
  pub subnet : taken (subnets db.meshes) new.subnet ≡ false
  pub first : session_of new.owner_id db.meshes ≡ none

-- The statements of a user preserve P. Own are the ids of networks that the user may change, and
-- Listed the lists of networks whose own ones have such ids.
pub record Preserves (user : ℕ) (P : Database → Type 0) (Own : ℕ → Type 0)
    (Listed : List Mesh → Type 0) : Type 0 where
  pub lists : (db : Database) → P db → Listed (meshes_of user db.members db.meshes)
  pub head : (n : Mesh) (ns : List Mesh) → Listed (n ∷ ns) → (n.owner_id == user) ≡ true → Own n.id
  pub tail : (n : Mesh) (ns : List Mesh) → Listed (n ∷ ns) → Listed ns
  pub finds :
      (j : ℕ) (n : Mesh) (db : Database)
      → P db
      → find_row j db.meshes ≡ some n
      → (n.owner_id == user) ≡ true
      → Own n.id
  pub sessions : (n : Mesh) (db : Database) → P db → session_of user db.meshes ≡ some n → Own n.id
  pub deletes : (j : ℕ) (db : Database) → Own j → P db → P (deleted_mesh j db)
  pub updates :
      (j : ℕ) (f : Mesh → Mesh) (db : Database)
      → Own j
      → Keeps f
      → P db
      → P (record db { meshes = on_session j f db.meshes })
  pub inserts :
      (new : Mesh) (db : Database)
      → IsNew user new db
      → P db
      → Own new.id × P (record db { meshes = new ∷ db.meshes })
  pub joins :
      (begins accepts : Bool) (j : ℕ) (db : Database)
      → P db
      → P (record db {
        members =
            (add_member begins accepts
              (record { meshes = db.meshes; members = db.members })
              j
              user).0.members;
      })
  pub leaves :
      (j : ℕ) (db : Database) → P db → P (record db { members = without_member j user db.members })
  pub links :
      (j peer : ℕ) (db : Database)
      → P db
      → P (record db { members = update_member_peer j user peer db.members })
