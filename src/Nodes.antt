-- ===== src/Nodes.antt =====
-- The session network of a user: ensureAutoMesh of internal/control/mesh_handler.go over
-- internal/repo/mesh.go. It holds a lock of its user, and is one step. The database may refuse any
-- statement.
pub mod Handlers
pub mod Kept
pub mod Linking
pub mod Lost
pub mod Served
pub mod Sound
pub mod Preserved
pub mod Races
pub mod Repeated
pub mod Samples
use midori_vpn_core.Prelude.{
  ℕ, Bool, true, false, ◌&&◌, ◌||◌, not, List, [], ◌∷◌, ◌++◌, Option, none, some, Outcome, ok, err,
  ◌==◌, if◌then◌else◌,
}
use midori_vpn_core.Prelude.Equality.{text_eq, ◌=?◌}
use midori_vpn_core.Net.{Text}
use midori_vpn_core.Strings.{is_empty}
use midori_vpn_core.Meshes.{Mesh, MeshMember, MeshError, add_member, next_available_subnet}
use midori_vpn_core.Meshes.Rows.{
  is_valid_public_mesh, mesh_name_for_country, normalize_public_mesh_name, find_row, find_member,
  meshes_of, update_member_peer, without_mesh, without_members_of, on_session, session_of,
}
use midori_vpn_core.Connections.{Peer, Database, Effect, add_mesh_ip, list_by_user}
use midori_vpn_core.Connections.Meshing.{Settings, wg_effect}

-- Which statements are executed, the time, the id of a new row, the country of an address
-- (countryFromIP), and the peers whose mesh address the manager accepts.
pub record Queries : Type 0 where
  pub lists : Bool
  pub reads_mesh : Bool
  pub reads_member : ℕ → Bool
  pub reads_members : ℕ → Bool
  pub reads_ids : Bool
  pub reads_peer : ℕ → Bool
  pub begins : Bool
  pub accepts : Bool
  pub deletes : ℕ → Bool
  pub removes : ℕ → Bool
  pub touches : Bool
  pub renames : Bool
  pub reads_subnets : Bool
  pub inserts : Bool
  pub reads_session : Bool
  pub lists_peers : Bool
  pub links : Bool
  pub now : ℕ
  pub new_id : ℕ
  pub country : Text → Option Text
  pub wg_accepts : ℕ → Bool

pub data NodeError : Type 0 where
  list_failed init_failed no_country no_subnets create_failed bad_mesh_id : NodeError
  mesh_not_found not_a_member delete_failed leave_failed : NodeError

-- What ensureAutoMesh returns: the network, the address of the user, and whether it is new.
pub record Provisioned : Type 0 where
  pub mesh : Mesh
  pub mesh_ip : Text
  pub is_new : Bool

abbrev pub Ensured : Type 0
Ensured = Database × Outcome NodeError Provisioned

pub deleted_mesh : ℕ → Database → Database
deleted_mesh i db = record db {
  meshes = without_mesh i db.meshes;
  members = without_members_of i db.members;
}

-- Delete, with the members of the network
unfoldable pub delete_mesh : Queries → ℕ → Database → Database
unfolding deleted_mesh
delete_mesh q i db = if q.deletes i then deleted_mesh i db else db

-- AddMember on the tables
unfoldable pub join_mesh : Queries → ℕ → ℕ → Database → Database × Outcome MeshError (Unit {0})
join_mesh q mesh user db =
    let r =
      add_member q.begins q.accepts (record { meshes = db.meshes; members = db.members }) mesh
        user in
    (record db { members = r.0.members }, r.1)

-- TouchSession
pub touched : Queries → ℕ → Database → Database
touched q i db =
    if q.touches
    then record db { meshes = on_session i (λ n. record n { updated_at = q.now }) db.meshes }
    else db

-- UpdateSessionOrigin
pub renamed : Queries → Text → Mesh → Database → Option Text → Database × Mesh
renamed q origin n db none = (db, n)
renamed q origin n db (some c) = (
  if q.renames
      then record db {
        meshes =
            on_session n.id
              (λ r. record r {
                name = mesh_name_for_country c;
                country_code = c;
                public_ip = origin;
                updated_at = q.now;
              })
              db.meshes;
      }
      else db,
  record n { name = mesh_name_for_country c; country_code = c; public_ip = origin },
)

pub moved : Queries → Text → Mesh → Database → Database × Mesh
moved q origin n db =
    if is_empty origin || n.public_ip =? origin
    then (db, n)
    else renamed q origin n db (q.country origin)

pub reused : Queries → Text → Mesh → Text → Database → Ensured
reused q origin n ip db =
    let m = moved q origin n (touched q n.id db) in
    (m.0, ok (record { mesh = m.1; mesh_ip = ip; is_new = false }))

pub ip_of : Option MeshMember → Text
ip_of none = []
ip_of (some m) = m.mesh_ip

pub rejoined : Queries → Text → ℕ → Mesh → Database × Outcome MeshError (Unit {0}) → Ensured
unfolding ip_of
rejoined q origin user n (db, ok x) =
    reused q origin n (ip_of (find_member n.id user db.members)) db
rejoined q origin user n (db, _) = (db, err init_failed)

pub with_member : Queries → Text → ℕ → Mesh → Database → Option MeshMember → Ensured
with_member q origin user n db none = rejoined q origin user n (join_mesh q n.id user db)
with_member q origin user n db (some m) = reused q origin n m.mesh_ip db

-- The loop over the networks of the user. One that has become invalid is deleted.
pub scan_sessions : Queries → Text → ℕ → (Database → Ensured) → List Mesh → Database → Ensured
scan_sessions q origin user create [] db = create db
scan_sessions q origin user create (n ∷ ns) db =
    let skipped = scan_sessions q origin user create ns db in
    let dropped = scan_sessions q origin user create ns (delete_mesh q n.id db) in
    if not n.is_session || not (n.owner_id == user)
    then skipped
    else if not (is_valid_public_mesh n)
    then dropped
    else with_member q origin user n db
        (if q.reads_member n.id then find_member n.id user db.members else none)

-- The INSERT of Create, whose primary key may refuse it
pub inserted_mesh : Database → Mesh → Option Mesh → Database × Outcome NodeError Mesh
inserted_mesh db new none = (record db { meshes = new ∷ db.meshes }, ok new)
inserted_mesh db new (some n) = (db, err create_failed)

-- CreateSession: the unique index on the owner lets the INSERT fail where the user has a session
-- network, which is then read; any other failure is an error.
pub existing_session : Queries → Database → Mesh → Option Mesh → Database × Outcome NodeError Mesh
existing_session q db new (some n) =
    (db, if q.reads_session then ok (normalize_public_mesh_name n) else err create_failed)
existing_session q db new none = inserted_mesh db new (find_row new.id db.meshes)

unfoldable pub create_session_row : Queries → Mesh → Database → Database × Outcome NodeError Mesh
unfolding existing_session inserted_mesh
create_session_row q new db =
    if q.inserts
    then existing_session q db new (session_of new.owner_id db.meshes)
    else (db, err create_failed)

-- A member that cannot be added undoes the network.
pub entered : Queries → ℕ → Mesh → Database × Outcome MeshError (Unit {0}) → Ensured
unfolding ip_of
entered q user n (db, ok x) = (
  db,
  ok (record { mesh = n; mesh_ip = ip_of (find_member n.id user db.members); is_new = true }),
)
entered q user n (db, _) = (delete_mesh q n.id db, err init_failed)

pub opened_mesh : Queries → ℕ → Database × Outcome NodeError Mesh → Ensured
unfolding entered
opened_mesh q user (db, ok n) = entered q user n (join_mesh q n.id user db)
opened_mesh q user (db, err e) = (db, err e)
opened_mesh q user (db, _) = (db, err create_failed)

unfoldable pub new_mesh : Queries → Text → ℕ → Text → Text → Mesh
new_mesh q origin user country subnet = record {
  id = q.new_id;
  name = mesh_name_for_country country;
  owner_id = user;
  subnet = subnet;
  is_session = true;
  is_active = true;
  country_code = country;
  public_ip = origin;
  updated_at = q.now;
}

pub in_subnet : Queries → Text → ℕ → Database → Text → Option Text → Ensured
unfolding opened_mesh
in_subnet q origin user db country none = (db, err no_subnets)
in_subnet q origin user db country (some s) =
    opened_mesh q user (create_session_row q (new_mesh q origin user country s) db)

pub in_country : Queries → Text → ℕ → Database → Option Text → Ensured
unfolding in_subnet
in_country q origin user db none = (db, err no_country)
in_country q origin user db (some c) =
    in_subnet q origin user db c (if q.reads_subnets then next_available_subnet db.meshes else none)

-- The second half of ensureAutoMesh: a network is made.
unfoldable pub provision_mesh : Queries → Text → ℕ → Database → Ensured
unfolding in_country
provision_mesh q origin user db = in_country q origin user db (q.country origin)

-- ensureAutoMesh, of a request from an address
unfoldable pub ensure_auto_mesh : Queries → Text → ℕ → Database → Ensured
unfolding scan_sessions with_member rejoined reused moved renamed touched
ensure_auto_mesh q origin user db =
    let create = λ (d : Database). provision_mesh q origin user d in
    if q.lists
    then scan_sessions q origin user create (meshes_of user db.members db.meshes) db
    else create db
