-- ===== src/Nodes/Served.antt =====
-- What ensureAutoMesh of internal/control/mesh_handler.go returns, whatever the database refuses.
use midori_vpn_core.Prelude.{
  ℕ, ◌≡◌, refl, ◌∙◌, Bool, true, false, ◌||◌, not, List, [], ◌∷◌, Option, none, some, ok, err, ◌==◌,
  if◌then◌else◌, arith, inl, inr, Option-cases,
}
use midori_vpn_core.Prelude.Equality.{text_eq, ◌=?◌}
use midori_vpn_core.Net.{Text}
use midori_vpn_core.Strings.{is_empty}
use midori_vpn_core.Meshes.{Mesh, MeshMember, next_available_subnet}
use midori_vpn_core.Meshes.Joins.{add_member-cases}
use midori_vpn_core.Meshes.Rows.{
  is_valid_public_mesh, normalize_public_mesh_name, find_row, find_member, meshes_of, session_of,
}
use midori_vpn_core.Meshes.Searches.{
  normalize-owner, normalize-session, session_of_lem, find_member_new,
}
use midori_vpn_core.Connections.{Database}
use midori_vpn_core.Nodes.{
  Queries, NodeError, create_failed, Ensured, Provisioned, delete_mesh, join_mesh, touched, renamed,
  moved, reused, ip_of, rejoined, with_member, scan_sessions, inserted_mesh, existing_session,
  create_session_row, new_mesh, entered, opened_mesh, in_subnet, in_country, provision_mesh,
  ensure_auto_mesh,
}

-- An answer is an error, or a session network of the user, who is its member with the address.
pub data IsServed (user : ℕ) : Ensured → Type 0 where
  refused : {db : Database} {e : NodeError} → IsServed user (db, err e)
  served :
      {db : Database} {p : Provisioned} {m : MeshMember}
      → p.mesh.owner_id ≡ user
      → p.mesh.is_session ≡ true
      → find_member p.mesh.id user db.members ≡ some m
      → m.mesh_ip ≡ p.mesh_ip
      → IsServed user (db, ok p)

if-members :
    (b : Bool) (a c : Database) → a.members ≡ c.members → (if b then a else c).members ≡ c.members
if-members true a c e = e
if-members false a c e = refl

touched-members : (q : Queries) (i : ℕ) (db : Database) → (touched q i db).members ≡ db.members
unfolding touched
touched-members q i db = if-members q.touches _ db refl

-- The network is the same one, and no member changes.
pub record IsSame (n : Mesh) (db : Database) (r : Database × Mesh) : Type 0 where
  pub members : r.0.members ≡ db.members
  pub id : r.1.id ≡ n.id
  pub owner : r.1.owner_id ≡ n.owner_id
  pub session : r.1.is_session ≡ n.is_session

module _ (q : Queries) (origin : Text) (user : ℕ) where
  renamed-IsSame :
      (n : Mesh) (db : Database) (o : Option Text) → IsSame n db (renamed q origin n db o)
  unfolding renamed
  renamed-IsSame n db none = record { members = refl; id = refl; owner = refl; session = refl }
  renamed-IsSame n db (some c) = record {
    members = if-members q.renames _ db refl;
    id = refl;
    owner = refl;
    session = refl;
  }

  pub moved-IsSame : (n : Mesh) (db : Database) → IsSame n db (moved q origin n db)
  unfolding moved
  moved-IsSame n db = go (is_empty origin || n.public_ip =? origin)
    where
      go :
          (b : Bool) → IsSame n db (if b then (db, n) else renamed q origin n db (q.country origin))
      go true = record { members = refl; id = refl; owner = refl; session = refl }
      go false = renamed-IsSame n db (q.country origin)

  reused-IsServed :
      (n : Mesh) (ip : Text) (db : Database) (m : MeshMember)
      → n.owner_id ≡ user
      → n.is_session ≡ true
      → find_member n.id user db.members ≡ some m
      → m.mesh_ip ≡ ip
      → IsServed user (reused q origin n ip db)
  unfolding reused touched
  reused-IsServed n ip db m own session found address =
      let same = moved-IsSame n (touched q n.id db) in
      served {m = m} (same.owner ∙ own) (same.session ∙ session)
        (rw (same.id, same.members, touched-members q n.id db) found) address

  entered-IsServed :
      (n : Mesh) (db : Database)
      → n.owner_id ≡ user
      → n.is_session ≡ true
      → IsServed user (entered q user n (join_mesh q n.id user db))
  unfolding join_mesh entered ip_of
  entered-IsServed n db own session =
      add_member-cases (record { meshes = db.meshes; members = db.members }) n.id user
        (λ r. IsServed user (entered q user n (record db { members = r.0.members }, r.1)))
        (λ ip out.
          served own session (find_member_new n.id user ip db.members)
            (rw (find_member_new n.id user ip db.members) refl))
        (λ e. refused) q.begins q.accepts

  joined-IsServed :
      (n : Mesh) (db : Database)
      → n.owner_id ≡ user
      → n.is_session ≡ true
      → IsServed user (with_member q origin user n db none)
  unfolding join_mesh with_member rejoined ip_of
  joined-IsServed n db own session =
      add_member-cases (record { meshes = db.meshes; members = db.members }) n.id user
        (λ r. IsServed user (rejoined q origin user n (record db { members = r.0.members }, r.1)))
        (λ ip out.
          rw (find_member_new n.id user ip db.members)
            (reused-IsServed n ip _ _ own session (find_member_new n.id user ip db.members) refl))
        (λ e. refused) q.begins q.accepts

  with_member-IsServed :
      (n : Mesh) (db : Database) (b : Bool)
      → n.owner_id ≡ user
      → n.is_session ≡ true
      → IsServed user
          (with_member q origin user n db (if b then find_member n.id user db.members else none))
  unfolding with_member
  with_member-IsServed n db true own session =
      elim (Option-cases (find_member n.id user db.members)) [
        | inl e ↦ rw e (joined-IsServed n db own session)
        | inr (m, e) ↦ rw e (reused-IsServed n m.mesh_ip db m own session e refl)
      ]
  with_member-IsServed n db false own session = joined-IsServed n db own session

  scan_sessions-IsServed :
      (create : Database → Ensured)
      → ((db : Database) → IsServed user (create db))
      → (ns : List Mesh) (db : Database) → IsServed user (scan_sessions q origin user create ns db)
  unfolding scan_sessions
  scan_sessions-IsServed create made [] db = made db
  scan_sessions-IsServed create made (n ∷ ns) db =
      go (n.is_session) (n.owner_id == user) (is_valid_public_mesh n) refl refl
        (scan_sessions-IsServed create made ns db)
        (scan_sessions-IsServed create made ns (delete_mesh q n.id db))
    where
      go :
          {x y : Ensured} (s o v : Bool)
          → n.is_session ≡ s
          → (n.owner_id == user) ≡ o
          → IsServed user x
          → IsServed user y
          → IsServed user (
              if not s || not o
              then x
              else if not v
              then y
              else with_member q origin user n db
                  (if q.reads_member n.id then find_member n.id user db.members else none))
      go false o v e f a b = a
      go true false v e f a b = a
      go true true false e f a b = b
      go true true true e f a b = with_member-IsServed n db (q.reads_member n.id) (ground arith) e

  opened_mesh-IsServed :
      (new : Mesh) (db : Database)
      → new.owner_id ≡ user
      → new.is_session ≡ true
      → IsServed user (opened_mesh q user (create_session_row q new db))
  unfolding opened_mesh create_session_row existing_session inserted_mesh
  opened_mesh-IsServed new db own session = go q.inserts
    where
      go :
          (b : Bool)
          → IsServed user (
              opened_mesh q user (
                if b
                then existing_session q db new (session_of new.owner_id db.meshes)
                else (db, err create_failed)))
      go false = refused
      go true = elim (Option-cases (session_of new.owner_id db.meshes)) [
        | inr (n, e) ↦ rw e (old n (session_of_lem new.owner_id db.meshes n e) q.reads_session)
        | inl e ↦ rw e (elim (Option-cases (find_row new.id db.meshes)) [
          | inr (n, f) ↦ rw f refused
          | inl f ↦ rw f (entered-IsServed new _ own session)
        ])
      ]
        where
          old :
              (n : Mesh)
              → (n.owner_id ≡ new.owner_id) × (n.is_session ≡ true)
              → (b : Bool)
              → IsServed user (
                  opened_mesh q user
                    (db, if b then ok (normalize_public_mesh_name n) else err create_failed))
          old n (o, s) true =
              entered-IsServed (normalize_public_mesh_name n) db (normalize-owner n ∙ o ∙ own)
                (normalize-session n ∙ s)
          old n (o, s) false = refused

  provision_mesh-IsServed : (db : Database) → IsServed user (provision_mesh q origin user db)
  unfolding provision_mesh in_country in_subnet new_mesh
  provision_mesh-IsServed db = elim (Option-cases (q.country origin)) [
    | inl e ↦ rw e refused
    | inr (c, e) ↦ rw e (free c (if q.reads_subnets then next_available_subnet db.meshes else none))
  ]
    where
      free : (c : Text) (o : Option Text) → IsServed user (in_subnet q origin user db c o)
      free c none = refused
      free c (some s) = opened_mesh-IsServed (new_mesh q origin user c s) db refl refl

-- Whatever the database refuses, ensureAutoMesh ends with an error, or with a session network of
-- the user and the address under which the user is its member in the tables.
pub ensure_auto_mesh-IsServed :
    (q : Queries) (origin : Text) (user : ℕ) (db : Database)
    → IsServed user (ensure_auto_mesh q origin user db)
unfolding ensure_auto_mesh
ensure_auto_mesh-IsServed q origin user db = go q.lists
  where
    go :
        (b : Bool)
        → IsServed user (
            if b
            then scan_sessions q origin user
                (λ d. provision_mesh q origin user d)
                (meshes_of user db.members db.meshes)
                db
            else provision_mesh q origin user db)
    go true =
        scan_sessions-IsServed q origin user _ (provision_mesh-IsServed q origin user)
          (meshes_of user db.members db.meshes) db
    go false = provision_mesh-IsServed q origin user db
