-- ===== src/Nodes/Preserved/Ensuring.antt =====
-- What the statements of a user preserve, ensureAutoMesh and attachMemberToActivePeer of
-- internal/control/mesh_handler.go preserve.
use midori_vpn_core.Prelude.{
  ℕ, ◌≡◌, refl, sym, subst, Bool, true, false, ◌||◌, not, List, [], ◌∷◌, Option, none, some,
  Outcome, ok, err, panic, diverges, ◌==◌, if◌then◌else◌, inl, inr, Option-cases,
}
use midori_vpn_core.Prelude.Equality.{text_eq, ◌=?◌}
use midori_vpn_core.Net.{Text}
use midori_vpn_core.Strings.{is_empty}
use midori_vpn_core.Meshes.{
  Mesh, MeshMember, MeshError, taken, subnets, subnet_candidate, next_available_subnet,
}
use midori_vpn_core.Meshes.Lowest.{Searched-free, next_available_subnet-Searched}
use midori_vpn_core.Meshes.Rows.{
  is_valid_public_mesh, normalize_public_mesh_name, find_row, meshes_of, session_of, on_session,
  update_member_peer,
}
use midori_vpn_core.Connections.{Peer, Database, Effect, list_by_user}
use midori_vpn_core.Connections.Meshing.{Settings}
use midori_vpn_core.Nodes.{
  Queries, create_failed, Ensured, delete_mesh, deleted_mesh, join_mesh, touched, renamed, moved,
  reused, rejoined, with_member, scan_sessions, inserted_mesh, existing_session, create_session_row,
  new_mesh, entered, opened_mesh, in_subnet, in_country, provision_mesh, ensure_auto_mesh,
}
use midori_vpn_core.Meshes.Searches.{normalize-id}
use midori_vpn_core.Nodes.Preserved.{Keeps, Preserves}
use midori_vpn_core.Nodes.Linking.{linked, link_first, attach_member_to_active_peer}

module _ (q : Queries) (user : ℕ) (P : Database → Type 0) (Own : ℕ → Type 0)
    (Listed : List Mesh → Type 0) (p : Preserves user P Own Listed) where
  pub delete_mesh-preserved : (j : ℕ) (db : Database) → Own j → P db → P (delete_mesh q j db)
  unfolding delete_mesh
  delete_mesh-preserved j db o s = go (q.deletes j)
    where
      go : (b : Bool) → P (if b then deleted_mesh j db else db)
      go false = s
      go true = p.deletes j db o s

  updated-preserved :
      (b : Bool) (j : ℕ) (f : Mesh → Mesh) (db : Database)
      → Own j
      → Keeps f
      → P db
      → P (if b then record db { meshes = on_session j f db.meshes } else db)
  updated-preserved false j f db o k s = s
  updated-preserved true j f db o k s = p.updates j f db o k s

  moved-preserved :
      (origin : Text) (n : Mesh) (db : Database) → Own n.id → P db → P (moved q origin n db).0
  unfolding moved renamed
  moved-preserved origin n db o s = go (is_empty origin || n.public_ip =? origin) (q.country origin)
    where
      go : (b : Bool) (c : Option Text) → P (if b then (db, n) else renamed q origin n db c).0
      go true c = s
      go false none = s
      go false (some c) =
          updated-preserved q.renames n.id _ db o
            (record { id = λ r. refl; subnet = λ r. refl; owner = λ r. refl; session = λ r. refl })
            s

  reused-preserved :
      (origin : Text) (n : Mesh) (ip : Text) (db : Database)
      → Own n.id
      → P db
      → P (reused q origin n ip db).0
  unfolding reused touched
  reused-preserved origin n ip db o s = moved-preserved origin n (touched q n.id db) o (
      updated-preserved q.touches n.id _ db o
        (record { id = λ r. refl; subnet = λ r. refl; owner = λ r. refl; session = λ r. refl }) s)

  rejoined-preserved :
      (origin : Text) (n : Mesh) (r : Database × Outcome MeshError (Unit {0}))
      → Own n.id
      → P r.0
      → P (rejoined q origin user n r).0
  unfolding rejoined
  rejoined-preserved origin n (db, ok x) o s = reused-preserved origin n _ db o s
  rejoined-preserved origin n (db, err e) o s = s
  rejoined-preserved origin n (db, panic) o s = s
  rejoined-preserved origin n (db, diverges) o s = s

  with_member-preserved :
      (origin : Text) (n : Mesh) (db : Database) (m : Option MeshMember)
      → Own n.id
      → P db
      → P (with_member q origin user n db m).0
  unfolding with_member join_mesh
  with_member-preserved origin n db none o s =
      rejoined-preserved origin n (join_mesh q n.id user db) o
        (p.joins q.begins q.accepts n.id db s)
  with_member-preserved origin n db (some m) o s = reused-preserved origin n m.mesh_ip db o s

  scan_sessions-preserved :
      (origin : Text) (create : Database → Ensured)
      → ((db : Database) → P db → P (create db).0)
      → (ns : List Mesh) (db : Database) → Listed ns
      → P db
      → P (scan_sessions q origin user create ns db).0
  unfolding scan_sessions
  scan_sessions-preserved origin create made [] db l s = made db s
  scan_sessions-preserved origin create made (n ∷ ns) db l s =
      go _ _ _ n.is_session (n.owner_id == user) (not (is_valid_public_mesh n)) refl
        (scan_sessions-preserved origin create made ns db (p.tail n ns l) s)
        (λ o.
          scan_sessions-preserved origin create made ns (delete_mesh q n.id db) (p.tail n ns l)
            (delete_mesh-preserved n.id db o s))
        (λ o. with_member-preserved origin n db _ o s)
    where
      go :
          (x y z : Ensured) (b w c : Bool)
          → (n.owner_id == user) ≡ w
          → P x.0
          → (Own n.id → P y.0)
          → (Own n.id → P z.0)
          → P (if not b || not w then x else if c then y else z).0
      go x y z false w c e k l1 l2 = k
      go x y z true false c e k l1 l2 = k
      go x y z true true true e k l1 l2 = l1 (p.head n ns l e)
      go x y z true true false e k l1 l2 = l2 (p.head n ns l e)

  entered-preserved :
      (n : Mesh) (r : Database × Outcome MeshError (Unit {0}))
      → Own n.id
      → P r.0
      → P (entered q user n r).0
  unfolding entered
  entered-preserved n (db, ok x) o s = s
  entered-preserved n (db, err e) o s = delete_mesh-preserved n.id db o s
  entered-preserved n (db, panic) o s = delete_mesh-preserved n.id db o s
  entered-preserved n (db, diverges) o s = delete_mesh-preserved n.id db o s

  joined-preserved :
      (n : Mesh) (db : Database)
      → Own n.id
      → P db
      → P (entered q user n (join_mesh q n.id user db)).0
  unfolding join_mesh
  joined-preserved n db o s =
      entered-preserved n (join_mesh q n.id user db) o (p.joins q.begins q.accepts n.id db s)

  opened_mesh-preserved :
      (new : Mesh) (db : Database)
      → new.owner_id ≡ user
      → new.is_session ≡ true
      → taken (subnets db.meshes) new.subnet ≡ false
      → P db
      → P (opened_mesh q user (create_session_row q new db)).0
  unfolding opened_mesh create_session_row existing_session inserted_mesh
  opened_mesh-preserved new db mine session free s = go q.inserts
    where
      old :
          (n : Mesh) (b : Bool)
          → Own n.id
          → P
              (opened_mesh q user
                (db, if b then ok (normalize_public_mesh_name n) else err create_failed)).0
      old n true o =
          joined-preserved (normalize_public_mesh_name n) db (subst Own (sym (normalize-id n)) o) s
      old n false o = s

      go :
          (b : Bool)
          → P
              (opened_mesh q user (
                if b
                then existing_session q db new (session_of new.owner_id db.meshes)
                else (db, err create_failed))).0
      go false = s
      go true = elim (Option-cases (session_of new.owner_id db.meshes)) [
        | inr (n, e) ↦ rw e (
            old n q.reads_session
              (p.sessions n db s (subst (λ w. session_of w db.meshes ≡ some n) mine e)))
        | inl e ↦ rw e (elim (Option-cases (find_row new.id db.meshes)) [
          | inr (n, f) ↦ rw f s
          | inl f ↦
              let made =
                p.inserts new db
                  (record { owner = mine; session = session; id = f; subnet = free; first = e })
                  s in
              rw f (joined-preserved new _ made.0 made.1)
        ])
      ]

  provision_mesh-preserved :
      (origin : Text) (db : Database) → P db → P (provision_mesh q origin user db).0
  unfolding provision_mesh in_country in_subnet new_mesh
  provision_mesh-preserved origin db s = go (q.country origin)
    where
      free :
          (c : Text) (o : Option Text)
          → next_available_subnet db.meshes ≡ o
          → P (in_subnet q origin user db c o).0
      free c none e = s
      free c (some t) e =
          opened_mesh-preserved (new_mesh q origin user c t) db refl refl
            (Searched-free subnet_candidate (subnets db.meshes) 1 255 t
              (next_available_subnet-Searched db.meshes) e)
            s

      read :
          (c : Text) (b : Bool)
          → P (in_subnet q origin user db c (if b then next_available_subnet db.meshes else none)).0
      read c true = free c (next_available_subnet db.meshes) refl
      read c false = s

      go : (o : Option Text) → P (in_country q origin user db o).0
      go none = s
      go (some c) = read c q.reads_subnets

  pub ensure_auto_mesh-preserved :
      (origin : Text) (db : Database) → P db → P (ensure_auto_mesh q origin user db).0
  unfolding ensure_auto_mesh
  ensure_auto_mesh-preserved origin db s = go q.lists
    where
      go :
          (b : Bool)
          → P
              (if b
                then scan_sessions q origin user
                    (λ d. provision_mesh q origin user d)
                    (meshes_of user db.members db.meshes)
                    db
                else provision_mesh q origin user db).0
      go false = provision_mesh-preserved origin db s
      go true =
          scan_sessions-preserved origin _ (provision_mesh-preserved origin)
            (meshes_of user db.members db.meshes) db (p.lists db s) s

  link_first-preserved :
      (h : Settings) (mesh : ℕ) (ip : Text) (ps : List Peer) (db : Database)
      → P db
      → P (link_first h q user mesh ip ps db).0
  unfolding link_first linked
  link_first-preserved h mesh ip [] db s = s
  link_first-preserved h mesh ip (r ∷ ps) db s =
      go _ _ _ q.links (link_first-preserved h mesh ip ps db s)
    where
      go :
          (x : Database × List Effect) (fx : List Effect) (b l : Bool)
          → P x.0
          → P
              (if b
                then (
                  if l
                      then record db { members = update_member_peer mesh user r.id db.members }
                      else db,
                  fx,
                )
                else x).0
      go x fx false l k = k
      go x fx true false k = s
      go x fx true true k = p.links mesh r.id db s

  pub attach_member_to_active_peer-preserved :
      (h : Settings) (mesh : ℕ) (ip : Text) (db : Database)
      → P db
      → P (attach_member_to_active_peer h q user mesh ip db).0
  unfolding attach_member_to_active_peer
  attach_member_to_active_peer-preserved h mesh ip db s = go q.lists_peers
    where
      go :
          (b : Bool)
          → P
              (if b
                then link_first h q user mesh ip (list_by_user user db.peers) db
                else (db, [])).0
      go false = s
      go true = link_first-preserved h mesh ip (list_by_user user db.peers) db s
