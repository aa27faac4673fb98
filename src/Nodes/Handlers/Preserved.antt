-- ===== src/Nodes/Handlers/Preserved.antt =====
-- The predicates of Nodes.Preserved under the node handlers of internal/control/mesh_handler.go.
use midori_vpn_core.Prelude.{
  ℕ, ◌≡◌, refl, sym, ◌∙◌, ap, Bool, true, false, ◌||◌, not, List, [], ◌∷◌, Option, none, some, ok,
  err, panic, diverges, ◌==◌, if◌then◌else◌, subst, Option-cases, inl, inr,
}
use midori_vpn_core.Net.{Text}
use midori_vpn_core.Meshes.{Mesh, MeshMember, without_member}
use midori_vpn_core.Meshes.Rows.{
  normalize_public_mesh_name, find_row, read_row, find_mesh, find_member, meshes_of,
}
use midori_vpn_core.Connections.{Database, Effect}
use midori_vpn_core.Connections.Meshing.{Settings}
use midori_vpn_core.Nodes.{Queries, Ensured, delete_mesh}
use midori_vpn_core.Meshes.Searches.{normalize-id}
use midori_vpn_core.Meshes.Searches.{normalize-owner}
use midori_vpn_core.Nodes.Preserved.{Preserves}
use midori_vpn_core.Nodes.Preserved.Ensuring.{
  delete_mesh-preserved, ensure_auto_mesh-preserved, attach_member_to_active_peer-preserved,
}
use midori_vpn_core.Nodes.Handlers.Calls.{
  Request, activation, automatic, deletion, deactivation, leaving, NodeCall, answer,
}
use midori_vpn_core.Nodes.Handlers.{
  NodeReply, activated, activate_node, auto_mesh, leave_row, deleted_by, left_by, leave_found,
  leave_mesh, Purged, purged, purge_sessions, delete_auto_mesh, resigned, resign_from, resign_all,
  deactivate_node,
}

module _ (P : Database → Type 0) where
  guarded-preserved {ℓ} :
      {A : Type ℓ} (b : Bool) (x y : NodeReply A) → P x.db → P y.db → P (if b then x else y).db
  guarded-preserved true x y s t = s
  guarded-preserved false x y s t = t

module _ (h : Settings) (q : Queries) (user : ℕ) (P : Database → Type 0) (Own : ℕ → Type 0)
    (Listed : List Mesh → Type 0) (p : Preserves user P Own Listed) where
  leave_row-preserved : (j : ℕ) (db : Database) → P db → P (leave_row q j user db)
  unfolding leave_row
  leave_row-preserved j db s = go (q.removes j)
    where
      go :
          (b : Bool)
          → P (if b then record db { members = without_member j user db.members } else db)
      go false = s
      go true = p.leaves j db s

  activated-preserved : (action : Text) (r : Ensured) → P r.0 → P (activated action h q user r).db
  unfolding activated
  activated-preserved action (db, ok x) s =
      attach_member_to_active_peer-preserved q user P Own Listed p h x.mesh.id x.mesh_ip db s
  activated-preserved action (db, err e) s = s
  activated-preserved action (db, panic) s = s
  activated-preserved action (db, diverges) s = s

  left_by-preserved :
      (n : Mesh) (db : Database) (m : Option MeshMember) → P db → P (left_by h q user n db m).db
  unfolding left_by
  left_by-preserved n db none s = s
  left_by-preserved n db (some m) s =
      guarded-preserved P (q.removes n.id) _ _ (leave_row-preserved n.id db s) s

  deleted_by-preserved :
      (n : Mesh) (db : Database) → Own n.id → P db → P (deleted_by h q user n db).db
  unfolding deleted_by
  deleted_by-preserved n db o s =
      guarded-preserved P (q.deletes n.id) _ _
        (delete_mesh-preserved q user P Own Listed p n.id db o s) s

  leave_mesh-preserved : (db : Database) (j : Option ℕ) → P db → P (leave_mesh h q user db j).db
  unfolding leave_mesh leave_found find_mesh read_row
  leave_mesh-preserved db none s = s
  leave_mesh-preserved db (some j) s = go q.reads_mesh
    where
      found :
          (n : Mesh) (b : Bool)
          → (n.owner_id == user) ≡ b
          → ((n.owner_id == user) ≡ true → Own n.id)
          → P
              (if b
                then deleted_by h q user n db
                else left_by h q user n db
                    (if q.reads_member n.id then find_member n.id user db.members else none)).db
      found n true e o = deleted_by-preserved n db (o e) s
      found n false e o = left_by-preserved n db _ s

      go : (b : Bool) → P (leave_found h q user db (if b then find_mesh j db.meshes else none)).db
      go false = s
      go true = elim (Option-cases (find_row j db.meshes)) [
        | inl e ↦ rw e s
        | inr (n, e) ↦ rw e (
            found (normalize_public_mesh_name n) _ refl (λ mine.
              subst Own (sym (normalize-id n))
                (p.finds j n db s e (ap (λ x. x == user) (sym (normalize-owner n)) ∙ mine))))
      ]

  purge_sessions-preserved :
      (ns : List Mesh) (a : Purged) → Listed ns → P a.db → P (purge_sessions h q user ns a).db
  unfolding purge_sessions purged
  purge_sessions-preserved [] a l s = s
  purge_sessions-preserved (n ∷ ns) a l s =
      purge_sessions-preserved ns _ (p.tail n ns l) (go n.is_session (n.owner_id == user) refl)
    where
      go :
          (b w : Bool)
          → (n.owner_id == user) ≡ w
          → P (if not b || not w then a else purged h q n a).db
      go false w e = s
      go true false e = s
      go true true e = delete_mesh-preserved q user P Own Listed p n.id a.db (p.head n ns l e) s

  resign_from-preserved :
      (n : Mesh) (a : Database × List Effect) (m : Option MeshMember)
      → ((n.owner_id == user) ≡ true → Own n.id)
      → P a.0
      → P (resign_from h q user n a m).0
  unfolding resign_from resigned
  resign_from-preserved n a none o s = s
  resign_from-preserved n (db, fx) (some m) o s = go (n.owner_id == user) refl
    where
      go :
          (b : Bool)
          → (n.owner_id == user) ≡ b
          → P (if b then delete_mesh q n.id db else leave_row q n.id user db)
      go true e = delete_mesh-preserved q user P Own Listed p n.id db (o e) s
      go false e = leave_row-preserved n.id db s

  resign_all-preserved :
      (ns : List Mesh) (a : Database × List Effect)
      → Listed ns
      → P a.0
      → P (resign_all h q user ns a).0
  unfolding resign_all
  resign_all-preserved [] a l s = s
  resign_all-preserved (n ∷ ns) a l s =
      resign_all-preserved ns _ (p.tail n ns l) (resign_from-preserved n a _ (p.head n ns l) s)

  delete_auto_mesh-preserved : (db : Database) → P db → P (delete_auto_mesh h q user db).db
  unfolding delete_auto_mesh
  delete_auto_mesh-preserved db s =
      guarded-preserved P q.lists _ _
        (purge_sessions-preserved (meshes_of user db.members db.meshes) _ (p.lists db s) s) s

  deactivate_node-preserved : (db : Database) → P db → P (deactivate_node h q user db).db
  unfolding deactivate_node
  deactivate_node-preserved db s =
      guarded-preserved P q.lists _ _
        (resign_all-preserved (meshes_of user db.members db.meshes) _ (p.lists db s) s) s

-- Every request of a user preserves what the statements of the user preserve.
pub answer-preserved :
    (c : NodeCall) (P : Database → Type 0) (Own : ℕ → Type 0) (Listed : List Mesh → Type 0)
    → Preserves c.user P Own Listed
    → (r : Request) (db : Database) → P db
    → P (answer c r db)
unfolding answer activate_node auto_mesh
answer-preserved c P Own Listed p activation db s =
    activated-preserved c.settings c.queries c.user P Own Listed p _ _
      (ensure_auto_mesh-preserved c.queries c.user P Own Listed p c.origin db s)
answer-preserved c P Own Listed p automatic db s =
    activated-preserved c.settings c.queries c.user P Own Listed p _ _
      (ensure_auto_mesh-preserved c.queries c.user P Own Listed p c.origin db s)
answer-preserved c P Own Listed p (leaving j) db s =
    leave_mesh-preserved c.settings c.queries c.user P Own Listed p db j s
answer-preserved c P Own Listed p deletion db s =
    delete_auto_mesh-preserved c.settings c.queries c.user P Own Listed p db s
answer-preserved c P Own Listed p deactivation db s =
    deactivate_node-preserved c.settings c.queries c.user P Own Listed p db s
