-- ===== src/Nodes/Races.antt =====
-- Two users in ensureAutoMesh of internal/control/mesh_handler.go at once. Its lock is one for each
-- user, so that one user may read a free subnet before the other inserts a network.
use midori_vpn_core.Prelude.{
  ℕ, ◌≡◌, ◌≢◌, refl, sym, ap, ◌∙◌, Bool, true, false, List, ◌∷◌, none, some, ok, err, ok-injective,
  ok_not_err, if◌then◌else◌, arith, inl, inr, Option-cases,
}
use midori_vpn_core.Net.{Text}
use midori_vpn_core.Meshes.{Mesh, next_available_subnet}
use midori_vpn_core.Meshes.Joins.{add_member-cases}
use midori_vpn_core.Meshes.Rows.{find_row, session_of}
use midori_vpn_core.Connections.{Database}
use midori_vpn_core.Nodes.{
  Queries, NodeError, create_failed, Provisioned, Ensured, join_mesh, inserted_mesh,
  existing_session, create_session_row, new_mesh, entered, opened_mesh, in_subnet,
}

-- Both users read a subnet of the same tables; then the one inserts and the other.
unfoldable pub provision_both :
    Queries → Queries → Text → Text → ℕ → ℕ → Text → Text → Database → Ensured × Ensured
unfolding in_subnet
provision_both q r o p u v c d db =
    let first = in_subnet q o u db c (next_available_subnet db.meshes) in
    (first, in_subnet r p v first.0 d (next_available_subnet db.meshes))

-- A network was made: its row is the first of the table, and the answer names it.
pub record IsMade (new : Mesh) (db : Database) (x : Provisioned) (r : Ensured) : Type 0 where
  pub row : r.0.meshes ≡ new ∷ db.meshes
  pub mesh : x.mesh ≡ new

module _ (q : Queries) (user : ℕ) (new : Mesh) (db : Database) (x : Provisioned) where
  entered-IsMade :
      (entered q user new (join_mesh q new.id user (record db { meshes = new ∷ db.meshes }))).1
        ≡ ok x
      → IsMade new db x
          (entered q user new (join_mesh q new.id user (record db { meshes = new ∷ db.meshes })))
  unfolding join_mesh entered
  entered-IsMade =
      add_member-cases (record { meshes = new ∷ db.meshes; members = db.members }) new.id user
        (λ r.
          (entered q user new
              (record db { meshes = new ∷ db.meshes; members = r.0.members }, r.1)).1
            ≡ ok x
          → IsMade new db x (
              entered q user new
                (record db { meshes = new ∷ db.meshes; members = r.0.members }, r.1)))
        (λ ip out e. record {
          row = refl;
          mesh = ap (λ (y : Provisioned). y.mesh) (sym (ok-injective {E = NodeError} e));
        })
        (λ f e. absurd (ok_not_err _ _ (sym e))) q.begins q.accepts

  pub opened_mesh-IsMade :
      session_of new.owner_id db.meshes ≡ none
      → (opened_mesh q user (create_session_row q new db)).1 ≡ ok x
      → IsMade new db x (opened_mesh q user (create_session_row q new db))
  unfolding opened_mesh create_session_row existing_session inserted_mesh
  opened_mesh-IsMade none_yet = go q.inserts
    where
      go :
          (b : Bool)
          → (opened_mesh q user (
              if b
              then existing_session q db new (session_of new.owner_id db.meshes)
              else (db, err create_failed))).1
            ≡ ok x
          → IsMade new db x (
              opened_mesh q user (
                if b
                then existing_session q db new (session_of new.owner_id db.meshes)
                else (db, err create_failed)))
      go false = λ e. absurd (ok_not_err _ _ (sym e))
      go true = rw none_yet (elim (Option-cases (find_row new.id db.meshes)) [
        | inl f ↦ rw f entered-IsMade
        | inr (n, f) ↦ rw f (λ e. absurd (ok_not_err _ _ (sym e)))
      ])

other_session :
    (v : ℕ) (n : Mesh) (ns : List Mesh)
    → n.owner_id ≢ v
    → session_of v ns ≡ none
    → session_of v (n ∷ ns) ≡ none
unfolding session_of
other_session v n ns different e = ground (arith, different, e)

-- Two users without a session network who both read a free subnet before either inserts, and who
-- both are answered with a network, get two networks with that subnet.
pub provision_both-collides :
    (q r : Queries) (o p : Text) (u v : ℕ) (c d s : Text) (db : Database) (x y : Provisioned)
    → u ≢ v
    → session_of u db.meshes ≡ none
    → session_of v db.meshes ≡ none
    → next_available_subnet db.meshes ≡ some s
    → (provision_both q r o p u v c d db).0.1 ≡ ok x
    → (provision_both q r o p u v c d db).1.1 ≡ ok y
    → (x.mesh.subnet ≡ s)
      × (y.mesh.subnet ≡ s)
      × ((provision_both q r o p u v c d db).1.0.meshes ≡ y.mesh ∷ x.mesh ∷ db.meshes)
unfolding provision_both in_subnet new_mesh
provision_both-collides q r o p u v c d s db x y different no_u no_v free = rw free (λ e f.
    let a = new_mesh q o u c s in
    let b = new_mesh r p v d s in
    let one = opened_mesh-IsMade q u a db x no_u e in
    let next = (opened_mesh q u (create_session_row q a db)).0 in
    let two =
      opened_mesh-IsMade r v b next y
        (ap (session_of v) one.row ∙ other_session v a db.meshes different no_v) f in
    (
      ap (λ (m : Mesh). m.subnet) one.mesh,
      ap (λ (m : Mesh). m.subnet) two.mesh,
      rw (two.mesh, one.mesh) (two.row ∙ ap (λ (ns : List Mesh). b ∷ ns) one.row),
    ))
