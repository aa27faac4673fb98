-- ===== src/Nodes/Handlers/Leaving.antt =====
-- DeactivateNode of internal/control/mesh_handler.go, and what NodeStatus reports after it.
use midori_vpn_core.Prelude.{
  subst, ℕ, ◌≡◌, refl, Bool, true, false, ◌||◌, not, List, [], ◌∷◌, none, some, ◌==◌, if◌then◌else◌,
  arith, Bool-cases, inl, inr, Option-cases,
}
use midori_vpn_core.Meshes.{Mesh, MeshMember, without_member}
use midori_vpn_core.Meshes.Rows.{find_member, meshes_of, without_mesh, without_members_of}
use midori_vpn_core.Connections.{Database, Effect}
use midori_vpn_core.Connections.Meshing.{Settings}
use midori_vpn_core.Nodes.{Queries, deleted_mesh, delete_mesh}
use midori_vpn_core.Meshes.Searches.{normalize-id}
use midori_vpn_core.Nodes.Handlers.{
  leave_row, resigned, resign_from, resign_all, deactivate_node, NodeReply,
}
use midori_vpn_core.Nodes.Handlers.Status.{
  NodeStatus, inactive, status_in, status_of, node_status_for_user,
}

unfoldable pub has_row : ℕ → List Mesh → Bool
has_row i [] = false
has_row i (n ∷ ns) = n.id == i || has_row i ns

has_row-without_mesh :
    (i j : ℕ) (ns : List Mesh) → has_row j (without_mesh i ns) ≡ true → has_row j ns ≡ true
unfolding has_row without_mesh
has_row-without_mesh i j [] e = e
has_row-without_mesh i j (n ∷ ns) e = ground (arith, e, has_row-without_mesh i j ns)

module _ (user i : ℕ) where
  deleted_out : (ms : List MeshMember) → find_member i user (without_members_of i ms) ≡ none
  unfolding find_member without_members_of
  deleted_out [] = refl
  deleted_out (m ∷ ms) = ground (arith, deleted_out ms)

  left_out : (ms : List MeshMember) → find_member i user (without_member i user ms) ≡ none
  unfolding find_member without_member
  left_out [] = refl
  left_out (m ∷ ms) = ground (arith, left_out ms)

  deleted-out :
      (j : ℕ) (ms : List MeshMember)
      → find_member i user ms ≡ none
      → find_member i user (without_members_of j ms) ≡ none
  unfolding find_member without_members_of
  deleted-out j [] e = e
  deleted-out j (m ∷ ms) e = ground (arith, e, deleted-out j ms)

  left-out :
      (j : ℕ) (ms : List MeshMember)
      → find_member i user ms ≡ none
      → find_member i user (without_member j user ms) ≡ none
  unfolding find_member without_member
  left-out j [] e = e
  left-out j (m ∷ ms) e = ground (arith, e, left-out j ms)

module _ (h : Settings) (q : Queries) (user : ℕ) (reads : (i : ℕ) → q.reads_member i ≡ true)
    (deletes : (i : ℕ) → q.deletes i ≡ true) (removes : (i : ℕ) → q.removes i ≡ true) where
  -- One network takes the user out, adds no network and puts the user into none.
  record Leaves (n : Mesh) (a b : Database) : Type 0 where
    out : find_member n.id user b.members ≡ none
    still : (i : ℕ) → find_member i user a.members ≡ none → find_member i user b.members ≡ none
    rows : (i : ℕ) → has_row i b.meshes ≡ true → has_row i a.meshes ≡ true

  resigned-Leaves :
      (n : Mesh) (db : Database) (fx : List Effect) (m : MeshMember)
      → Leaves n db (resigned h q user n (db, fx) m).0
  unfolding resigned delete_mesh deleted_mesh leave_row
  resigned-Leaves n db fx m = rw (deletes n.id, removes n.id) (go (n.owner_id == user))
    where
      go :
          (b : Bool)
          → Leaves n db (
              if b
              then deleted_mesh n.id db
              else record db { members = without_member n.id user db.members })
      go true = record {
        out = deleted_out user n.id db.members;
        still = λ i e. deleted-out user i n.id db.members e;
        rows = λ i e. has_row-without_mesh n.id i db.meshes e;
      }
      go false = record {
        out = left_out user n.id db.members;
        still = λ i e. left-out user i n.id db.members e;
        rows = λ i e. e;
      }

  resign_from-Leaves :
      (n : Mesh) (db : Database) (fx : List Effect)
      → Leaves n db
          (resign_from h q user n
            (db, fx)
            (if q.reads_member n.id then find_member n.id user db.members else none)).0
  unfolding resign_from
  resign_from-Leaves n db fx =
      rw (reads n.id) (elim (Option-cases (find_member n.id user db.members)) [
        | inl e ↦ rw e (record { out = e; still = λ i x. x; rows = λ i x. x })
        | inr (m, e) ↦ rw e (resigned-Leaves n db fx m)
      ])

  record LeaveAll (ns : List Mesh) (a b : Database) : Type 0 where
    out : (i : ℕ) → has_row i ns ≡ true → find_member i user b.members ≡ none
    still : (i : ℕ) → find_member i user a.members ≡ none → find_member i user b.members ≡ none
    rows : (i : ℕ) → has_row i b.meshes ≡ true → has_row i a.meshes ≡ true

  resign_all-LeaveAll :
      (ns : List Mesh) (db : Database) (fx : List Effect)
      → LeaveAll ns db (resign_all h q user ns (db, fx)).0
  unfolding resign_all has_row
  resign_all-LeaveAll [] db fx = record {
    out = λ i e. absurd (ground arith);
    still = λ i e. e;
    rows = λ i e. e;
  }
  resign_all-LeaveAll (n ∷ ns) db fx =
      let one = resign_from-Leaves n db fx in
      let next =
        resign_from h q user n (db, fx)
          (if q.reads_member n.id then find_member n.id user db.members else none) in
      let rest = resign_all-LeaveAll ns next.0 next.1 in
      record {
        out = λ i e. elim (Bool-cases (n.id == i)) [
          | inl f ↦ rest.still i (
              subst (λ j. find_member j user next.0.members ≡ none) {x = n.id} {y = i}
                (ground arith) one.out)
          | inr f ↦ rest.out i (ground arith)
        ];
        still = λ i e. rest.still i (one.still i e);
        rows = λ i e. one.rows i (rest.rows i e);
      }

has_row-meshes_of :
    (user i : ℕ) (m : MeshMember) (ms : List MeshMember) (ns : List Mesh)
    → find_member i user ms ≡ some m
    → has_row i ns ≡ true
    → has_row i (meshes_of user ms ns) ≡ true
unfolding has_row meshes_of
has_row-meshes_of user i m ms [] e f = f
has_row-meshes_of user i m ms (n ∷ ns) e f = elim (Bool-cases (n.id == i)) [
  | inl g ↦
      let found = subst (λ j. find_member j user ms ≡ some m) {x = i} {y = n.id} (ground arith) e in
      ground (arith, found, normalize-id n, g)
  | inr g ↦ ground (arith, f, g, has_row-meshes_of user i m ms ns e)
]

has_row-listed :
    (user i : ℕ) (ms : List MeshMember) (ns : List Mesh)
    → has_row i (meshes_of user ms ns) ≡ true
    → has_row i ns ≡ true
unfolding has_row meshes_of
has_row-listed user i ms [] f = f
has_row-listed user i ms (n ∷ ns) f = ground (arith, f, normalize-id n, has_row-listed user i ms ns)

status_of-inactive :
    (q : Queries) (user : ℕ) (db : Database) (ns : List Mesh)
    → ((i : ℕ) → has_row i ns ≡ true → find_member i user db.members ≡ none)
    → status_of q user db ns ≡ inactive
unfolding status_of has_row status_in
status_of-inactive q user db [] out = refl
status_of-inactive q user db (n ∷ ns) out =
    go n.is_active (q.reads_member n.id) (out n.id (ground arith))
      (status_of-inactive q user db ns (λ i e. out i (ground arith)))
  where
    go :
        {x : NodeStatus} (a r : Bool)
        → find_member n.id user db.members ≡ none
        → x ≡ inactive
        → (if not a
            then x
            else status_in q user db n x (if r then find_member n.id user db.members else none))
          ≡ inactive
    go false r e f = f
    go true false e f = f
    go true true e f = rw e f

node_status_for_user-inactive :
    (q : Queries) (user : ℕ) (db : Database)
    → ((i : ℕ) → has_row i db.meshes ≡ true → find_member i user db.members ≡ none)
    → node_status_for_user q user db ≡ inactive
unfolding node_status_for_user
node_status_for_user-inactive q user db out = go q.lists (
    status_of-inactive q user db (meshes_of user db.members db.meshes)
      (λ i e. out i (has_row-listed user i db.members db.meshes e)))
  where
    go : {x : NodeStatus} (b : Bool) → x ≡ inactive → (if b then x else inactive) ≡ inactive
    go true e = e
    go false e = refl

-- Where the database executes the statements of DeactivateNode, NodeStatus reports the user inactive
-- after it, whatever networks the user had, and whichever statements fail then.
pub deactivate_node-inactive :
    (h : Settings) (q later : Queries) (user : ℕ) (db : Database)
    → q.lists ≡ true
    → ((i : ℕ) → q.reads_member i ≡ true)
    → ((i : ℕ) → q.deletes i ≡ true)
    → ((i : ℕ) → q.removes i ≡ true)
    → node_status_for_user later user (deactivate_node h q user db).db ≡ inactive
unfolding deactivate_node
deactivate_node-inactive h q later user db lists reads deletes removes =
    go _ _ lists (node_status_for_user-inactive later user _ (λ i e. out i (all.rows i e)))
  where
    all :
        LeaveAll h q user reads deletes removes
          (meshes_of user db.members db.meshes)
          db
          (resign_all h q user (meshes_of user db.members db.meshes) (db, [])).0
    all =
        resign_all-LeaveAll h q user reads deletes removes (meshes_of user db.members db.meshes) db
          []

    out :
        (i : ℕ)
        → has_row i db.meshes ≡ true
        → find_member i user
            (resign_all h q user (meshes_of user db.members db.meshes) (db, [])).0.members
          ≡ none
    out i e = elim (Option-cases (find_member i user db.members)) [
      | inl f ↦ all.still i f
      | inr (m, f) ↦ all.out i (has_row-meshes_of user i m db.members db.meshes f e)
    ]

    go :
        (x y : NodeReply (Unit {0})) {b : Bool}
        → b ≡ true
        → node_status_for_user later user x.db ≡ inactive
        → node_status_for_user later user (if b then x else y).db ≡ inactive
    go x y e f = rw e f
