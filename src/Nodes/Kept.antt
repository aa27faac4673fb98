-- ===== src/Nodes/Kept.antt =====
-- The network of a user in the tables of internal/repo/mesh.go, and the statements on the networks
-- of other users.
use midori_vpn_core.Prelude.{
  ℕ, ◌≡◌, refl, subst, Bool, true, false, ◌&&◌, ◌||◌, not, List, [], ◌∷◌, Option, none, some, ◌==◌,
  arith, Bool-cases, inl, inr,
}
use midori_vpn_core.Prelude.Equality.{text_eq}
use midori_vpn_core.Meshes.{Mesh, MeshMember, without_member}
use midori_vpn_core.Meshes.Rows.{
  find_row, find_member, meshes_of, session_of, without_mesh, without_members_of, on_session,
  update_member_peer,
}
use midori_vpn_core.Connections.{Database}
use midori_vpn_core.Meshes.Searches.{normalize-id}
use midori_vpn_core.Meshes.Searches.{normalize-owner, chosen}

-- Every row of the network has this owner, as the primary key has it.
unfoldable pub is_owned_by : ℕ → ℕ → List Mesh → Bool
is_owned_by o i [] = true
is_owned_by o i (n ∷ ns) = (not (n.id == i) || n.owner_id == o) && is_owned_by o i ns

-- A network has an owner and a row, and a user a membership in it.
pub record IsKept (o i u : ℕ) (n : Mesh) (m : Option MeshMember) (db : Database) : Type 0 where
  pub own : is_owned_by o i db.meshes ≡ true
  pub row : find_row i db.meshes ≡ some n
  pub membership : find_member i u db.members ≡ m

module _ (o i : ℕ) where
  pub is_owned_by-without_mesh :
      (j : ℕ) (ns : List Mesh)
      → is_owned_by o i ns ≡ true
      → is_owned_by o i (without_mesh j ns) ≡ true
  unfolding is_owned_by without_mesh
  is_owned_by-without_mesh j [] e = e
  is_owned_by-without_mesh j (n ∷ ns) e = ground (arith, e, is_owned_by-without_mesh j ns)

  pub is_owned_by-meshes_of :
      (v : ℕ) (ms : List MeshMember) (ns : List Mesh)
      → is_owned_by o i ns ≡ true
      → is_owned_by o i (meshes_of v ms ns) ≡ true
  unfolding is_owned_by meshes_of
  is_owned_by-meshes_of v ms [] e = e
  is_owned_by-meshes_of v ms (n ∷ ns) e =
      ground (arith, e, normalize-id n, normalize-owner n, is_owned_by-meshes_of v ms ns)

  pub is_owned_by-on_session :
      (j : ℕ) (f : Mesh → Mesh) (ns : List Mesh)
      → ((n : Mesh) → (f n).id ≡ n.id)
      → (j == i) ≡ false
      → is_owned_by o i ns ≡ true
      → is_owned_by o i (on_session j f ns) ≡ true
  unfolding is_owned_by on_session
  is_owned_by-on_session j f [] same e own = own
  is_owned_by-on_session j f (n ∷ ns) same e own =
      ground (arith, e, own, same n, is_owned_by-on_session j f ns same e)

  pub find_row-without_mesh_other :
      (j : ℕ) (ns : List Mesh) → (j == i) ≡ false → find_row i (without_mesh j ns) ≡ find_row i ns
  unfolding find_row without_mesh
  find_row-without_mesh_other j [] e = refl
  find_row-without_mesh_other j (n ∷ ns) e = ground (arith, e, find_row-without_mesh_other j ns e)

  pub find_row-on_session :
      (j : ℕ) (f : Mesh → Mesh) (ns : List Mesh)
      → ((n : Mesh) → (f n).id ≡ n.id)
      → (j == i) ≡ false
      → find_row i (on_session j f ns) ≡ find_row i ns
  unfolding find_row on_session
  find_row-on_session j f [] same e = refl
  find_row-on_session j f (n ∷ ns) same e =
      ground (arith, e, same n, find_row-on_session j f ns same e)

  pub find_member-without_members_of :
      (u j : ℕ) (ms : List MeshMember)
      → (j == i) ≡ false
      → find_member i u (without_members_of j ms) ≡ find_member i u ms
  unfolding find_member without_members_of
  find_member-without_members_of u j [] e = refl
  find_member-without_members_of u j (m ∷ ms) e =
      ground (arith, e, find_member-without_members_of u j ms e)

  pub find_member-without_member :
      (u v j : ℕ) (ms : List MeshMember)
      → (v == u) ≡ false
      → find_member i u (without_member j v ms) ≡ find_member i u ms
  unfolding find_member without_member
  find_member-without_member u v j [] e = refl
  find_member-without_member u v j (m ∷ ms) e =
      ground (arith, e, find_member-without_member u v j ms e)

  pub find_member-update_member_peer :
      (u v j p : ℕ) (ms : List MeshMember)
      → (v == u) ≡ false
      → find_member i u (update_member_peer j v p ms) ≡ find_member i u ms
  unfolding find_member update_member_peer
  find_member-update_member_peer u v j p [] e = refl
  find_member-update_member_peer u v j p (m ∷ ms) e =
      ground (arith, e, find_member-update_member_peer u v j p ms e)

  -- A row of another owner is not a row of the network.
  pub find_row-other :
      (v j : ℕ) (ns : List Mesh) (n : Mesh)
      → (v == o) ≡ false
      → is_owned_by o i ns ≡ true
      → find_row j ns ≡ some n
      → (n.owner_id == v) ≡ true
      → (n.id == i) ≡ false
  unfolding is_owned_by find_row
  find_row-other v j ns n e own found mine = ground (arith, e, mine, row ns own found)
    where
      row :
          (ns : List Mesh)
          → is_owned_by o i ns ≡ true
          → find_row j ns ≡ some n
          → (not (n.id == i) || n.owner_id == o) ≡ true
      row [] g f = absurd (ground arith)
      row (r ∷ ns) g f =
          chosen (λ x. (not (x.id == i) || x.owner_id == o) ≡ true) (r.id == j) (find_row j ns) r n
            f (λ _. ground arith) (row ns (ground arith))

  pub session_of-other :
      (v : ℕ) (ns : List Mesh) (n : Mesh)
      → (v == o) ≡ false
      → is_owned_by o i ns ≡ true
      → session_of v ns ≡ some n
      → (n.id == i) ≡ false
  unfolding is_owned_by session_of
  session_of-other v [] n e own found = absurd (ground arith)
  session_of-other v (r ∷ ns) n e own found =
      chosen (λ x. (x.id == i) ≡ false) (r.owner_id == v && r.is_session) (session_of v ns) r n
        found (λ h. ground (arith, h, e, own)) (session_of-other v ns n e (ground arith))

  pub is_owned_by-new :
      (new n : Mesh) (ns : List Mesh)
      → find_row new.id ns ≡ none
      → find_row i ns ≡ some n
      → (new.id == i) ≡ false
  is_owned_by-new new n ns free row = elim (Bool-cases (new.id == i)) [
    | inr g ↦ g
    | inl g ↦
        absurd (taken (subst (λ j. find_row j ns ≡ none) {x = new.id} {y = i} (ground arith) free))
  ]
    where
      taken : find_row i ns ≡ none → ⊥
      taken f = ground (arith, f, row)
