-- ===== src/Meshes/Joins.antt =====
-- How AddMember of internal/repo/mesh.go ends, for proofs about its callers.
use midori_vpn_core.Prelude.{
  ℕ, ◌≡◌, Bool, true, false, ◌&&◌, not, ◌∷◌, none, Outcome, ok, err, panic, diverges, arith,
  Bool-cases, inl, inr, Option-cases,
}
use midori_vpn_core.Net.{Text}
use midori_vpn_core.Meshes.{
  Tables, MeshError, Reply, is_member, find_subnet, inserted, locked, add_member,
}

-- The tables with a new member.
abbrev pub with_new : Tables → ℕ → ℕ → Text → Tables
with_new t mesh user ip = record t {
  members = record { mesh_id = mesh; user_id = user; mesh_ip = ip; peer_id = none } ∷ t.members;
}

module _ (t : Tables) (mesh user : ℕ) (Q : Reply → Type 0)
    (joined : (ip : Text)
      → is_member mesh user t.members ≡ false
      → Q (with_new t mesh user ip, ok tt))
    (refused : (e : MeshError) → Q (t, err e)) where
  inserted-cases :
      (accepts : Bool) (o : Outcome MeshError Text) → Q (inserted accepts t mesh user o)
  unfolding inserted
  inserted-cases accepts (ok ip) =
      elim (Bool-cases (accepts && not (is_member mesh user t.members))) [
        | inl h ↦ rw h (joined ip (ground arith))
        | inr h ↦ rw h (refused _)
      ]
  inserted-cases accepts (err e) = refused e
  inserted-cases accepts panic = refused _
  inserted-cases accepts diverges = refused _

  -- A property of the reply holds where it holds of a new member, who was none before, and of every
  -- error, which changes nothing.
  pub add_member-cases : (begins accepts : Bool) → Q (add_member begins accepts t mesh user)
  unfolding add_member locked
  add_member-cases false accepts = refused _
  add_member-cases true accepts = elim (Option-cases (find_subnet mesh t.meshes)) [
    | inl e ↦ rw e (refused _)
    | inr (s, e) ↦ rw e (inserted-cases accepts _)
  ]
