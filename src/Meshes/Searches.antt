-- ===== src/Meshes/Searches.antt =====
-- What internal/repo/mesh.go finds in the rows of networks and members.
use mathlib.Core.Option.{some-injective}
use midori_vpn_core.Prelude.{
  ℕ, ◌≡◌, refl, subst, Bool, true, false, ◌&&◌, List, [], ◌∷◌, Option, none, some, ◌==◌,
  if◌then◌else◌, arith,
}
use midori_vpn_core.Net.{Text}
use midori_vpn_core.Meshes.{Mesh, MeshMember}
use midori_vpn_core.Meshes.Rows.{normalize_public_mesh_name, find_member, session_of}

pub normalize-id : (n : Mesh) → (normalize_public_mesh_name n).id ≡ n.id
unfolding normalize_public_mesh_name
normalize-id n = ground arith

pub normalize-owner : (n : Mesh) → (normalize_public_mesh_name n).owner_id ≡ n.owner_id
unfolding normalize_public_mesh_name
normalize-owner n = ground arith

pub normalize-session : (n : Mesh) → (normalize_public_mesh_name n).is_session ≡ n.is_session
unfolding normalize_public_mesh_name
normalize-session n = ground arith

-- What holds of the row that a search takes.
pub chosen :
    (P : Mesh → Type 0) (b : Bool) (o : Option Mesh) (r n : Mesh)
    → (if b then some r else o) ≡ some n
    → (b ≡ true → P r)
    → (o ≡ some n → P n)
    → P n
chosen P true o r n e here there = subst P {x = r} {y = n} (some-injective _ _ e) (here refl)
chosen P false o r n e here there = there e

pub session_of_lem :
    (user : ℕ) (ns : List Mesh) (n : Mesh)
    → session_of user ns ≡ some n
    → (n.owner_id ≡ user) × (n.is_session ≡ true)
unfolding session_of
session_of_lem user [] n e = absurd (ground arith)
session_of_lem user (r ∷ ns) n e =
    chosen (λ x. (x.owner_id ≡ user) × (x.is_session ≡ true)) (r.owner_id == user && r.is_session)
      (session_of user ns) r n e (λ h. (ground arith, ground arith))
      (λ f. session_of_lem user ns n f)

pub find_member_new :
    (mesh user : ℕ) (ip : Text) (ms : List MeshMember)
    → find_member mesh user
        (record { mesh_id = mesh; user_id = user; mesh_ip = ip; peer_id = none } ∷ ms)
      ≡ some (record { mesh_id = mesh; user_id = user; mesh_ip = ip; peer_id = none })
unfolding find_member
find_member_new mesh user ip ms = ground arith
