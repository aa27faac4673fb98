-- ===== src/Meshes.antt =====
-- The networks and members of internal/repo/mesh.go, as far as subnets and addresses are handed
-- out. A UUID is a number. The database may refuse any statement; AddMember holds a lock on the row
-- of the network, so that it is one step.
pub mod Rows
pub mod Joins
pub mod Searches
pub mod Lowest
pub mod Apart
use midori_vpn_core.Prelude.{
  ℕ, zero, suc, ◌+◌, ◌-◌, ◌%◌, Bool, true, false, ◌&&◌, ◌||◌, not, List, [], ◌∷◌, ◌++◌, Option,
  none, some, Outcome, ok, err, ◌==◌, if◌then◌else◌,
}
use midori_vpn_core.Prelude.Equality.{text_eq, ◌=?◌}
use midori_vpn_core.Net.{Text, codes, Network, parse_cidr, print_ip}
use midori_vpn_core.Strings.{itoa}

-- A row of mesh_networks, and one of mesh_members.
pub record Mesh : Type 0 where
  pub id : ℕ
  pub name : Text
  pub owner_id : ℕ
  pub subnet : Text
  pub is_session : Bool
  pub is_active : Bool
  pub country_code : Text
  pub public_ip : Text
  pub updated_at : ℕ

pub record MeshMember : Type 0 where
  pub mesh_id : ℕ
  pub user_id : ℕ
  pub mesh_ip : Text
  pub peer_id : Option ℕ

pub record Tables : Type 0 where
  pub meshes : List Mesh
  pub members : List MeshMember

pub data MeshError : Type 0 where
  no_subnet bad_subnet subnet_full no_mesh insert_failed begin_failed : MeshError

-- used[s]
unfoldable pub taken : List Text → Text → Bool
taken [] t = false
taken (u ∷ us) t = u =? t || taken us t

-- The loop over the candidates, from i on for so many rounds.
pub first_free : (ℕ → Text) → List Text → ℕ → ℕ → Option Text
first_free candidate used zero i = none
first_free candidate used (suc n) i =
    let rest = first_free candidate used n (i + 1) in
    if taken used (candidate i) then rest else some (candidate i)

unfoldable pub subnets : List Mesh → List Text
subnets [] = []
subnets (m ∷ ms) = m.subnet ∷ subnets ms

-- SELECT mesh_ip FROM mesh_members WHERE mesh_id = $1
unfoldable pub ips_of : ℕ → List MeshMember → List Text
ips_of mesh [] = []
ips_of mesh (m ∷ ms) =
    let rest = ips_of mesh ms in if m.mesh_id == mesh then m.mesh_ip ∷ rest else rest

pub subnet_candidate : ℕ → Text
subnet_candidate i = codes "10.200." ++ (itoa i ++ codes ".0/24")

-- NextAvailableSubnet
unfoldable pub next_available_subnet : List Mesh → Option Text
unfolding first_free taken subnets subnet_candidate
next_available_subnet ms = first_free subnet_candidate (subnets ms) 254 1

-- The first three bytes of the network, and i.
pub host_candidate : ℕ → ℕ → Text
host_candidate base i = print_ip (base - base % 256 + i)

pub chosen_ip : Option Text → Outcome MeshError Text
chosen_ip none = err subnet_full
chosen_ip (some ip) = ok ip

pub mesh_ip_in : List Text → Option Network → Outcome MeshError Text
mesh_ip_in used none = err bad_subnet
mesh_ip_in used (some n) = chosen_ip (first_free (host_candidate n.address) used 253 2)

-- nextAvailableMeshIP and nextAvailableMeshIPTx
unfoldable pub next_available_mesh_ip : ℕ → Text → List MeshMember → Outcome MeshError Text
unfolding mesh_ip_in chosen_ip first_free taken ips_of host_candidate
next_available_mesh_ip mesh subnet ms = mesh_ip_in (ips_of mesh ms) (parse_cidr subnet)

pub find_subnet : ℕ → List Mesh → Option Text
find_subnet mesh [] = none
find_subnet mesh (m ∷ ms) =
    let rest = find_subnet mesh ms in if m.id == mesh then some m.subnet else rest

-- UNIQUE(mesh_id, user_id)
unfoldable pub is_member : ℕ → ℕ → List MeshMember → Bool
is_member mesh user [] = false
is_member mesh user (m ∷ ms) = (m.mesh_id == mesh && m.user_id == user) || is_member mesh user ms

abbrev pub Reply : Type 0
Reply = Tables × Outcome MeshError (Unit {0})

pub inserted : Bool → Tables → ℕ → ℕ → Outcome MeshError Text → Reply
inserted accepts t mesh user (ok ip) =
    if accepts && not (is_member mesh user t.members)
    then (
      record t {
        members =
            record { mesh_id = mesh; user_id = user; mesh_ip = ip; peer_id = none } ∷ t.members;
      },
      ok tt,
    )
    else (t, err insert_failed)
inserted accepts t mesh user (err e) = (t, err e)
inserted accepts t mesh user _ = (t, err insert_failed)

pub locked : Bool → Tables → ℕ → ℕ → Option Text → Reply
locked accepts t mesh user none = (t, err no_mesh)
locked accepts t mesh user (some subnet) =
    inserted accepts t mesh user (next_available_mesh_ip mesh subnet t.members)

-- AddMember: the transaction begins, and its INSERT and COMMIT are executed.
unfoldable pub add_member : Bool → Bool → Tables → ℕ → ℕ → Reply
unfolding locked inserted find_subnet is_member
add_member begins accepts t mesh user =
    if begins then locked accepts t mesh user (find_subnet mesh t.meshes) else (t, err begin_failed)

-- The DELETE of RemoveMember
unfoldable pub without_member : ℕ → ℕ → List MeshMember → List MeshMember
without_member mesh user [] = []
without_member mesh user (m ∷ ms) =
    let rest = without_member mesh user ms in
    if m.mesh_id == mesh && m.user_id == user then rest else m ∷ rest
