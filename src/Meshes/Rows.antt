-- ===== src/Meshes/Rows.antt =====
-- The rows of mesh_networks and mesh_members as internal/repo/mesh.go reads and changes them, and the
-- names and validity of session networks in internal/control/mesh_handler.go. A new row is the first
-- of its table, so that a table is ordered by time, the newest first.
use midori_vpn_core.Prelude.{
  ℕ, ◌+◌, ◌-◌, Bool, true, false, ◌&&◌, ◌||◌, not, List, [], ◌∷◌, ◌++◌, Option, none, some, leb,
  ◌==◌, if◌then◌else◌,
}
use midori_vpn_core.Prelude.Equality.{text_eq, ◌=?◌}
use midori_vpn_core.Net.{Text, codes}
use midori_vpn_core.Strings.{upper, map_text}
use midori_vpn_core.Meshes.{Mesh, MeshMember}

unfoldable pub is_upper : ℕ → Bool
is_upper c = leb b'A' c && leb c b'Z'

-- isValidCountryCode and validMeshCountryCode
unfoldable pub is_valid_country_code : Text → Bool
unfolding is_upper
is_valid_country_code (a ∷ b ∷ []) = is_upper a && (is_upper b && not ((a ∷ b ∷ []) =? codes "XX"))
is_valid_country_code _ = false

-- isValidPublicMesh
unfoldable pub is_valid_public_mesh : Mesh → Bool
is_valid_public_mesh m = m.is_session && (m.is_active && is_valid_country_code m.country_code)

-- The UTF-8 bytes of the regional indicator of a letter.
pub indicator : ℕ → Text
indicator c = 0xF0 ∷ 0x9F ∷ 0x87 ∷ (0xA6 + (c - b'A')) ∷ []

pub flag_of : Text → Text
unfolding indicator
flag_of (a ∷ b ∷ []) = indicator a ++ indicator b
flag_of _ = []

-- countryFlag and meshCountryFlag: the two indicators, or the bytes of a white flag
unfoldable pub country_flag : Text → Text
unfolding flag_of
country_flag country =
    let code = map_text upper country in
    if is_valid_country_code code
    then flag_of code
    else 0xF0 ∷ 0x9F ∷ 0x8F ∷ 0xB3 ∷ 0xEF ∷ 0xB8 ∷ 0x8F ∷ []

-- meshNameForCountry
unfoldable pub mesh_name_for_country : Text → Text
mesh_name_for_country country =
    codes "Servidor Comunitario "
    ++ (country_flag country ++ (codes " [" ++ (country ++ codes "]")))

-- normalizePublicMeshName
unfoldable pub normalize_public_mesh_name : Mesh → Mesh
normalize_public_mesh_name m =
    let code = map_text upper m.country_code in
    if not m.is_session
    then m
    else if is_valid_country_code code
    then record m { country_code = code; name = mesh_name_for_country code }
    else record m { country_code = code }

unfoldable pub find_row : ℕ → List Mesh → Option Mesh
find_row i [] = none
find_row i (n ∷ ns) = let rest = find_row i ns in if n.id == i then some n else rest

unfoldable pub read_row : Option Mesh → Option Mesh
read_row none = none
read_row (some n) = some (normalize_public_mesh_name n)

-- GetByID
unfoldable pub find_mesh : ℕ → List Mesh → Option Mesh
unfolding find_row read_row
find_mesh i ns = read_row (find_row i ns)

unfoldable pub find_member : ℕ → ℕ → List MeshMember → Option MeshMember
find_member mesh user [] = none
find_member mesh user (m ∷ ms) =
    let rest = find_member mesh user ms in
    if m.mesh_id == mesh && m.user_id == user then some m else rest

pub is_in : Option MeshMember → Bool
is_in none = false
is_in (some m) = true

-- ListByUser
unfoldable pub meshes_of : ℕ → List MeshMember → List Mesh → List Mesh
unfolding is_in
meshes_of user ms [] = []
meshes_of user ms (n ∷ ns) =
    let rest = meshes_of user ms ns in
    if n.owner_id == user || is_in (find_member n.id user ms)
    then normalize_public_mesh_name n ∷ rest
    else rest

-- UpdateMemberPeer
unfoldable pub update_member_peer : ℕ → ℕ → ℕ → List MeshMember → List MeshMember
update_member_peer mesh user peer [] = []
update_member_peer mesh user peer (m ∷ ms) =
    (if m.mesh_id == mesh && m.user_id == user then record m { peer_id = some peer } else m)
    ∷ update_member_peer mesh user peer ms

-- ListMembers, in the order of joining
unfoldable pub list_members : ℕ → List MeshMember → List MeshMember
list_members mesh [] = []
list_members mesh (m ∷ ms) =
    let rest = list_members mesh ms in if m.mesh_id == mesh then rest ++ m ∷ [] else rest

unfoldable pub without_mesh : ℕ → List Mesh → List Mesh
without_mesh i [] = []
without_mesh i (n ∷ ns) = let rest = without_mesh i ns in if n.id == i then rest else n ∷ rest

unfoldable pub without_members_of : ℕ → List MeshMember → List MeshMember
without_members_of i [] = []
without_members_of i (m ∷ ms) =
    let rest = without_members_of i ms in if m.mesh_id == i then rest else m ∷ rest

-- An UPDATE of a session network.
unfoldable pub on_session : ℕ → (Mesh → Mesh) → List Mesh → List Mesh
on_session i f [] = []
on_session i f (n ∷ ns) = (if n.id == i && n.is_session then f n else n) ∷ on_session i f ns

-- GetSessionByOwner, before its row is read
unfoldable pub session_of : ℕ → List Mesh → Option Mesh
session_of user [] = none
session_of user (n ∷ ns) =
    let rest = session_of user ns in if n.owner_id == user && n.is_session then some n else rest
