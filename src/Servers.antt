-- ===== src/Servers.antt =====
-- The administration of servers: AdminCreateServer, AdminUpdateServer and AdminDeleteServer of
-- internal/control/handler.go over internal/repo/server.go, and the capabilities of a server of
-- internal/models/models.go.
pub mod Handlers
pub mod Usable
pub mod Histories
pub mod Creation
pub mod Samples
use midori_vpn_core.Prelude.{
  ℕ, ◌+◌, Bool, true, false, ◌&&◌, ◌||◌, not, List, [], ◌∷◌, Option, none, some, Outcome, ok, err,
  panic, diverges, and_then, ltb, ◌==◌, if◌then◌else◌,
}
use midori_vpn_core.Prelude.Int.{ℤ, pos, negsuc, pos_part}
use midori_vpn_core.Net.{Text, codes}
use midori_vpn_core.Strings.{is_empty}
use midori_vpn_core.Inputs.{EndpointError, validate_server_endpoint}
use midori_vpn_core.Inputs.Hosts.{
  Url, HostError, HostPort, normalize_admin_server_host, default_admin_server_port,
  is_loopback_server_host,
}
use midori_vpn_core.Meshes.{MeshMember}
use midori_vpn_core.Connections.{
  Peer, Server, Database, find_server, save_server, clear_member_peer, Effect, audit,
}

-- SupportsWireGuard, SupportsProxy and SupportsMeshExit
pub record Capabilities : Type 0 where
  pub wireguard : Bool
  pub proxy : Bool
  pub mesh_exit : Bool

unfoldable pub is_positive : ℤ → Bool
is_positive z = ltb 0 (pos_part z)

-- ApplyCapabilities
unfoldable pub apply_capabilities : Server → Capabilities
unfolding is_positive
apply_capabilities s = record {
  wireguard = s.is_active && (is_positive s.wg_port && not (is_empty s.public_key));
  proxy = s.is_active && is_positive s.proxy_port;
  mesh_exit = s.is_active && is_positive s.proxy_port;
}

pub record CreateServerRequest : Type 0 where
  pub name : Text
  pub host : Text
  pub endpoint : Text
  pub port : ℤ
  pub wg_port : ℤ
  pub public_key : Text
  pub core_token : Text
  pub location : Text
  pub country_code : Text
  pub max_peers : ℤ
  pub proxy_port : ℤ

pub record UpdateServerRequest : Type 0 where
  pub fields : CreateServerRequest
  pub is_active : Option Bool
  pub proxy_port : Option ℤ

pub data ServerError : Type 0 where
  invalid_json fields_required loopback_host bad_server_id server_not_found : ServerError
  server_error : ServerError
  bad_endpoint : EndpointError → ServerError
  bad_host : HostError → ServerError

pub record Described : Type 0 where
  pub server : Server
  pub capabilities : Capabilities

-- The answer of a handler: the tables, the entries of the audit log and the result.
pub record Answer {ℓ} (A : Type ℓ) : Type ℓ where
  pub db : Database
  pub effects : List Effect
  pub result : Outcome ServerError A

abbrev pub reject {ℓ} : {A : Type ℓ} → Database → ServerError → Answer A
reject db e = record { db = db; effects = []; result = err e }

-- appEnv == "production" and coreAllowLoopback
pub record AdminSettings : Type 0 where
  pub production : Bool
  pub allow_loopback : Bool

unfoldable pub is_zero : ℤ → Bool
is_zero (pos n) = n == 0
is_zero (negsuc n) = false

unfoldable pub int_or : ℤ → ℤ → ℤ
int_or default z = if is_zero z then default else z

unfoldable pub text_or : Text → Text → Text
text_or default t = if is_empty t then default else t

unfoldable pub given {ℓ} : {A : Type ℓ} → A → Option A → A
given default none = default
given default (some a) = a

-- An endpoint that is given is checked.
unfoldable pub endpoint_checked : Text → Outcome EndpointError (Unit {0}) → Outcome ServerError Text
endpoint_checked ep (ok _) = ok ep
endpoint_checked ep (err e) = err (bad_endpoint e)
endpoint_checked ep panic = panic
endpoint_checked ep diverges = diverges

unfoldable pub checked_endpoint : Text → Outcome ServerError Text
unfolding endpoint_checked
checked_endpoint ep =
    if is_empty ep then ok ep else endpoint_checked ep (validate_server_endpoint ep)

unfoldable pub host_checked : Outcome HostError HostPort → Outcome ServerError HostPort
host_checked (ok hp) = ok hp
host_checked (err e) = err (bad_host e)
host_checked panic = panic
host_checked diverges = diverges

-- The INSERT of ServerRepo.Create: the row has the default count and is active. The id is none where
-- the statement fails.
unfoldable pub create_row : ℕ → Server → Database → Database
create_row i s db = record db {
  servers = record s { id = i; current_peers = 0; is_active = true } ∷ db.servers;
}

-- ServerRepo.Delete, with the rows that refer to the server: its peers, and the memberships that
-- refer to those.
unfoldable pub without_server : ℕ → List Server → List Server
without_server i [] = []
without_server i (s ∷ ss) = let rest = without_server i ss in if s.id == i then rest else s ∷ rest

unfoldable pub without_peers_of : ℕ → List Peer → List Peer
without_peers_of i [] = []
without_peers_of i (p ∷ ps) =
    let rest = without_peers_of i ps in if p.server_id == i then rest else p ∷ rest

unfoldable pub forget_peers_of : ℕ → List Peer → List MeshMember → List MeshMember
forget_peers_of i [] ms = ms
forget_peers_of i (p ∷ ps) ms =
    let rest = forget_peers_of i ps ms in
    if p.server_id == i then clear_member_peer p.id rest else rest

unfoldable pub delete_server : ℕ → Database → Database
delete_server i db = record db {
  servers = without_server i db.servers;
  peers = without_peers_of i db.peers;
  members = forget_peers_of i db.peers db.members;
}
