-- ===== src/ExitNodes.antt =====
-- The exit nodes of a mesh: internal/control/exit_node_handler.go over the tables of
-- internal/repo/exit_node.go. A UUID is a number, and uuid.Nil is 0; a port at or below 0 is 0. The
-- database may refuse any statement, and `order` is its ORDER BY mesh_ip, whose collation the code
-- leaves open.
pub mod Selection
pub mod Registration
pub mod Samples
use midori_vpn_core.Prelude.{
  ℕ, Bool, true, false, ◌&&◌, ◌||◌, not, List, [], ◌∷◌, Option, none, some, Outcome, ok, err, ltb,
  ◌==◌, if◌then◌else◌,
}
use midori_vpn_core.Prelude.Equality.{nat_eq, text_eq, ◌=?◌}
use midori_vpn_core.Prelude.Dict
use midori_vpn_core.Prelude.Dict.{Dict}
use midori_vpn_core.Net.{Text, codes}
use midori_vpn_core.Strings.{is_empty, trim_space, map_text, lower}

-- A row of mesh_members, as far as the exit nodes read it.
pub record Member : Type 0 where
  pub user_id : ℕ
  pub mesh_id : ℕ
  pub mesh_ip : Text
  pub is_exit_node : Bool
  pub proxy_scheme : Text
  pub proxy_port : ℕ
  pub supports_tcp : Bool
  pub supports_udp : Bool

-- UserExitNodeSelection
pub record Selected : Type 0 where
  pub mesh_ip : Text
  pub proxy_scheme : Text
  pub proxy_port : ℕ
  pub supports_tcp : Bool
  pub supports_udp : Bool

-- The tables mesh_members and user_exit_node.
pub record Database : Type 0 where
  pub members : List Member
  pub selections : Dict ℕ Selected

pub data HttpError : Type 0 where
  unauthorized invalid_body bad_port mesh_id_required bad_scheme tcp_required : HttpError
  missing_node unavailable server_error : HttpError

pub record RegisterRequest : Type 0 where
  pub mesh_id : ℕ
  pub proxy_scheme : Text
  pub proxy_port : ℕ
  pub supports_tcp : Bool
  pub supports_udp : Bool

pub record SetRequest : Type 0 where
  pub mesh_ip : Text
  pub proxy_scheme : Text
  pub proxy_port : ℕ

abbrev pub http_connect : Text
http_connect = codes "http-connect"

abbrev pub socks5 : Text
socks5 = codes "socks5"

-- normalizeProxyScheme
unfoldable pub normalize_proxy_scheme : Text → Text
normalize_proxy_scheme s =
    let t = map_text lower (trim_space s) in
    if is_empty t then http_connect else if t =? http_connect || t =? socks5 then t else []

-- The UPDATE of RegisterExitNode and that of DeregisterExitNode, on one row.
pub registered : ℕ → RegisterRequest → Text → Member → Member
registered user req scheme m =
    if m.user_id == user && m.mesh_id == req.mesh_id
    then record m {
      is_exit_node = true;
      proxy_scheme = scheme;
      proxy_port = req.proxy_port;
      supports_tcp = req.supports_tcp;
      supports_udp = req.supports_udp;
    }
    else m

pub deregistered : ℕ → ℕ → Member → Member
deregistered user mesh m =
    if m.user_id == user && m.mesh_id == mesh
    then record m {
      is_exit_node = false;
      proxy_port = 0;
      supports_tcp = true;
      supports_udp = false;
    }
    else m

pub each : (Member → Member) → List Member → List Member
each f [] = []
each f (m ∷ ms) = f m ∷ each f ms

-- Is the user in the mesh? `mesh_id IN (SELECT mesh_id FROM mesh_members WHERE user_id = $1)`
pub belongs : ℕ → ℕ → List Member → Bool
belongs user mesh [] = false
belongs user mesh (m ∷ ms) = (m.user_id == user && m.mesh_id == mesh) || belongs user mesh ms

-- The other conditions of ListExitNodes.
pub full_tunnel : Member → Bool
full_tunnel m =
    m.is_exit_node
    && (m.proxy_scheme =? socks5)
    && (m.supports_tcp && (m.supports_udp && ltb 0 m.proxy_port))

pub listed : ℕ → List Member → List Member → List Member
listed user all [] = []
listed user all (m ∷ ms) =
    let rest = listed user all ms in
    if full_tunnel m && belongs user m.mesh_id all then m ∷ rest else rest

abbrev pub Reply : Type 0
Reply = Database × Outcome HttpError (Unit {0})

-- The UPDATE runs, or the database refuses it.
pub update : Bool → Database → (Member → Member) → Reply
update true db f = (record db { members = each f db.members }, ok tt)
update false db f = (db, err server_error)

-- RegisterExitNode of the handler, for the user of the request and its decoded body. `accepts` is
-- whether the database executes the statement.
unfoldable pub register_exit_node : Bool → Database → Option ℕ → Option RegisterRequest → Reply
unfolding update each registered
register_exit_node accepts db none body = (db, err unauthorized)
register_exit_node accepts db (some user) none = (db, err invalid_body)
register_exit_node accepts db (some user) (some req) =
    let scheme = normalize_proxy_scheme req.proxy_scheme in
    if req.proxy_port == 0 || ltb 65535 req.proxy_port
    then (db, err bad_port)
    else if req.mesh_id == 0
    then (db, err mesh_id_required)
    else if is_empty scheme
    then (db, err bad_scheme)
    else if not req.supports_tcp
    then (db, err tcp_required)
    else update accepts db (registered user req scheme)

-- DeregisterExitNode of the handler.
unfoldable pub deregister_exit_node : Bool → Database → Option ℕ → Option ℕ → Reply
unfolding update each deregistered
deregister_exit_node accepts db none body = (db, err unauthorized)
deregister_exit_node accepts db (some user) none = (db, err invalid_body)
deregister_exit_node accepts db (some user) (some mesh) =
    if mesh == 0 then (db, err mesh_id_required) else update accepts db (deregistered user mesh)

-- ClearExitNode of the handler.
unfoldable pub clear_exit_node : Bool → Database → Option ℕ → Reply
clear_exit_node accepts db none = (db, err unauthorized)
clear_exit_node true db (some user) =
    (record db { selections = Dict.remove db.selections user }, ok tt)
clear_exit_node false db (some user) = (db, err server_error)

-- The first node of the list with the address, the port and the scheme.
pub find_node : Text → Text → ℕ → List Member → Option Member
find_node ip scheme port [] = none
find_node ip scheme port (m ∷ ms) =
    let rest = find_node ip scheme port ms in
    if (m.mesh_ip =? ip) && (m.proxy_port == port && (m.proxy_scheme =? scheme))
    then some m
    else rest

-- SetUserExitNode
pub store : Bool → Database → ℕ → SetRequest → Text → Option Member → Reply
store accepts db user req scheme none = (db, err unavailable)
store false db user req scheme (some m) = (db, err server_error)
store true db user req scheme (some m) = (
  record db {
    selections = Dict.put db.selections user (record {
      mesh_ip = req.mesh_ip;
      proxy_scheme = scheme;
      proxy_port = req.proxy_port;
      supports_tcp = m.supports_tcp;
      supports_udp = m.supports_udp;
    });
  },
  ok tt,
)

module _ (order : List Member → List Member) where
  -- ListExitNodes of the repository.
  unfoldable pub list_exit_nodes : Database → ℕ → List Member
  unfolding listed full_tunnel belongs
  list_exit_nodes db user = order (listed user db.members db.members)

  -- SetExitNode of the handler: `lists` is whether the database answers the query.
  unfoldable pub set_exit_node : Bool → Bool → Database → Option ℕ → Option SetRequest → Reply
  unfolding store find_node
  set_exit_node lists accepts db none body = (db, err unauthorized)
  set_exit_node lists accepts db (some user) none = (db, err invalid_body)
  set_exit_node lists accepts db (some user) (some req) =
      let scheme = normalize_proxy_scheme req.proxy_scheme in
      if is_empty req.mesh_ip || req.proxy_port == 0
      then (db, err missing_node)
      else if is_empty scheme
      then (db, err bad_scheme)
      else if not lists
      then (db, err server_error)
      else store accepts db user req scheme
          (find_node req.mesh_ip scheme req.proxy_port (list_exit_nodes db user))
