-- ===== src/Lib.antt =====
-- The verification library of midori-vpn-core, a control plane for WireGuard VPN servers.
--
-- The program hands out VPN addresses from a pool (internal/ippool), keeps the peers of a
-- WireGuard interface and its saved configuration (internal/wg), accepts the tokens of an
-- identity provider (internal/auth), limits the rate of requests (internal/api,
-- internal/control), and pushes events over WebSockets (internal/control). A request passes the
-- limiter and the token check before a handler calls the manager, and the manager calls the pool.
-- A connect of a user takes a slot of a server in the database, asks the core node of that server
-- for an address and inserts a peer; a disconnect, a deletion, a ban and the cleanup of stale
-- peers give the slot back, and a job sets the counts of the servers to what the core nodes
-- report.
--
-- What stands where:
--   Prelude   numbers, bits, lists, maps, outcomes and counting; no code of the repository
--   Net, Base64, Strings   the parts of Go's standard library that the code relies on
--   IpPool    internal/ippool/pool.go: Pool is the struct, allocate, release and reserve its methods
--   Wg        internal/wg/manager.go: Conf is the text of wg0.conf (persistConfig, restoreFromConfig),
--             Manager the methods on peers, Mesh those on mesh addresses
--   Hub       internal/control/ws_hub.go: one step for each locked section of the code
--   Throttle  internal/api/ratelimit.go, internal/api/refresh_ratelimit.go and
--             internal/control/user_ratelimit.go: the limiters per address, token and user
--   Proxies   internal/api/ratelimit.go: the trusted proxies and realIP
--   ExitNodes internal/control/exit_node_handler.go over internal/repo/exit_node.go
--   Meshes    internal/repo/mesh.go: the choice of subnets and addresses, AddMember; Rows has the rows
--             of networks and members with the statements that read and change them, and the names
--             of session networks
--   Nodes     internal/control/mesh_handler.go: ensureAutoMesh, which finds or makes the session
--             network of a user; Linking has attachMemberToActivePeer, Handlers ActivateNode,
--             AutoMesh, LeaveMesh, DeleteAutoMesh and DeactivateNode, Status nodeStatusForUser, and
--             Calls the histories of requests. Preserved has the interface between a predicate on
--             the tables and the requests: what each statement of a user must preserve
--   Inputs    internal/control/handler.go: the checks of names, endpoints, keys and pages and the text
--             of a client's configuration (buildWGConfig); Hosts: internal/control/server_host.go
--   Connections   the rows of internal/repo/peer.go, internal/repo/server.go and the memberships of
--             internal/repo/mesh.go. Connect is Connect of internal/control/handler.go, begin its
--             half up to the reserved slot and complete the rest; Disconnect has Disconnect,
--             DeleteConnection, AdminForceDisconnectPeer and AdminBanUser; Meshing the attachment of
--             a peer to the networks of its user; Jobs one round of internal/control/jobs.go
--   CoreClient   internal/control/core_client.go: the circuit breaker (allow, recordSuccess,
--             recordFailure), coreDoWithRetry, and in Calls coreURL, InitCoreClient and the calls
--   Servers   AdminCreateServer, AdminUpdateServer and AdminDeleteServer of
--             internal/control/handler.go over internal/repo/server.go, and ApplyCapabilities of
--             internal/models/models.go
--   Auth      internal/auth/introspection.go, introspection_cache.go and middleware.go
--
-- How the code is modelled. A method under a mutex is one step, a function from the state to the
-- new state and its outcome: a value, an error, a panic, or no end within the fuel. The loop of
-- Allocate has maxHost + 2 units of fuel, one for each offset and two to spare, which is shown to
-- be enough. The loop of buildWGConfig that strips masks has one unit for each byte of the
-- address and one more, which is shown to be enough. The loop of coreDoWithRetry has the three
-- turns of the code. The calls that a handler makes of a core node, of the peer manager, of the
-- hub and of the audit log are a list of effects beside its reply: that a call was made, and not
-- that the other side has done it. The limiters read the clock once for a request, where the code
-- reads it for the time last seen and again for the bucket. Numbers of type uint32 wrap around. Maps are association lists behind their laws. Texts are lists of bytes. The kernel's
-- WireGuard device, the disk, the clock, SHA-256, the country of an address, the check of a JWT,
-- HTTP and JSON, the order of rows of the database and whether it executes a statement, and the
-- token bucket of golang.org/x/time/rate are parameters, whose answers are arbitrary except where
-- a theorem names what it takes for granted.
--
-- Not modelled: IPv6 addresses and networks (a text of one is refused or passed over), white
-- space beyond ASCII, the creation of the interface and its firewall rules, the administration of
-- users, the cached list of servers, the listings and pings of internal/control/handler.go, the
-- QR code, the tickers of the jobs, the lookup of a country (countryFromIP) with its cache, the
-- listings of networks, the display names of members, the OAuth exchange, the forward proxy, the
-- reading of the environment and the start-up, most of which only read the database or move bytes
-- between connections.
mod Prelude
pub mod Net
pub mod Base64
pub mod Strings
pub mod IpPool
pub mod Wg
pub mod Hub
pub mod Throttle
pub mod Proxies
pub mod Auth
pub mod ExitNodes
pub mod Meshes
pub mod Inputs
pub mod Connections
pub mod CoreClient
pub mod Servers
pub mod Nodes
