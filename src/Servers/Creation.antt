-- ===== src/Servers/Creation.antt =====
-- What AdminCreateServer of internal/control/handler.go answers, against the row that it inserts.
use midori_vpn_core.Prelude.{
  ℕ, ◌≡◌, refl, sym, subst, ◌∙◌, Bool, true, false, ◌&&◌, ◌||◌, ◌∷◌, Option, none, some, Outcome,
  ok, err, ok-injective, passed, then_ok, and_then, ◌==◌, if◌then◌else◌, arith,
}
use midori_vpn_core.Prelude
use midori_vpn_core.Net.{Text}
use midori_vpn_core.Strings.{is_empty}
use midori_vpn_core.Inputs.Hosts.{Url, default_admin_server_port}
use midori_vpn_core.Connections.{Server, Database, find_server}
use midori_vpn_core.Servers.{
  Capabilities, apply_capabilities, CreateServerRequest, ServerError, AdminSettings, Described,
  int_or, checked_endpoint, create_row,
}
use midori_vpn_core.Servers.Handlers.{
  stored_host, new_server, stored_new, created_server, create_with, admin_create_server, described,
}

abbrev pub no_capabilities : Capabilities
no_capabilities = record { wireguard = false; proxy = false; mesh_exit = false }

-- A description that calls an active row inactive and without capabilities.
pub record IsUnderstated (db : Database) (d : Described) : Type 0 where
  pub row : Server
  pub stored : find_server d.server.id db.servers ≡ some row
  pub active : row.is_active ≡ true
  pub same : row ≡ record d.server { is_active = true }
  pub answered : d.server.is_active ≡ false
  pub none_told : d.capabilities ≡ no_capabilities

equal_self : (i : ℕ) → (i == i) ≡ true
equal_self i = ground arith

module _ (parse_url : Text → Option Url) (loopback_ip6 : Text → Bool) (h : AdminSettings) where
  record IsNew (s : Server) : Type 0 where
    inactive : s.is_active ≡ false
    unused : s.current_peers ≡ 0

  stored_new-IsNew :
      (req : CreateServerRequest) (s : Server)
      → stored_new parse_url loopback_ip6 h req ≡ ok s
      → IsNew s
  unfolding stored_new new_server
  stored_new-IsNew req s e =
      let made = new_server parse_url loopback_ip6 h req in
      let port = int_or (default_admin_server_port h.allow_loopback) req.port in
      let stored = stored_host parse_url loopback_ip6 h in
      let (_, e1) =
        passed
          (is_empty req.name
            || (is_empty req.host || (is_empty req.public_key || is_empty req.core_token)))
          _ _ e in
      let (ep, _, e2) =
        then_ok (checked_endpoint req.endpoint)
          (λ ep. and_then (stored req.host port) (λ hp. ok (made ep hp))) s e1 in
      let (hp, _, e3) = then_ok (stored req.host port) (λ hp. ok (made ep hp)) s e2 in
      subst IsNew (ok-injective {E = ServerError} e3) (record { inactive = refl; unused = refl })

  create_with-IsUnderstated :
      (admin : ℕ) (inserts : Option ℕ) (db : Database) (o : Outcome ServerError Server)
      (d : Described)
      → ((s : Server) → o ≡ ok s → IsNew s)
      → (create_with parse_url loopback_ip6 h admin inserts db o).result ≡ ok d
      → IsUnderstated (create_with parse_url loopback_ip6 h admin inserts db o).db d
  unfolding create_with created_server described create_row find_server apply_capabilities
  create_with-IsUnderstated admin none db (ok s) d new e = absurd cc
  create_with-IsUnderstated admin (some i) db (ok s) d new e =
      let n = new s refl in
      subst (λ x. IsUnderstated (create_row i s db) x) (ok-injective {E = ServerError} e)
        (record {
          row = record s { id = i; current_peers = 0; is_active = true };
          stored = rw (equal_self i) refl;
          active = refl;
          same = rw n.unused refl;
          answered = n.inactive;
          none_told = rw n.inactive refl;
        })
  create_with-IsUnderstated admin inserts db (err x) d new e = absurd cc
  create_with-IsUnderstated admin inserts db Prelude.panic d new e = absurd cc
  create_with-IsUnderstated admin inserts db Prelude.diverges d new e = absurd cc

  -- A server that AdminCreateServer has stored is active in the table, while the answer says that it
  -- is inactive and supports neither WireGuard, a proxy nor a mesh exit, whatever the request names.
  pub admin_create_server-IsUnderstated :
      (admin : ℕ) (inserts : Option ℕ) (db : Database) (req : Option CreateServerRequest)
      (d : Described)
      → (admin_create_server parse_url loopback_ip6 h admin inserts db req).result ≡ ok d
      → IsUnderstated (admin_create_server parse_url loopback_ip6 h admin inserts db req).db d
  unfolding admin_create_server
  admin_create_server-IsUnderstated admin inserts db none d e = absurd cc
  admin_create_server-IsUnderstated admin inserts db (some req) d e =
      create_with-IsUnderstated admin inserts db (stored_new parse_url loopback_ip6 h req) d
        (λ s a. stored_new-IsNew req s a) e
