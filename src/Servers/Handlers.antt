-- ===== src/Servers/Handlers.antt =====
-- The handlers AdminCreateServer, AdminUpdateServer and AdminDeleteServer of
-- internal/control/handler.go.
use midori_vpn_core.Prelude.{
  ℕ, Bool, true, false, ◌&&◌, ◌||◌, not, [], ◌∷◌, Option, none, some, Outcome, ok, err, panic,
  diverges, and_then, if◌then◌else◌,
}
use midori_vpn_core.Prelude.Int.{ℤ, pos}
use midori_vpn_core.Net.{Text, codes}
use midori_vpn_core.Strings.{is_empty}
use midori_vpn_core.Inputs.Hosts.{
  Url, HostPort, normalize_admin_server_host, default_admin_server_port, is_loopback_server_host,
}
use midori_vpn_core.Connections.{Server, Database, find_server, save_server, audit}
use midori_vpn_core.Servers.{
  apply_capabilities, CreateServerRequest, UpdateServerRequest, ServerError, invalid_json,
  fields_required, loopback_host, bad_server_id, server_not_found, server_error, Described, Answer,
  reject, AdminSettings, is_zero, int_or, text_or, given, checked_endpoint, host_checked,
  create_row, delete_server,
}

module _ (parse_url : Text → Option Url) (loopback_ip6 : Text → Bool) (h : AdminSettings) where
  -- The host and the port of a request, as they are stored.
  unfoldable pub allowed_host : HostPort → Outcome ServerError HostPort
  allowed_host hp =
      if h.production
        && (not h.allow_loopback && is_loopback_server_host parse_url loopback_ip6 hp.0)
      then err loopback_host
      else ok hp

  unfoldable pub stored_host : Text → ℤ → Outcome ServerError HostPort
  unfolding allowed_host host_checked
  stored_host host port =
      and_then (host_checked (normalize_admin_server_host parse_url host port))
        (λ hp. allowed_host hp)

  -- The row of a request. In the handler's copy the server is not active, which Create does not read
  -- back.
  unfoldable pub new_server : CreateServerRequest → Text → HostPort → Server
  new_server req ep hp = record {
    id = 0;
    name = req.name;
    host = hp.0;
    endpoint = ep;
    port = hp.1;
    wg_port = int_or (pos 51820) req.wg_port;
    public_key = req.public_key;
    core_token = req.core_token;
    location = req.location;
    country_code = req.country_code;
    max_peers = int_or (pos 250) req.max_peers;
    current_peers = 0;
    is_active = false;
    proxy_port = req.proxy_port;
  }

  unfoldable pub stored_new : CreateServerRequest → Outcome ServerError Server
  unfolding new_server
  stored_new req =
      if is_empty req.name
        || (is_empty req.host || (is_empty req.public_key || is_empty req.core_token))
      then err fields_required
      else and_then (checked_endpoint req.endpoint) (λ ep.
        and_then
          (stored_host req.host (int_or (default_admin_server_port h.allow_loopback) req.port))
          (λ hp. ok (new_server req ep hp)))

  -- The answer of both handlers.
  unfoldable pub described : ℕ → Text → Database → Server → Answer Described
  described admin entry db s = record {
    db = db;
    effects = audit entry admin s.id ∷ [];
    result = ok (record { server = s; capabilities = apply_capabilities s });
  }

  unfoldable pub created_server : ℕ → Database → Server → Option ℕ → Answer Described
  unfolding described
  created_server admin db s none = reject db server_error
  created_server admin db s (some i) =
      described admin (codes "admin.server.create") (create_row i s db) (record s { id = i })

  unfoldable pub create_with :
      ℕ → Option ℕ → Database → Outcome ServerError Server → Answer Described
  unfolding created_server
  create_with admin inserts db (ok s) = created_server admin db s inserts
  create_with admin inserts db (err e) = reject db e
  create_with admin inserts db panic = record { db = db; effects = []; result = panic }
  create_with admin inserts db diverges = record { db = db; effects = []; result = diverges }

  -- AdminCreateServer, with the id that the INSERT gives
  unfoldable pub admin_create_server :
      ℕ → Option ℕ → Database → Option CreateServerRequest → Answer Described
  unfolding create_with stored_new
  admin_create_server admin inserts db none = reject db invalid_json
  admin_create_server admin inserts db (some req) = create_with admin inserts db (stored_new req)

  -- The host and the port of an update: the stored ones, where the request names neither.
  unfoldable pub updated_host : Server → CreateServerRequest → Outcome ServerError HostPort
  updated_host s req =
      if is_empty req.host && is_zero req.port
      then ok (s.host, s.port)
      else stored_host (text_or s.host req.host) (int_or s.port req.port)

  unfoldable pub updated_server : Server → UpdateServerRequest → Text → HostPort → Server
  unfolding given
  updated_server s req ep hp = record {
    id = s.id;
    name = text_or s.name req.fields.name;
    host = hp.0;
    endpoint = ep;
    port = hp.1;
    wg_port = int_or s.wg_port req.fields.wg_port;
    public_key = text_or s.public_key req.fields.public_key;
    core_token = text_or s.core_token req.fields.core_token;
    location = text_or s.location req.fields.location;
    country_code = text_or s.country_code req.fields.country_code;
    max_peers = int_or s.max_peers req.fields.max_peers;
    current_peers = s.current_peers;
    is_active = given s.is_active req.is_active;
    proxy_port = given s.proxy_port req.proxy_port;
  }

  unfoldable pub stored_update : Server → UpdateServerRequest → Outcome ServerError Server
  unfolding updated_host updated_server
  stored_update s req =
      and_then (checked_endpoint req.fields.endpoint)
        (λ ep. and_then (updated_host s req.fields) (λ hp. ok (updated_server s req ep hp)))

  unfoldable pub update_with : ℕ → Bool → Database → Outcome ServerError Server → Answer Described
  unfolding described
  update_with admin saves db (ok s) =
      if saves
      then described admin (codes "admin.server.update") (save_server true s db) s
      else reject db server_error
  update_with admin saves db (err e) = reject db e
  update_with admin saves db panic = record { db = db; effects = []; result = panic }
  update_with admin saves db diverges = record { db = db; effects = []; result = diverges }

  unfoldable pub update_found :
      ℕ → Bool → Database → Option UpdateServerRequest → Option Server → Answer Described
  unfolding update_with stored_update
  update_found admin saves db req none = reject db server_not_found
  update_found admin saves db none (some s) = reject db invalid_json
  update_found admin saves db (some req) (some s) = update_with admin saves db (stored_update s req)

  -- AdminUpdateServer, where the query of the server is answered
  unfoldable pub admin_update_server :
      ℕ → Bool → Database → Option ℕ → Option UpdateServerRequest → Answer Described
  unfolding update_found
  admin_update_server admin saves db none req = reject db bad_server_id
  admin_update_server admin saves db (some i) req =
      update_found admin saves db req (find_server i db.servers)

-- AdminDeleteServer
unfoldable pub admin_delete_server : ℕ → Bool → Database → Option ℕ → Answer ℕ
admin_delete_server admin deletes db none = reject db bad_server_id
admin_delete_server admin deletes db (some i) =
    if deletes
    then record {
      db = delete_server i db;
      effects = audit (codes "admin.server.delete") admin i ∷ [];
      result = ok i;
    }
    else reject db server_error
