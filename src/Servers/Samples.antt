-- ===== src/Servers/Samples.antt =====
-- The theorems on the administration of servers at one request.
use midori_vpn_core.Prelude.{
  ◌≡◌, refl, Bool, true, false, [], ◌∷◌, Option, none, some, List, ok, and_then,
}
use midori_vpn_core.Prelude.Int.{pos}
use midori_vpn_core.Net.{Text, codes}
use midori_vpn_core.Strings.{is_empty, trim_space, contains_text}
use midori_vpn_core.Inputs.Hosts.{
  Url, normalize_admin_server_host, checked_host, trim_brackets, has_reserved, port_in_range,
  default_admin_server_port,
}
use midori_vpn_core.Connections.{Database}
use midori_vpn_core.Servers.{
  CreateServerRequest, AdminSettings, Described, int_or, is_zero, checked_endpoint, host_checked,
  apply_capabilities,
}
use midori_vpn_core.Servers.Handlers.{
  admin_create_server, create_with, created_server, stored_new, stored_host, allowed_host,
  new_server, described,
}
use midori_vpn_core.Servers.Usable.{AreUsable}
use midori_vpn_core.Servers.Histories.{Call, create, update, delete, run, run-AreUsable}
use midori_vpn_core.Servers.Creation.{
  IsUnderstated, no_capabilities, admin_create_server-IsUnderstated,
}

abbrev parse_url : Text → Option Url
parse_url t = none

abbrev loopback_ip6 : Text → Bool
loopback_ip6 t = false

abbrev settings : AdminSettings
settings = record { production = false; allow_loopback = false }

abbrev empty_db : Database
empty_db = record { peers = []; servers = []; meshes = []; members = [] }

abbrev request : CreateServerRequest
request = record {
  name = codes "node";
  host = codes " core.example ";
  endpoint = [];
  port = pos 0;
  wg_port = pos 0;
  public_key = codes "key";
  core_token = codes "token";
  location = [];
  country_code = [];
  max_peers = pos 0;
  proxy_port = pos 8888;
}

abbrev history : List Call
history =
    create 1 (some 4) (some request)
    ∷ update 1 true (some 4)
        (some (record { fields = request; is_active = some false; proxy_port = none }))
    ∷ delete 1 true (some 4)
    ∷ []

none-AreUsable : AreUsable parse_url loopback_ip6 settings []
unfolding AreUsable
none-AreUsable = tt

run-AreUsable_example :
    AreUsable parse_url loopback_ip6 settings
      (run parse_url loopback_ip6 settings empty_db history).servers
run-AreUsable_example =
    run-AreUsable parse_url loopback_ip6 settings empty_db history none-AreUsable

abbrev answer : Described
answer = record {
  server = record {
    id = 4;
    name = codes "node";
    host = codes "core.example";
    endpoint = [];
    port = pos 443;
    wg_port = pos 51820;
    public_key = codes "key";
    core_token = codes "token";
    location = [];
    country_code = [];
    max_peers = pos 250;
    current_peers = 0;
    is_active = false;
    proxy_port = pos 8888;
  };
  capabilities = no_capabilities;
}

answered :
    (admin_create_server parse_url loopback_ip6 settings 1 (some 4) empty_db (some request)).result
    ≡ ok answer
unfolding admin_create_server create_with created_server stored_new stored_host allowed_host
    new_server described int_or is_zero checked_endpoint host_checked default_admin_server_port
    is_empty trim_space contains_text normalize_admin_server_host checked_host trim_brackets
    has_reserved port_in_range and_then apply_capabilities
answered = refl

admin_create_server-IsUnderstated_example :
    IsUnderstated
      (admin_create_server parse_url loopback_ip6 settings 1 (some 4) empty_db (some request)).db
      answer
admin_create_server-IsUnderstated_example =
    admin_create_server-IsUnderstated parse_url loopback_ip6 settings 1 (some 4) empty_db
      (some request) answer answered
