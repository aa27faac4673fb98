-- ===== src/CoreClient/Samples.antt =====
-- The theorems on the client of the core nodes at one server and at a core that is down.
use midori_vpn_core.Prelude.{
  ℕ, ◌+◌, ◌*◌, ◌≡◌, refl, true, false, [], ◌∷◌, Option, none, List, ok, and_then, arith,
}
use midori_vpn_core.Prelude.Int.{pos}
use midori_vpn_core.Prelude.Equality.{text_beq}
use midori_vpn_core.Net.{Text, codes}
use midori_vpn_core.Strings.{is_empty, trim_space, has_prefix, map_text, lower, itoa}
use midori_vpn_core.Strings.Laws.{Chars, IsSolid}
use midori_vpn_core.Inputs.Hosts.{Url, join_host_port, itoa_int}
use midori_vpn_core.Connections.{Server}
use midori_vpn_core.CoreClient.{
  Event, asked, failed, new_breaker, allow, run, Attempt, core_do_with_retry, second,
}
use midori_vpn_core.CoreClient.Breaker.{may_call, allow-may_call}
use midori_vpn_core.CoreClient.Attempts.{IsTried, core_do_with_retry-IsTried}
use midori_vpn_core.CoreClient.Calls.{
  CoreSettings, is_allowed, core_url, core_target, bare_target, checked_target, no_port,
  print_target,
}
use midori_vpn_core.CoreClient.Urls.{IsCallable, core_url-IsCallable}

-- Five failures and a call that asks one second later.
abbrev history : List Event
history =
    asked (6 * second)
    ∷ failed (5 * second)
    ∷ failed (4 * second)
    ∷ failed (3 * second)
    ∷ failed (2 * second)
    ∷ failed second
    ∷ []

allow-may_call_example :
    (allow (7 * second) (run history new_breaker)).1 ≡ may_call (7 * second) history
allow-may_call_example = allow-may_call history (7 * second)

-- A core that never answers, asked once in a second from a time on.
abbrev down : ℕ → ℕ → Attempt
down start i = record {
  before = [];
  asked_at = (start + i) * second;
  during = [];
  failed_at = (start + i) * second;
  answer = none;
}

core_do_with_retry-IsTried_example : IsTried (down 1) (core_do_with_retry (down 1) new_breaker)
core_do_with_retry-IsTried_example = core_do_with_retry-IsTried (down 1) new_breaker

abbrev server : Server
server = record {
  id = 1;
  name = codes "node";
  host = codes "Core.example";
  endpoint = [];
  port = pos 8443;
  wg_port = pos 51820;
  public_key = [];
  core_token = [];
  location = [];
  country_code = [];
  max_peers = pos 250;
  current_peers = 0;
  is_active = true;
  proxy_port = pos 0;
}

abbrev settings : CoreSettings
settings = record { allow_insecure_http = false; allowed_hosts = codes "core.example" ∷ [] }

abbrev parse_url : Text → Option Url
parse_url t = none

abbrev printed : Text × Text
printed = (codes "https://core.example:8443/api/v1/stats", codes "core.example:8443")

solid : Chars IsSolid server.host
solid = omega arith

allowed : is_allowed (map_text lower server.host) settings.allowed_hosts ≡ true
unfolding is_allowed map_text lower text_beq
allowed = refl

made : core_url parse_url settings server (codes "/api/v1/stats") ≡ ok printed
unfolding core_url core_target checked_target bare_target print_target is_allowed no_port trim_space
    is_empty has_prefix map_text lower join_host_port itoa_int itoa and_then text_beq
made = refl

core_url-IsCallable_example : IsCallable settings (codes "/api/v1/stats") printed
core_url-IsCallable_example =
    core_url-IsCallable parse_url settings server (codes "/api/v1/stats") printed made
