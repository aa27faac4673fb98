-- ===== src/Inputs/Hosts.antt =====
-- internal/control/server_host.go: the host and the port of a server, as an administrator gives
-- them, and the endpoint that a client dials. net/url's Parse and the loopback test of an IPv6
-- address are parameters, since the theorems hold for any.
pub mod Normalised
use midori_vpn_core.Prelude.{
  ℕ, ◌/◌, ◌^◌, Bool, true, false, ◌&&◌, ◌||◌, not, List, [], ◌∷◌, ◌++◌, Option, none, some, Outcome,
  ok, err, ltb, leb, ◌==◌, if◌then◌else◌, suc,
}
use midori_vpn_core.Prelude.Int.{ℤ, pos, negsuc}
use midori_vpn_core.Prelude.Equality.{text_eq, ◌=?◌}
use midori_vpn_core.Net.{Text, codes, parse_ip}
use midori_vpn_core.Proxies.{split_host_port, has_char}
use midori_vpn_core.Strings.{is_empty, trim_space, contains_text, atoi, itoa, map_text, lower}

-- A url.URL, as far as the code reads it.
pub record Url : Type 0 where
  pub scheme : Text
  pub host : Text
  pub path : Text
  pub raw_query : Text
  pub fragment : Text
  pub hostname : Text
  pub port : Text

pub data HostError : Type 0 where
  host_required invalid_url bad_scheme missing_host has_path has_query : HostError
  bad_url_port invalid_host port_out_of_range : HostError

abbrev pub HostPort : Type 0
HostPort = Text × ℤ

-- strings.Trim(s, "[]")
pub is_bracket : ℕ → Bool
is_bracket c = c == b'[' || c == b']'

pub trim_brackets_left : Text → Text
trim_brackets_left [] = []
trim_brackets_left (c ∷ t) = let rest = trim_brackets_left t in if is_bracket c then rest else c ∷ t

pub trim_brackets_right : Text → Text
trim_brackets_right [] = []
trim_brackets_right (c ∷ t) =
    let rest = trim_brackets_right t in if is_empty rest && is_bracket c then [] else c ∷ rest

unfoldable pub trim_brackets : Text → Text
unfolding trim_brackets_left trim_brackets_right is_bracket
trim_brackets t = trim_brackets_right (trim_brackets_left t)

-- strings.ContainsAny(host, "/?#")
unfoldable pub has_reserved : Text → Bool
unfolding has_char
has_reserved t = has_char b'/' t || (has_char b'?' t || has_char b'#' t)

unfoldable pub port_in_range : ℤ → Bool
port_in_range (pos n) = leb 1 n && leb n 65535
port_in_range (negsuc n) = false

-- The checks behind the reading of a URL.
unfoldable pub checked_host : HostPort → Outcome HostError HostPort
unfolding port_in_range
checked_host (raw, port) =
    let host = trim_brackets raw in
    if is_empty host
    then err host_required
    else if has_reserved host
    then err invalid_host
    else if not (port_in_range port)
    then err port_out_of_range
    else ok (host, port)

-- The port that the URL names, or the one given.
pub url_port : Text → ℤ → Option ℤ → Outcome HostError HostPort
url_port host port none = err bad_url_port
url_port host port (some p) = checked_host (host, p)

pub url_host : ℤ → Option Url → Outcome HostError HostPort
url_host port none = err invalid_url
url_host port (some u) =
    if not (u.scheme =? codes "http" || u.scheme =? codes "https")
    then err bad_scheme
    else if is_empty u.host
    then err missing_host
    else if not (is_empty u.path || u.path =? codes "/")
    then err has_path
    else if not (is_empty u.raw_query && is_empty u.fragment)
    then err has_query
    else if is_empty u.port
    then checked_host (trim_space u.hostname, port)
    else url_port (trim_space u.hostname) port (atoi u.port)

-- defaultAdminServerPort
unfoldable pub default_admin_server_port : Bool → ℤ
default_admin_server_port insecure_http = if insecure_http then pos 8080 else pos 443

pub bare_host : Text → Option Text → Text
bare_host host none = trim_brackets (trim_space host)
bare_host host (some h) = trim_brackets (trim_space h)

pub hostname_or : Text → Option Url → Text
hostname_or host none = bare_host host (split_host_port host)
hostname_or host (some u) =
    if is_empty u.hostname then bare_host host (split_host_port host) else trim_space u.hostname

unfoldable pub itoa_int : ℤ → Text
itoa_int (pos n) = itoa n
itoa_int (negsuc n) = b'-' ∷ itoa (suc n)

-- net.JoinHostPort
unfoldable pub join_host_port : Text → Text → Text
unfolding has_char
join_host_port host port =
    if has_char b':' host then (b'[' ∷ host) ++ (codes "]:" ++ port) else host ++ (b':' ∷ port)

module _ (parse_url : Text → Option Url) where
  -- normalizeAdminServerHost
  unfoldable pub normalize_admin_server_host : Text → ℤ → Outcome HostError HostPort
  unfolding url_host url_port
  normalize_admin_server_host raw port =
      let host = trim_space raw in
      if is_empty host
      then err host_required
      else if contains_text host (codes "://")
      then url_host port (parse_url host)
      else checked_host (host, port)

  -- endpointHostFromServerHost
  unfoldable pub endpoint_host_from_server_host : Text → Text
  unfolding hostname_or bare_host
  endpoint_host_from_server_host raw =
      let host = trim_space raw in
      if is_empty host
      then []
      else if contains_text host (codes "://")
      then hostname_or host (parse_url host)
      else hostname_or host none

  -- wireGuardEndpointForServerHost
  unfoldable pub wire_guard_endpoint_for_server_host : Text → ℤ → Text
  unfolding itoa_int
  wire_guard_endpoint_for_server_host raw wg_port =
      let host = endpoint_host_from_server_host raw in
      if is_empty host then [] else join_host_port host (itoa_int wg_port)

  module _ (loopback_ip6 : Text → Bool) where
    pub loopback_ip : Text → Option ℕ → Bool
    loopback_ip host none = loopback_ip6 host
    loopback_ip host (some a) = a / 2 ^ 24 == 127

    -- isLoopbackServerHost
    unfoldable pub is_loopback_server_host : Text → Bool
    unfolding loopback_ip
    is_loopback_server_host raw =
        let host = endpoint_host_from_server_host raw in
        if map_text lower host =? codes "localhost" then true else loopback_ip host (parse_ip host)
