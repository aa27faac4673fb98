-- ===== src/CoreClient/Calls.antt =====
-- The URL of a call of a core node and the calls: InitCoreClient, normalizeCoreAllowedHost, coreURL
-- and the CallCore functions of internal/control/core_client.go. net/url, the validity of a request
-- and the decoders of JSON are parameters.
use midori_vpn_core.Prelude.{
  ℕ, Bool, true, false, ◌&&◌, ◌||◌, not, List, [], ◌∷◌, ◌++◌, Option, none, some, Outcome, ok, err,
  panic, diverges, and_then, ltb, leb, if◌then◌else◌,
}
use midori_vpn_core.Prelude.Int.{ℤ, pos, negsuc, pos_part}
use midori_vpn_core.Prelude.Equality.{text_eq, ◌=?◌}
use midori_vpn_core.Prelude.Dict
use midori_vpn_core.Net.{Text, codes}
use midori_vpn_core.Proxies.{split_host_port}
use midori_vpn_core.Strings.{
  is_empty, trim_space, contains_text, has_prefix, split, atoi, map_text, lower,
}
use midori_vpn_core.Inputs.Hosts.{Url, trim_brackets, itoa_int, join_host_port}
use midori_vpn_core.Connections.{Server}
use midori_vpn_core.CoreClient.{
  CoreError, empty_core_host, invalid_core_host, missing_host, invalid_port, bad_port, not_allowed,
  bad_request, core_status, invalid_response, core_error, Response, Attempt, Done, Breakers, get_cb,
  core_do_with_retry,
}

-- coreAllowInsecureHTTP and the keys of coreAllowedHosts
pub record CoreSettings : Type 0 where
  pub allow_insecure_http : Bool
  pub allowed_hosts : List Text

unfoldable pub is_listed : Text → List Text → Bool
is_listed host [] = false
is_listed host (h ∷ hs) = h =? host || is_listed host hs

-- The scheme, the host and the port of a call.
pub record Target : Type 0 where
  pub scheme : Text
  pub host : Text
  pub port : ℤ

unfoldable pub no_port : ℤ → Bool
no_port port = not (ltb 0 (pos_part port))

pub no_hosts : List Text → Bool
no_hosts [] = true
no_hosts (h ∷ hs) = false

-- Whether a host may be called: any is where none is listed.
unfoldable pub is_allowed : Text → List Text → Bool
unfolding is_listed no_hosts
is_allowed host hosts = no_hosts hosts || is_listed host hosts

-- The checks behind the reading of the host.
unfoldable pub checked_target : CoreSettings → Target → Outcome CoreError Target
unfolding no_port is_allowed
checked_target g t =
    let host = map_text lower t.host in
    if no_port t.port
    then err bad_port
    else if not (is_allowed host g.allowed_hosts)
    then err not_allowed
    else ok (record t { host = host })

pub named_port : Url → Option ℤ → Outcome CoreError Target
named_port u none = err invalid_port
named_port u (some p) = ok (record { scheme = u.scheme; host = u.hostname; port = p })

pub url_target : ℤ → Option Url → Outcome CoreError Target
unfolding named_port
url_target port none = err invalid_core_host
url_target port (some u) =
    if is_empty u.host
    then err missing_host
    else if is_empty u.port
    then ok (record { scheme = u.scheme; host = u.hostname; port = port })
    else named_port u (atoi u.port)

pub is_443 : ℤ → Bool
is_443 (pos n) = leb 443 n && leb n 443
is_443 (negsuc n) = false

unfoldable pub bare_target : CoreSettings → Text → ℤ → Target
unfolding is_443
bare_target g host port = record {
  scheme = if g.allow_insecure_http && not (is_443 port) then codes "http" else codes "https";
  host = host;
  port = port;
}

unfoldable pub print_target : Text → Target → Text × Text
print_target path t =
    let host_port = join_host_port t.host (itoa_int t.port) in
    (t.scheme ++ (codes "://" ++ (host_port ++ path)), host_port)

-- http.Request, as far as the code sets it.
pub record CoreRequest : Type 0 where
  pub method : Text
  pub url : Text
  pub core_token : Text
  pub body : Option Text

pub record ApiResponse : Type 0 where
  pub accepted : Bool
  pub data_text : Text

pub record Called {ℓ} (A : Type ℓ) : Type ℓ where
  pub breakers : Breakers
  pub result : Outcome CoreError A

pub known_hosts : List Text → List Text
known_hosts [] = []
known_hosts (h ∷ hs) = let rest = known_hosts hs in if is_empty h then rest else h ∷ rest

module _ (parse_url : Text → Option Url) where
  pub split_or : Text → Option Text → Text
  split_or h none = map_text lower h
  split_or h (some host) = map_text lower (trim_brackets host)

  pub url_or : Text → Option Url → Text
  unfolding split_or
  url_or h none = split_or h (split_host_port h)
  url_or h (some u) =
      if is_empty u.hostname then split_or h (split_host_port h) else map_text lower u.hostname

  unfoldable pub normalize_core_allowed_host : Text → Text
  unfolding url_or split_or
  normalize_core_allowed_host raw =
      let h = trim_space raw in
      if is_empty h
      then []
      else if contains_text h (codes "://")
      then url_or h (parse_url h)
      else split_or h (split_host_port h)

  pub normalized_all : List Text → List Text
  normalized_all [] = []
  normalized_all (t ∷ ts) = normalize_core_allowed_host t ∷ normalized_all ts

  -- InitCoreClient, from the list of hosts in the environment
  unfoldable pub init_core_client : Bool → Text → CoreSettings
  unfolding known_hosts normalized_all
  init_core_client insecure hosts = record {
    allow_insecure_http = insecure;
    allowed_hosts = known_hosts (normalized_all (split b',' hosts));
  }

  unfoldable pub core_target : CoreSettings → Text → ℤ → Outcome CoreError Target
  unfolding url_target bare_target
  core_target g host port =
      if has_prefix host (codes "http://") || has_prefix host (codes "https://")
      then url_target port (parse_url host)
      else ok (bare_target g host port)

  -- coreURL: the URL and the key of the breaker
  unfoldable pub core_url : CoreSettings → Server → Text → Outcome CoreError (Text × Text)
  unfolding core_target checked_target print_target
  core_url g s path =
      let host = trim_space s.host in
      if is_empty host
      then err empty_core_host
      else and_then (and_then (core_target g host s.port) (λ t. checked_target g t))
          (λ t. ok (print_target path t))

  module _ (g : CoreSettings) (valid_request : CoreRequest → Bool) (path_escape : Text → Text)
      (http : CoreRequest → ℕ → Attempt) where
    pub done : {A : Type 0} → Breakers → Text → Done → (Response → Outcome CoreError A) → Called A
    done cbs key d read = record {
      breakers = Dict.put cbs key d.breaker;
      result = and_then d.result read;
    }

    pub located :
        {A : Type 0}
        → Breakers
        → (Text → CoreRequest)
        → (Response → Outcome CoreError A)
        → Outcome CoreError (Text × Text)
        → Called A
    unfolding done
    located cbs req read (ok (url, key)) =
        if valid_request (req url)
        then done cbs key (core_do_with_retry (http (req url)) (get_cb cbs key)) read
        else record { breakers = cbs; result = err bad_request }
    located cbs req read (err e) = record { breakers = cbs; result = err e }
    located cbs req read panic = record { breakers = cbs; result = panic }
    located cbs req read diverges = record { breakers = cbs; result = diverges }

    -- What the calls share: the URL, the request with the token, the retries and the reading.
    pub call_core :
        {A : Type 0}
        → Server
        → Text
        → Text
        → Option Text
        → (Response → Outcome CoreError A)
        → Breakers
        → Called A
    unfolding located
    call_core s method path body read cbs =
        located cbs
          (λ url. record { method = method; url = url; core_token = s.core_token; body = body })
          read (core_url g s path)

    module _ (decode_api : Text → Option ApiResponse) where
      pub read_data : {A : Type 0} → Option A → Outcome CoreError A
      read_data none = err invalid_response
      read_data (some a) = ok a

      pub read_api : {A : Type 0} → (Text → Option A) → Option ApiResponse → Outcome CoreError A
      unfolding read_data
      read_api decode none = err invalid_response
      read_api decode (some r) =
          if not r.accepted then err core_error else read_data (decode r.data_text)

      pub read_json : {A : Type 0} → (Text → Option A) → Response → Outcome CoreError A
      unfolding read_api
      read_json decode r = read_api decode (decode_api r.body)

      unfoldable pub call_core_add_peer :
          {A : Type 0} → (Text → Text) → (Text → Option A) → Server → Text → Breakers → Called A
      unfolding call_core read_json
      call_core_add_peer payload decode s key =
          call_core s (codes "POST") (codes "/api/v1/peers") (some (payload key)) (read_json decode)

      unfoldable pub call_core_get_peer_stats :
          {A : Type 0} → (Text → Option A) → Server → Text → Breakers → Called A
      unfolding call_core read_json
      call_core_get_peer_stats decode s key =
          call_core s (codes "GET") (codes "/api/v1/peers/" ++ (path_escape key ++ codes "/stats"))
            none (read_json decode)

      unfoldable pub call_core_server_stats :
          {A : Type 0} → (Text → Option A) → Server → Breakers → Called A
      unfolding call_core read_json
      call_core_server_stats decode s =
          call_core s (codes "GET") (codes "/api/v1/stats") none (read_json decode)

      unfoldable pub call_core_list_peers :
          {A : Type 0} → (Text → Option A) → Server → Breakers → Called A
      unfolding call_core read_json
      call_core_list_peers decode s =
          call_core s (codes "GET") (codes "/api/v1/peers") none (read_json decode)

    pub read_status : Response → Outcome CoreError (Unit {0})
    read_status r = if leb 400 r.status then err core_status else ok tt

    unfoldable pub call_core_remove_peer : Server → Text → Breakers → Called (Unit {0})
    unfolding call_core read_status
    call_core_remove_peer s key =
        call_core s (codes "DELETE") (codes "/api/v1/peers/" ++ path_escape key) none read_status
