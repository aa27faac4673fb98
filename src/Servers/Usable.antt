-- ===== src/Servers/Usable.antt =====
-- What the administration of servers in internal/control/handler.go keeps true of every row.
use midori_vpn_core.Prelude.{
  ℕ, ◌+◌, ◌≡◌, ◌⊎◌, inl, inr, refl, sym, ap, subst, ◌∙◌, Bool, true, false, ◌&&◌, ◌||◌, not, List,
  [], ◌∷◌, Option, none, some, Outcome, ok, err, panic, diverges, ok-injective, ok_not_err, passed,
  then_ok, and_then, ltb, ◌==◌, if◌then◌else◌, arith, Bool-cases,
}
use midori_vpn_core.Prelude
use midori_vpn_core.Prelude.Int.{ℤ, pos}
use midori_vpn_core.Net.{Text}
use midori_vpn_core.Strings.{is_empty}
use midori_vpn_core.Inputs.{EndpointError, validate_server_endpoint}
use midori_vpn_core.Inputs.Hosts.{
  Url, HostError, HostPort, normalize_admin_server_host, default_admin_server_port,
  is_loopback_server_host,
}
use midori_vpn_core.Inputs.Hosts.Normalised.{IsClean, normalize_admin_server_host-IsClean}
use midori_vpn_core.Connections.{Server}
use midori_vpn_core.Servers.{
  CreateServerRequest, UpdateServerRequest, ServerError, AdminSettings, is_zero, int_or, text_or,
  endpoint_checked, checked_endpoint, host_checked,
}
use midori_vpn_core.Servers.Handlers.{
  allowed_host, stored_host, new_server, stored_new, updated_host, updated_server, stored_update,
}

unfoldable pub IsEndpoint : Text → Type 0
IsEndpoint ep = (is_empty ep ≡ true) ⊎ (validate_server_endpoint ep ≡ ok tt)

text_or-present :
    (default t : Text) → is_empty default ≡ false → is_empty (text_or default t) ≡ false
unfolding text_or
text_or-present default t h = ground arith

int_or-nonzero : (default z : ℤ) → is_zero default ≡ false → is_zero (int_or default z) ≡ false
unfolding int_or
int_or-nonzero default z h = ground arith

endpoint_checked-IsEndpoint :
    (ep e : Text) (o : Outcome EndpointError (Unit {0}))
    → validate_server_endpoint ep ≡ o
    → endpoint_checked ep o ≡ ok e
    → IsEndpoint e
unfolding endpoint_checked IsEndpoint
endpoint_checked-IsEndpoint ep e (ok x) a b =
    subst IsEndpoint (ok-injective {E = ServerError} b) (inr a)
endpoint_checked-IsEndpoint ep e (err x) a b = absurd cc
endpoint_checked-IsEndpoint ep e Prelude.panic a b = absurd cc
endpoint_checked-IsEndpoint ep e Prelude.diverges a b = absurd cc

checked_endpoint-IsEndpoint : (ep e : Text) → checked_endpoint ep ≡ ok e → IsEndpoint e
unfolding checked_endpoint IsEndpoint
checked_endpoint-IsEndpoint ep e h = go (is_empty ep) refl h
  where
    go :
        (b : Bool)
        → is_empty ep ≡ b
        → (if b then ok ep else endpoint_checked ep (validate_server_endpoint ep)) ≡ ok e
        → IsEndpoint e
    go true a b = subst IsEndpoint (ok-injective {E = ServerError} b) (inl a)
    go false a b = endpoint_checked-IsEndpoint ep e (validate_server_endpoint ep) refl b

host_checked-ok : (o : Outcome HostError HostPort) (a : HostPort) → host_checked o ≡ ok a → o ≡ ok a
unfolding host_checked
host_checked-ok (ok x) a h = ap ok (ok-injective {E = ServerError} h)
host_checked-ok (err x) a h = absurd cc
host_checked-ok Prelude.panic a h = absurd cc
host_checked-ok Prelude.diverges a h = absurd cc

module _ (parse_url : Text → Option Url) (loopback_ip6 : Text → Bool) (h : AdminSettings) where
  -- A row that clients and the control plane can use: it is named and has the keys of its core, its
  -- host is clean and, in production, not this machine, and its ports and limits are set.
  pub record IsUsable (s : Server) : Type 0 where
    pub named : is_empty s.name ≡ false
    pub keyed : is_empty s.public_key ≡ false
    pub secret : is_empty s.core_token ≡ false
    pub clean : IsClean (s.host, s.port)
    pub outside :
        (h.production
          && (not h.allow_loopback && is_loopback_server_host parse_url loopback_ip6 s.host))
        ≡ false
    pub reached : IsEndpoint s.endpoint
    pub listens : is_zero s.wg_port ≡ false
    pub sized : is_zero s.max_peers ≡ false

  unfoldable pub AreUsable : List Server → Type 0
  AreUsable [] = Unit {0}
  AreUsable (s ∷ ss) = IsUsable s × AreUsable ss

  record IsStored (hp : HostPort) : Type 0 where
    clean : IsClean hp
    outside :
        (h.production
          && (not h.allow_loopback && is_loopback_server_host parse_url loopback_ip6 hp.0))
        ≡ false

  stored_host-IsStored :
      (host : Text) (port : ℤ) (hp : HostPort)
      → stored_host parse_url loopback_ip6 h host port ≡ ok hp
      → IsStored hp
  unfolding stored_host allowed_host
  stored_host-IsStored host port hp e =
      let (a, checked, allowed) = then_ok _ (λ x. allowed_host parse_url loopback_ip6 h x) hp e in
      let (outside, same) = passed _ _ _ allowed in
      subst IsStored (ok-injective {E = ServerError} same) (record {
        clean =
            normalize_admin_server_host-IsClean parse_url host port a
              (host_checked-ok (normalize_admin_server_host parse_url host port) a checked);
        outside = outside;
      })

  new_server-IsUsable :
      (req : CreateServerRequest) (ep : Text) (hp : HostPort)
      → (is_empty req.name
          || (is_empty req.host || (is_empty req.public_key || is_empty req.core_token)))
        ≡ false
      → IsEndpoint ep
      → IsStored hp
      → IsUsable (new_server parse_url loopback_ip6 h req ep hp)
  unfolding new_server
  new_server-IsUsable req ep hp present endpoint st = record {
    named = ground arith;
    keyed = ground arith;
    secret = ground arith;
    clean = st.clean;
    outside = st.outside;
    reached = endpoint;
    listens = int_or-nonzero (pos 51820) req.wg_port (unfold is_zero in refl);
    sized = int_or-nonzero (pos 250) req.max_peers (unfold is_zero in refl);
  }

  pub stored_new-IsUsable :
      (req : CreateServerRequest) (s : Server)
      → stored_new parse_url loopback_ip6 h req ≡ ok s
      → IsUsable s
  unfolding stored_new
  stored_new-IsUsable req s e =
      let made = new_server parse_url loopback_ip6 h req in
      let port = int_or (default_admin_server_port h.allow_loopback) req.port in
      let stored = stored_host parse_url loopback_ip6 h in
      let (present, e1) =
        passed
          (is_empty req.name
            || (is_empty req.host || (is_empty req.public_key || is_empty req.core_token)))
          _ _ e in
      let (ep, endpoint, e2) =
        then_ok (checked_endpoint req.endpoint)
          (λ ep. and_then (stored req.host port) (λ hp. ok (made ep hp))) s e1 in
      let (hp, host, e3) = then_ok (stored req.host port) (λ hp. ok (made ep hp)) s e2 in
      subst IsUsable (ok-injective {E = ServerError} e3) (
        new_server-IsUsable req ep hp present (checked_endpoint-IsEndpoint req.endpoint ep endpoint)
          (stored_host-IsStored req.host port hp host))

  updated_host-IsStored :
      (s : Server) (req : CreateServerRequest) (hp : HostPort)
      → IsUsable s
      → updated_host parse_url loopback_ip6 h s req ≡ ok hp
      → IsStored hp
  unfolding updated_host
  updated_host-IsStored s req hp u e = go (is_empty req.host && is_zero req.port) e
    where
      go :
          (b : Bool)
          → (if b
              then ok (s.host, s.port)
              else stored_host parse_url loopback_ip6 h
                  (text_or s.host req.host)
                  (int_or s.port req.port))
            ≡ ok hp
          → IsStored hp
      go true a =
          subst IsStored (ok-injective {E = ServerError} a)
            (record { clean = u.clean; outside = u.outside })
      go false a = stored_host-IsStored (text_or s.host req.host) (int_or s.port req.port) hp a

  updated_server-IsUsable :
      (s : Server) (req : UpdateServerRequest) (ep : Text) (hp : HostPort)
      → IsUsable s
      → IsEndpoint ep
      → IsStored hp
      → IsUsable (updated_server parse_url loopback_ip6 h s req ep hp)
  unfolding updated_server
  updated_server-IsUsable s req ep hp u endpoint st = record {
    named = text_or-present s.name req.fields.name u.named;
    keyed = text_or-present s.public_key req.fields.public_key u.keyed;
    secret = text_or-present s.core_token req.fields.core_token u.secret;
    clean = st.clean;
    outside = st.outside;
    reached = endpoint;
    listens = int_or-nonzero s.wg_port req.fields.wg_port u.listens;
    sized = int_or-nonzero s.max_peers req.fields.max_peers u.sized;
  }

  pub stored_update-IsUsable :
      (s t : Server) (req : UpdateServerRequest)
      → IsUsable s
      → stored_update parse_url loopback_ip6 h s req ≡ ok t
      → IsUsable t
  unfolding stored_update
  stored_update-IsUsable s t req u e =
      let made = updated_server parse_url loopback_ip6 h s req in
      let host_of = updated_host parse_url loopback_ip6 h s req.fields in
      let (ep, endpoint, e1) =
        then_ok (checked_endpoint req.fields.endpoint)
          (λ ep. and_then host_of (λ hp. ok (made ep hp))) t e in
      let (hp, host, e2) = then_ok host_of (λ hp. ok (made ep hp)) t e1 in
      subst IsUsable (ok-injective {E = ServerError} e2) (
        updated_server-IsUsable s req ep hp u
          (checked_endpoint-IsEndpoint req.fields.endpoint ep endpoint)
          (updated_host-IsStored s req.fields hp u host))
