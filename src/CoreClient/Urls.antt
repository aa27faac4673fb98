-- ===== src/CoreClient/Urls.antt =====
-- The URLs of coreURL of internal/control/core_client.go: which hosts they name, and the hosts that
-- normalizeAdminServerHost stores.
use midori_vpn_core.Prelude.{
  ◌≡◌, refl, subst, true, not, Option, ok, ok-injective, passed, then_ok, ltb, arith,
}
use midori_vpn_core.Prelude.Int.{pos_part}
use midori_vpn_core.Net.{Text}
use midori_vpn_core.Strings.{is_empty, trim_space, map_text, lower}
use midori_vpn_core.Inputs.Hosts.{Url}
use midori_vpn_core.Connections.{Server}
use midori_vpn_core.CoreClient.{CoreError}
use midori_vpn_core.CoreClient.Calls.{
  CoreSettings, is_allowed, Target, no_port, checked_target, print_target, core_target, core_url,
}

-- A URL of a host that may be called, at a port above 0.
pub record IsCallable (g : CoreSettings) (path : Text) (r : Text × Text) : Type 0 where
  pub target : Target
  pub printed : r ≡ print_target path target
  pub allowed : is_allowed target.host g.allowed_hosts ≡ true
  pub at_port : ltb 0 (pos_part target.port) ≡ true

module _ (parse_url : Text → Option Url) (g : CoreSettings) where
  checked_target-IsCallable :
      (path : Text) (t u : Target)
      → checked_target g t ≡ ok u
      → IsCallable g path (print_target path u)
  unfolding checked_target no_port
  checked_target-IsCallable path t u h =
      let (at_port, h1) = passed (no_port t.port) _ _ h in
      let (allowed, h2) =
        passed (not (is_allowed (map_text lower t.host) g.allowed_hosts)) _ _ h1 in
      subst (λ v. IsCallable g path (print_target path v)) (ok-injective {E = CoreError} h2)
        (record {
          target = record t { host = map_text lower t.host };
          printed = refl;
          allowed = ground arith;
          at_port = ground arith;
        })

  -- Every URL that is made for a server, whatever host and port are stored, names a host of the list
  -- of allowed hosts, where there is one, and a port above 0.
  pub core_url-IsCallable :
      (s : Server) (path : Text) (r : Text × Text)
      → core_url parse_url g s path ≡ ok r
      → IsCallable g path r
  unfolding core_url
  core_url-IsCallable s path r h =
      let host = trim_space s.host in
      let (_, h1) = passed (is_empty host) _ _ h in
      let (u, checked, printed) = then_ok _ (λ t. ok (print_target path t)) r h1 in
      let (t, _, made) =
        then_ok (core_target parse_url g host s.port) (λ t. checked_target g t) u checked in
      subst (IsCallable g path) (ok-injective {E = CoreError} printed)
        (checked_target-IsCallable path t u made)
