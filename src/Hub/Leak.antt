-- ===== src/Hub/Leak.antt =====
-- What the removal of a dead client in internal/control/ws_hub.go leaves counted.
use midori_vpn_core.Prelude.{ℕ, ◌≡◌, refl, true, [], ◌∷◌, none, some, ok, arith, and_then}
use midori_vpn_core.Prelude.Equality.{nat_eq, text_eq}
use midori_vpn_core.Prelude.Dict
use midori_vpn_core.Prelude.Dict.{Dict, get-put, get-remove, get-empty}
use midori_vpn_core.Net.{Text}
use midori_vpn_core.Hub
use midori_vpn_core.Hub.{
  Hub, Client, WsError, conns, shut, drop_found, send_found, send_open, reaches,
}

-- A broadcast that removes a registered client leaves it counted: its channel is closed, it is no
-- longer registered, no count changes, and the unregistration that its handler sends afterwards
-- changes nothing.
pub unregister-drop :
    (h : Hub) (i : ℕ) (c : Client)
    → Dict.get h.clients i ≡ some c
    → Dict.get h.closed i ≡ none
    → (n : Hub) × (Hub.drop h (i ∷ []) ≡ ok n)
      × (Dict.get n.clients i ≡ none)
      × (Dict.get n.closed i ≡ some true)
      × ((u : Text) → conns n u ≡ conns h u)
      × (Hub.unregister n i ≡ ok n)
unfolding Hub.drop drop_found shut and_then Hub.unregister Hub.unregister_found conns
unregister-drop h i c e o =
    let gone : Dict.get (Dict.remove h.clients i) i ≡ none =
      ground (arith, get-remove h.clients i i) in
    (
      record h { clients = Dict.remove h.clients i; closed = Dict.put h.closed i true },
      rw e (rw o refl),
      gone,
      ground (arith, get-put h.closed i i true),
      (λ u. refl),
      rw gone refl,
    )
