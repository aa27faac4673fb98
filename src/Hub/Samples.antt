-- ===== src/Hub/Samples.antt =====
-- The theorems on internal/control/ws_hub.go at a user with two connections.
use midori_vpn_core.Prelude.{ℕ, ◌≡◌, refl, true, List, [], ◌∷◌, none, some, ok, ◌⊎◌}
use midori_vpn_core.Prelude.Equality.{nat_eq, text_eq, text_beq}
use midori_vpn_core.Prelude.Dict
use midori_vpn_core.Prelude.Dict.{Dict}
use midori_vpn_core.Net.{Text, codes}
use midori_vpn_core.Hub
use midori_vpn_core.Hub.{Hub, Client, new_hub, conns, drop}
use midori_vpn_core.Hub.NoPanic.{Event, register, unregister, run, run-new_hub-never_panics}
use midori_vpn_core.Hub.Counts.{live}
use midori_vpn_core.Hub.Exact.{all_keep, run-new_hub-conns}
use midori_vpn_core.Hub.Leak.{unregister-drop}

abbrev events : List Event
events = register (codes "ana") ∷ register (codes "ana") ∷ unregister 0 ∷ []

abbrev client : Client
client = record { user = codes "ana"; queue = [] }

-- The hub after the events.
abbrev one_left : Hub
one_left = record {
  clients = record { entries = (1, client) ∷ [] };
  user_conns = record { entries = (codes "ana", 1) ∷ [] };
  closed = record { entries = (0, true) ∷ [] };
  next = 2;
}

run-events : run new_hub events ≡ ok one_left
unfolding run Hub.register Hub.unregister Dict.get Dict.put Dict.remove new_hub text_beq
run-events = refl

run-new_hub-never_panics_example :
    (n : Hub) × (run new_hub events ≡ ok n)
    × ((i : ℕ) → (Dict.get n.clients i ≡ none) ⊎ (Dict.get n.closed i ≡ none))
run-new_hub-never_panics_example = run-new_hub-never_panics events

events_keep : all_keep events ≡ true
unfolding all_keep
events_keep = refl

run-new_hub-conns_example : conns one_left (codes "ana") ≡ live one_left (codes "ana")
run-new_hub-conns_example = run-new_hub-conns events one_left (codes "ana") events_keep run-events

registered : (Dict.get one_left.clients 1 ≡ some client) × (Dict.get one_left.closed 1 ≡ none)
unfolding Dict.get
registered = (refl, refl)

unregister-drop_example :
    (n : Hub) × (drop one_left (1 ∷ []) ≡ ok n)
    × (Dict.get n.clients 1 ≡ none)
    × (Dict.get n.closed 1 ≡ some true)
    × ((u : Text) → conns n u ≡ conns one_left u)
    × (Hub.unregister n 1 ≡ ok n)
unregister-drop_example = unregister-drop one_left 1 client registered.0 registered.1
