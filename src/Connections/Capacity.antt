-- ===== src/Connections/Capacity.antt =====
-- The capacity of the servers of internal/control/handler.go.
use midori_vpn_core.Prelude.{ℕ, ◌+◌, ◌≤◌, ◌≡◌, List, [], ◌∷◌}
use midori_vpn_core.Prelude.Int.{ℤ, pos_part}
use midori_vpn_core.Connections.{Server}
use midori_vpn_core.Connections.Connect.Outcomes
use midori_vpn_core.Connections.Counts.{active_on}
use midori_vpn_core.Connections.Slots.{Counts}
use midori_vpn_core.Connections.Histories.{Held, World, held_on}

-- Every server has the limit that it was given, and a count that does not exceed it.
unfoldable pub AreWithin : (ℕ → ℤ) → List Server → Type 0
AreWithin limit [] = Unit {0}
AreWithin limit (s ∷ ss) =
    (s.max_peers ≡ limit s.id) × (s.current_peers ≤ pos_part s.max_peers) × AreWithin limit ss

-- The rows that requests read had the limits of the table.
unfoldable pub AreLimited : (ℕ → ℤ) → List Held → Type 0
AreLimited limit [] = Unit {0}
AreLimited limit (x ∷ xs) = (x.server.max_peers ≡ limit x.server.id) × AreLimited limit xs

abbrev pub IsWithin : (ℕ → ℤ) → World → Type 0
IsWithin limit w = AreWithin limit w.db.servers × AreLimited limit w.pending

-- No server has more active peers, and requests that hold a slot on it, than its limit.
unfoldable pub AreServed : World → List Server → Type 0
AreServed w [] = Unit {0}
AreServed w (s ∷ ss) =
    (active_on s.id w.db.peers + held_on s.id w.pending ≤ pos_part s.max_peers) × AreServed w ss
