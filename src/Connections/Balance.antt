-- ===== src/Connections/Balance.antt =====
-- The slots of internal/control/handler.go: what a count of a server stands for.
use midori_vpn_core.Connections.Connect.Outcomes
use midori_vpn_core.Connections.Even.{IsEven}
use midori_vpn_core.Connections.Histories.{World, held_on}

-- The ids are keys, and the count of each server is the number of its active peers and of the slots
-- that requests hold on it.
pub record IsBalanced (w : World) : Type 0 where
  pub even : IsEven (λ j. held_on j w.pending) w.db.peers w.db.servers
