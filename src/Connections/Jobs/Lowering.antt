-- ===== src/Connections/Jobs/Lowering.antt =====
-- What the cleanup of internal/control/jobs.go does to the table vpn_servers.
use midori_vpn_core.Prelude.{ℕ, Bool, List, [], ◌∷◌}
use midori_vpn_core.Connections.{Peer, Server, Database, on_server, one_less}
use midori_vpn_core.Connections.Disconnect.{Executed, Change}
use midori_vpn_core.Connections.Disconnect.Lowering.{remove_from_server-keeps, deactivated-keeps}
use midori_vpn_core.Connections.Jobs.{retire, retire_all, peer_cleanup}

module _ (P : List Server → Type 0)
    (lowers : (i : ℕ) (ss : List Server) → P ss → P (on_server i one_less ss)) where
  retire-keeps :
      (q : Executed) (p : Peer) (db : Database) → P db.servers → P (retire q p db).db.servers
  unfolding retire
  retire-keeps q p db k =
      deactivated-keeps P lowers q.writes p.id _ (remove_from_server-keeps P lowers q p db k)

  retire_all-keeps :
      (q : ℕ → Executed) (ps : List Peer) (c : Change)
      → P c.db.servers
      → P (retire_all q ps c).db.servers
  unfolding retire_all
  retire_all-keeps q [] c k = k
  retire_all-keeps q (p ∷ ps) c k = retire_all-keeps q ps _ (retire-keeps (q p.id) p c.db k)

  pub peer_cleanup-keeps :
      (lists : Bool) (q : ℕ → Executed) (now : ℕ) (db : Database)
      → P db.servers
      → P (peer_cleanup lists q now db).db.servers
  unfolding peer_cleanup
  peer_cleanup-keeps lists q now db k = retire_all-keeps q _ _ k
