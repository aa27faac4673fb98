-- ===== src/Connections/Jobs/Evenness.antt =====
-- A round of the cleanup of internal/control/jobs.go keeps the counts.
use midori_vpn_core.Prelude.{
  ℕ, ◌≡◌, ap, Bool, true, false, List, [], ◌∷◌, ◌++◌, arith, Bool-cases, inl, inr,
}
use midori_vpn_core.Connections.{Peer, Database, deactivate, on_server, one_less, rows}
use midori_vpn_core.Connections.Counts.{
  IsKeyed, AreFound, AreFound-rows, AreFound-deactivate, IsKeyed-rows,
}
use midori_vpn_core.Connections.Even.{IsEven, deactivated-IsEven}
use midori_vpn_core.Connections.Histories.{IsComplete}
use midori_vpn_core.Connections.Disconnect.{Executed, Change, remove_from_server, deactivated}
use midori_vpn_core.Connections.Disconnect.Evenness.{
  remove_from_server-peers, remove_from_server-servers,
}
use midori_vpn_core.Connections.Jobs.{is_stale, list_stale, retire, retire_all, peer_cleanup}

-- Every peer of a list is active.
unfoldable pub AreActive : List Peer → Type 0
AreActive [] = Unit {0}
AreActive (p ∷ ps) = (p.is_active ≡ true) × AreActive ps

stale_active : (now : ℕ) (p : Peer) → is_stale now p ≡ true → p.is_active ≡ true
unfolding is_stale
stale_active now p h = ground arith

list_stale-AreActive : (now : ℕ) (ps : List Peer) → AreActive (list_stale now ps)
unfolding list_stale rows AreActive
list_stale-AreActive now [] = tt
list_stale-AreActive now (p ∷ ps) = elim (Bool-cases (is_stale now p)) [
  | inl e ↦ rw e (stale_active now p e, list_stale-AreActive now ps)
  | inr e ↦ rw e (list_stale-AreActive now ps)
]

module _ (q : ℕ → Executed) (complete : (j : ℕ) → IsComplete (q j)) (held : ℕ → ℕ) where
  pub retire-peers :
      (p : Peer) (db : Database) → (retire (q p.id) p db).db.peers ≡ deactivate p.id db.peers
  unfolding retire deactivated remove_from_server
  retire-peers p db =
      rw (complete p.id).writes (ap (deactivate p.id) (remove_from_server-peers (q p.id) p db))

  retire-servers :
      (p : Peer) (db : Database)
      → (retire (q p.id) p db).db.servers ≡ on_server p.server_id one_less db.servers
  unfolding retire deactivated remove_from_server
  retire-servers p db =
      rw (complete p.id).writes
        (remove_from_server-servers (q p.id) p db (complete p.id).reads (complete p.id).releases)

  retire_all-IsEven :
      (ps : List Peer) (c : Change)
      → IsKeyed ps
      → AreActive ps
      → AreFound c.db.peers ps
      → IsEven held c.db.peers c.db.servers
      → IsEven held (retire_all q ps c).db.peers (retire_all q ps c).db.servers
  unfolding retire_all IsKeyed AreActive AreFound
  retire_all-IsEven [] c k a f e = e
  retire_all-IsEven (p ∷ ps) c k a f e =
      retire_all-IsEven ps
        (record {
          db = (retire (q p.id) p c.db).db;
          effects = c.effects ++ (retire (q p.id) p c.db).effects;
        })
        k.1 a.1 (rw (retire-peers p c.db) (AreFound-deactivate p.id c.db.peers ps k.0 f.1))
        (rw (retire-peers p c.db, retire-servers p c.db)
          (deactivated-IsEven held c.db.peers c.db.servers p f.0 a.0 e))

  pub peer_cleanup-IsEven :
      (lists : Bool) (now : ℕ) (db : Database)
      → IsEven held db.peers db.servers
      → IsEven held (peer_cleanup lists q now db).db.peers (peer_cleanup lists q now db).db.servers
  unfolding peer_cleanup
  peer_cleanup-IsEven true now db e =
      retire_all-IsEven (list_stale now db.peers) (record { db = db; effects = [] })
        (unfold list_stale in IsKeyed-rows _ db.peers e.peers_keyed)
        (list_stale-AreActive now db.peers)
        (unfold list_stale in AreFound-rows _ db.peers e.peers_keyed) e
  peer_cleanup-IsEven false now db e = unfold retire_all in e
