-- ===== src/Connections/Disconnect/Repeated.antt =====
-- A connection that is ended twice: Disconnect of internal/control/handler.go does not ask whether
-- the peer is active.
use midori_vpn_core.Prelude.{
  ℕ, ◌-◌, ◌+◌, ◌≡◌, refl, sym, ap, subst, ◌∙◌, Bool, true, false, Option, some, ok, ◌==◌,
  if◌then◌else◌,
}
use midori_vpn_core.Prelude.Counting.{one_if}
use midori_vpn_core.Net.{codes}
use midori_vpn_core.Connections.{Peer, Database, Reply, find_peer, deactivate, on_server, one_less}
use midori_vpn_core.Connections.Meshing.{Settings}
use midori_vpn_core.Connections.Counts.{
  active_on, find_peer-id, find_peer-deactivate_self, deactivate-deactivate,
}
use midori_vpn_core.Connections.Slots.{Counts, Counts-lowered}
use midori_vpn_core.Connections.Even.{IsEven}
use midori_vpn_core.Connections.Histories.{IsComplete}
use midori_vpn_core.Connections.Disconnect
use midori_vpn_core.Connections.Disconnect.{User, Executed, is_owner, disconnect, drop_peer}
use midori_vpn_core.Connections.Disconnect.Evenness.{
  drop_peer-peers, drop_peer-servers, disconnect-IsEven,
}

module _ (h : Settings) (q : Executed) (complete : IsComplete q) (reads : q.reads_peer ≡ true) where
  disconnect-drop_peer :
      (db : Database) (u : User) (i : ℕ) (p : Peer)
      → find_peer i db.peers ≡ some p
      → is_owner u p ≡ true
      → disconnect h q db u (some i) ≡ Disconnect.dropped_by (codes "peer.disconnect") u.id h q p db
  unfolding disconnect Disconnect.with_own_peer
  disconnect-drop_peer db u i p f o = read q.reads_peer reads
    where
      read :
          (b : Bool)
          → b ≡ true
          → Disconnect.owned
              (λ r. Disconnect.dropped_by (codes "peer.disconnect") u.id h q r db)
              db
              u
              (if b then find_peer i db.peers else Option.none)
            ≡ Disconnect.dropped_by (codes "peer.disconnect") u.id h q p db
      read b e = unfold Disconnect.owned in rw (e, f) (rw o refl)

  dropped-db :
      (db : Database) (u : User) (i : ℕ) (p : Peer)
      → find_peer i db.peers ≡ some p
      → is_owner u p ≡ true
      → (disconnect h q db u (some i)).db ≡ (drop_peer h q p db).db
  dropped-db db u i p f o =
      ap (λ (r : Reply (Unit {0})). r.db) (disconnect-drop_peer db u i p f o)
      ∙ (unfold Disconnect.dropped_by in refl)

  dropped-result :
      (db : Database) (u : User) (i : ℕ) (p : Peer)
      → find_peer i db.peers ≡ some p
      → is_owner u p ≡ true
      → (disconnect h q db u (some i)).result ≡ ok tt
  dropped-result db u i p f o =
      ap (λ (r : Reply (Unit {0})). r.result) (disconnect-drop_peer db u i p f o)
      ∙ (unfold Disconnect.dropped_by in refl)

  -- Where the statements are executed, two Disconnects of an active peer by its owner, one after the
  -- other, both succeed, and the second lowers the count of the server again, though no further peer
  -- has gone: from tables whose counts are right, the count is
  -- then one less than that of the active peers and held slots, as far as it can be.
  pub disconnect-disconnect :
      (held : ℕ → ℕ) (db : Database) (u : User) (i : ℕ) (p : Peer)
      → find_peer i db.peers ≡ some p
      → is_owner u p ≡ true
      → p.is_active ≡ true
      → IsEven held db.peers db.servers
      → let once = (disconnect h q db u (some i)).db in
        let twice = (disconnect h q once u (some i)).db in
        ((disconnect h q db u (some i)).result ≡ ok tt)
        × ((disconnect h q once u (some i)).result ≡ ok tt)
        × (twice.peers ≡ once.peers)
        × Counts (λ j. active_on j twice.peers + held j - one_if (j == p.server_id)) twice.servers
  unfolding is_owner
  disconnect-disconnect held db u i p f o active e = (
    dropped-result db u i p f o,
    dropped-result once u i left still o,
    same_peers,
    subst (λ ps. Counts (λ j. active_on j ps + held j - one_if (j == p.server_id)) twice.servers)
        (sym same_peers)
        (subst (Counts (λ j. active_on j once.peers + held j - one_if (j == p.server_id)))
          (sym lowered) (Counts-lowered _ p.server_id once.servers even.counts)),
  )
    where
      once : Database
      once = (disconnect h q db u (some i)).db

      twice : Database
      twice = (disconnect h q once u (some i)).db

      left : Peer
      left = record p { is_active = false }

      even : IsEven held once.peers once.servers
      even = disconnect-IsEven h q complete held db u (some i) (λ r g. ap_active r (sym f ∙ g)) e
        where
          ap_active : (r : Peer) → ◌≡◌ {A = Option Peer} (some p) (some r) → r.is_active ≡ true
          ap_active r g = cc

      once_peers : once.peers ≡ deactivate i db.peers
      once_peers =
          ap (λ (d : Database). d.peers) (dropped-db db u i p f o)
          ∙ drop_peer-peers h q complete held p db
          ∙ ap (λ k. deactivate k db.peers) (find_peer-id i db.peers p f)

      still : find_peer i once.peers ≡ some left
      still = ap (find_peer i) once_peers ∙ find_peer-deactivate_self i db.peers p f

      again : twice ≡ (drop_peer h q left once).db
      again = dropped-db once u i left still o

      same_peers : twice.peers ≡ once.peers
      same_peers =
          ap (λ (d : Database). d.peers) again
          ∙ drop_peer-peers h q complete held left once
          ∙ ap (λ k. deactivate k once.peers) (find_peer-id i db.peers p f)
          ∙ ap (deactivate i) once_peers
          ∙ deactivate-deactivate i db.peers
          ∙ sym once_peers

      lowered : twice.servers ≡ on_server p.server_id one_less once.servers
      lowered =
          ap (λ (d : Database). d.servers) again ∙ drop_peer-servers h q complete held left once
