-- ===== src/Connections/Disconnect/Evenness.antt =====
-- The handlers of internal/control/handler.go that end a connection keep the counts.
use midori_vpn_core.Prelude.{
  ℕ, ◌≡◌, refl, sym, ap, Bool, true, false, [], ◌++◌, Option, none, some, if◌then◌else◌, arith,
  Option-cases, inl, inr,
}
use midori_vpn_core.Net.{Text, codes}
use midori_vpn_core.Connections.{
  Peer, Server, Database, find_peer, find_server, deactivate, without_peer, on_server, one_less,
  release_slot,
}
use midori_vpn_core.Connections.Meshing.{Settings}
use midori_vpn_core.Connections.Counts.{find_peer_self}
use midori_vpn_core.Connections.Slots.{on_server-absent}
use midori_vpn_core.Connections.Even.{IsEven, deactivated-IsEven, deleted-IsEven, inactive-IsEven}
use midori_vpn_core.Connections.Histories.{IsComplete, IsActiveAt}
use midori_vpn_core.Connections.Disconnect
use midori_vpn_core.Connections.Disconnect.{
  User, Executed, Change, remove_from_server, drop_peer, drop_if_active, disconnect,
  admin_force_disconnect_peer, delete_connection, drop_active, admin_ban_user,
}
use midori_vpn_core.Connections.Disconnect.Cases.{with_own_peer-cases, force-cases}

module _ (q : Executed) (p : Peer) (db : Database) where
  pub remove_from_server-peers : (remove_from_server q p db).db.peers ≡ db.peers
  unfolding remove_from_server release_slot
  remove_from_server-peers =
      go (if q.reads_server then find_server p.server_id db.servers else none) q.releases
    where
      go :
          (o : Option Server) (b : Bool)
          → (Disconnect.removed_from (record q { releases = b }) p db o).db.peers ≡ db.peers
      go none b = refl
      go (some s) true = refl
      go (some s) false = refl

  -- The count of the server is lowered, also where there is no such row.
  pub remove_from_server-servers :
      q.reads_server ≡ true
      → q.releases ≡ true
      → (remove_from_server q p db).db.servers ≡ on_server p.server_id one_less db.servers
  unfolding remove_from_server release_slot Disconnect.removed_from
  remove_from_server-servers reads releases =
      elim (Option-cases (find_server p.server_id db.servers)) [
        | inl e ↦ rw (reads, e) (sym (on_server-absent p.server_id one_less db.servers e))
        | inr (s, e) ↦ rw (reads, e, releases) refl
      ]

module _ (h : Settings) (q : Executed) (complete : IsComplete q) (held : ℕ → ℕ) where
  pub drop_peer-peers :
      (p : Peer) (db : Database) → (drop_peer h q p db).db.peers ≡ deactivate p.id db.peers
  unfolding drop_peer Disconnect.deactivated Disconnect.then_detach remove_from_server
  drop_peer-peers p db = rw complete.writes (ap (deactivate p.id) (remove_from_server-peers q p db))

  pub drop_if_active-peers :
      (p : Peer) (c : Change)
      → (drop_if_active h q p c).db.peers
        ≡ (if p.is_active then deactivate p.id c.db.peers else c.db.peers)
  unfolding drop_if_active
  drop_if_active-peers p c = go p.is_active
    where
      go :
          (b : Bool)
          → (if b
              then record {
                db = (drop_peer h q p c.db).db;
                effects = c.effects ++ (drop_peer h q p c.db).effects;
              }
              else c).db.peers
            ≡ (if b then deactivate p.id c.db.peers else c.db.peers)
      go true = drop_peer-peers p c.db
      go false = refl

  pub drop_peer-servers :
      (p : Peer) (db : Database)
      → (drop_peer h q p db).db.servers ≡ on_server p.server_id one_less db.servers
  unfolding drop_peer Disconnect.deactivated Disconnect.then_detach remove_from_server
  drop_peer-servers p db =
      rw complete.writes (remove_from_server-servers q p db complete.reads complete.releases)

  pub drop_peer-IsEven :
      (p : Peer) (db : Database)
      → find_peer p.id db.peers ≡ some p
      → p.is_active ≡ true
      → IsEven held db.peers db.servers
      → IsEven held (drop_peer h q p db).db.peers (drop_peer h q p db).db.servers
  drop_peer-IsEven p db f active e =
      rw (drop_peer-peers p db, drop_peer-servers p db)
        (deactivated-IsEven held db.peers db.servers p f active e)

  at_index :
      (i : Option ℕ) (db : Database)
      → IsActiveAt i db
      → (j : ℕ) → i ≡ some j
      → (p : Peer) → find_peer j db.peers ≡ some p
      → p.is_active ≡ true
  at_index none db active j n p f = cc
  at_index (some i) db active j n p f = active p (ground arith)

  dropped-IsEven :
      (action : Text) (by : ℕ) (p : Peer) (db : Database)
      → find_peer p.id db.peers ≡ some p
      → p.is_active ≡ true
      → IsEven held db.peers db.servers
      → IsEven held
          (Disconnect.dropped_by action by h q p db).db.peers
          (Disconnect.dropped_by action by h q p db).db.servers
  unfolding Disconnect.dropped_by
  dropped-IsEven action by p db f active e = drop_peer-IsEven p db f active e

  pub disconnect-IsEven :
      (db : Database) (u : User) (i : Option ℕ)
      → IsActiveAt i db
      → IsEven held db.peers db.servers
      → IsEven held (disconnect h q db u i).db.peers (disconnect h q db u i).db.servers
  unfolding disconnect
  disconnect-IsEven db u i active e =
      with_own_peer-cases (λ r. IsEven held r.db.peers r.db.servers) _ q.reads_peer db u i (λ er. e)
        (λ p j n f o.
          dropped-IsEven (codes "peer.disconnect") u.id p db (find_peer_self j db.peers p f)
            (at_index i db active j n p f) e)

  pub admin_force_disconnect_peer-IsEven :
      (db : Database) (admin : ℕ) (i : Option ℕ)
      → IsActiveAt i db
      → IsEven held db.peers db.servers
      → IsEven held
          (admin_force_disconnect_peer h q db admin i).db.peers
          (admin_force_disconnect_peer h q db admin i).db.servers
  admin_force_disconnect_peer-IsEven db admin i active e =
      force-cases (λ r. IsEven held r.db.peers r.db.servers) h q db admin i (λ er. e)
        (λ p j n f.
          dropped-IsEven (codes "admin.peer.disconnect") admin p db (find_peer_self j db.peers p f)
            (at_index i db active j n p f) e)

  delete_rest-IsEven :
      (u : User) (p : Peer) (c : Change)
      → IsEven held (without_peer p.id c.db.peers) c.db.servers
      → IsEven held
          (Disconnect.delete_rest h q u p c).db.peers
          (Disconnect.delete_rest h q u p c).db.servers
  unfolding Disconnect.delete_rest Disconnect.then_detach Disconnect.deleted_peer
  delete_rest-IsEven u p c e = rw complete.writes e

  delete_found-IsEven :
      (u : User) (db : Database) (p : Peer)
      → find_peer p.id db.peers ≡ some p
      → IsEven held db.peers db.servers
      → IsEven held
          (Disconnect.delete_found h q u db p).db.peers
          (Disconnect.delete_found h q u db p).db.servers
  unfolding Disconnect.delete_found
  delete_found-IsEven u db p f e = go p.is_active refl
    where
      go :
          (b : Bool)
          → p.is_active ≡ b
          → let c : Change =
              if b then remove_from_server q p db else record { db = db; effects = [] } in
            IsEven held
              (Disconnect.delete_rest h q u p c).db.peers
              (Disconnect.delete_rest h q u p c).db.servers
      go true a = delete_rest-IsEven u p (remove_from_server q p db) (
          rw
            (
              remove_from_server-peers q p db,
              remove_from_server-servers q p db complete.reads complete.releases,
            )
            (deleted-IsEven held db.peers db.servers p f a e))
      go false a =
          delete_rest-IsEven u p (record { db = db; effects = [] })
            (inactive-IsEven held db.peers db.servers p f a e)

  pub delete_connection-IsEven :
      (db : Database) (u : User) (i : Option ℕ)
      → IsEven held db.peers db.servers
      → IsEven held
          (delete_connection h q db u i).db.peers
          (delete_connection h q db u i).db.servers
  unfolding delete_connection
  delete_connection-IsEven db u i e =
      with_own_peer-cases (λ r. IsEven held r.db.peers r.db.servers) _ q.reads_peer db u i (λ er. e)
        (λ p j n f o. delete_found-IsEven u db p (find_peer_self j db.peers p f) e)
