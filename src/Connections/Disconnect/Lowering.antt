-- ===== src/Connections/Disconnect/Lowering.antt =====
-- What the handlers that end connections, and the cleanup, do to the table vpn_servers: whatever the
-- lowering of a count keeps, they keep, also where statements fail.
use midori_vpn_core.Prelude.{ℕ, Bool, true, false, List, [], ◌∷◌, Option, none, some, if◌then◌else◌}
use midori_vpn_core.Connections.{
  Peer, Server, Database, on_server, one_less, release_slot, find_server,
}
use midori_vpn_core.Connections.Meshing.{Settings}
use midori_vpn_core.Connections.Disconnect
use midori_vpn_core.Connections.Disconnect.{
  User, Executed, Change, remove_from_server, deactivated, drop_peer, disconnect,
  admin_force_disconnect_peer, delete_connection, drop_active, admin_ban_user,
}
use midori_vpn_core.Connections.Disconnect.Cases.{with_own_peer-cases, force-cases, ban-cases}

module _ (P : List Server → Type 0)
    (lowers : (i : ℕ) (ss : List Server) → P ss → P (on_server i one_less ss)) where
  pub release_slot-keeps :
      (b : Bool) (i : ℕ) (db : Database) → P db.servers → P (release_slot b i db).servers
  unfolding release_slot
  release_slot-keeps true i db k = lowers i db.servers k
  release_slot-keeps false i db k = k

  pub remove_from_server-keeps :
      (q : Executed) (p : Peer) (db : Database)
      → P db.servers
      → P (remove_from_server q p db).db.servers
  unfolding remove_from_server
  remove_from_server-keeps q p db k =
      found (if q.reads_server then find_server p.server_id db.servers else none)
    where
      found : (o : Option Server) → P (Disconnect.removed_from q p db o).db.servers
      found none = unfold Disconnect.removed_from in k
      found (some s) =
          unfold Disconnect.removed_from in release_slot-keeps q.releases p.server_id db k

  pub deactivated-keeps :
      (b : Bool) (i : ℕ) (db : Database) → P db.servers → P (deactivated b i db).servers
  unfolding deactivated
  deactivated-keeps true i db k = k
  deactivated-keeps false i db k = k

  drop_peer-keeps :
      (h : Settings) (q : Executed) (p : Peer) (db : Database)
      → P db.servers
      → P (drop_peer h q p db).db.servers
  unfolding drop_peer Disconnect.then_detach
  drop_peer-keeps h q p db k = deactivated-keeps q.writes p.id _ (remove_from_server-keeps q p db k)

  pub disconnect-keeps :
      (h : Settings) (q : Executed) (db : Database) (u : User) (i : Option ℕ)
      → P db.servers
      → P (disconnect h q db u i).db.servers
  unfolding disconnect Disconnect.dropped_by
  disconnect-keeps h q db u i k =
      with_own_peer-cases (λ r. P r.db.servers) _ q.reads_peer db u i (λ e. k)
        (λ p j n f o. drop_peer-keeps h q p db k)

  pub admin_force_disconnect_peer-keeps :
      (h : Settings) (q : Executed) (db : Database) (admin : ℕ) (i : Option ℕ)
      → P db.servers
      → P (admin_force_disconnect_peer h q db admin i).db.servers
  unfolding Disconnect.dropped_by
  admin_force_disconnect_peer-keeps h q db admin i k =
      force-cases (λ r. P r.db.servers) h q db admin i (λ e. k)
        (λ p j n f. drop_peer-keeps h q p db k)

  delete_rest-keeps :
      (h : Settings) (q : Executed) (u : User) (p : Peer) (c : Change)
      → P c.db.servers
      → P (Disconnect.delete_rest h q u p c).db.servers
  unfolding Disconnect.delete_rest Disconnect.then_detach Disconnect.deleted_peer
  delete_rest-keeps h q u p c k = go q.writes
    where
      go : (b : Bool) → P (Disconnect.delete_rest h (record q { writes = b }) u p c).db.servers
      go true = k
      go false = k

  pub delete_connection-keeps :
      (h : Settings) (q : Executed) (db : Database) (u : User) (i : Option ℕ)
      → P db.servers
      → P (delete_connection h q db u i).db.servers
  unfolding delete_connection Disconnect.delete_found
  delete_connection-keeps h q db u i k =
      with_own_peer-cases (λ r. P r.db.servers) _ q.reads_peer db u i (λ e. k)
        (λ p j n f o. delete_rest-keeps h q u p _ (begun p.is_active p))
    where
      begun :
          (b : Bool) (p : Peer)
          → P (if b then remove_from_server q p db else record { db = db; effects = [] }).db.servers
      begun true p = remove_from_server-keeps q p db k
      begun false p = k

  drop_if_active-keeps :
      (h : Settings) (q : Executed) (p : Peer) (c : Change)
      → P c.db.servers
      → P (Disconnect.drop_if_active h q p c).db.servers
  unfolding Disconnect.drop_if_active
  drop_if_active-keeps h q p c k = go p.is_active _ (drop_peer-keeps h q p c.db k)
    where
      go : (b : Bool) (x : Change) → P x.db.servers → P (if b then x else c).db.servers
      go true x y = y
      go false x y = k

  drop_active-keeps :
      (h : Settings) (q : ℕ → Executed) (ps : List Peer) (c : Change)
      → P c.db.servers
      → P (drop_active h q ps c).db.servers
  unfolding drop_active
  drop_active-keeps h q [] c k = k
  drop_active-keeps h q (p ∷ ps) c k =
      drop_active-keeps h q ps _ (drop_if_active-keeps h (q p.id) p c k)

  pub admin_ban_user-keeps :
      (h : Settings) (bans lists : Bool) (q : ℕ → Executed) (db : Database) (admin : ℕ)
      (i : Option ℕ) (has_body : Bool)
      → P db.servers
      → P (admin_ban_user h bans lists q db admin i has_body).db.servers
  admin_ban_user-keeps h bans lists q db admin i has_body k =
      ban-cases (λ d. P d.servers) h bans lists q db admin i has_body k
        (λ user. drop_active-keeps h q _ _ k)
