-- ===== src/Connections/Disconnect/Access.antt =====
-- Whose connections a user can end: Disconnect and DeleteConnection of internal/control/handler.go.
use midori_vpn_core.Prelude.{
  ℕ, ◌≡◌, ◌≢◌, refl, sym, ap, ◌∙◌, Bool, true, false, Option, some, ◌==◌, if◌then◌else◌, arith,
}
use midori_vpn_core.Inputs.{is_admin}
use midori_vpn_core.Connections.{Peer, Database, find_peer}
use midori_vpn_core.Connections.Meshing.{Settings}
use midori_vpn_core.Connections.Counts.{
  find_peer-id, find_peer-deactivate_other, find_peer-without_other,
}
use midori_vpn_core.Connections.Disconnect
use midori_vpn_core.Connections.Disconnect.{
  User, Executed, Change, is_owner, remove_from_server, drop_peer, deactivated, disconnect,
  delete_connection,
}
use midori_vpn_core.Connections.Disconnect.Cases.{with_own_peer-cases}
use midori_vpn_core.Connections.Disconnect.Evenness.{remove_from_server-peers}

module _ (k i : ℕ) (other : (i == k) ≡ false) where
  deactivated-other :
      (b : Bool) (db : Database) → find_peer k (deactivated b i db).peers ≡ find_peer k db.peers
  unfolding deactivated
  deactivated-other true db = find_peer-deactivate_other i k db.peers other
  deactivated-other false db = refl

module _ (h : Settings) (q : Executed) (k : ℕ) where
  drop_peer-other :
      (p : Peer) (db : Database)
      → (p.id == k) ≡ false
      → find_peer k (drop_peer h q p db).db.peers ≡ find_peer k db.peers
  unfolding drop_peer Disconnect.then_detach
  drop_peer-other p db other =
      deactivated-other k p.id other q.writes _ ∙ ap (find_peer k) (remove_from_server-peers q p db)

  delete_rest-other :
      (u : User) (p : Peer) (c : Change)
      → (p.id == k) ≡ false
      → find_peer k (Disconnect.delete_rest h q u p c).db.peers ≡ find_peer k c.db.peers
  unfolding Disconnect.delete_rest Disconnect.then_detach
  delete_rest-other u p c other = go q.writes
    where
      go :
          (b : Bool)
          → find_peer k (Disconnect.delete_rest h (record q { writes = b }) u p c).db.peers
            ≡ find_peer k c.db.peers
      go true = unfold Disconnect.deleted_peer in find_peer-without_other p.id k c.db.peers other
      go false = refl

  begun-peers :
      (b : Bool) (p : Peer) (db : Database)
      → (if b
          then remove_from_server q p db
          else record { db = db; effects = Disconnect.[] }).db.peers
        ≡ db.peers
  begun-peers true p db = remove_from_server-peers q p db
  begun-peers false p db = refl

-- A peer of the user is not the row of another user.
own_differs :
    (u : User) (p r : Peer) (j k : ℕ) (db : Database)
    → is_admin (some u.groups) ≡ false
    → is_owner u p ≡ true
    → find_peer j db.peers ≡ some p
    → find_peer k db.peers ≡ some r
    → r.user_id ≢ u.id
    → (p.id == k) ≡ false
unfolding is_owner
own_differs u p r j k db plain own f g foreign =
    let same : p.id ≡ j = find_peer-id j db.peers p f in
    let mine : p.user_id ≡ u.id = ground arith in
    let apart : (j ≡ k) → ⊥ = λ e. foreign (sym (ap (λ (x : Peer). x.user_id) (equal e)) ∙ mine) in
    ground arith
  where
    equal : j ≡ k → p ≡ r
    equal e = some_injective (sym f ∙ ap (λ i. find_peer i db.peers) e ∙ g)
      where
        some_injective : {a b : Peer} → ◌≡◌ {A = Option Peer} (some a) (some b) → a ≡ b
        some_injective h = cc

-- Neither Disconnect nor DeleteConnection, by a user who is no administrator, changes or removes a
-- row of another user, whatever peer the request names and whatever statements fail.
pub other_user-kept :
    (h : Settings) (q : Executed) (db : Database) (u : User) (i : Option ℕ) (k : ℕ) (r : Peer)
    → is_admin (some u.groups) ≡ false
    → find_peer k db.peers ≡ some r
    → r.user_id ≢ u.id
    → (find_peer k (disconnect h q db u i).db.peers ≡ some r)
      × (find_peer k (delete_connection h q db u i).db.peers ≡ some r)
unfolding disconnect delete_connection Disconnect.dropped_by Disconnect.delete_found
other_user-kept h q db u i k r plain g foreign = (
  with_own_peer-cases (λ x. find_peer k x.db.peers ≡ some r) _ q.reads_peer db u i (λ e. g)
      (λ p j n f own.
        drop_peer-other h q k p db (own_differs u p r j k db plain own f g foreign) ∙ g),
  with_own_peer-cases (λ x. find_peer k x.db.peers ≡ some r) _ q.reads_peer db u i (λ e. g)
      (λ p j n f own.
        delete_rest-other h q k u p _ (own_differs u p r j k db plain own f g foreign)
        ∙ ap (find_peer k) (begun-peers h q k p.is_active p db)
        ∙ g),
)
