-- ===== src/Connections/Disconnect/Cases.antt =====
-- The checks of the handlers that end a connection in internal/control/handler.go, as case splits.
use midori_vpn_core.Prelude.{
  ℕ, ◌≡◌, refl, Bool, true, false, [], Option, none, some, ◌==◌, if◌then◌else◌, not, arith,
  Bool-cases, inl, inr,
}
use midori_vpn_core.Net.{codes}
use midori_vpn_core.Connections.{
  Peer, Database, ConnectError, Reply, refuse, find_peer, list_by_user, own_account, invalid_body,
  server_error,
}
use midori_vpn_core.Connections.Meshing.{Settings}
use midori_vpn_core.Connections.Disconnect
use midori_vpn_core.Connections.Disconnect.{
  User, Executed, Change, is_owner, admin_force_disconnect_peer, drop_active, admin_ban_user,
}

abbrev pub Answer : Type 0
Answer = Reply (Unit {0})

-- A request is refused with the tables as they were, or acts on a peer that the user may touch.
pub with_own_peer-cases :
    (Q : Answer → Type 0) (act : Peer → Answer) (reads : Bool) (db : Database) (u : User)
    (i : Option ℕ)
    → ((e : ConnectError) → Q (refuse db e))
    → ((p : Peer) (j : ℕ)
        → i ≡ some j
        → find_peer j db.peers ≡ some p
        → is_owner u p ≡ true
        → Q (act p))
    → Q (Disconnect.with_own_peer act reads db u i)
unfolding Disconnect.with_own_peer Disconnect.owned
with_own_peer-cases Q act reads db u none refused acts = refused _
with_own_peer-cases Q act false db u (some i) refused acts = refused _
with_own_peer-cases Q act true db u (some i) refused acts = found (find_peer i db.peers) refl
  where
    found : (o : Option Peer) → find_peer i db.peers ≡ o → Q (Disconnect.owned act db u o)
    found none f = refused _
    found (some p) f = elim (Bool-cases (is_owner u p)) [
      | inl b ↦ rw b (acts p i refl f b)
      | inr b ↦ rw b (refused _)
    ]

pub force-cases :
    (Q : Answer → Type 0) (h : Settings) (q : Executed) (db : Database) (admin : ℕ) (i : Option ℕ)
    → ((e : ConnectError) → Q (refuse db e))
    → ((p : Peer) (j : ℕ)
        → i ≡ some j
        → find_peer j db.peers ≡ some p
        → Q (Disconnect.dropped_by (codes "admin.peer.disconnect") admin h q p db))
    → Q (admin_force_disconnect_peer h q db admin i)
unfolding admin_force_disconnect_peer Disconnect.force_found
force-cases Q h q db admin none refused acts = refused _
force-cases Q h q db admin (some i) refused acts =
    found (if q.reads_peer then find_peer i db.peers else none) (λ p f. ground arith)
  where
    found :
        (o : Option Peer)
        → ((p : Peer) → o ≡ some p → find_peer i db.peers ≡ some p)
        → Q (Disconnect.force_found h q db admin o)
    found none f = refused _
    found (some p) f = acts p i refl (f p refl)

-- A ban is refused, or drops the active peers among those that are listed.
pub ban-cases :
    (P : Database → Type 0) (h : Settings) (bans lists : Bool) (q : ℕ → Executed) (db : Database)
    (admin : ℕ) (i : Option ℕ) (has_body : Bool)
    → P db
    → ((user : ℕ)
        → P
            (drop_active h q
              (if lists then list_by_user user db.peers else [])
              (record { db = db; effects = [] })).db)
    → P (admin_ban_user h bans lists q db admin i has_body).db
unfolding admin_ban_user
ban-cases P h bans lists q db admin none has_body kept drops = kept
ban-cases P h bans lists q db admin (some user) has_body kept drops =
    refused (admin == user) own_account _
      (refused (not has_body) invalid_body _ (refused (not bans) server_error _ (drops user)))
  where
    refused :
        (b : Bool) (e : ConnectError) (r : Answer) → P r.db → P (if b then refuse db e else r).db
    refused true e r x = kept
    refused false e r x = x
