-- ===== src/Connections/Jobs/Healing.antt =====
-- What a round of the statistics job of internal/control/jobs.go makes of the counts.
use midori_vpn_core.Prelude.{
  ℕ, ◌≡◌, refl, sym, ap, subst, ◌∙◌, Bool, true, false, ◌&&◌, ◌||◌, List, [], ◌∷◌, Option, none,
  some, length, ◌==◌, if◌then◌else◌, arith, Bool-cases, inl, inr,
}
use midori_vpn_core.Connections.{
  Peer, Server, Database, on_server, set_peer_count, update_stats, list_active_by_server,
}
use midori_vpn_core.Connections.Counts.{active_on}
use midori_vpn_core.Connections.Jobs
use midori_vpn_core.Connections.Jobs.{CorePeer, Synced, sync_peers, sync_server, stats_sync}

-- Is an active server with the id in the list?
unfoldable pub is_listed : ℕ → List Server → Bool
is_listed i [] = false
is_listed i (s ∷ ss) = (s.id == i && s.is_active) || is_listed i ss

-- The active rows whose servers are not in the list have the count that is expected.
unfoldable pub AreRight : (ℕ → ℕ) → List Server → List Server → Type 0
AreRight e left [] = Unit {0}
AreRight e left (t ∷ ts) =
    (t.is_active ≡ true → is_listed t.id left ≡ false → t.current_peers ≡ e t.id)
    × AreRight e left ts

-- At the start every active row is in the list.
AreRight-all :
    (e : ℕ → ℕ) (left ts : List Server)
    → ((t : Server) → is_listed t.id ts ≡ true → is_listed t.id left ≡ true)
    → AreRight e left ts
unfolding AreRight
AreRight-all e left [] h = tt
AreRight-all e left (t ∷ ts) h =
    (λ a n. absurd (clash (h t (own a)) n), AreRight-all e left ts (λ u m. h u (more u m)))
  where
    own : t.is_active ≡ true → is_listed t.id (t ∷ ts) ≡ true
    own a = unfold is_listed in ground arith

    more : (u : Server) → is_listed u.id ts ≡ true → is_listed u.id (t ∷ ts) ≡ true
    more u m = unfold is_listed in ground arith

    clash : {b : Bool} → b ≡ true → b ≡ false → ⊥
    clash p q = cc

-- The count of one active server is set.
AreRight-set :
    (e : ℕ → ℕ) (s : Server) (left ts : List Server) (n : ℕ)
    → n ≡ e s.id
    → AreRight e (s ∷ left) ts
    → AreRight e left (on_server s.id (λ t. record t { current_peers = n }) ts)
unfolding AreRight on_server
AreRight-set e s left [] n m r = tt
AreRight-set e s left (t ∷ ts) n m r = elim (Bool-cases (t.id == s.id)) [
  | inl q ↦
      let same : t.id ≡ s.id = ground arith in
      rw q (λ a u. m ∙ ap e (sym same), AreRight-set e s left ts n m r.1)
  | inr q ↦ rw q (λ a u. r.0 a (passed q u), AreRight-set e s left ts n m r.1)
]
  where
    passed :
        (t.id == s.id) ≡ false → is_listed t.id left ≡ false → is_listed t.id (s ∷ left) ≡ false
    passed q u = unfold is_listed in ground arith

-- A server that is not active is passed over.
AreRight-skip :
    (e : ℕ → ℕ) (s : Server) (left ts : List Server)
    → s.is_active ≡ false
    → AreRight e (s ∷ left) ts
    → AreRight e left ts
unfolding AreRight
AreRight-skip e s left [] i r = tt
AreRight-skip e s left (t ∷ ts) i r = (λ a u. r.0 a (passed u), AreRight-skip e s left ts i r.1)
  where
    passed : is_listed t.id left ≡ false → is_listed t.id (s ∷ left) ≡ false
    passed u = unfold is_listed in ground arith

active_on-update_stats :
    (j i sent received : ℕ) (at : Option ℕ) (ps : List Peer)
    → active_on j (update_stats i sent received at ps) ≡ active_on j ps
unfolding active_on update_stats
active_on-update_stats j i sent received at [] = refl
active_on-update_stats j i sent received at (p ∷ ps) =
    ground (arith, active_on-update_stats j i sent received at ps)

-- The statistics change neither the servers nor which peers are active.
abbrev pub KeepsActive : Database → Database → Type 0
KeepsActive db new =
    (new.servers ≡ db.servers) × ((j : ℕ) → active_on j new.peers ≡ active_on j db.peers)

sync_peer-KeepsActive :
    (b : Bool) (p : Peer) (db : Database) (o : Option CorePeer)
    → KeepsActive db (Jobs.sync_peer b p db o)
unfolding Jobs.sync_peer
sync_peer-KeepsActive b p db none = (refl, λ j. refl)
sync_peer-KeepsActive true p db (some c) = (
  refl,
  λ j. active_on-update_stats j p.id c.bytes_sent c.bytes_received c.last_handshake db.peers,
)
sync_peer-KeepsActive false p db (some c) = (refl, λ j. refl)

sync_peers-KeepsActive :
    (executes : ℕ → Bool) (cs : List CorePeer) (ps : List Peer) (db : Database)
    → KeepsActive db (sync_peers executes cs ps db)
unfolding sync_peers
sync_peers-KeepsActive executes cs [] db = (refl, λ j. refl)
sync_peers-KeepsActive executes cs (p ∷ ps) db =
    let one = sync_peer-KeepsActive (executes p.id) p db (Jobs.core_peer p.public_key cs) in
    let rest =
      sync_peers-KeepsActive executes cs ps
        (Jobs.sync_peer (executes p.id) p db (Jobs.core_peer p.public_key cs)) in
    (rest.0 ∙ one.0, λ j. rest.1 j ∙ one.1 j)

-- A core that answers with as many peers as are active on its server, and a count that is stored.
pub record IsSynced (e : ℕ → ℕ) (q : Synced) (answer : Option (List CorePeer)) (j : ℕ)
    : Type 0 where
  pub peers : List CorePeer
  pub answers : answer ≡ some peers
  pub size : length peers ≡ e j
  pub stores : q.counts ≡ true

abbrev pub Heals : (ℕ → ℕ) → List Server → Database → Type 0
Heals e left db = AreRight e left db.servers × ((j : ℕ) → active_on j db.peers ≡ e j)

set_peer_count-Heals :
    (e : ℕ → ℕ) (b : Bool) (s : Server) (left : List Server) (n : ℕ) (db : Database)
    → b ≡ true
    → n ≡ e s.id
    → Heals e (s ∷ left) db
    → Heals e left (set_peer_count b s.id n db)
unfolding set_peer_count
set_peer_count-Heals e true s left n db t m r = (AreRight-set e s left db.servers n m r.0, r.1)
set_peer_count-Heals e false s left n db t m r = cc

Heals-kept :
    (e : ℕ → ℕ) (left : List Server) (db new : Database)
    → KeepsActive db new
    → Heals e left db
    → Heals e left new
Heals-kept e left db new k r = (subst (AreRight e left) (sym k.0) r.0, λ j. k.1 j ∙ r.1 j)

sync_from-Heals :
    (e : ℕ → ℕ) (q : Synced) (cs : List CorePeer) (s : Server) (left : List Server) (db : Database)
    → length cs ≡ e s.id
    → q.counts ≡ true
    → Heals e (s ∷ left) db
    → Heals e left (Jobs.sync_from q s db (some cs))
unfolding Jobs.sync_from
sync_from-Heals e q cs s left db size stores r =
    let new = set_peer_count q.counts s.id (length cs) db in
    let ps = if q.lists then list_active_by_server s.id new.peers else [] in
    Heals-kept e left new (sync_peers q.updates cs ps new)
      (sync_peers-KeepsActive q.updates cs ps new)
      (set_peer_count-Heals e q.counts s left (length cs) db stores size r)

sync_server-Heals :
    (e : ℕ → ℕ) (q : Synced) (answer : Option (List CorePeer)) (s : Server) (left : List Server)
    (db : Database)
    → IsSynced e q answer s.id
    → Heals e (s ∷ left) db
    → Heals e left (sync_server q answer s db)
unfolding sync_server
sync_server-Heals e q answer s left db i r = go s.is_active refl
  where
    go :
        (b : Bool) → s.is_active ≡ b → Heals e left (if b then Jobs.sync_from q s db answer else db)
    go true a =
        subst (λ o. Heals e left (Jobs.sync_from q s db o)) (sym i.answers)
          (sync_from-Heals e q i.peers s left db i.size i.stores r)
    go false a = (AreRight-skip e s left db.servers a r.0, r.1)

stats_sync-Heals :
    (e : ℕ → ℕ) (q : ℕ → Synced) (answers : ℕ → Option (List CorePeer)) (left : List Server)
    (db : Database)
    → ((j : ℕ) → IsSynced e (q j) (answers j) j)
    → Heals e left db
    → Heals e [] (stats_sync q answers left db)
unfolding stats_sync
stats_sync-Heals e q answers [] db i r = r
stats_sync-Heals e q answers (s ∷ ss) db i r =
    stats_sync-Heals e q answers ss (sync_server (q s.id) (answers s.id) s db) i
      (sync_server-Heals e (q s.id) (answers s.id) s ss db (i s.id) r)

-- Every active server of the table has as its count the number of its active peers.
unfoldable pub AreHealed : (ℕ → ℕ) → List Server → Type 0
AreHealed e [] = Unit {0}
AreHealed e (t ∷ ts) = (t.is_active ≡ true → t.current_peers ≡ e t.id) × AreHealed e ts

healed : (e : ℕ → ℕ) (ts : List Server) → AreRight e [] ts → AreHealed e ts
unfolding AreHealed AreRight
healed e [] r = tt
healed e (t ∷ ts) r = (λ a. r.0 a (unfold is_listed in refl), healed e ts r.1)

AreHealed-cong :
    (e f : ℕ → ℕ) (ts : List Server) → ((j : ℕ) → f j ≡ e j) → AreHealed e ts → AreHealed f ts
unfolding AreHealed
AreHealed-cong e f [] h r = tt
AreHealed-cong e f (t ∷ ts) h r = (λ a. r.0 a ∙ sym (h t.id), AreHealed-cong e f ts h r.1)

-- Whatever the counts were, one round of the job gives every active server the count of its active
-- peers, where each core answers with as many peers as are active on its server and the counts are
-- stored: a count that was lowered twice, or a slot that was never released, does not last.
pub stats_sync-AreHealed :
    (q : ℕ → Synced) (answers : ℕ → Option (List CorePeer)) (db : Database)
    → ((j : ℕ) → IsSynced (λ i. active_on i db.peers) (q j) (answers j) j)
    → let new = stats_sync q answers db.servers db in
      AreHealed (λ j. active_on j new.peers) new.servers
stats_sync-AreHealed q answers db i =
    AreHealed-cong (λ i. active_on i db.peers) _ new.servers all.1 (healed _ new.servers all.0)
  where
    new : Database
    new = stats_sync q answers db.servers db

    all : Heals (λ i. active_on i db.peers) [] new
    all =
        stats_sync-Heals (λ i. active_on i db.peers) q answers db.servers db i
          (AreRight-all _ db.servers db.servers (λ t m. m), λ j. refl)
