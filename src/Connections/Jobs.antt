-- ===== src/Connections/Jobs.antt =====
-- One round of the jobs of internal/control/jobs.go: the cleanup of stale peers and the
-- synchronisation of the statistics. The tickers and the broadcast to the clients are left out.
pub mod Evenness
pub mod Lowering
pub mod Healing
use midori_vpn_core.Prelude.{
  ℕ, ◌+◌, Bool, true, false, ◌&&◌, ◌||◌, not, List, [], ◌∷◌, ◌++◌, Option, none, some, ltb, length,
  if◌then◌else◌,
}
use midori_vpn_core.Prelude.Equality.{text_eq, ◌=?◌}
use midori_vpn_core.Net.{Text, codes}
use midori_vpn_core.Connections.{
  Peer, Server, Database, Effect, audit, set_peer_count, update_stats, list_active_by_server, rows,
}
use midori_vpn_core.Connections.Disconnect.{Executed, Change, remove_from_server, deactivated}

-- peerCleanupStaleWindow in seconds
abbrev pub stale_window : ℕ
stale_window = 1800

pub before : ℕ → Option ℕ → Bool
before now none = false
before now (some t) = ltb t now

-- The last handshake, or the creation where there was none.
pub last_seen : Peer → Option ℕ → ℕ
last_seen p none = p.created_at
last_seen p (some t) = t

-- The condition of ListStale at a time.
unfoldable pub is_stale : ℕ → Peer → Bool
unfolding before last_seen
is_stale now p =
    p.is_active
    && (before now p.expires_at || ltb (last_seen p p.last_handshake + stale_window) now)

unfoldable pub list_stale : ℕ → List Peer → List Peer
list_stale now = rows (is_stale now)

-- What the cleanup does with one peer: the mesh sessions are left as they are.
unfoldable pub retire : Executed → Peer → Database → Change
unfolding deactivated
retire q p db =
    let c = remove_from_server q p db in
    record {
      db = deactivated q.writes p.id c.db;
      effects = c.effects ++ (audit (codes "peer.cleanup") p.user_id p.id ∷ []);
    }

unfoldable pub retire_all : (ℕ → Executed) → List Peer → Change → Change
retire_all q [] c = c
retire_all q (p ∷ ps) c =
    let d = retire (q p.id) p c.db in
    retire_all q ps (record { db = d.db; effects = c.effects ++ d.effects })

-- One round of StartPeerCleanup: whether the listing is executed, and the time of it.
unfoldable pub peer_cleanup : Bool → (ℕ → Executed) → ℕ → Database → Change
peer_cleanup lists q now db =
    retire_all q (if lists then list_stale now db.peers else []) (record { db = db; effects = [] })

-- A peer in the answer of a core. The handshake is none where it is empty, zero or no time.
pub record CorePeer : Type 0 where
  pub public_key : Text
  pub bytes_sent : ℕ
  pub bytes_received : ℕ
  pub last_handshake : Option ℕ

-- peerMap[key], where a later entry replaces an earlier one
unfoldable pub core_peer : Text → List CorePeer → Option CorePeer
core_peer key [] = none
core_peer key (c ∷ cs) = later (core_peer key cs)
  where
    later : Option CorePeer → Option CorePeer
    later (some d) = some d
    later none = if c.public_key =? key then some c else none

pub sync_peer : Bool → Peer → Database → Option CorePeer → Database
sync_peer executes p db none = db
sync_peer executes p db (some c) =
    if executes
    then record db {
      peers = update_stats p.id c.bytes_sent c.bytes_received c.last_handshake db.peers;
    }
    else db

unfoldable pub sync_peers : (ℕ → Bool) → List CorePeer → List Peer → Database → Database
unfolding sync_peer
sync_peers executes cs [] db = db
sync_peers executes cs (p ∷ ps) db =
    sync_peers executes cs ps (sync_peer (executes p.id) p db (core_peer p.public_key cs))

-- Which statements are executed for a server: the count, the listing, and the update of a peer.
pub record Synced : Type 0 where
  pub counts : Bool
  pub lists : Bool
  pub updates : ℕ → Bool

pub sync_from : Synced → Server → Database → Option (List CorePeer) → Database
sync_from q s db none = db
sync_from q s db (some cs) =
    let new = set_peer_count q.counts s.id (length cs) db in
    sync_peers q.updates cs (if q.lists then list_active_by_server s.id new.peers else []) new

-- One server of a round: none is a core that did not answer.
unfoldable pub sync_server : Synced → Option (List CorePeer) → Server → Database → Database
unfolding sync_from
sync_server q answer s db = if s.is_active then sync_from q s db answer else db

-- One round of StartStatsSync over the servers as they were listed.
unfoldable pub stats_sync :
    (ℕ → Synced) → (ℕ → Option (List CorePeer)) → List Server → Database → Database
stats_sync q answers [] db = db
stats_sync q answers (s ∷ ss) db =
    stats_sync q answers ss (sync_server (q s.id) (answers s.id) s db)
