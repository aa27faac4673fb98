-- ===== src/Connections/Histories.antt =====
-- Histories of requests and cleanups over the tables. A Connect is two events, so that other
-- requests stand between the reservation of its slot and its end. The statistics job, which writes
-- the counts of the servers, and the edits of the servers are no events.
use midori_vpn_core.Prelude.{
  ℕ, zero, suc, ◌+◌, ◌≡◌, Bool, true, List, [], ◌∷◌, Option, none, some, get_elem?, ◌==◌, arith,
}
use midori_vpn_core.Prelude.Int.{ℤ}
use midori_vpn_core.Prelude.Counting.{one_if}
use midori_vpn_core.Net.{Text}
use midori_vpn_core.Connections.{Peer, Server, Database, find_peer}
use midori_vpn_core.Connections.Meshing.{Settings}
use midori_vpn_core.Connections.Connect.{
  ConnectRequest, Looked, Answers, Begun, answered, repeated, held, begin, complete,
}
use midori_vpn_core.Connections.Disconnect.{
  User, Executed, disconnect, admin_force_disconnect_peer, delete_connection, admin_ban_user,
}
use midori_vpn_core.Connections.Jobs.{peer_cleanup}

-- A request that holds a slot.
pub record Held : Type 0 where
  pub user : ℕ
  pub server : Server
  pub request : ConnectRequest

pub record World : Type 0 where
  pub db : Database
  pub pending : List Held

-- The first half of a Connect, the second half of the request at a place among those that hold a
-- slot, the other handlers, and a round of the cleanup.
pub data Event : Type 0 where
  start : Looked → Option Text → Bool → ℕ → Option ConnectRequest → Event
  finish : ℕ → Answers → Event
  stop : Executed → User → Option ℕ → Event
  force : Executed → ℕ → Option ℕ → Event
  delete : Executed → User → Option ℕ → Event
  ban : Bool → Bool → (ℕ → Executed) → ℕ → Option ℕ → Bool → Event
  tidy : Bool → (ℕ → Executed) → ℕ → Event

unfoldable pub remove_at : ℕ → List Held → List Held
remove_at i [] = []
remove_at zero (x ∷ xs) = xs
remove_at (suc i) (x ∷ xs) = x ∷ remove_at i xs

-- How many slots of a server are held.
unfoldable pub held_on : ℕ → List Held → ℕ
held_on s [] = 0
held_on s (x ∷ xs) = one_if (x.server.id == s) + held_on s xs

pub held_on-remove_at :
    (s i : ℕ) (xs : List Held) (x : Held)
    → get_elem? xs i ≡ some x
    → held_on s (remove_at i xs) + one_if (x.server.id == s) ≡ held_on s xs
unfolding held_on remove_at
held_on-remove_at s i [] x h = cc
held_on-remove_at s zero (y ∷ ys) x h = ground arith
held_on-remove_at s (suc i) (y ∷ ys) x h = omega (arith, held_on-remove_at s i ys x h)

-- The handler goes on to wait for the core, or has answered.
unfoldable pub started : World → ℕ → Database × Begun → World
started w user (db, answered r) = record w { db = db }
started w user (db, repeated i c) = record w { db = db }
started w user (db, held s req) = record {
  db = db;
  pending = record { user = user; server = s; request = req } ∷ w.pending;
}

-- The statements that the handlers do not check are executed.
pub record IsComplete (q : Executed) : Type 0 where
  pub reads : q.reads_server ≡ true
  pub releases : q.releases ≡ true
  pub writes : q.writes ≡ true

-- The peer that a request names is active, where there is one.
abbrev pub IsActiveAt : Option ℕ → Database → Type 0
IsActiveAt none db = Unit {0}
IsActiveAt (some i) db = (p : Peer) → find_peer i db.peers ≡ some p → p.is_active ≡ true

-- No statement whose error is ignored fails, and no request disconnects an inactive peer.
unfoldable pub IsOrderly : World → Event → Type 0
IsOrderly w (start q core_key admits user body) = Unit {0}
IsOrderly w (finish i a) = a.releases ≡ true
IsOrderly w (stop q u i) = IsComplete q × IsActiveAt i w.db
IsOrderly w (force q admin i) = IsComplete q × IsActiveAt i w.db
IsOrderly w (delete q u i) = IsComplete q
IsOrderly w (ban bans lists q admin i has_body) = (j : ℕ) → IsComplete (q j)
IsOrderly w (tidy lists q now) = (j : ℕ) → IsComplete (q j)

module _ (endpoint : Text → ℤ → Text) (h : Settings) where
  unfoldable pub finished : World → ℕ → Answers → Option Held → World
  finished w i a none = w
  finished w i a (some x) = record {
    db = (complete endpoint h a x.user x.server x.request w.db).db;
    pending = remove_at i w.pending;
  }

  unfoldable pub step : World → Event → World
  step w (start q core_key admits user body) =
      started w user (begin endpoint h q core_key admits w.db user body)
  step w (finish i a) = finished w i a (get_elem? w.pending i)
  step w (stop q u i) = record w { db = (disconnect h q w.db u i).db }
  step w (force q admin i) = record w { db = (admin_force_disconnect_peer h q w.db admin i).db }
  step w (delete q u i) = record w { db = (delete_connection h q w.db u i).db }
  step w (ban bans lists q admin i has_body) = record w {
    db = (admin_ban_user h bans lists q w.db admin i has_body).db;
  }
  step w (tidy lists q now) = record w { db = (peer_cleanup lists q now w.db).db }

  unfoldable pub run : World → List Event → World
  run w [] = w
  run w (e ∷ es) = run (step w e) es

  unfoldable pub AreOrderly : World → List Event → Type 0
  AreOrderly w [] = Unit {0}
  AreOrderly w (e ∷ es) = IsOrderly w e × AreOrderly (step w e) es
