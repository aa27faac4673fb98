-- ===== src/Hub.antt =====
-- The WebSocket hub of internal/control/ws_hub.go. A client is named by a number that stands for
-- its pointer; the channel of a client holds at most 64 messages. Each locked section of the code
-- is one step, so that the scan of a broadcast and the removal of the clients that it found dead
-- are two, and other steps may come between.
pub mod NoPanic
pub mod Counts
pub mod Exact
pub mod Leak
pub mod Samples
use midori_vpn_core.Prelude.{
  ℕ, ◌+◌, ◌-◌, Bool, true, false, ◌&&◌, List, [], ◌∷◌, ◌++◌, Option, none, some, Outcome, ok, err,
  panic, diverges, ltb, leb, if◌then◌else◌, length, and_then,
}
use midori_vpn_core.Prelude.Equality.{nat_eq, text_eq, ◌=?◌}
use midori_vpn_core.Prelude.Dict
use midori_vpn_core.Prelude.Dict.{Dict}
use midori_vpn_core.Net.{Text}

-- A registered WSClient: its user, and the messages in its channel.
pub record Client : Type 0 where
  pub user : Text
  pub queue : List Text

-- `closed` has the clients whose channel was closed; `next` is the name of the next client.
pub record Hub : Type 0 where
  pub clients : Dict ℕ Client
  pub user_conns : Dict Text ℕ
  pub closed : Dict ℕ Bool
  pub next : ℕ

pub data WsError : Type 0 where
  global_limit user_limit : WsError

-- NewWSHub
unfoldable pub new_hub : Hub
unfolding Dict.empty
new_hub = record { clients = Dict.empty; user_conns = Dict.empty; closed = Dict.empty; next = 0 }

-- userConns[u], which is 0 where there is no entry.
pub conns_or : Option ℕ → ℕ
conns_or none = 0
conns_or (some n) = n

unfoldable pub conns : Hub → Text → ℕ
unfolding conns_or
conns h u = conns_or (Dict.get h.user_conns u)

-- HandleWS makes a client, and Run registers it.
unfoldable pub register : Hub → Text → Hub
unfolding conns
register h u = record {
  clients = Dict.put h.clients h.next (record { user = u; queue = [] });
  user_conns = Dict.put h.user_conns u (conns h u + 1);
  closed = h.closed;
  next = h.next + 1;
}

-- close(client.send) and delete(h.clients, client). A channel that is closed twice panics.
pub shut : Hub → ℕ → Option Bool → Outcome WsError Hub
shut h i (some b) = panic
shut h i none =
    ok (record h { clients = Dict.remove h.clients i; closed = Dict.put h.closed i true })

-- userConns[u]--, and delete the entry where that is 0 or less.
pub less_conn : Dict Text ℕ → Text → ℕ → Dict Text ℕ
less_conn d u n = if leb n 1 then Dict.remove d u else Dict.put d u (n - 1)

pub less_user : Text → Hub → Hub
less_user u h = record h { user_conns = less_conn h.user_conns u (conns h u) }

pub unregister_found : Hub → ℕ → Option Client → Outcome WsError Hub
unregister_found h i none = ok h
unregister_found h i (some c) =
    and_then (shut h i (Dict.get h.closed i)) (λ n. ok (less_user c.user n))

-- The unregister case of Run.
unfoldable pub unregister : Hub → ℕ → Outcome WsError Hub
unfolding unregister_found and_then less_user shut less_conn
unregister h i = unregister_found h i (Dict.get h.clients i)

pub drop_found : Hub → ℕ → Option Client → Outcome WsError Hub
drop_found h i none = ok h
drop_found h i (some c) = shut h i (Dict.get h.closed i)

-- The second half of a broadcast: the clients that the first half found dead.
pub drop : Hub → List ℕ → Outcome WsError Hub
drop h [] = ok h
drop h (i ∷ is) = and_then (drop_found h i (Dict.get h.clients i)) (λ n. drop n is)

-- Does a broadcast reach the user: Broadcast reaches everyone, BroadcastToUsers those of a set.
pub member : List Text → Text → Bool
member [] u = false
member (v ∷ vs) u = if v =? u then true else member vs u

unfoldable pub reaches : Option (List Text) → Text → Bool
unfolding member
reaches none u = true
reaches (some us) u = member us u

-- client.send <- message, or the client is dead. A send on a closed channel panics.
pub send_open : Hub → ℕ → Client → Text → Option Bool → Outcome WsError (Hub × List ℕ)
send_open h i c msg (some b) = panic
send_open h i c msg none =
    if ltb (length c.queue) 64
    then ok (
      record h { clients = Dict.put h.clients i (record c { queue = c.queue ++ (msg ∷ []) }) },
      [],
    )
    else ok (h, i ∷ [])

pub send_found :
    Hub → ℕ → Option (List Text) → Text → Option Client → Outcome WsError (Hub × List ℕ)
send_found h i us msg none = ok (h, [])
send_found h i us msg (some c) =
    if reaches us c.user then send_open h i c msg (Dict.get h.closed i) else ok (h, [])

-- The first half of a broadcast, over the clients of the map in some order: the hub, and the dead.
pub scan : Hub → List ℕ → Option (List Text) → Text → Outcome WsError (Hub × List ℕ)
scan h [] us msg = ok (h, [])
scan h (i ∷ is) us msg =
    and_then (send_found h i us msg (Dict.get h.clients i))
      (λ n. and_then (scan n.0 is us msg) (λ o. ok (o.0, n.1 ++ o.1)))

-- The writer goroutine takes a message out of the channel.
pub drained : Hub → ℕ → Option Client → Hub
drained h i none = h
drained h i (some c) = record h {
  clients = Dict.put h.clients i (record c { queue = rest c.queue });
}
  where
    rest : List Text → List Text
    rest [] = []
    rest (m ∷ ms) = ms

unfoldable pub drain : Hub → ℕ → Hub
unfolding drained
drain h i = drained h i (Dict.get h.clients i)

-- ClientCount
pub client_count : Hub → ℕ
client_count h = length h.clients.entries

-- CanAccept, with the limits of the configuration: 0 is no limit. `max_for_user` is what
-- WSMaxForGroups answers for the groups of the user.
unfoldable pub can_accept : ℕ → ℕ → Hub → Text → Outcome WsError (Unit {0})
unfolding client_count
can_accept max_global max_for_user h u =
    if ltb 0 max_global && leb max_global (client_count h)
    then err global_limit
    else if ltb 0 max_for_user && leb max_for_user (conns h u)
    then err user_limit
    else ok tt
