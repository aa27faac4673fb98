-- ===== src/Hub/NoPanic.antt =====
-- No sequence of steps of the hub of internal/control/ws_hub.go closes a channel twice or sends on
-- a closed one.
use midori_vpn_core.Prelude.{
  ℕ, ◌+◌, ◌<◌, ◌≡◌, refl, true, List, [], ◌∷◌, ◌++◌, Option, none, some, Outcome, ok, arith,
  Bool-cases, Option-cases, inl, inr, ◌⊎◌, ltb, length, and_then,
}
use midori_vpn_core.Prelude.Equality.{nat_eq, text_eq}
use midori_vpn_core.Prelude.Dict
use midori_vpn_core.Prelude.Dict.{Dict, get-put, get-remove, get-empty}
use midori_vpn_core.Net.{Text}
use midori_vpn_core.Hub
use midori_vpn_core.Hub.{Hub, Client, WsError, shut, drop_found, send_found, send_open, reaches}

-- A step of the hub. A `drop` may name any clients, since other steps come between the scan of a
-- broadcast and the removal of the dead; and a `scan` may visit them in any order.
pub data Event : Type 0 where
  register : Text → Event
  unregister : ℕ → Event
  scan : List ℕ → Option (List Text) → Text → Event
  drop : List ℕ → Event
  drain : ℕ → Event

unfoldable pub step : Hub → Event → Outcome WsError Hub
unfolding and_then
step h (register u) = ok (Hub.register h u)
step h (unregister i) = Hub.unregister h i
step h (scan is us msg) = and_then (Hub.scan h is us msg) (λ r. ok r.0)
step h (drop is) = Hub.drop h is
step h (drain i) = ok (Hub.drain h i)

unfoldable pub run : Hub → List Event → Outcome WsError Hub
unfolding step and_then
run h [] = ok h
run h (e ∷ es) = and_then (step h e) (λ n. run n es)

-- A registered client is made and has an open channel; a client that is not made yet has no closed
-- channel.
pub record IsOpen (h : Hub) : Type 0 where
  pub live : (i : ℕ) (c : Client) → Dict.get h.clients i ≡ some c → Dict.get h.closed i ≡ none
  pub made : (i : ℕ) (c : Client) → Dict.get h.clients i ≡ some c → i < h.next
  pub fresh : (i : ℕ) → h.next < i + 1 → Dict.get h.closed i ≡ none

-- The outcome is a hub that keeps the invariant.
abbrev pub Stays : Outcome WsError Hub → Type 0
Stays o = (n : Hub) × (o ≡ ok n) × IsOpen n

then-Stays :
    {o : Outcome WsError Hub} {f : Hub → Outcome WsError Hub}
    → Stays o
    → ((n : Hub) → IsOpen n → Stays (f n))
    → Stays (and_then o f)
unfolding and_then
then-Stays (n, e, v) k = let (r, g, w) = k n v in (r, rw e g, w)

register-IsOpen : (h : Hub) (u : Text) → IsOpen h → IsOpen (Hub.register h u)
unfolding Hub.register
register-IsOpen h u v = record {
  live = λ i c e.
      ground (
        arith,
        get-put h.clients h.next i (record { user = u; queue = [] }),
        v.live i c,
        v.fresh i,
      );
  made = λ i c e.
      ground (arith, get-put h.clients h.next i (record { user = u; queue = [] }), v.made i c);
  fresh = λ i l. v.fresh i (omega arith);
}

shut-Stays :
    (h : Hub) (i : ℕ) (c : Client)
    → IsOpen h
    → Dict.get h.clients i ≡ some c
    → Stays (shut h i (Dict.get h.closed i))
unfolding shut
shut-Stays h i c v e = rw (v.live i c e) (
  _,
  refl,
  record {
    live = λ j d f. ground (arith, get-remove h.clients i j, get-put h.closed i j true, v.live j d);
    made = λ j d f. ground (arith, get-remove h.clients i j, v.made j d);
    fresh = λ j l. ground (arith, get-put h.closed i j true, v.fresh j l, v.made i c e);
  },
)

unregister-Stays : (h : Hub) (i : ℕ) → IsOpen h → Stays (Hub.unregister h i)
unfolding Hub.unregister Hub.unregister_found
unregister-Stays h i v = elim (Option-cases (Dict.get h.clients i)) [
  | inl e ↦ rw e (h, refl, v)
  | inr (c, e) ↦ rw e (
      then-Stays (shut-Stays h i c v e) (λ n w. (
        Hub.less_user c.user n,
        refl,
        unfold Hub.less_user in record { live = w.live; made = w.made; fresh = w.fresh },
      )))
]

drop_found-Stays : (h : Hub) (i : ℕ) → IsOpen h → Stays (drop_found h i (Dict.get h.clients i))
unfolding drop_found
drop_found-Stays h i v = elim (Option-cases (Dict.get h.clients i)) [
  | inl e ↦ rw e (h, refl, v)
  | inr (c, e) ↦ rw e (shut-Stays h i c v e)
]

drop-Stays : (is : List ℕ) (h : Hub) → IsOpen h → Stays (Hub.drop h is)
unfolding Hub.drop
drop-Stays [] h v = (h, refl, v)
drop-Stays (i ∷ is) h v = then-Stays (drop_found-Stays h i v) (λ n w. drop-Stays is n w)

-- A registered client's entry is replaced.
replaced-IsOpen :
    (h : Hub) (i : ℕ) (c d : Client)
    → IsOpen h
    → Dict.get h.clients i ≡ some c
    → IsOpen (record h { clients = Dict.put h.clients i d })
replaced-IsOpen h i c d v e = record {
  live = λ j b f. ground (arith, get-put h.clients i j d, v.live j b, v.live i c e);
  made = λ j b f. ground (arith, get-put h.clients i j d, v.made j b, v.made i c e);
  fresh = v.fresh;
}

drain-IsOpen : (h : Hub) (i : ℕ) → IsOpen h → IsOpen (Hub.drain h i)
unfolding Hub.drain Hub.drained
drain-IsOpen h i v = elim (Option-cases (Dict.get h.clients i)) [
  | inl e ↦ rw e v
  | inr (c, e) ↦ rw e (replaced-IsOpen h i c _ v e)
]

-- The outcome of sending is a hub that keeps the invariant, and some dead clients.
abbrev pub Sends : Outcome WsError (Hub × List ℕ) → Type 0
Sends o = (n : Hub × List ℕ) × (o ≡ ok n) × IsOpen n.0

pub send-Sends :
    (h : Hub) (i : ℕ) (us : Option (List Text)) (msg : Text)
    → IsOpen h
    → Sends (send_found h i us msg (Dict.get h.clients i))
unfolding send_found
send-Sends h i us msg v = elim (Option-cases (Dict.get h.clients i)) [
  | inl e ↦ rw e (_, refl, v)
  | inr (c, e) ↦ rw e (elim (Bool-cases (reaches us c.user)) [
    | inl r ↦ rw r (
        rw (v.live i c e) (
          unfold send_open in
          elim (Bool-cases (ltb (length c.queue) 64)) [
            | inl l ↦ rw l (_, refl, replaced-IsOpen h i c _ v e)
            | inr l ↦ rw l (_, refl, v)
          ]))
    | inr r ↦ rw r (_, refl, v)
  ])
]

pub scan-Sends :
    (is : List ℕ) (h : Hub) (us : Option (List Text)) (msg : Text)
    → IsOpen h
    → Sends (Hub.scan h is us msg)
unfolding Hub.scan and_then
scan-Sends [] h us msg v = (_, refl, v)
scan-Sends (i ∷ is) h us msg v =
    let (n, e, w) = send-Sends h i us msg v in
    let (o, f, x) = scan-Sends is n.0 us msg w in ((o.0, n.1 ++ o.1), rw (e, f) refl, x)

pub step-Stays : (h : Hub) (e : Event) → IsOpen h → Stays (step h e)
unfolding step and_then
step-Stays h (register u) v = (_, refl, register-IsOpen h u v)
step-Stays h (unregister i) v = unregister-Stays h i v
step-Stays h (scan is us msg) v = let (n, e, w) = scan-Sends is h us msg v in (n.0, rw e refl, w)
step-Stays h (drop is) v = drop-Stays is h v
step-Stays h (drain i) v = (_, refl, drain-IsOpen h i v)

run-Stays : (es : List Event) (h : Hub) → IsOpen h → Stays (run h es)
unfolding run
run-Stays [] h v = (h, refl, v)
run-Stays (e ∷ es) h v = then-Stays (step-Stays h e v) (λ n w. run-Stays es n w)

pub new_hub-IsOpen : IsOpen Hub.new_hub
unfolding Hub.new_hub
new_hub-IsOpen = record {
  live = λ i c e. get-empty i;
  made = λ i c e. absurd (cc (get-empty {V = Client} i));
  fresh = λ i l. get-empty i;
}

-- From a new hub, every sequence of registrations, unregistrations, broadcast scans, removals of
-- any clients, and writes ends in a hub: no channel is closed twice, no message is sent on a closed
-- channel, and no registered client has a closed channel.
pub run-new_hub-never_panics :
    (es : List Event)
    → (n : Hub) × (run Hub.new_hub es ≡ ok n)
      × ((i : ℕ) → (Dict.get n.clients i ≡ none) ⊎ (Dict.get n.closed i ≡ none))
run-new_hub-never_panics es =
    let (n, e, v) = run-Stays es Hub.new_hub new_hub-IsOpen in
    (
      n,
      e,
      λ i. elim (Option-cases (Dict.get n.clients i)) [
        | inl g ↦ inl g
        | inr (c, g) ↦ inr (v.live i c g)
      ],
    )
