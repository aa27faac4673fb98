-- ===== src/Hub/Exact.antt =====
-- Sequences of steps of the hub of internal/control/ws_hub.go that remove no dead client.
use midori_vpn_core.Prelude.{
  ℕ, ◌≡◌, refl, Bool, true, false, ◌&&◌, List, [], ◌∷◌, ◌++◌, Option, ok, arith, and_then,
  ok-injective, subst,
}
use midori_vpn_core.Prelude.Counting.{count_below}
use midori_vpn_core.Prelude.Equality.{nat_eq, text_eq}
use midori_vpn_core.Prelude.Dict.{get-empty}
use midori_vpn_core.Net.{Text}
use midori_vpn_core.Hub
use midori_vpn_core.Hub.{
  Hub, Client, WsError, conns, shut, drop_found, send_found, send_open, reaches,
}
use midori_vpn_core.Hub.NoPanic.{
  IsOpen, Event, register, unregister, scan, drop, drain, step, run, send-Sends, scan-Sends,
  step-Stays, new_hub-IsOpen,
}
use midori_vpn_core.Hub.Counts.{
  live, IsExact, register-IsExact, unregister-IsExact, drain-IsExact, send-IsExact,
}

scan-IsExact :
    (is : List ℕ) (h : Hub) (us : Option (List Text)) (msg : Text)
    → IsOpen h
    → IsExact h
    → (n : Hub × List ℕ) → Hub.scan h is us msg ≡ ok n
    → IsExact n.0
unfolding Hub.scan and_then
scan-IsExact [] h us msg v x n =
    λ e. subst (λ (m : Hub × List ℕ). IsExact m.0) (ok-injective {a = (h, [])} e) x
scan-IsExact (i ∷ is) h us msg v x n =
    let (m, e, w) = send-Sends h i us msg v in
    let (o, f, y) = scan-Sends is m.0 us msg w in
    rw (e, f)
      (λ g.
        subst (λ (k : Hub × List ℕ). IsExact k.0) (ok-injective {a = (o.0, m.1 ++ o.1)} g)
          (scan-IsExact is m.0 us msg w (send-IsExact h m i us msg x e) o f))

-- A step that removes no dead client.
unfoldable pub keeps_clients : Event → Bool
keeps_clients (register u) = true
keeps_clients (unregister i) = true
keeps_clients (scan is us msg) = true
keeps_clients (drop is) = false
keeps_clients (drain i) = true

unfoldable pub all_keep : List Event → Bool
unfolding keeps_clients
all_keep [] = true
all_keep (e ∷ es) = keeps_clients e && all_keep es

step-IsExact :
    (h n : Hub) (e : Event)
    → IsOpen h
    → IsExact h
    → keeps_clients e ≡ true
    → step h e ≡ ok n
    → IsExact n
unfolding step and_then keeps_clients
step-IsExact h n (register u) v x k = λ e. subst IsExact (ok-injective e) (register-IsExact h u x)
step-IsExact h n (unregister i) v x k = λ e. unregister-IsExact h n i v x e
step-IsExact h n (scan is us msg) v x k =
    let (m, f, w) = scan-Sends is h us msg v in
    rw f (λ e. subst IsExact (ok-injective e) (scan-IsExact is h us msg v x m f))
step-IsExact h n (drop is) v x k = λ e. cc
step-IsExact h n (drain i) v x k = λ e. subst IsExact (ok-injective e) (drain-IsExact h i x)

run-IsExact :
    (es : List Event) (h n : Hub)
    → IsOpen h
    → IsExact h
    → all_keep es ≡ true
    → run h es ≡ ok n
    → IsExact n
unfolding run and_then all_keep
run-IsExact [] h n v x k = λ e. subst IsExact (ok-injective e) x
run-IsExact (e ∷ es) h n v x k =
    let (m, f, w) = step-Stays h e v in
    rw f (run-IsExact es m n w (step-IsExact h m e v x (ground arith) f) (ground arith))

new_hub-IsExact : IsExact Hub.new_hub
unfolding IsExact Hub.new_hub conns live count_below
new_hub-IsExact u = unfold Hub.conns_or in rw (get-empty {V = ℕ} u) refl

-- From a new hub, after any sequence of steps that removes no dead client, the count of every user
-- is the number of the registered clients of that user.
pub run-new_hub-conns :
    (es : List Event) (n : Hub) (u : Text)
    → all_keep es ≡ true
    → run Hub.new_hub es ≡ ok n
    → conns n u ≡ live n u
unfolding IsExact
run-new_hub-conns es n u k e = run-IsExact es Hub.new_hub n new_hub-IsOpen new_hub-IsExact k e u
