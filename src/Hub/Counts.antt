-- ===== src/Hub/Counts.antt =====
-- The connection counts of the hub of internal/control/ws_hub.go, and the steps that keep them
-- exact.
use midori_vpn_core.Prelude.{
  ℕ, suc, ◌+◌, ◌-◌, ◌≡◌, refl, ap, Bool, true, false, List, [], Option, none, some, ok, arith,
  Bool-cases, Option-cases, inl, inr, if◌then◌else◌, ltb, length, and_then, ok-injective, subst,
}
use midori_vpn_core.Prelude.Counting.{
  one_if, count_below, count_below-cong, updated, updated_lem, count_below-updated,
}
use midori_vpn_core.Prelude.Equality.{nat_eq, text_eq, text_beq_iff, ◌=?◌}
use midori_vpn_core.Prelude.Dict
use midori_vpn_core.Prelude.Dict.{Dict, get-put, get-remove, get-empty}
use midori_vpn_core.Net.{Text}
use midori_vpn_core.Hub
use midori_vpn_core.Hub.{
  Hub, Client, WsError, conns, shut, drop_found, send_found, send_open, reaches,
}
use midori_vpn_core.Hub.NoPanic.{IsOpen}

pub of_user : Text → Option Client → Bool
of_user u none = false
of_user u (some c) = c.user =? u

-- Is client i registered, with user u?
unfoldable pub holds : Hub → Text → ℕ → Bool
unfolding of_user
holds h u i = of_user u (Dict.get h.clients i)

-- How many clients of the user are registered.
unfoldable pub live : Hub → Text → ℕ
live h u = count_below (holds h u) h.next

unfoldable pub IsExact : Hub → Type 0
IsExact h = (u : Text) → conns h u ≡ live h u

conns-put :
    (d : Dict Text ℕ) (v u : Text) (n : ℕ)
    → Hub.conns_or (Dict.get (Dict.put d v n) u)
      ≡ (if v =? u then n else Hub.conns_or (Dict.get d u))
unfolding Hub.conns_or
conns-put d v u n = ground (arith, get-put d v u n)

conns-less :
    (d : Dict Text ℕ) (v u : Text) (n : ℕ)
    → Hub.conns_or (Dict.get (Hub.less_conn d v n) u)
      ≡ (if v =? u then n - 1 else Hub.conns_or (Dict.get d u))
unfolding Hub.conns_or Hub.less_conn
conns-less d v u n = ground (arith, get-put d v u (n - 1), get-remove d v u)

count_next : (f : ℕ → Bool) (n : ℕ) → count_below f (n + 1) ≡ one_if (f n) + count_below f n
unfolding count_below
count_next f n = ap (count_below f) {y = suc n} (omega arith)

pub register-IsExact : (h : Hub) (v : Text) → IsExact h → IsExact (Hub.register h v)
unfolding IsExact Hub.register conns live holds of_user
register-IsExact h v x u =
    let c : Client = record { user = v; queue = [] } in
    let same =
      count_below-cong (λ i. of_user u (Dict.get (Dict.put h.clients h.next c) i))
        (λ i. of_user u (Dict.get h.clients i)) h.next
        (λ i l. ground (arith, get-put h.clients h.next i c)) in
    ground (
      arith,
      count_next (λ i. of_user u (Dict.get (Dict.put h.clients h.next c) i)) h.next,
      same,
      get-put h.clients h.next h.next c,
      conns-put h.user_conns v u (conns h v + 1),
      x u,
      x v,
      text_beq_iff v u,
    )

-- The hub after the client is shut and its user's count is lowered.
less-IsExact :
    (h : Hub) (i : ℕ) (c : Client)
    → IsOpen h
    → IsExact h
    → Dict.get h.clients i ≡ some c
    → IsExact (
        Hub.less_user c.user
          (record h { clients = Dict.remove h.clients i; closed = Dict.put h.closed i true }))
unfolding IsExact Hub.less_user conns live holds of_user
less-IsExact h i c v x e u =
    let f : ℕ → Bool = λ j. of_user u (Dict.get h.clients j) in
    let g : ℕ → Bool = λ j. of_user u (Dict.get (Dict.remove h.clients i) j) in
    let same : count_below g h.next ≡ count_below (updated f i false) h.next =
      count_below-cong g (updated f i false) h.next
        (λ j l. ground (arith, get-remove h.clients i j, updated_lem f i false j)) in
    let lost = count_below-updated f i false h.next (v.made i c e) in
    ground (
      arith,
      same,
      lost,
      e,
      conns-less h.user_conns c.user u (Hub.conns_or (Dict.get h.user_conns c.user)),
      x u,
      text_beq_iff c.user u,
    )

pub unregister-IsExact :
    (h n : Hub) (i : ℕ) → IsOpen h → IsExact h → Hub.unregister h i ≡ ok n → IsExact n
unfolding Hub.unregister Hub.unregister_found shut and_then
unregister-IsExact h n i v x = elim (Option-cases (Dict.get h.clients i)) [
  | inl e ↦ rw e (λ f. subst IsExact (ok-injective f) x)
  | inr (c, e) ↦
      rw e (rw (v.live i c e) (λ f. subst IsExact (ok-injective f) (less-IsExact h i c v x e)))
]

-- A client is replaced by one with the same user.
replaced-IsExact :
    (h : Hub) (i : ℕ) (c d : Client)
    → IsExact h
    → Dict.get h.clients i ≡ some c
    → d.user ≡ c.user
    → IsExact (record h { clients = Dict.put h.clients i d })
unfolding IsExact conns live holds of_user
replaced-IsExact h i c d x e same u = ground (
  arith,
  x u,
  count_below-cong (λ j. of_user u (Dict.get (Dict.put h.clients i d) j))
      (λ j. of_user u (Dict.get h.clients j)) h.next
      (λ j l. ground (arith, get-put h.clients i j d, e, same)),
)

pub drain-IsExact : (h : Hub) (i : ℕ) → IsExact h → IsExact (Hub.drain h i)
unfolding Hub.drain Hub.drained
drain-IsExact h i x = elim (Option-cases (Dict.get h.clients i)) [
  | inl e ↦ rw e x
  | inr (c, e) ↦ rw e (replaced-IsExact h i c _ x e refl)
]

pub send-IsExact :
    (h : Hub) (n : Hub × List ℕ) (i : ℕ) (us : Option (List Text)) (msg : Text)
    → IsExact h
    → send_found h i us msg (Dict.get h.clients i) ≡ ok n
    → IsExact n.0
unfolding send_found send_open
send-IsExact h n i us msg x = elim (Option-cases (Dict.get h.clients i)) [
  | inl e ↦ rw e (λ f. subst (λ (m : Hub × List ℕ). IsExact m.0) (ok-injective f) x)
  | inr (c, e) ↦ rw e (elim (Bool-cases (reaches us c.user)) [
    | inr r ↦ rw r (λ f. subst (λ (m : Hub × List ℕ). IsExact m.0) (ok-injective f) x)
    | inl r ↦ rw r (elim (Option-cases (Dict.get h.closed i)) [
      | inr (b, o) ↦ rw o (λ f. cc)
      | inl o ↦ rw o (elim (Bool-cases (ltb (length c.queue) 64)) [
        | inl l ↦ rw l (λ f.
            subst (λ (m : Hub × List ℕ). IsExact m.0) (ok-injective f)
              (replaced-IsExact h i c _ x e refl))
        | inr l ↦ rw l (λ f. subst (λ (m : Hub × List ℕ). IsExact m.0) (ok-injective f) x)
      ])
    ])
  ])
]
