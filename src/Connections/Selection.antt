-- ===== src/Connections/Selection.antt =====
-- The choice of the least loaded server by the query of internal/repo/server.go.
use midori_vpn_core.Prelude.{
  ℕ, zero, suc, ◌*◌, ◌≤◌, ◌<◌, ◌≡◌, Bool, true, false, ◌&&◌, List, [], ◌∷◌, Option, none, some, ltb,
  arith, Bool-cases, inl, inr,
}
use midori_vpn_core.Prelude.Int.{pos_part}
use midori_vpn_core.Connections.{Server, has_room, capacity, less_loaded, lighter, least_loaded}
use midori_vpn_core.Connections.Connect.Outcomes
use midori_vpn_core.Connections.Connect.Outcomes.{In}

mul_le : (a b k : ℕ) → a ≤ b → a * k ≤ b * k
mul_le a b zero h = omega arith
mul_le a b (suc k) h = omega (arith, mul_le a b k h)

-- The order of fractions: where c/k is not below b/j, and that is not below a/i, c/k is not below a/i.
fractions : (a b c i j k : ℕ) → 0 < j → a * j ≤ b * i → b * k ≤ c * j → a * k ≤ c * i
fractions a b c i j k pos h g = elim (Bool-cases (ltb (c * i) (a * k))) [
  | inl l ↦
      let less : suc (c * i) ≤ a * k = ground arith in
      let scaled : suc (c * i) * j ≤ (a * k) * j = mul_le _ _ j less in
      let left : (a * j) * k ≤ (b * i) * k = mul_le _ _ k h in
      let right : (b * k) * i ≤ (c * j) * i = mul_le _ _ i g in absurd (omega arith)
  | inr l ↦ ground arith
]

-- The condition of the query.
abbrev is_open : Server → Bool
is_open s = s.is_active && has_room s

-- No server of a list is open.
unfoldable NoneOpen : List Server → Type 0
NoneOpen [] = Unit {0}
NoneOpen (t ∷ ss) = (is_open t ≡ false) × NoneOpen ss

-- No open server of a list carries a lighter load.
unfoldable NoneLighter : Server → List Server → Type 0
NoneLighter s [] = Unit {0}
NoneLighter s (t ∷ ss) = (is_open t ≡ true → less_loaded t s ≡ false) × NoneLighter s ss

-- What the fold over the rows has found: a row that is open and than which no open row is lighter,
-- or none where no row is open.
data Finds (ss : List Server) : Option Server → Type 0 where
  nothing : NoneOpen ss → Finds ss none
  picked : (s : Server) → In s ss → is_open s ≡ true → NoneLighter s ss → Finds ss (some s)

less_loaded_trans :
    (s t u : Server) → less_loaded t s ≡ false → less_loaded u t ≡ false → less_loaded u s ≡ false
unfolding less_loaded
less_loaded_trans s t u h g =
    let f : s.current_peers * capacity u ≤ u.current_peers * capacity s =
      fractions s.current_peers t.current_peers u.current_peers (capacity s) (capacity t)
        (capacity u) (positive t) (ground arith) (ground arith) in
    ground arith
  where
    positive : (t : Server) → 0 < capacity t
    positive t = unfold capacity in ground arith

less_loaded_asym : (s t : Server) → less_loaded t s ≡ true → less_loaded s t ≡ false
unfolding less_loaded
less_loaded_asym s t h = ground arith

less_loaded_self : (s : Server) → less_loaded s s ≡ false
unfolding less_loaded
less_loaded_self s = ground arith

NoneLighter-trans :
    (s t : Server) (ss : List Server)
    → less_loaded t s ≡ false
    → NoneLighter t ss
    → NoneLighter s ss
unfolding NoneLighter
NoneLighter-trans s t [] h n = tt
NoneLighter-trans s t (u ∷ ss) h n =
    (λ o. less_loaded_trans s t u h (n.0 o), NoneLighter-trans s t ss h n.1)

NoneOpen-lighter : (s : Server) (ss : List Server) → NoneOpen ss → NoneLighter s ss
unfolding NoneOpen NoneLighter
NoneOpen-lighter s [] n = tt
NoneOpen-lighter s (t ∷ ss) n = (λ o. cc, NoneOpen-lighter s ss n.1)

lighter-Finds :
    (s : Server) (ss : List Server) (o : Option Server)
    → is_open s ≡ true
    → Finds ss o
    → Finds (s ∷ ss) (lighter s o)
unfolding lighter NoneLighter
lighter-Finds s ss _ a (nothing n) =
    picked s (Outcomes.here ss) a (λ o. less_loaded_self s, NoneOpen-lighter s ss n)
lighter-Finds s ss _ a (picked t i b n) = elim (Bool-cases (less_loaded t s)) [
  | inl l ↦ rw l (picked t (Outcomes.there s ss i) b (λ o. less_loaded_asym s t l, n))
  | inr l ↦
      rw l (picked s (Outcomes.here ss) a (λ o. less_loaded_self s, NoneLighter-trans s t ss l n))
]

skipped-Finds :
    (s : Server) (ss : List Server) (o : Option Server)
    → is_open s ≡ false
    → Finds ss o
    → Finds (s ∷ ss) o
unfolding NoneOpen NoneLighter
skipped-Finds s ss _ a (nothing n) = nothing (a, n)
skipped-Finds s ss _ a (picked t i b n) = picked t (Outcomes.there s ss i) b (λ o. cc, n)

least_loaded-Finds : (ss : List Server) → Finds ss (least_loaded ss)
unfolding least_loaded
least_loaded-Finds [] = nothing (unfold NoneOpen in tt)
least_loaded-Finds (s ∷ ss) = elim (Bool-cases (is_open s)) [
  | inl e ↦ rw e (lighter-Finds s ss (least_loaded ss) e (least_loaded-Finds ss))
  | inr e ↦ rw e (skipped-Finds s ss (least_loaded ss) e (least_loaded-Finds ss))
]

-- A row for the query: active, and with fewer peers than its limit.
pub record IsOpen (s : Server) : Type 0 where
  pub active : s.is_active ≡ true
  pub room : s.current_peers < pos_part s.max_peers

-- What the query picks: a row that is open and than which no open row has a lower share of its limit
-- in use, the shares compared crosswise, or none where no row is open.
pub data Picks (ss : List Server) : Option Server → Type 0 where
  nothing_open : ((t : Server) → In t ss → ¬ (IsOpen t)) → Picks ss none
  least :
      (s : Server)
      → In s ss
      → IsOpen s
      → ((t : Server)
          → In t ss
          → IsOpen t
          → s.current_peers * pos_part t.max_peers ≤ t.current_peers * pos_part s.max_peers)
      → Picks ss (some s)

opened : (t : Server) → IsOpen t → is_open t ≡ true
unfolding has_room
opened t o = let a = o.active in let r = o.room in ground arith

is_open-IsOpen : (t : Server) → is_open t ≡ true → IsOpen t
unfolding has_room
is_open-IsOpen t o = record { active = ground arith; room = ground arith }

NoneOpen-closed : (t : Server) (ss : List Server) → NoneOpen ss → In t ss → ¬ (IsOpen t)
unfolding NoneOpen
NoneOpen-closed t _ n (Outcomes.here ss) o = let e = opened t o in let f = n.0 in cc
NoneOpen-closed t _ n (Outcomes.there u ss i) o = NoneOpen-closed t ss n.1 i o

-- The limit of an open row is at least 1, so that it is its own divisor.
capacity-limit : (t : Server) → IsOpen t → capacity t ≡ pos_part t.max_peers
unfolding capacity
capacity-limit t o = let r = o.room in ground arith

NoneLighter-least :
    (s t : Server) (ss : List Server)
    → IsOpen s
    → NoneLighter s ss
    → In t ss
    → IsOpen t
    → s.current_peers * pos_part t.max_peers ≤ t.current_peers * pos_part s.max_peers
unfolding NoneLighter less_loaded
NoneLighter-least s t _ a n (Outcomes.here ss) o =
    let e = n.0 (opened t o) in
    let f = capacity-limit s a in let g = capacity-limit t o in ground arith
NoneLighter-least s t _ a n (Outcomes.there u ss i) o = NoneLighter-least s t ss a n.1 i o

Finds-Picks : (ss : List Server) (o : Option Server) → Finds ss o → Picks ss o
Finds-Picks ss _ (nothing n) = nothing_open (λ t. NoneOpen-closed t ss n)
Finds-Picks ss _ (picked s i a n) =
    least s i (is_open-IsOpen s a) (λ t. NoneLighter-least s t ss (is_open-IsOpen s a) n)

-- The least loaded server is an active row with fewer peers than its limit, and no other such row
-- uses a lower fraction of its limit; none is found only where there is no such row.
pub least_loaded-Picks : (ss : List Server) → Picks ss (least_loaded ss)
least_loaded-Picks ss = Finds-Picks ss (least_loaded ss) (least_loaded-Finds ss)
