-- ===== src/Wg/Manager/Consistency.antt =====
-- The invariant of the manager of internal/wg/manager.go: the address of every peer is assigned in
-- the pool, and no two peers have one address.
use midori_vpn_core.Prelude.{
  ℕ, ◌+◌, ◌≤◌, ◌≡◌, ◌≢◌, refl, ap, sym, ◌∙◌, true, ◌++◌, Option, none, some, arith, subst,
  Bool-cases, inl, inr, Option-cases, ◌⊎◌,
}
use midori_vpn_core.Prelude.Equality.{text_eq, text_beq_iff, ◌=?◌}
use midori_vpn_core.Prelude.Dict
use midori_vpn_core.Prelude.Dict.{Dict, get-put, get-remove, get-empty}
use midori_vpn_core.Net.{Text, codes, print_ip}
use midori_vpn_core.IpPool.{Pool, used, take, give_back}
use midori_vpn_core.IpPool.Validity.{IsValid, used-take, used-give_back, give_back-IsValid}
use midori_vpn_core.IpPool.Scan.{Picks}
use midori_vpn_core.IpPool.Allocation.{Picks-below, Picks-free, take-IsValid}
use midori_vpn_core.IpPool.Addresses.{address-injective}
use midori_vpn_core.IpPool.Returns.{release-address}
use midori_vpn_core.Wg.Manager.{Manager, Host, Device, persist, persisted, free_ip, dropped}

-- An address that a peer may hold: one of the pool's, and assigned there.
abbrev pub Owned : Pool → Option Text → Type 0
Owned p none = Unit {0}
Owned p (some ip) =
    (o : ℕ) × (o ≤ p.max_host)
    × (ip ≡ print_ip (p.base_ip + o) ++ codes "/32")
    × (used p.bitset o ≡ true)

pub record IsConsistent (m : Manager) : Type 0 where
  pub valid : IsValid m.pool
  pub owned : (k : Text) → Owned m.pool (Dict.get m.peer_ips k)
  pub apart :
      (j k ip : Text) → Dict.get m.peer_ips j ≡ some ip → Dict.get m.peer_ips k ≡ some ip → j ≡ k

Owned-some : (p : Pool) (o : Option Text) (ip : Text) → Owned p o → o ≡ some ip → Owned p (some ip)
Owned-some p none ip h e = cc
Owned-some p (some i) ip h e = subst (Owned p) e h

-- The address of a known peer.
pub held :
    (m : Manager) (k ip : Text)
    → IsConsistent m
    → Dict.get m.peer_ips k ≡ some ip
    → Owned m.pool (some ip)
held m k ip c e = Owned-some m.pool (Dict.get m.peer_ips k) ip (c.owned k) e

-- What a manager's consistency reads.
abbrev pub Same : Manager → Manager → Type 0
Same m n = (n.pool ≡ m.pool) × (n.peer_ips ≡ m.peer_ips)

pub Same-IsConsistent : (m n : Manager) → Same m n → IsConsistent m → IsConsistent n
Same-IsConsistent m n (p, d) c = record {
  valid = subst IsValid (sym p) c.valid;
  owned = λ k.
      subst (λ q. Owned q (Dict.get n.peer_ips k)) (sym p)
        (subst (λ (f : Dict Text Text). Owned m.pool (Dict.get f k)) (sym d) (c.owned k));
  apart = λ j k ip a b.
      c.apart j k ip (ap (λ (f : Dict Text Text). Dict.get f j) (sym d) ∙ a)
        (ap (λ (f : Dict Text Text). Dict.get f k) (sym d) ∙ b);
}

pub persist-Same : (host : Host) (m : Manager) → Same m (persist host m)
unfolding persist
persist-Same host m = go (host.device m.sent)
  where
    go : (d : Option Device) → Same m (persisted host m d)
    go none = (refl, refl)
    go (some d) = unfold persisted in (ground arith, ground arith)

pub persist-IsConsistent :
    (host : Host) (m : Manager) → IsConsistent m → IsConsistent (persist host m)
persist-IsConsistent host m c = Same-IsConsistent m (persist host m) (persist-Same host m) c

pub free_ip-address :
    (p : Pool) (o : ℕ)
    → IsValid p
    → o ≤ p.max_host
    → used p.bitset o ≡ true
    → free_ip p (print_ip (p.base_ip + o) ++ codes "/32") ≡ give_back p o
unfolding free_ip
free_ip-address p o v h u = ap (dropped p) (release-address p o v h u)

-- A new peer with the address that Allocate has picked.
module _ (m : Manager) (c : IsConsistent m) (r : ℕ) (k : Picks m.pool r) (key : Text)
    (absent : Dict.get m.peer_ips key ≡ none) where
  low : r ≤ m.pool.max_host
  low = omega (arith, Picks-below c.valid k)

  unfoldable pub ip : Text
  ip = print_ip (m.pool.base_ip + r) ++ codes "/32"

  unfoldable pub with_peer : Manager
  unfolding ip
  with_peer = record m { pool = take m.pool r; peer_ips = Dict.put m.peer_ips key ip }

  -- An assigned offset is not the one that is handed out.
  fresh : (j : Text) → Dict.get m.peer_ips j ≡ some ip → ⊥
  unfolding ip
  fresh j e =
      let (o, ho, same, taken) = held m j ip c e in
      let at : r ≡ o = address-injective m.pool r o c.valid low ho same in
      cc (ap (used m.pool.bitset) at, Picks-free k, taken)

  Owned-take : (o : Option Text) → Owned m.pool o → Owned (take m.pool r) o
  unfolding take
  Owned-take none h = tt
  Owned-take (some i) (o, ho, same, taken) =
      (o, ho, same, ground (arith, used-take m.pool c.valid r low o))

  Owned-with : (j : Text) → Owned (take m.pool r) (Dict.get (Dict.put m.peer_ips key ip) j)
  unfolding ip take
  Owned-with j = rw get-put (elim (Bool-cases (key =? j)) [
    | inl same ↦ rw same (r, low, refl, ground (arith, used-take m.pool c.valid r low r))
    | inr other ↦ rw other (Owned-take (Dict.get m.peer_ips j) (c.owned j))
  ])

  -- Who holds an address afterwards: the new peer, or one that held it before.
  holder :
      (j a : Text)
      → Dict.get (Dict.put m.peer_ips key ip) j ≡ some a
      → ((key ≡ j) × (a ≡ ip)) ⊎ (Dict.get m.peer_ips j ≡ some a)
  holder j a e = elim (Bool-cases (key =? j)) [
    | inl same ↦
        inl ((text_beq_iff key j).0 same, ground (arith, get-put m.peer_ips key j ip, same, e))
    | inr other ↦ inr (ground (arith, get-put m.peer_ips key j ip, other, e))
  ]

  apart_with :
      (i j a : Text)
      → Dict.get (Dict.put m.peer_ips key ip) i ≡ some a
      → Dict.get (Dict.put m.peer_ips key ip) j ≡ some a
      → i ≡ j
  apart_with i j a e f = both (holder i a e) (holder j a f)
    where
      both :
          ((key ≡ i) × (a ≡ ip)) ⊎ (Dict.get m.peer_ips i ≡ some a)
          → ((key ≡ j) × (a ≡ ip)) ⊎ (Dict.get m.peer_ips j ≡ some a)
          → i ≡ j
      both (inl (p, q)) (inl (s, t)) = sym p ∙ s
      both (inl (p, q)) (inr o) = absurd (fresh j (o ∙ ap some q))
      both (inr o) (inl (s, t)) = absurd (fresh i (o ∙ ap some t))
      both (inr o) (inr n) = c.apart i j a o n

  pub with_peer-IsConsistent : IsConsistent with_peer
  unfolding with_peer
  with_peer-IsConsistent = record {
    valid = take-IsValid m.pool r c.valid k;
    owned = Owned-with;
    apart = apart_with;
  }

  -- The state after the address is given back, when the host refuses the peer.
  unfoldable pub refused : Manager
  unfolding ip
  refused = record m { pool = free_ip (take m.pool r) ip }

  pub refused-IsConsistent : IsConsistent refused
  unfolding refused take
  refused-IsConsistent =
      let w : IsValid (take m.pool r) = take-IsValid m.pool r c.valid k in
      let taken : used (take m.pool r).bitset r ≡ true =
        ground (arith, used-take m.pool c.valid r low r) in
      let back : free_ip (take m.pool r) ip ≡ give_back (take m.pool r) r =
        free_ip-address (take m.pool r) r w low_take taken in
      Same-IsConsistent (record m { pool = give_back (take m.pool r) r })
        (record m { pool = free_ip (take m.pool r) ip }) (back, refl)
        (record {
          valid = give_back-IsValid (take m.pool r) w r low_take taken;
          owned = λ j. owned_back w (Dict.get m.peer_ips j) (c.owned j);
          apart = c.apart;
        })
    where
      low_take : r ≤ (take m.pool r).max_host
      low_take = unfold take in low

      owned_back :
          IsValid (take m.pool r)
          → (o : Option Text) → Owned m.pool o
          → Owned (give_back (take m.pool r) r) o
      owned_back w none h = tt
      owned_back w (some i) (o, ho, same, held_bit) =
          unfold take give_back in
          (
            o,
            ho,
            same,
            ground (
              arith,
              used-give_back (take m.pool r) w r low_take o,
              used-take m.pool c.valid r low o,
              Picks-free k,
              ap (used m.pool.bitset) {x = r} {y = o},
            ),
          )

-- A peer that is forgotten gives its address back.
module _ (m : Manager) (c : IsConsistent m) (key : Text) where
  unfoldable pub forgotten : Text → Manager
  forgotten a = record m { pool = free_ip m.pool a; peer_ips = Dict.remove m.peer_ips key }

  still_held :
      (j a : Text)
      → Dict.get (Dict.remove m.peer_ips key) j ≡ some a
      → Dict.get m.peer_ips j ≡ some a
  still_held j a e = ground (arith, get-remove m.peer_ips key j)

  not_key : (j a : Text) → Dict.get (Dict.remove m.peer_ips key) j ≡ some a → key ≢ j
  not_key j a e same = ground (arith, get-remove m.peer_ips key j, (text_beq_iff key j).1 same)

  pub forgotten-IsConsistent :
      (a : Text) → Dict.get m.peer_ips key ≡ some a → IsConsistent (forgotten a)
  unfolding forgotten
  forgotten-IsConsistent a e =
      let (o, ho, same, taken) = held m key a c e in
      let back : free_ip m.pool a ≡ give_back m.pool o =
        ap (free_ip m.pool) same ∙ free_ip-address m.pool o c.valid ho taken in
      Same-IsConsistent
        (record m { pool = give_back m.pool o; peer_ips = Dict.remove m.peer_ips key })
        (record m { pool = free_ip m.pool a; peer_ips = Dict.remove m.peer_ips key }) (back, refl)
        (record {
          valid = give_back-IsValid m.pool c.valid o ho taken;
          owned =
              λ j. owned_rest o ho same j (Option-cases (Dict.get (Dict.remove m.peer_ips key) j));
          apart = λ i j b f g. c.apart i j b (still_held i b f) (still_held j b g);
        })
    where
      owned_rest :
          (o : ℕ)
          → o ≤ m.pool.max_host
          → a ≡ print_ip (m.pool.base_ip + o) ++ codes "/32"
          → (j : Text)
          → (Dict.get (Dict.remove m.peer_ips key) j ≡ none)
            ⊎ ((b : Text) × (Dict.get (Dict.remove m.peer_ips key) j ≡ some b))
          → Owned (give_back m.pool o) (Dict.get (Dict.remove m.peer_ips key) j)
      owned_rest o ho same j (inl f) = subst (Owned (give_back m.pool o)) (sym f) tt
      owned_rest o ho same j (inr (b, f)) =
          let (i, hi, at, held_bit) = held m j b c (still_held j b f) in
          let apart_offsets : o ≢ i = λ q. not_key j b f (
            c.apart key j a e (
              still_held j b f
              ∙ ap some (
                  at
                  ∙ ap (λ (n : ℕ). print_ip (m.pool.base_ip + n) ++ codes "/32") (sym q)
                  ∙ sym same))) in
          subst (Owned (give_back m.pool o)) (sym f) (kept o ho b i hi at held_bit apart_offsets)
        where
          kept :
              (o : ℕ)
              → o ≤ m.pool.max_host
              → (b : Text) (i : ℕ) → i ≤ m.pool.max_host
              → b ≡ print_ip (m.pool.base_ip + i) ++ codes "/32"
              → used m.pool.bitset i ≡ true
              → o ≢ i
              → Owned (give_back m.pool o) (some b)
          kept o ho b i hi at held_bit ne =
              unfold give_back in (i, hi, at, ground (arith, used-give_back m.pool c.valid o ho i))
