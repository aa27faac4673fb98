-- ===== src/IpPool/Returns.antt =====
-- Release and Reserve of internal/ippool/pool.go.
use midori_vpn_core.Prelude.{
  ℕ, ◌+◌, ◌-◌, ◌%◌, ◌≤◌, ◌<◌, ◌≡◌, ap, sym, ◌∙◌, arith, ◌++◌, none, some, true, false, Outcome, ok,
  err, ok-injective, ok_not_err, ◌==◌, if◌then◌else◌, inl, inr, Option-cases, Bool-cases, ltb,
  ltb→lt, [],
}
use midori_vpn_core.Net.{Text, codes, u32_mod, print_ip}
use midori_vpn_core.IpPool.{
  Pool, PoolError, pool_exhausted, ip_already_used, ip_not_found, not_in_network, used, take,
  occupy, give_back, test, allocate, release, release_at, reserve, reserve_at, ip_to_offset,
  strip_mask,
}
use midori_vpn_core.IpPool.Bitset.{test-used}
use midori_vpn_core.IpPool.Validity.{
  IsValid, count-le, used-take, used-occupy, used-give_back, occupy-IsValid, give_back-IsValid,
}
use midori_vpn_core.IpPool.Scan.{Picks}
use mathlib.Core.Path.{ap₂}
use midori_vpn_core.IpPool.Allocation.{
  Picks-below, Picks-free, allocate-Picks, allocate_exhausted_iff, take-IsValid,
}
use midori_vpn_core.IpPool.Addresses.{
  strip_mask-print_ip_mask, ip_to_offset-print_ip, ip_to_offset-le,
}

-- What Release may do with a text: refuse it, when it names no offset or a free one, or free the
-- one assigned offset that it names.
pub data Releases (p : Pool) (t : Text) : Outcome PoolError Pool → Type 0 where
  unknown : ip_to_offset p (strip_mask t) ≡ none → Releases p t (err ip_not_found)
  unassigned :
      (o : ℕ)
      → ip_to_offset p (strip_mask t) ≡ some o
      → used p.bitset o ≡ false
      → Releases p t (err ip_not_found)
  freed :
      (o : ℕ)
      → ip_to_offset p (strip_mask t) ≡ some o
      → used p.bitset o ≡ true
      → ((j : ℕ) → used (give_back p o).bitset j ≡ (if o == j then false else used p.bitset j))
      → IsValid (give_back p o)
      → Releases p t (ok (give_back p o))

-- What Reserve may do with a text.
pub data Reserves (p : Pool) (t : Text) : Outcome PoolError Pool → Type 0 where
  outside : ip_to_offset p (strip_mask t) ≡ none → Reserves p t (err not_in_network)
  assigned :
      (o : ℕ)
      → ip_to_offset p (strip_mask t) ≡ some o
      → used p.bitset o ≡ true
      → Reserves p t (err ip_already_used)
  occupied :
      (o : ℕ)
      → ip_to_offset p (strip_mask t) ≡ some o
      → used p.bitset o ≡ false
      → ((j : ℕ) → used (occupy p o).bitset j ≡ (if o == j then true else used p.bitset j))
      → IsValid (occupy p o)
      → Reserves p t (ok (occupy p o))

module _ (p : Pool) (v : IsValid p) (t : Text) where
  test_at : (o : ℕ) → o ≤ p.max_host → test p.bitset o ≡ some (used p.bitset o)
  test_at o h = test-used p.bitset o (omega (arith, v.covered))

  -- Release of a valid pool never reads a bit out of range. It fails with ErrIPNotFound, or frees
  -- exactly the offset that the text names and leaves a valid pool.
  pub release-Releases : Releases p t (release p t)
  release-Releases =
      unfold release in
      elim (Option-cases (ip_to_offset p (strip_mask t))) [
        | inl e ↦ rw e (unknown e)
        | inr (o, e) ↦
            let low = ip_to_offset-le p v _ e in
            rw (e, test_at o low, release_at)
              (elim (Bool-cases (used p.bitset o)) [
                | inl u ↦
                    rw u (freed o e u (used-give_back p v o low) (give_back-IsValid p v o low u))
                | inr u ↦ rw u (unassigned o e u)
              ])
      ]

  -- Reserve of a valid pool never reads a bit out of range. It fails, or assigns exactly the offset
  -- that the text names and leaves a valid pool.
  pub reserve-Reserves : Reserves p t (reserve p t)
  reserve-Reserves =
      unfold reserve in
      elim (Option-cases (ip_to_offset p (strip_mask t))) [
        | inl e ↦ rw e (outside e)
        | inr (o, e) ↦
            let low = ip_to_offset-le p v _ e in
            rw (e, test_at o low, reserve_at)
              (elim (Bool-cases (used p.bitset o)) [
                | inl u ↦ rw u (assigned o e u)
                | inr u ↦ rw u (occupied o e u (used-occupy p v o low) (occupy-IsValid p v o low u))
              ])
      ]

take_at : (p : Pool) → IsValid p → (r : ℕ) → Picks p r → used (take p r).bitset r ≡ true
take_at p v r k = ground (arith, used-take p v r (omega (arith, Picks-below v k)) r)

-- A successful Allocate of a valid pool, taken apart.
pub allocate_inv :
    (p q : Pool) (t : Text)
    → IsValid p
    → allocate p ≡ ok (q, t)
    → (r : ℕ) × Picks p r
      × (q ≡ take p r)
      × (t ≡ print_ip (p.base_ip + r) ++ codes "/32")
      × (p.count < p.max_host)
allocate_inv p q t v e = elim (Bool-cases (ltb p.count p.max_host)) [
  | inl h ↦
      let (r, k, run, kept, same) = allocate-Picks p v (ltb→lt _ _ h) in
      let same_pair : (q, t) ≡ (take p r, print_ip (p.base_ip + r) ++ codes "/32") =
        ok-injective {E = PoolError} (sym e ∙ run) in
      (
        r,
        k,
        ap (λ (x : Pool × Text). x.0) same_pair,
        ap (λ (x : Pool × Text). x.1) same_pair,
        ltb→lt _ _ h,
      )
  | inr h ↦
      absurd
        (ok_not_err (q, t) pool_exhausted (sym e ∙ (allocate_exhausted_iff p v).1 (ground arith)))
]

-- Releasing an address that Allocate has just handed out succeeds, and gives a valid pool with the
-- assignments and the count from before.
pub release-allocate :
    (p q : Pool) (t : Text)
    → IsValid p
    → allocate p ≡ ok (q, t)
    → (s : Pool) × (release q t ≡ ok s)
      × (s.count ≡ p.count)
      × ((j : ℕ) → used s.bitset j ≡ used p.bitset j)
      × IsValid s
unfolding take give_back
release-allocate p q t v e =
    let (r, k, eq, et, room) = allocate_inv p q t v e in
    let low : r ≤ p.max_host = omega (arith, Picks-below v k) in
    let w : IsValid (take p r) = take-IsValid p r v k in
    let found : ip_to_offset (take p r) (strip_mask (print_ip (p.base_ip + r) ++ codes "/32"))
        ≡ some r =
      ap (ip_to_offset (take p r)) (strip_mask-print_ip_mask (p.base_ip + r) (codes "32"))
      ∙ ip_to_offset-print_ip (take p r) w r low in
    let run : release (take p r) (print_ip (p.base_ip + r) ++ codes "/32")
        ≡ ok (give_back (take p r) r) =
      unfold release in
      ap (release_at (take p r)) found
      ∙ ground (arith, test_at (take p r) w [] r low, take_at p v r k) in
    (
      give_back (take p r) r,
      ap₂ release eq et ∙ run,
      counts (omega (arith, count-le p v, v.narrow)),
      (λ j. ground (
        arith,
        used-give_back (take p r) w r low j,
        used-take p v r low j,
        Picks-free k,
        ap (used p.bitset) {x = r} {y = j},
      )),
      give_back-IsValid (take p r) w r low (take_at p v r k),
    )
  where
    counts : {c : ℕ} → c + 1 < u32_mod → ((c + 1) % u32_mod + u32_mod - 1) % u32_mod ≡ c
    counts h = omega arith

-- Releasing the address of an assigned offset frees that offset.
pub release-address :
    (p : Pool) (o : ℕ)
    → IsValid p
    → o ≤ p.max_host
    → used p.bitset o ≡ true
    → release p (print_ip (p.base_ip + o) ++ codes "/32") ≡ ok (give_back p o)
unfolding release
release-address p o v h u =
    ap (release_at p) (
      ap (ip_to_offset p) (strip_mask-print_ip_mask (p.base_ip + o) (codes "32"))
      ∙ ip_to_offset-print_ip p v o h)
    ∙ ground (arith, test_at p v [] o h)
