-- ===== src/IpPool/Limits.antt =====
-- The edges of internal/ippool/pool.go: FreeCount, the networks that New should not accept, and
-- the two reserved addresses under Release.
use midori_vpn_core.Prelude.{
  ℕ, zero, suc, ◌+◌, ◌-◌, ◌*◌, ◌%◌, ◌≤◌, ◌<◌, ◌≡◌, refl, ap, ◌∙◌, true, false, length, none, some,
  arith, ok, panic, ◌++◌, [], ◌∷◌,
}
use midori_vpn_core.Prelude.Int.{pos, ◌-ℤ◌}
use midori_vpn_core.Prelude.Counting.{
  count_below, count_below-add, count_below-none, count_below-negated, negated,
}
use midori_vpn_core.Net.{Text, Network, u32_mod, parse_cidr, print_ip, codes}
use midori_vpn_core.IpPool.{
  Pool, new, new_from, used, popcount, free_count, allocate, release, host_max, reserve_low, test,
  mark, take, zero_words, word_count, give_back, release_at, ip_to_offset, strip_mask,
}
use midori_vpn_core.IpPool.Bitset.{popcount-count_below, test-used, unmark}
use midori_vpn_core.Prelude.Bits.{has_bit}
use midori_vpn_core.IpPool.Validity.{IsValid, give_back-IsValid, used-give_back, count-unmark}
use midori_vpn_core.IpPool.Addresses.{strip_mask-print_ip, ip_to_offset-print_ip}
use midori_vpn_core.IpPool.Allocation.{allocate-Picks, Picks-not_above_one, Picks-free}

-- The words hold as many ones as offsets are assigned.
popcount-count :
    (p : Pool) → IsValid p → popcount p.bitset ≡ count_below (used p.bitset) (p.max_host + 1)
popcount-count p v =
    let low : ℕ = p.max_host + 1 in
    let high : ℕ = length p.bitset * 64 - low in
    popcount-count_below p.bitset
    ∙ ap (count_below (used p.bitset)) {y = high + low} (omega (arith, v.covered))
    ∙ count_below-add (used p.bitset) low high
    ∙ omega (
      arith,
      count_below-none (λ i. used p.bitset (i + low)) high (λ i. v.inside (i + low) (omega arith)),
    )

-- FreeCount of a valid pool in which the broadcast address is not assigned is one more than the
-- number of free addresses below the broadcast address, which are those that Allocate can give.
pub free_count_overstates :
    (p : Pool)
    → IsValid p
    → used p.bitset p.max_host ≡ false
    → free_count p ≡ pos (suc (count_below (negated (used p.bitset)) p.max_host))
unfolding free_count ◌-ℤ◌
free_count_overstates p v e =
    ground (arith, popcount-count p v, count_below-negated (used p.bitset) p.max_host, top, v.wide)
  where
    top : count_below (used p.bitset) (p.max_host + 1) ≡ count_below (used p.bitset) p.max_host
    top =
        ap (count_below (used p.bitset)) {y = suc p.max_host} (omega arith)
        ∙ unfold count_below in ground arith

-- New on an IPv4 network with a prefix of no bits panics: the number of words wraps to 0.
pub new_prefix_zero :
    (t : Text) (n : Network) → parse_cidr t ≡ some n → n.prefix_len ≡ 0 → new t ≡ panic
unfolding new reserve_low
new_prefix_zero t n e z = rw (e, new_from) (rw (z, new_from))

-- New on an IPv4 network with a prefix of 32 bits gives a pool whose first Allocate hands out the
-- address two above the network's, outside the network.
pub new_single_host :
    (t : Text) (n : Network)
    → parse_cidr t ≡ some n
    → n.prefix_len ≡ 32
    → (p : Pool) × (q : Pool) × (new t ≡ ok p)
      × (allocate p ≡ ok (q, print_ip ((n.address + 2) % u32_mod) ++ codes "/32"))
unfolding new allocate reserve_low test mark has_bit
new_single_host t n e z = (single, take single 2, made, refl)
  where
    single : Pool
    single = record {
      network = n;
      base_ip = n.address;
      max_host = 0;
      bitset = 3 ∷ [];
      count = 2;
      next = 2;
    }

    made : new t ≡ ok single
    made =
        ap new_from e
        ∙ ap
            (λ (k : ℕ). elim (reserve_low (zero_words (word_count (host_max k)))) [
              | none ↦ panic
              | some bs ↦ ok (record single { max_host = host_max k; bitset = bs })
            ])
            z

-- Release accepts the gateway's address, which New reserves; if the pool then has room, the next
-- Allocate hands it out.
pub gateway_reallocated :
    (p : Pool)
    → IsValid p
    → used p.bitset 0 ≡ true
    → used p.bitset 1 ≡ true
    → p.count ≤ p.max_host
    → (q : Pool) × (r : Pool) × (release p (print_ip (p.base_ip + 1)) ≡ ok q)
      × (allocate q ≡ ok (r, print_ip (p.base_ip + 1) ++ codes "/32"))
unfolding release give_back
gateway_reallocated p v zero_taken one_taken room =
    let (r, k, run, kept, same) = allocate-Picks (give_back p 1) w smaller in
    let at_one : r ≡ 1 = only_one r (Picks-not_above_one w k free_one) (Picks-free k) in
    (
      give_back p 1,
      take (give_back p 1) r,
      ap (release_at p) found ∙ ground (arith, test-used p.bitset 1 (omega (arith, v.covered))),
      run
          ∙ ap (λ (o : ℕ). ok (take (give_back p 1) r, print_ip (p.base_ip + o) ++ codes "/32"))
              at_one,
    )
  where
    low : 1 ≤ p.max_host
    low = omega (arith, v.wide)

    w : IsValid (give_back p 1)
    w = give_back-IsValid p v 1 low one_taken

    smaller : (p.count + u32_mod - 1) % u32_mod < p.max_host
    smaller = omega (
      arith,
      v.counted,
      v.narrow,
      v.wide,
      count-unmark p.bitset 1 (p.max_host + 1) (omega (arith, v.covered)) (omega (arith, low))
          one_taken,
    )

    free_one : used (unmark p.bitset 1) 1 ≡ false
    free_one = ground (arith, used-give_back p v 1 low 1)

    only_one : (r : ℕ) → r ≤ 1 → used (unmark p.bitset 1) r ≡ false → r ≡ 1
    only_one zero h e = ground (arith, used-give_back p v 1 low 0)
    only_one (suc r) h e = omega arith

    found : ip_to_offset p (strip_mask (print_ip (p.base_ip + 1))) ≡ some 1
    found =
        ap (ip_to_offset p) (strip_mask-print_ip (p.base_ip + 1)) ∙ ip_to_offset-print_ip p v 1 low
