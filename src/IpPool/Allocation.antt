-- ===== src/IpPool/Allocation.antt =====
-- Allocate of internal/ippool/pool.go: which address it hands out, and when it refuses.
use midori_vpn_core.Prelude.{
  ℕ, zero, suc, ◌+◌, ◌-◌, ◌*◌, ◌%◌, ◌≤◌, ◌<◌, ◌≡◌, sym, ◌∙◌, true, false, length, ltb, ◌==◌,
  if◌then◌else◌, arith, ◌++◌, ok, err, inl, inr, ◌↔◌, Bool-cases, ltb→lt, ok_not_err,
}
use midori_vpn_core.Prelude.Counting.{count_below-gap, count_below_mono, count_below-le}
use midori_vpn_core.Net.{codes, u32_mod, print_ip}
use midori_vpn_core.IpPool.{Pool, pool_exhausted, used, mark, take, usable, allocate}
use midori_vpn_core.IpPool.Bitset.{used-mark, length-mark}
use midori_vpn_core.IpPool.Validity.{IsValid, count-mark, used-take}
use midori_vpn_core.IpPool.Scan.{Picks, ahead, wrapped, scan-Picks}

pub Picks-below : {p : Pool} {r : ℕ} → IsValid p → Picks p r → r < p.max_host
Picks-below v (ahead a b c d) = b
Picks-below v (wrapped a b c d e) = omega (arith, v.hint)

pub Picks-free : {p : Pool} {r : ℕ} → Picks p r → used p.bitset r ≡ false
Picks-free (ahead a b c d) = c
Picks-free (wrapped a b c d e) = c

Picks-not_above_zero : {p : Pool} {r : ℕ} → IsValid p → Picks p r → used p.bitset 0 ≡ false → r ≡ 0
Picks-not_above_zero {r = zero} v k e = omega arith
Picks-not_above_zero {r = suc r} v (ahead a b c d) e =
    cc (d 0 (omega (arith, v.hint_zero e)) (omega arith))
Picks-not_above_zero {r = suc r} v (wrapped a b c d g) e = absurd (omega (arith, v.hint_zero e))

pub Picks-not_above_one :
    {p : Pool} {r : ℕ} → IsValid p → Picks p r → used p.bitset 1 ≡ false → r ≤ 1
Picks-not_above_one {r = zero} v k e = omega arith
Picks-not_above_one {r = suc zero} v k e = omega arith
Picks-not_above_one {r = suc (suc r)} v (ahead a b c d) e = cc (d 1 (v.hint_one e) (omega arith))
Picks-not_above_one {r = suc (suc r)} v (wrapped a b c d g) e = absurd (omega (arith, v.hint_one e))

pub take-IsValid : (p : Pool) (r : ℕ) → IsValid p → Picks p r → IsValid (take p r)
unfolding take
take-IsValid p r v k =
    let low : r < p.max_host = Picks-below v k in
    let bits : r < length p.bitset * 64 = omega (arith, v.covered) in
    record {
      wide = v.wide;
      fits = v.fits;
      narrow = v.narrow;
      covered = omega (arith, v.covered, length-mark p.bitset r);
      counted = omega (
        arith,
        v.counted,
        count-mark p.bitset r (p.max_host + 1) bits (omega arith) (Picks-free k),
        count_below-le (used (mark p.bitset r)) (p.max_host + 1),
        v.narrow,
      );
      hint = omega (arith, v.narrow);
      hint_zero = λ z. absurd (zero_free bits z);
      hint_one = λ z. one_free low bits z;
      inside = λ j h. ground (arith, used-mark p.bitset r j bits, v.inside j h);
    }
  where
    zero_free : r < length p.bitset * 64 → used (mark p.bitset r) 0 ≡ false → ⊥
    zero_free bits z =
        let e : used p.bitset 0 ≡ false = ground (arith, used-mark p.bitset r 0 bits) in
        ground (arith, used-mark p.bitset r 0 bits, Picks-not_above_zero v k e)

    one_free :
        r < p.max_host
        → r < length p.bitset * 64
        → used (mark p.bitset r) 1 ≡ false
        → (r + 1) % u32_mod ≤ 1
    one_free low bits z =
        let e : used p.bitset 1 ≡ false = ground (arith, used-mark p.bitset r 1 bits) in
        ground (arith, used-mark p.bitset r 1 bits, Picks-not_above_one v k e)

free_offset :
    (p : Pool)
    → IsValid p
    → p.count < p.max_host
    → (f : ℕ) × (f < p.max_host) × (used p.bitset f ≡ false)
free_offset p v h = count_below-gap (used p.bitset) p.max_host (
    omega (
      arith,
      v.counted,
      count_below_mono (used p.bitset) p.max_host (p.max_host + 1) (omega arith),
    ))

usable_small : (p : Pool) → IsValid p → usable p ≡ p.max_host - 1
unfolding allocate
usable_small p v = omega (arith, v.wide, v.narrow)

-- While fewer than maxHost offsets of a valid pool are assigned, Allocate ends without a panic and
-- hands out the address of the first free offset from the hint on, or else of the first free one
-- from 2 on; the pool that it leaves is valid, and has that offset assigned and no other change of
-- assignment.
pub allocate-Picks :
    (p : Pool)
    → IsValid p
    → p.count < p.max_host
    → (r : ℕ) × Picks p r
      × (allocate p ≡ ok (take p r, print_ip (p.base_ip + r) ++ codes "/32"))
      × IsValid (take p r)
      × ((j : ℕ) → used (take p r).bitset j ≡ (if r == j then true else used p.bitset j))
unfolding allocate
allocate-Picks p v h =
    let (f, low, free) = free_offset p v h in
    let (r, k, run) = scan-Picks p v f low free in
    let below : r < p.max_host = Picks-below v k in
    let sum : (p.base_ip + r) % u32_mod ≡ p.base_ip + r = omega (arith, v.fits) in
    (
      r,
      k,
      ground (arith, usable_small p v, run, sum),
      take-IsValid p r v k,
      used-take p v r (omega arith),
    )

-- Allocate of a valid pool fails with ErrPoolExhausted exactly when at least maxHost offsets are
-- assigned.
pub allocate_exhausted_iff :
    (p : Pool) → IsValid p → (allocate p ≡ err pool_exhausted) ↔ (p.max_host ≤ p.count)
allocate_exhausted_iff p v = (only_full, full)
  where
    full : p.max_host ≤ p.count → allocate p ≡ err pool_exhausted
    full h = unfold allocate in ground (arith, usable_small p v, v.wide)

    only_full : allocate p ≡ err pool_exhausted → p.max_host ≤ p.count
    only_full e = elim (Bool-cases (ltb p.count p.max_host)) [
      | inl h ↦
          let (r, k, run, kept, same) = allocate-Picks p v (ltb→lt _ _ h) in
          absurd (ok_not_err _ _ (sym run ∙ e))
      | inr h ↦ ground arith
    ]
