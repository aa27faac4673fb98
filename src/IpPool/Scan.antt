-- ===== src/IpPool/Scan.antt =====
-- The loop of Allocate in internal/ippool/pool.go: where it stops, and within which fuel.
use midori_vpn_core.Prelude.{
  ℕ, zero, suc, ◌+◌, ◌-◌, ◌%◌, ◌≤◌, ◌<◌, ◌≡◌, ◌≢◌, ap, ◌∙◌, true, false, some, ok, leb, ◌==◌, arith,
  ◌⊎◌, inl, inr, Bool-cases,
}
use midori_vpn_core.Net.{u32_mod}
use midori_vpn_core.IpPool.{Pool, used, test, scan, wrap, visit, grant}
use midori_vpn_core.IpPool.Bitset.{test-used}
use midori_vpn_core.IpPool.Validity.{IsValid}

-- Every offset from a up to b is assigned.
abbrev pub Taken : Pool → ℕ → ℕ → Type 0
Taken p a b = (i : ℕ) → a ≤ i → i < b → used p.bitset i ≡ true

-- The offset that Allocate picks: the first free one at or after the hint, or else the first free
-- one from 2 up to the hint.
pub data Picks (p : Pool) (r : ℕ) : Type 0 where
  ahead : p.next ≤ r → r < p.max_host → used p.bitset r ≡ false → Taken p p.next r → Picks p r
  wrapped :
      2 ≤ r
      → r < p.next
      → used p.bitset r ≡ false
      → Taken p p.next p.max_host
      → Taken p 2 r
      → Picks p r

module _ (p : Pool) (v : IsValid p) where
  test_at : (o : ℕ) → o ≤ p.max_host → test p.bitset o ≡ some (used p.bitset o)
  test_at o h = test-used p.bitset o (omega (arith, v.covered))

  scan_free :
      (fuel o : ℕ) → o < p.max_host → used p.bitset o ≡ false → scan (suc fuel) p o ≡ ok (grant p o)
  unfolding scan wrap
  scan_free fuel o h e = ground (arith, test_at o (omega arith))

  scan_skip :
      (fuel o : ℕ)
      → o < p.max_host
      → used p.bitset o ≡ true
      → o + 1 ≢ p.next
      → scan (suc fuel) p o ≡ scan fuel p (o + 1)
  unfolding scan wrap
  scan_skip fuel o h e ne =
      let small : (o + 1) % u32_mod ≡ o + 1 = omega (arith, v.narrow) in
      ground (arith, test_at o (omega arith), small)

  scan_wrap : (fuel : ℕ) → scan (suc fuel) p p.max_host ≡ scan (suc fuel) p 2
  unfolding scan wrap
  scan_wrap fuel = ap (visit p (scan fuel p)) (ground (arith, v.wide))

  -- Up to a free offset f the scan stops at the first free one.
  abbrev Found : ℕ → ℕ → ℕ → Type 0
  Found fuel o f =
      (r : ℕ) × (o ≤ r)
      × (r ≤ f)
      × (used p.bitset r ≡ false)
      × Taken p o r
      × (scan fuel p o ≡ ok (grant p r))

  scan_up_to :
      (fuel o f : ℕ)
      → o ≤ f
      → f < p.max_host
      → used p.bitset f ≡ false
      → (p.next ≤ o) ⊎ (f < p.next)
      → f < o + fuel
      → Found fuel o f
  scan_up_to zero o f h m e side b = absurd (omega arith)
  scan_up_to (suc fuel) o f h m e side b = elim (Bool-cases (used p.bitset o)) [
    | inr free ↦ (
      o,
      omega arith,
      h,
      free,
      (λ i p q. absurd (omega arith)),
      scan_free fuel o (omega arith) free,
    )
    | inl taken ↦
        let ne : o ≢ f = λ q. cc in
        let skip = scan_skip fuel o (omega arith) taken (omega arith) in
        let (r, lo, hi, free, gap, run) =
          scan_up_to fuel (o + 1) f (omega arith) m e (omega arith) (omega arith) in
        (r, omega arith, hi, free, more taken gap, skip ∙ run)
  ]
    where
      more : {r : ℕ} → used p.bitset o ≡ true → Taken p (o + 1) r → Taken p o r
      more t g i a c = elim (Bool-cases (o == i)) [
        | inl same ↦ ground arith
        | inr other ↦ g i (ground arith) c
      ]

  -- From the hint on, with a free offset f below it, the scan goes round once at most.
  abbrev Stops : ℕ → ℕ → Type 0
  Stops fuel o =
      (r : ℕ) × (used p.bitset r ≡ false)
      × (scan fuel p o ≡ ok (grant p r))
      × (((o ≤ r) × (r < p.max_host) × Taken p o r)
          ⊎ ((2 ≤ r) × (r < p.next) × Taken p o p.max_host × Taken p 2 r))

  scan_round :
      (rounds fuel o f : ℕ)
      → o + rounds ≡ p.max_host
      → p.next ≤ o
      → 2 ≤ f
      → f < p.next
      → used p.bitset f ≡ false
      → rounds + f < fuel + 2
      → Stops fuel o
  scan_round zero zero o f s n two m e b = absurd (omega arith)
  scan_round zero (suc fuel) o f s n two m e b =
      let at_end : o ≡ p.max_host = omega arith in
      let (r, lo, hi, free, gap, run) =
        scan_up_to (suc fuel) 2 f two (omega (arith, v.hint)) e (inr m) (omega arith) in
      (
        r,
        free,
        ap (scan (suc fuel) p) at_end ∙ scan_wrap fuel ∙ run,
        inr (lo, omega arith, (λ i a c. absurd (omega arith)), gap),
      )
  scan_round (suc rounds) zero o f s n two m e b = absurd (omega arith)
  scan_round (suc rounds) (suc fuel) o f s n two m e b = elim (Bool-cases (used p.bitset o)) [
    | inr free ↦ (
      o,
      free,
      scan_free fuel o (omega arith) free,
      inl (omega arith, omega arith, (λ i a c. absurd (omega arith))),
    )
    | inl taken ↦
        let skip = scan_skip fuel o (omega arith) taken (omega arith) in
        let (r, free, run, side) =
          scan_round rounds fuel (o + 1) f (omega arith) (omega arith) two m e (omega arith) in
        (r, free, skip ∙ run, sides r taken side)
  ]
    where
      more : (r : ℕ) → used p.bitset o ≡ true → Taken p (o + 1) r → Taken p o r
      more r t g i a c = elim (Bool-cases (o == i)) [
        | inl same ↦ ground arith
        | inr other ↦ g i (ground arith) c
      ]

      sides :
          (r : ℕ)
          → used p.bitset o ≡ true
          → ((o + 1 ≤ r) × (r < p.max_host) × Taken p (o + 1) r)
            ⊎ ((2 ≤ r) × (r < p.next) × Taken p (o + 1) p.max_host × Taken p 2 r)
          → ((o ≤ r) × (r < p.max_host) × Taken p o r)
            ⊎ ((2 ≤ r) × (r < p.next) × Taken p o p.max_host × Taken p 2 r)
      sides r t (inl (a, b, g)) = inl (omega arith, b, more r t g)
      sides r t (inr (a, b, g, h)) = inr (a, b, more p.max_host t g, h)

  -- With a free offset below maxHost the loop ends within its fuel at the offset that `Picks` says.
  pub scan-Picks :
      (f : ℕ)
      → f < p.max_host
      → used p.bitset f ≡ false
      → (r : ℕ) × Picks p r × (scan (p.max_host + 2) p p.next ≡ ok (grant p r))
  scan-Picks f m e = elim (Bool-cases (leb p.next f)) [
    | inl after ↦
        let (r, lo, hi, free, gap, run) =
          scan_up_to (p.max_host + 2) p.next f (ground arith) m e (inl (omega arith))
            (omega arith) in
        (r, ahead lo (omega arith) free gap, run)
    | inr before ↦
        let (r, free, run, side) =
          scan_round (p.max_host - p.next) (p.max_host + 2) p.next f (omega (arith, v.hint))
            (omega arith) (above_one f (ground arith) e) (ground arith) e
            (ground (arith, v.hint)) in
        (r, picks r free side, run)
  ]
    where
      above_one : (f : ℕ) → f < p.next → used p.bitset f ≡ false → 2 ≤ f
      above_one zero lt e = absurd (omega (arith, v.hint_zero e))
      above_one (suc zero) lt e = absurd (omega (arith, v.hint_one e))
      above_one (suc (suc f)) lt e = omega arith

      picks :
          (r : ℕ)
          → used p.bitset r ≡ false
          → ((p.next ≤ r) × (r < p.max_host) × Taken p p.next r)
            ⊎ ((2 ≤ r) × (r < p.next) × Taken p p.next p.max_host × Taken p 2 r)
          → Picks p r
      picks r free (inl (a, b, g)) = ahead a b free g
      picks r free (inr (a, b, g, h)) = wrapped a b free g h
