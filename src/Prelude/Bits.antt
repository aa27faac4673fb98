-- ===== src/Prelude/Bits.antt =====
-- Go's `w & (1 << b)`, `w | (1 << b)` and `w &^ (1 << b)` on machine words, and their laws for
-- every bit.
use Prim.Native.Nat.{
  ℕ, zero, suc, ◌+◌, ◌-◌, ◌*◌, ◌/◌, ◌%◌, ◌^◌, ◌≤◌, ◌<◌, min, max, bit_and, bit_or, digits,
  bit_and-bitwise, bit_or-bitwise,
}
use mathlib.Core.Path.{◌≡◌, refl, ap, ◌≡⟨◌⟩◌, ◌∎}
use mathlib.Core.Bool.{Bool, true, false, not}
use native.Mathlib.Omega.{arith}
use native.Mathlib.Nat.{pow-suc}
use midori_vpn_core.Prelude.Tests.{◌==◌, if◌then◌else◌}
use midori_vpn_core.Prelude.Counting.{one_if, count_below, count_below-add, count_below-cong}

-- 1 << b
abbrev pub mask : ℕ → ℕ
mask b = 2 ^ b

-- w & (1 << b) != 0
unfoldable pub has_bit : ℕ → ℕ → Bool
has_bit w b = not (bit_and w (mask b) == 0)

-- w | (1 << b)
unfoldable pub with_bit : ℕ → ℕ → ℕ
with_bit w b = bit_or w (mask b)

-- w &^ (1 << b)
unfoldable pub without_bit : ℕ → ℕ → ℕ
without_bit w b = w - bit_and w (mask b)

-- bits.OnesCount64, over the first k bits.
unfoldable pub ones : ℕ → ℕ → ℕ
ones zero w = 0
ones (suc k) w = w % 2 + ones k (w / 2)

-- The fuel of the digit recursion does not matter once it covers the left number.
module _ (z : ℕ → ℕ) (f : ℕ → ℕ → ℕ) where
  digits_enough : (n k a b : ℕ) → a ≤ n → a ≤ k → digits z f n a b ≡ digits z f k a b
  digits_enough zero zero a b p q = refl
  digits_enough zero (suc k) zero b p q = refl
  digits_enough (suc n) zero zero b p q = refl
  digits_enough (suc n) (suc k) zero b p q = refl
  digits_enough zero k (suc a) b p q = absurd (omega arith)
  digits_enough (suc n) zero (suc a) b p q = absurd (omega arith)
  digits_enough (suc n) (suc k) (suc a) b p q =
      let half : suc a / 2 ≤ a = omega arith in
      omega (arith, digits_enough n k (suc a / 2) (b / 2) (omega arith) (omega arith))

-- Both native operations, one digit at a time.
and_digit : (a b : ℕ) → bit_and a b ≡ min (a % 2) (b % 2) + 2 * bit_and (a / 2) (b / 2)
and_digit zero b = omega (arith, bit_and-bitwise 0 b, bit_and-bitwise 0 (b / 2))
and_digit (suc a) b =
    let h = suc a / 2 in
    let enough = digits_enough (λ _. zero) min a h h (b / 2) (omega arith) (omega arith) in
    omega (arith, bit_and-bitwise (suc a) b, bit_and-bitwise h (b / 2), enough)

or_digit : (a b : ℕ) → bit_or a b ≡ max (a % 2) (b % 2) + 2 * bit_or (a / 2) (b / 2)
or_digit zero b = omega (arith, bit_or-bitwise 0 b, bit_or-bitwise 0 (b / 2))
or_digit (suc a) b =
    let h = suc a / 2 in
    let enough = digits_enough (λ b. b) max a h h (b / 2) (omega arith) (omega arith) in
    omega (arith, bit_or-bitwise (suc a) b, bit_or-bitwise h (b / 2), enough)

-- A right operand of zero, by halving as often as a bound k says.
and_none : (k a : ℕ) → a < suc k → bit_and a 0 ≡ 0
and_none k zero h = bit_and-bitwise 0 0
and_none zero (suc a) h = absurd (omega arith)
and_none (suc k) (suc a) h =
    omega (arith, and_digit (suc a) 0, and_none k (suc a / 2) (omega arith))

or_none : (k a : ℕ) → a < suc k → bit_or a 0 ≡ a
or_none k zero h = bit_or-bitwise 0 0
or_none zero (suc a) h = absurd (omega arith)
or_none (suc k) (suc a) h = omega (arith, or_digit (suc a) 0, or_none k (suc a / 2) (omega arith))

and_mask_zero : (w : ℕ) → bit_and w 1 ≡ w % 2
and_mask_zero w = omega (arith, and_digit w 1, and_none (w / 2) (w / 2) (omega arith))

or_mask_zero : (w : ℕ) → bit_or w 1 ≡ 2 * (w / 2) + 1
or_mask_zero w = omega (arith, or_digit w 1, or_none (w / 2) (w / 2) (omega arith))

mask-suc : (b : ℕ) → mask (suc b) ≡ 2 * mask b
mask-suc b = omega (arith, pow-suc 2 b)

half_double : (m : ℕ) → 2 * m / 2 ≡ m
half_double m = omega arith

and_mask-suc : (w b : ℕ) → bit_and w (mask (suc b)) ≡ 2 * bit_and (w / 2) (mask b)
and_mask-suc w b =
    rw (mask-suc b) (rw (and_digit w (2 * mask b)) (rw (half_double (mask b)) (omega arith)))

or_mask-suc : (w b : ℕ) → bit_or w (mask (suc b)) ≡ w % 2 + 2 * bit_or (w / 2) (mask b)
or_mask-suc w b =
    rw (mask-suc b) (rw (or_digit w (2 * mask b)) (rw (half_double (mask b)) (omega arith)))

bit_and-mask-le : (w b : ℕ) → bit_and w (mask b) ≤ w
bit_and-mask-le w zero = omega (arith, and_mask_zero w)
bit_and-mask-le w (suc b) = omega (arith, and_mask-suc w b, bit_and-mask-le (w / 2) b)

-- The operations on the lowest bit and on the others.
pub has_bit_zero : (w : ℕ) → has_bit w 0 ≡ (w % 2 == 1)
unfolding has_bit
has_bit_zero w = ground (arith, and_mask_zero w)

pub has_bit-suc : (w b : ℕ) → has_bit w (suc b) ≡ has_bit (w / 2) b
unfolding has_bit
has_bit-suc w b = ground (arith, and_mask-suc w b)

pub with_bit_zero : (w : ℕ) → with_bit w 0 ≡ 2 * (w / 2) + 1
unfolding with_bit
with_bit_zero w = or_mask_zero w

pub with_bit-suc : (w b : ℕ) → with_bit w (suc b) ≡ w % 2 + 2 * with_bit (w / 2) b
unfolding with_bit
with_bit-suc w b = or_mask-suc w b

pub without_bit_zero : (w : ℕ) → without_bit w 0 ≡ 2 * (w / 2)
unfolding without_bit
without_bit_zero w = omega (arith, and_mask_zero w)

pub without_bit-suc : (w b : ℕ) → without_bit w (suc b) ≡ w % 2 + 2 * without_bit (w / 2) b
unfolding without_bit
without_bit-suc w b = omega (arith, and_mask-suc w b, bit_and-mask-le (w / 2) b)

-- Setting a bit sets that bit and no other.
pub has_bit-with_bit :
    (w b c : ℕ) → has_bit (with_bit w b) c ≡ (if b == c then true else has_bit w c)
has_bit-with_bit w zero zero = rw (has_bit_zero (with_bit w 0)) (ground (arith, with_bit_zero w))
has_bit-with_bit w zero (suc c) =
    rw (has_bit-suc (with_bit w 0) c, has_bit-suc w c)
      (let e : with_bit w 0 / 2 ≡ w / 2 = omega (arith, with_bit_zero w) in rw e (ground arith))
has_bit-with_bit w (suc b) zero =
    rw (has_bit_zero (with_bit w (suc b)), has_bit_zero w) (ground (arith, with_bit-suc w b))
has_bit-with_bit w (suc b) (suc c) =
    rw (has_bit-suc (with_bit w (suc b)) c, has_bit-suc w c)
      (let e : with_bit w (suc b) / 2 ≡ with_bit (w / 2) b = omega (arith, with_bit-suc w b) in
        rw e (ground (arith, has_bit-with_bit (w / 2) b c)))

-- Clearing a bit clears that bit and no other.
pub has_bit-without_bit :
    (w b c : ℕ) → has_bit (without_bit w b) c ≡ (if b == c then false else has_bit w c)
has_bit-without_bit w zero zero =
    rw (has_bit_zero (without_bit w 0)) (ground (arith, without_bit_zero w))
has_bit-without_bit w zero (suc c) =
    rw (has_bit-suc (without_bit w 0) c, has_bit-suc w c)
      (let e : without_bit w 0 / 2 ≡ w / 2 = omega (arith, without_bit_zero w) in
        rw e (ground arith))
has_bit-without_bit w (suc b) zero =
    rw (has_bit_zero (without_bit w (suc b)), has_bit_zero w) (ground (arith, without_bit-suc w b))
has_bit-without_bit w (suc b) (suc c) =
    rw (has_bit-suc (without_bit w (suc b)) c, has_bit-suc w c)
      (let e : without_bit w (suc b) / 2 ≡ without_bit (w / 2) b =
          omega (arith, without_bit-suc w b) in
        rw e (ground (arith, has_bit-without_bit (w / 2) b c)))

pub has_bit-zero : (b : ℕ) → has_bit 0 b ≡ false
unfolding has_bit
has_bit-zero b = ground (arith, bit_and-bitwise 0 (mask b))

bit_value : (r : ℕ) → r < 2 → one_if (r == 1) ≡ r
bit_value r h = ground arith

-- A popcount counts the set bits.
pub ones-count_below : (k w : ℕ) → ones k w ≡ count_below (has_bit w) k
unfolding ones count_below
ones-count_below zero w = refl
ones-count_below (suc k) w =
    let first : one_if (has_bit w 0) ≡ w % 2 =
      rw (has_bit_zero w) (bit_value (w % 2) (omega arith)) in
    let shifted = count_below-cong (λ i. has_bit w (i + 1)) (has_bit (w / 2)) k (λ i _. shift i) in
    w % 2 + ones k (w / 2)
    ≡⟨ omega (arith, count_below-add (has_bit w) 1 k, shifted, ones-count_below k (w / 2), first) ⟩
      count_below (has_bit w) (k + 1)
    ≡⟨ ap (count_below (has_bit w)) {y = suc k} (omega arith) ⟩ count_below (has_bit w) (suc k) ∎
  where
    shift : (i : ℕ) → has_bit w (i + 1) ≡ has_bit (w / 2) i
    shift i = let s : i + 1 ≡ suc i = omega arith in rw s (has_bit-suc w i)
