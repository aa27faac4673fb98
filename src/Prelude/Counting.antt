-- ===== src/Prelude/Counting.antt =====
-- Counting the numbers below a bound that satisfy a Boolean test.
use midori_vpn_core.Prelude.Tests.{◌==◌, if◌then◌else◌, Bool-cases}
use Prim.Native.Nat.{ℕ, zero, suc, ◌+◌, ◌≤◌, ◌<◌}
use mathlib.Core.Path.{◌≡◌, refl}
use mathlib.Core.Logic.{inl, inr}
use mathlib.Core.Bool.{Bool, true, false, not}
use native.Mathlib.Omega.{arith}

abbrev pub one_if : Bool → ℕ
one_if true = 1
one_if false = 0

-- How many numbers below n satisfy f.
unfoldable pub count_below : (ℕ → Bool) → ℕ → ℕ
count_below f zero = 0
count_below f (suc n) = one_if (f n) + count_below f n

pub count_below-cong :
    (f g : ℕ → Bool) (n : ℕ) → ((i : ℕ) → i < n → f i ≡ g i) → count_below f n ≡ count_below g n
unfolding count_below
count_below-cong f g zero h = refl
count_below-cong f g (suc n) h =
    ground (arith, h n, count_below-cong f g n (λ i p. h i (omega arith)))

-- The test f, but with the answer b at i.
pub updated : (ℕ → Bool) → ℕ → Bool → ℕ → Bool
updated f i b j = if i == j then b else f j

pub updated_lem :
    (f : ℕ → Bool) (i : ℕ) (b : Bool) (j : ℕ) → updated f i b j ≡ (if i == j then b else f j)
unfolding updated
updated_lem f i b j = refl

pub count_below-updated_above :
    (f : ℕ → Bool) (i : ℕ) (b : Bool) (n : ℕ)
    → n ≤ i
    → count_below (updated f i b) n ≡ count_below f n
unfolding count_below updated
count_below-updated_above f i b zero h = refl
count_below-updated_above f i b (suc n) h =
    ground (arith, count_below-updated_above f i b n (omega arith))

pub count_below-updated :
    (f : ℕ → Bool) (i : ℕ) (b : Bool) (n : ℕ)
    → i < n
    → one_if (f i) + count_below (updated f i b) n ≡ one_if b + count_below f n
unfolding count_below updated
count_below-updated f i b zero h = absurd (omega arith)
count_below-updated f i b (suc n) h = elim (Bool-cases (i == n)) [
  | inl e ↦ ground (arith, count_below-updated_above f i b n)
  | inr e ↦ ground (arith, count_below-updated f i b n)
]

pub count_below-le : (f : ℕ → Bool) (n : ℕ) → count_below f n ≤ n
unfolding count_below
count_below-le f zero = omega arith
count_below-le f (suc n) = ground (arith, count_below-le f n)

pub count_below_mono : (f : ℕ → Bool) (m n : ℕ) → m ≤ n → count_below f m ≤ count_below f n
unfolding count_below
count_below_mono f m zero h = ground arith
count_below_mono f m (suc n) h = ground (arith, count_below_mono f m n)

-- Fewer than n of them: one is missing.
pub count_below-gap :
    (f : ℕ → Bool) (n : ℕ) → count_below f n < n → (i : ℕ) × (i < n) × (f i ≡ false)
unfolding count_below
count_below-gap f zero h = absurd (omega arith)
count_below-gap f (suc n) h = elim (Bool-cases (f n)) [
  | inl e ↦ let (i, p, q) = count_below-gap f n (ground arith) in (i, omega arith, q)
  | inr e ↦ (n, omega arith, e)
]

pub count_below-none : (f : ℕ → Bool) (n : ℕ) → ((i : ℕ) → f i ≡ false) → count_below f n ≡ 0
unfolding count_below
count_below-none f zero h = refl
count_below-none f (suc n) h = ground (arith, h n, count_below-none f n h)

-- A range in two parts.
pub count_below-add :
    (f : ℕ → Bool) (m n : ℕ)
    → count_below f (n + m) ≡ count_below (λ i. f (i + m)) n + count_below f m
unfolding count_below
count_below-add f m zero = ground arith
count_below-add f m (suc n) =
    let e : suc n + m ≡ suc (n + m) = omega arith in rw e (omega (arith, count_below-add f m n))

-- The numbers that do not satisfy f.
unfoldable pub negated : (ℕ → Bool) → ℕ → Bool
negated f i = not (f i)

pub count_below-negated : (f : ℕ → Bool) (n : ℕ) → count_below (negated f) n + count_below f n ≡ n
unfolding count_below negated
count_below-negated f zero = omega arith
count_below-negated f (suc n) = elim (Bool-cases (f n)) [
  | inl e ↦ rw e (omega (arith, count_below-negated f n))
  | inr e ↦ rw e (omega (arith, count_below-negated f n))
]
