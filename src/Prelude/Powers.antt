-- ===== src/Prelude/Powers.antt =====
-- Powers of two.
use Prim.Native.Nat.{ℕ, zero, suc, ◌+◌, ◌*◌, ◌^◌, ◌≤◌}
use mathlib.Core.Path.{◌≡◌, ap}
use native.Mathlib.Omega.{arith}
use native.Mathlib.Nat.{pow-suc}

pub two_pow_add : (a b : ℕ) → 2 ^ a * 2 ^ b ≡ 2 ^ (a + b)
two_pow_add zero b = ground (arith, ap (λ (k : ℕ). 2 ^ k) {x = 0 + b} {y = b} (omega arith))
two_pow_add (suc a) b = omega (
  arith,
  ap (λ (t : ℕ). t * 2 ^ b) (pow-suc 2 a),
  pow-suc 2 (a + b),
  two_pow_add a b,
  ap (λ (k : ℕ). 2 ^ k) {x = suc a + b} {y = suc (a + b)} (omega arith),
)

pub two_pow_pos : (a : ℕ) → 1 ≤ 2 ^ a
two_pow_pos zero = omega arith
two_pow_pos (suc a) = omega (arith, pow-suc 2 a, two_pow_pos a)

pub two_pow_mono : (a b : ℕ) → a ≤ b → 2 ^ a ≤ 2 ^ b
two_pow_mono zero b h = omega (arith, two_pow_pos b)
two_pow_mono (suc a) zero h = absurd (omega arith)
two_pow_mono (suc a) (suc b) h =
    omega (arith, pow-suc 2 a, pow-suc 2 b, two_pow_mono a b (omega arith))
