-- ===== src/Strings/Decimal.antt =====
-- strconv.Itoa and strconv.Atoi on natural numbers.
use midori_vpn_core.Prelude.{
  ℕ, zero, suc, ◌+◌, ◌-◌, ◌*◌, ◌/◌, ◌%◌, ◌^◌, ◌≤◌, ◌<◌, ◌≡◌, refl, ap, ◌∙◌, false, [], ◌∷◌, ◌++◌,
  Option, none, some, ltb, arith, Bool-cases, inl, inr,
}
use midori_vpn_core.Prelude.Int.{pos}
use midori_vpn_core.Net.{Text, decimal, decimal_from, is_digit}
use midori_vpn_core.Strings.{digits_of, itoa, atoi, atoi_digits, positive, is_empty}
use midori_vpn_core.Strings.Laws.{Chars, Chars-append, Chars-map, IsSolid}

abbrev pub IsDigit : ℕ → Type 0
IsDigit c = (48 ≤ c) × (c ≤ 57)

digits_of-IsDigit : (fuel n : ℕ) → Chars IsDigit (digits_of fuel n)
unfolding digits_of
digits_of-IsDigit zero n = tt
digits_of-IsDigit (suc fuel) n = elim (Bool-cases (ltb n 10)) [
  | inl e ↦ rw e (ground arith)
  | inr e ↦ rw e (
      Chars-append IsDigit (digits_of fuel (n / 10)) _ (digits_of-IsDigit fuel (n / 10))
        (omega arith))
]

abbrev atoi_then : ℕ → Option ℕ → Text → Option ℕ
atoi_then limit none t = none
atoi_then limit (some n) t = atoi_digits limit n t

atoi_digits-append :
    (limit m : ℕ) (s t : Text)
    → atoi_digits limit m (s ++ t) ≡ atoi_then limit (atoi_digits limit m s) t
unfolding atoi_digits
atoi_digits-append limit m [] t = refl
atoi_digits-append limit m (c ∷ s) t =
    ground (arith, atoi_digits-append limit (m * 10 + (c - b'0')) s t)

atoi_digits-digits_of :
    (limit fuel n : ℕ) → n < fuel → n ≤ limit → atoi_digits limit 0 (digits_of fuel n) ≡ some n
unfolding digits_of
atoi_digits-digits_of limit zero n h k = absurd (omega arith)
atoi_digits-digits_of limit (suc fuel) n h k = elim (Bool-cases (ltb n 10)) [
  | inl e ↦ rw e (unfold atoi_digits in ground arith)
  | inr e ↦
      let front = atoi_digits-digits_of limit fuel (n / 10) (ground arith) (omega arith) in
      rw e (
        atoi_digits-append limit 0 (digits_of fuel (n / 10)) ((b'0' + n % 10) ∷ [])
        ∙ ap (λ o. atoi_then limit o ((b'0' + n % 10) ∷ [])) front
        ∙ last_digit limit n k)
]
  where
    last_digit :
        (limit n : ℕ) → n ≤ limit → atoi_digits limit (n / 10) ((b'0' + n % 10) ∷ []) ≡ some n
    last_digit limit n k = unfold atoi_digits in ground arith

digits_of-nonempty : (fuel n : ℕ) → is_empty (digits_of (suc fuel) n) ≡ false
unfolding digits_of is_empty
digits_of-nonempty fuel n = elim (Bool-cases (ltb n 10)) [
  | inl e ↦ rw e
  | inr e ↦ rw e (behind (digits_of fuel (n / 10)) _)
]
  where
    behind : (s : Text) (c : ℕ) → is_empty (s ++ c ∷ []) ≡ false
    behind [] c = refl
    behind (d ∷ s) c = refl

pub itoa-IsDigit : (n : ℕ) → Chars IsDigit (itoa n)
unfolding itoa
itoa-IsDigit n = digits_of-IsDigit (suc n) n

pub itoa-IsSolid : (n : ℕ) → Chars IsSolid (itoa n)
itoa-IsSolid n = Chars-map IsDigit IsSolid (itoa n) (λ c h. omega arith) (itoa-IsDigit n)

pub itoa-nonempty : (n : ℕ) → is_empty (itoa n) ≡ false
unfolding itoa
itoa-nonempty n = digits_of-nonempty n n

atoi_plain :
    (t : Text)
    → Chars IsDigit t
    → is_empty t ≡ false
    → atoi t ≡ positive (atoi_digits (2 ^ 63 - 1) 0 t)
unfolding atoi is_empty
atoi_plain [] h e = cc
atoi_plain (c ∷ t) h e = ground arith

-- Reading back a number that is printed, if it fits an int64.
pub atoi-itoa : (n : ℕ) → n < 2 ^ 63 → atoi (itoa n) ≡ some (pos n)
unfolding positive
atoi-itoa n h =
    atoi_plain (itoa n) (itoa-IsDigit n) (itoa-nonempty n) ∙ ap positive {y = some n} (digits n h)
  where
    digits : (n : ℕ) → n < 2 ^ 63 → atoi_digits (2 ^ 63 - 1) 0 (itoa n) ≡ some n
    digits n h =
        unfold itoa in atoi_digits-digits_of (2 ^ 63 - 1) (suc n) n (omega arith) (omega arith)

decimal_from-atoi_digits : (m : ℕ) (t : Text) → decimal_from m t ≡ atoi_digits 0xFFFFFE m t
unfolding decimal_from atoi_digits is_digit
decimal_from-atoi_digits m [] = refl
decimal_from-atoi_digits m (c ∷ t) =
    ground (arith, decimal_from-atoi_digits (m * 10 + (c - b'0')) t)

decimal_nonempty : (t : Text) → is_empty t ≡ false → decimal t ≡ decimal_from 0 t
unfolding decimal is_empty
decimal_nonempty [] e = cc
decimal_nonempty (c ∷ t) e = refl

-- A prefix length that is printed is read back.
pub decimal-itoa : (n : ℕ) → n < 0xFFFFFF → decimal (itoa n) ≡ some n
decimal-itoa n h =
    decimal_nonempty (itoa n) (itoa-nonempty n) ∙ decimal_from-atoi_digits 0 (itoa n) ∙ digits n h
  where
    digits : (n : ℕ) → n < 0xFFFFFF → atoi_digits 0xFFFFFE 0 (itoa n) ≡ some n
    digits n h = unfold itoa in atoi_digits-digits_of 0xFFFFFE (suc n) n (omega arith) (omega arith)
