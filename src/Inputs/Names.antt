-- ===== src/Inputs/Names.antt =====
-- The names of devices and the endpoints of servers in internal/control/handler.go.
use midori_vpn_core.Prelude.{
  ℕ, zero, suc, ◌≤◌, ◌≡◌, refl, Bool, true, false, [], ◌∷◌, ltb, length, arith, Bool-cases, inl,
  inr,
}
use midori_vpn_core.Net.{Text, codes}
use midori_vpn_core.Strings.{is_empty}
use midori_vpn_core.Inputs.{
  is_name_char, all_chars, keep_chars, first_chars, or_default, sanitize_device_name,
}

all_chars-keep_chars : (f : ℕ → Bool) (t : Text) → all_chars f (keep_chars f t) ≡ true
unfolding all_chars keep_chars
all_chars-keep_chars f [] = refl
all_chars-keep_chars f (c ∷ t) = ground (arith, all_chars-keep_chars f t)

all_chars-first_chars :
    (f : ℕ → Bool) (n : ℕ) (t : Text) → all_chars f t ≡ true → all_chars f (first_chars n t) ≡ true
unfolding all_chars first_chars
all_chars-first_chars f zero t h = refl
all_chars-first_chars f (suc n) [] h = refl
all_chars-first_chars f (suc n) (c ∷ t) h = ground (arith, all_chars-first_chars f n t)

length-first_chars : (n : ℕ) (t : Text) → length (first_chars n t) ≤ n
unfolding first_chars
length-first_chars zero t = omega arith
length-first_chars (suc n) [] = omega arith
length-first_chars (suc n) (c ∷ t) = omega (arith, length-first_chars n t)

-- A name that a Content-Disposition header can carry between quotes.
pub record IsSafe (t : Text) : Type 0 where
  pub safe : all_chars is_name_char t ≡ true
  pub short : length t ≤ 64
  pub present : is_empty t ≡ false

or_default-IsSafe :
    (t : Text)
    → all_chars is_name_char t ≡ true
    → length t ≤ 64
    → IsSafe (or_default (codes "device") t)
unfolding or_default is_empty all_chars
or_default-IsSafe [] h k = record {
  safe = unfold is_name_char in refl;
  short = omega arith;
  present = refl;
}
or_default-IsSafe (c ∷ t) h k = record { safe = h; short = k; present = refl }

-- The name of a device is made of letters, digits, dots, underscores and dashes only, and has
-- between 1 and 64 characters, whatever the client sent.
pub sanitize_device_name-IsSafe : (name : Text) → IsSafe (sanitize_device_name name)
unfolding sanitize_device_name
sanitize_device_name-IsSafe name = elim (Bool-cases (ltb 64 (length kept))) [
  | inl e ↦ rw e (
      or_default-IsSafe (first_chars 64 kept)
        (all_chars-first_chars is_name_char 64 kept (all_chars-keep_chars is_name_char name))
        (length-first_chars 64 kept))
  | inr e ↦ rw e (or_default-IsSafe kept (all_chars-keep_chars is_name_char name) (ground arith))
]
  where
    kept : Text
    kept = keep_chars is_name_char name
