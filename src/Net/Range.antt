-- ===== src/Net/Range.antt =====
-- The ranges of what net.ParseIP and net.ParseCIDR give.
use native.Mathlib.Nat.{pow-suc}
use midori_vpn_core.Prelude.{
  ℕ, suc, ◌+◌, ◌-◌, ◌%◌, ◌^◌, ◌≤◌, ◌<◌, ◌≡◌, refl, [], ◌∷◌, Option, none, some, leb, arith, ap, inl,
  inr, Bool-cases,
}
use midori_vpn_core.Net.{
  Text, Fields, start, field_step, is_digit, run_fields, finish, parse_ip, Network, network_of,
  parse_cidr, cut, slash, mask_text, u32_mod,
}

-- The fields that are read so far are bytes.
record InRange (s : Fields) : Type 0 where
  few : s.pos ≤ 3
  byte : s.val < 256
  read : s.ip < 256 ^ s.pos

abbrev OptionInRange : Option Fields → Type 0
OptionInRange none = Unit {0}
OptionInRange (some s) = InRange s

field_step-InRange : (s : Fields) (c : ℕ) → InRange s → OptionInRange (field_step s c)
unfolding field_step is_digit
field_step-InRange s c h = ground (arith, h.few, h.byte, h.read, pow-suc 256 s.pos, step_pos s.pos)
  where
    step_pos : (n : ℕ) → 256 ^ (n + 1) ≡ 256 ^ suc n
    step_pos n = ap (λ (k : ℕ). 256 ^ k) (omega arith)

run_fields-InRange :
    (o : Option Fields) (t : Text) → OptionInRange o → OptionInRange (run_fields o t)
unfolding run_fields
run_fields-InRange none t h = tt
run_fields-InRange (some s) [] h = h
run_fields-InRange (some s) (c ∷ t) h =
    run_fields-InRange (field_step s c) t (field_step-InRange s c h)

finish_range : (o : Option Fields) {a : ℕ} → OptionInRange o → finish o ≡ some a → a < u32_mod
unfolding finish
finish_range none h e = cc
finish_range (some s) h e = ground (arith, h.byte, h.read, three s.pos)
  where
    three : (n : ℕ) → n ≡ 3 → 256 ^ n ≡ 16777216
    three n h = ap (λ (k : ℕ). 256 ^ k) {y = 3} h

pub parse_ip-lt : (t : Text) {a : ℕ} → parse_ip t ≡ some a → a < u32_mod
unfolding parse_ip
parse_ip-lt t e =
    finish_range (run_fields (some start) t)
      (run_fields-InRange (some start) t
        (record { few = omega arith; byte = omega arith; read = omega arith }))
      e

-- What ParseCIDR gives: an IPv4 address with the host bits cleared, and at most 32 leading ones.
pub parse_cidr_range :
    (t : Text) (n : Network)
    → parse_cidr t ≡ some n
    → (ip : ℕ) × (ip < u32_mod)
      × (n.address ≡ ip - ip % 2 ^ (32 - n.prefix_len))
      × (n.prefix_len ≤ 32)
parse_cidr_range t n e =
    from_parts (parse_ip (cut slash t).0) (mask_text (cut slash t).1)
      (λ a h. parse_ip-lt (cut slash t).0 h) (unfold parse_cidr in e)
  where
    from_parts :
        (o m : Option ℕ)
        → ((a : ℕ) → o ≡ some a → a < u32_mod)
        → network_of o m ≡ some n
        → (ip : ℕ) × (ip < u32_mod)
          × (n.address ≡ ip - ip % 2 ^ (32 - n.prefix_len))
          × (n.prefix_len ≤ 32)
    from_parts none m b h = unfold network_of in cc
    from_parts (some ip) none b h = unfold network_of in cc
    from_parts (some ip) (some k) b h =
        unfold network_of in
        (
          ip,
          b ip refl,
          elim (Bool-cases (leb k 32)) [ inl le ↦ cc h | inr gt ↦ cc h ],
          ground arith,
        )
