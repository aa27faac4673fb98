-- ===== src/Net/Printable.antt =====
-- The characters of what net.IP.String and (*net.IPNet).String write.
use midori_vpn_core.Prelude.{
  ℕ, ◌/◌, ◌%◌, ◌^◌, ◌≤◌, ◌<◌, ◌≡◌, false, ◌∷◌, ◌++◌, leb, arith, Bool-cases, inl, inr,
}
use midori_vpn_core.Net.{Text, octet, print_ip, dot}
use midori_vpn_core.Strings.{is_empty}
use midori_vpn_core.Strings.Laws.{Chars, Chars-append}

-- A digit or a dot.
abbrev pub IsDotted : ℕ → Type 0
IsDotted c = (46 ≤ c) × (c ≤ 57)

octet-IsDotted : (n : ℕ) → n < 256 → Chars IsDotted (octet n)
unfolding octet
octet-IsDotted n h = elim (Bool-cases (leb 100 n)) [
  | inl e ↦ rw e (omega arith)
  | inr e ↦
      rw e
        (elim (Bool-cases (leb 10 n)) [ inl f ↦ rw f (ground arith) | inr f ↦ rw f (ground arith) ])
]

dotted : (s t : Text) → Chars IsDotted s → Chars IsDotted t → Chars IsDotted (s ++ dot ∷ t)
dotted s t h k = Chars-append IsDotted s (dot ∷ t) h (omega arith, k)

pub print_ip-IsDotted : (a : ℕ) → Chars IsDotted (print_ip a)
unfolding print_ip
print_ip-IsDotted a = dotted _ _ (octet-IsDotted (a / 2 ^ 24 % 256) (omega arith)) (
    dotted _ _ (octet-IsDotted (a / 2 ^ 16 % 256) (omega arith)) (
      dotted _ _ (octet-IsDotted (a / 2 ^ 8 % 256) (omega arith))
        (octet-IsDotted (a % 256) (omega arith))))

pub print_ip-nonempty : (a : ℕ) (t : Text) → is_empty (print_ip a ++ t) ≡ false
unfolding print_ip octet is_empty
print_ip-nonempty a t = elim (Bool-cases (leb 100 (a / 2 ^ 24 % 256))) [
  | inl e ↦ rw e
  | inr e ↦ rw e (elim (Bool-cases (leb 10 (a / 2 ^ 24 % 256))) [ inl f ↦ rw f | inr f ↦ rw f ])
]
