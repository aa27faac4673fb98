-- ===== src/Net/RoundTrip.antt =====
-- Reading back what net.IP.String writes.
use midori_vpn_core.Prelude.{
  ℕ, ◌+◌, ◌-◌, ◌*◌, ◌/◌, ◌%◌, ◌^◌, ◌<◌, ◌≡◌, ◌≢◌, refl, [], ◌∷◌, ◌++◌, Option, none, some, leb,
  if◌then◌else◌, arith, ap, ◌∙◌, sym, Bool-cases, inl, inr,
}
use midori_vpn_core.Net.{
  Text, codes, dot, slash, is_digit, Fields, field_step, run_fields, finish, parse_ip, octet,
  print_ip, cut, parse_cidr, u32_mod,
}

run_fields-none : (t : Text) → run_fields none t ≡ none
unfolding run_fields
run_fields-none [] = refl
run_fields-none (c ∷ t) = refl

run_fields-append :
    (o : Option Fields) (t u : Text) → run_fields o (t ++ u) ≡ run_fields (run_fields o t) u
unfolding run_fields
run_fields-append none t u = rw (run_fields-none u) refl
run_fields-append (some s) [] u = refl
run_fields-append (some s) (c ∷ t) u = run_fields-append (field_step s c) t u

octet_len : ℕ → ℕ
octet_len n = if leb 100 n then 3 else if leb 10 n then 2 else 1

abbrev at_field : ℕ → ℕ → Fields
at_field ip pos = record { ip = ip; pos = pos; val = 0; dig_len = 0 }

abbrev read_field : ℕ → ℕ → ℕ → Fields
read_field ip pos n = record { ip = ip; pos = pos; val = n; dig_len = octet_len n }

run_fields-octet :
    (ip pos n : ℕ)
    → n < 256
    → run_fields (some (at_field ip pos)) (octet n) ≡ some (read_field ip pos n)
unfolding run_fields field_step is_digit octet octet_len
run_fields-octet ip pos n h = ground arith

field_step-dot :
    (ip pos n : ℕ)
    → pos < 3
    → field_step (read_field ip pos n) dot ≡ some (at_field (ip * 256 + n) (pos + 1))
unfolding field_step is_digit octet_len
field_step-dot ip pos n h = ground arith

run_fields-octet-dot :
    (ip pos n next : ℕ) (t : Text)
    → n < 256
    → pos < 3
    → next ≡ ip * 256 + n
    → run_fields (some (at_field ip pos)) (octet n ++ dot ∷ t)
      ≡ run_fields (some (at_field next (pos + 1))) t
run_fields-octet-dot ip pos n next t h p e =
    run_fields-append (some (at_field ip pos)) (octet n) (dot ∷ t)
    ∙ ap (λ o. run_fields o (dot ∷ t)) (run_fields-octet ip pos n h)
    ∙ unfold run_fields in
      ap (λ o. run_fields o t) (field_step-dot ip pos n p)
      ∙ ap (λ k. run_fields (some (at_field k (pos + 1))) t) (sym e)

finish-octet :
    (ip n : ℕ)
    → n < 256
    → finish (run_fields (some (at_field ip 3)) (octet n)) ≡ some (ip * 256 + n)
unfolding finish octet_len
finish-octet ip n h = rw (run_fields-octet ip 3 n h) (ground arith)

join_bytes :
    (a : ℕ)
    → a < u32_mod
    → (((a / 2 ^ 24 % 256) * 256 + a / 2 ^ 16 % 256) * 256 + a / 2 ^ 8 % 256) * 256 + a % 256 ≡ a
join_bytes a h = omega arith

pub parse_ip-print_ip : (a : ℕ) → a < u32_mod → parse_ip (print_ip a) ≡ some a
unfolding parse_ip print_ip
parse_ip-print_ip a h =
    ap finish (
      run_fields-octet-dot 0 0 (a / 2 ^ 24 % 256) (a / 2 ^ 24 % 256) _ (omega arith) (omega arith)
        (omega arith)
      ∙ run_fields-octet-dot _ 1 (a / 2 ^ 16 % 256) _ _ (omega arith) (omega arith) refl
      ∙ run_fields-octet-dot _ 2 (a / 2 ^ 8 % 256) _ _ (omega arith) (omega arith) refl)
    ∙ finish-octet _ (a % 256) (omega arith)
    ∙ ap some (join_bytes a h)

-- No byte of the text is the separator.
abbrev Lacks : ℕ → Text → Type 0
Lacks sep [] = Unit {0}
Lacks sep (c ∷ t) = (c ≢ sep) × Lacks sep t

Lacks-append : (sep : ℕ) (t u : Text) → Lacks sep t → Lacks sep u → Lacks sep (t ++ u)
Lacks-append sep [] u h k = k
Lacks-append sep (c ∷ t) u h k = (h.0, Lacks-append sep t u h.1 k)

cut-append : (sep : ℕ) (t u : Text) → Lacks sep t → cut sep (t ++ sep ∷ u) ≡ (t, some u)
unfolding cut
cut-append sep [] u h = ground arith
cut-append sep (c ∷ t) u h = ground (arith, cut-append sep t u h.1)

cut-Lacks : (sep : ℕ) (t : Text) → Lacks sep t → cut sep t ≡ (t, none)
unfolding cut
cut-Lacks sep [] h = refl
cut-Lacks sep (c ∷ t) h = ground (arith, cut-Lacks sep t h.1)

octet-Lacks : (n : ℕ) → Lacks slash (octet n)
unfolding octet
octet-Lacks n = elim (Bool-cases (leb 100 n)) [
  | inl e ↦ rw e (omega arith)
  | inr e ↦
      rw e
        (elim (Bool-cases (leb 10 n)) [ inl f ↦ rw f (omega arith) | inr f ↦ rw f (omega arith) ])
]

dotted-Lacks : (t u : Text) → Lacks slash t → Lacks slash u → Lacks slash (t ++ dot ∷ u)
dotted-Lacks t u h k = Lacks-append slash t (dot ∷ u) h (omega arith, k)

print_ip-Lacks : (a : ℕ) → Lacks slash (print_ip a)
unfolding print_ip
print_ip-Lacks a = dotted-Lacks _ _ (octet-Lacks (a / 2 ^ 24 % 256)) (
    dotted-Lacks _ _ (octet-Lacks (a / 2 ^ 16 % 256))
      (dotted-Lacks _ _ (octet-Lacks (a / 2 ^ 8 % 256)) (octet-Lacks (a % 256))))

-- The text before the mask, whether there is a mask or not.
pub cut-print_ip_mask :
    (a : ℕ) (m : Text) → cut slash (print_ip a ++ slash ∷ m) ≡ (print_ip a, some m)
cut-print_ip_mask a m = cut-append slash (print_ip a) m (print_ip-Lacks a)

pub cut-print_ip : (a : ℕ) → cut slash (print_ip a) ≡ (print_ip a, none)
cut-print_ip a = cut-Lacks slash (print_ip a) (print_ip-Lacks a)

host_address : (a : ℕ) → a - a % 1 ≡ a
host_address a = omega arith

pub parse_cidr-print_ip :
    (a : ℕ)
    → a < u32_mod
    → parse_cidr (print_ip a ++ codes "/32") ≡ some (record { address = a; prefix_len = 32 })
unfolding parse_cidr
parse_cidr-print_ip a h =
    rw (cut-print_ip_mask a (codes "32"), parse_ip-print_ip a h) (ground (arith, host_address a))

pub print_ip-injective : (a b : ℕ) → a < u32_mod → b < u32_mod → print_ip a ≡ print_ip b → a ≡ b
print_ip-injective a b h k e =
    ground (arith, parse_ip-print_ip a h, parse_ip-print_ip b k, ap parse_ip e)
