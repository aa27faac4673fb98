-- ===== src/Strings.antt =====
-- The functions of Go's strings and strconv packages that the program uses, on texts as lists of
-- bytes. White space is that of ASCII.
pub mod Laws
pub mod Decimal
use midori_vpn_core.Prelude.{
  ℕ, zero, suc, ◌+◌, ◌-◌, ◌*◌, ◌/◌, ◌%◌, ◌^◌, Bool, true, false, ◌&&◌, ◌||◌, not, List, [], ◌∷◌,
  ◌++◌, Option, none, some, ltb, leb, ◌==◌, if◌then◌else◌, ◌≡◌, refl,
}
use midori_vpn_core.Prelude.Int.{ℤ, pos, negsuc}
use midori_vpn_core.Prelude.Equality.{◌=?◌, text_eq, text_beq}
use midori_vpn_core.Net.{Text, codes}

pub is_space : ℕ → Bool
is_space c = c == b' ' || leb 9 c && leb c 13

unfoldable pub is_empty : Text → Bool
is_empty [] = true
is_empty (c ∷ t) = false

pub trim_left : Text → Text
trim_left [] = []
trim_left (c ∷ t) = let rest = trim_left t in if is_space c then rest else c ∷ t

pub trim_right : Text → Text
unfolding is_empty
trim_right [] = []
trim_right (c ∷ t) = let rest = trim_right t in if is_empty rest && is_space c then [] else c ∷ rest

-- strings.TrimSpace
unfoldable pub trim_space : Text → Text
unfolding trim_left trim_right is_space
trim_space t = trim_right (trim_left t)

pub cons_first : ℕ → List Text → List Text
cons_first c [] = (c ∷ []) ∷ []
cons_first c (t ∷ ts) = (c ∷ t) ∷ ts

-- strings.Split by one character
unfoldable pub split : ℕ → Text → List Text
unfolding cons_first
split sep [] = [] ∷ []
split sep (c ∷ t) = let rest = split sep t in if c == sep then [] ∷ rest else cons_first c rest

-- strings.HasPrefix
unfoldable pub has_prefix : Text → Text → Bool
has_prefix t [] = true
has_prefix [] (c ∷ p) = false
has_prefix (d ∷ t) (c ∷ p) = d == c && has_prefix t p

-- strings.Contains
unfoldable pub contains_text : Text → Text → Bool
unfolding has_prefix
contains_text [] p = has_prefix [] p
contains_text (c ∷ t) p = has_prefix (c ∷ t) p || contains_text t p

-- strings.Count by one character
unfoldable pub count_char : ℕ → Text → ℕ
count_char c [] = 0
count_char c (d ∷ t) = let rest = count_char c t in if d == c then suc rest else rest

-- One byte under strings.ToUpper and strings.ToLower, for ASCII.
unfoldable pub upper : ℕ → ℕ
upper c = if leb b'a' c && leb c b'z' then c - 32 else c

unfoldable pub lower : ℕ → ℕ
lower c = if leb b'A' c && leb c b'Z' then c + 32 else c

unfoldable pub map_text : (ℕ → ℕ) → Text → Text
map_text f [] = []
map_text f (c ∷ t) = f c ∷ map_text f t

-- strconv.Itoa of a natural number, one digit for each unit of fuel.
pub digits_of : ℕ → ℕ → Text
digits_of zero n = []
digits_of (suc fuel) n =
    let front = digits_of fuel (n / 10) in
    if ltb n 10 then (b'0' + n) ∷ [] else front ++ (b'0' + n % 10) ∷ []

unfoldable pub itoa : ℕ → Text
unfolding digits_of
itoa n = digits_of (suc n) n

abbrev pub is_decimal : ℕ → Bool
is_decimal c = leb b'0' c && leb c b'9'

-- The digits of strconv.Atoi, with the limit of an int64's absolute value.
pub atoi_digits : ℕ → ℕ → Text → Option ℕ
atoi_digits limit n [] = some n
atoi_digits limit n (c ∷ t) =
    let m = n * 10 + (c - b'0') in
    let rest = atoi_digits limit m t in
    if is_decimal c then (if leb m limit then rest else none) else none

pub negative : Option ℕ → Option ℤ
negative none = none
negative (some zero) = some (pos 0)
negative (some (suc n)) = some (negsuc n)

pub positive : Option ℕ → Option ℤ
positive none = none
positive (some n) = some (pos n)

pub atoi_unsigned : ℕ → Text → Option ℕ
unfolding atoi_digits
atoi_unsigned limit [] = none
atoi_unsigned limit (c ∷ t) = atoi_digits limit 0 (c ∷ t)

unfoldable pub atoi : Text → Option ℤ
unfolding atoi_unsigned negative positive
atoi [] = none
atoi (c ∷ t) =
    if c == b'-'
    then negative (atoi_unsigned (2 ^ 63) t)
    else if c == b'+'
    then positive (atoi_unsigned (2 ^ 63 - 1) t)
    else positive (atoi_unsigned (2 ^ 63 - 1) (c ∷ t))

trim_sample : trim_space (codes "  a b ") ≡ codes "a b"
unfolding trim_space
trim_sample = refl

split_sample : split b',' (codes "a,,b") ≡ codes "a" ∷ [] ∷ codes "b" ∷ []
unfolding split
split_sample = refl

itoa_sample : itoa 51820 ≡ codes "51820"
unfolding itoa
itoa_sample = refl

atoi_sample : atoi (codes "-12") ≡ some (negsuc 11)
unfolding atoi
atoi_sample = refl
