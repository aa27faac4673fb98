-- ===== src/Net.antt =====
-- The parts of Go's package net that the program uses on IPv4 addresses: ParseIP(s).To4(),
-- net.IP.String, ParseCIDR and the subnet test of net.IPNet, over texts as lists of bytes.
-- An address is the uint32 that binary.BigEndian reads from its four bytes.
pub mod RoundTrip
pub mod Range
pub mod Printable
use Prim.Native.Char.{code}
use Prim.Native.String.{String}
use midori_vpn_core.Prelude.{
  ℕ, zero, suc, ◌+◌, ◌-◌, ◌*◌, ◌/◌, ◌%◌, ◌^◌, Bool, true, false, ◌&&◌, ◌||◌, List, [], ◌∷◌, ◌++◌,
  Option, none, some, ltb, leb, ◌==◌, if◌then◌else◌, ◌≡◌, refl,
}

abbrev pub Text : Type 0
Text = List ℕ

-- The bytes of an ASCII literal.
abbrev pub codes : String → Text
codes String.[] = []
codes (String.◌∷◌ c s) = code c ∷ codes s

abbrev pub u32_mod : ℕ
u32_mod = 2 ^ 32

abbrev pub dot : ℕ
dot = b'.'

abbrev pub slash : ℕ
slash = b'/'

unfoldable pub is_digit : ℕ → Bool
is_digit c = leb b'0' c && leb c b'9'

-- What netip's field loop keeps: the fields read so far, their number, and the current field.
pub record Fields : Type 0 where
  pub ip : ℕ
  pub pos : ℕ
  pub val : ℕ
  pub dig_len : ℕ

pub start : Fields
start = record { ip = 0; pos = 0; val = 0; dig_len = 0 }

-- One byte of the loop; `none` is a parse error. A dot needs a digit before it.
pub field_step : Fields → ℕ → Option Fields
field_step s c =
    if is_digit c
    then (if s.dig_len == 1 && s.val == 0
        then none
        else if ltb 255 (s.val * 10 + (c - b'0'))
        then none
        else some (record s { val = s.val * 10 + (c - b'0'); dig_len = s.dig_len + 1 }))
    else if c == dot
    then (if s.dig_len == 0 || s.pos == 3
        then none
        else some (record { ip = s.ip * 256 + s.val; pos = s.pos + 1; val = 0; dig_len = 0 }))
    else none

pub run_fields : Option Fields → Text → Option Fields
run_fields none t = none
run_fields (some s) [] = some s
run_fields (some s) (c ∷ t) = run_fields (field_step s c) t

-- The end of the text: four fields, the last one not empty.
pub finish : Option Fields → Option ℕ
finish none = none
finish (some s) = if s.pos == 3 && ltb 0 s.dig_len then some (s.ip * 256 + s.val) else none

-- net.ParseIP(s).To4() on a text in dotted form.
unfoldable pub parse_ip : Text → Option ℕ
unfolding start field_step is_digit run_fields finish
parse_ip t = finish (run_fields (some start) t)

-- One decimal field, as appendDecimal writes a byte.
pub octet : ℕ → Text
octet n =
    if leb 100 n
    then (b'0' + n / 100) ∷ (b'0' + n / 10 % 10) ∷ (b'0' + n % 10) ∷ []
    else if leb 10 n
    then (b'0' + n / 10) ∷ (b'0' + n % 10) ∷ []
    else (b'0' + n) ∷ []

-- net.IP.String of the four bytes of a uint32.
unfoldable pub print_ip : ℕ → Text
unfolding octet
print_ip a =
    octet (a / 2 ^ 24 % 256)
    ++ dot ∷ (octet (a / 2 ^ 16 % 256) ++ dot ∷ (octet (a / 2 ^ 8 % 256) ++ dot ∷ octet (a % 256)))

-- The text before the first slash, and the text behind it.
unfoldable pub cut : ℕ → Text → Text × Option Text
cut sep [] = ([], none)
cut sep (c ∷ t) = let rest = cut sep t in if c == sep then ([], some t) else (c ∷ rest.0, rest.1)

-- dtoi, and the test that it read the whole text: a decimal of at least one digit. The loop stops
-- with failure at 0xFFFFFF, which no prefix length reaches.
unfoldable pub decimal_from : ℕ → Text → Option ℕ
decimal_from n [] = some n
decimal_from n (c ∷ t) =
    let rest = decimal_from (n * 10 + (c - b'0')) t in
    if is_digit c then (if leb 0xFFFFFF (n * 10 + (c - b'0')) then none else rest) else none

unfoldable pub decimal : Text → Option ℕ
unfolding decimal_from is_digit
decimal [] = none
decimal (c ∷ t) = decimal_from 0 (c ∷ t)

-- An IPv4 network: the masked address and the number of leading ones.
pub record Network : Type 0 where
  pub address : ℕ
  pub prefix_len : ℕ

-- The second result of net.ParseCIDR on an IPv4 text.
unfoldable pub network_of : Option ℕ → Option ℕ → Option Network
network_of (some ip) (some n) =
    if leb n 32 then some (record { address = ip - ip % 2 ^ (32 - n); prefix_len = n }) else none
network_of _ _ = none

unfoldable pub mask_text : Option Text → Option ℕ
unfolding decimal
mask_text none = none
mask_text (some t) = decimal t

unfoldable pub parse_cidr : Text → Option Network
unfolding cut parse_ip mask_text network_of
parse_cidr t = let parts = cut slash t in network_of (parse_ip parts.0) (mask_text parts.1)

-- (*net.IPNet).Contains
unfoldable pub contains : Network → ℕ → Bool
contains n ip = ip - ip % 2 ^ (32 - n.prefix_len) == n.address

parse_ip_sample : parse_ip (codes "10.8.0.5") ≡ some 0x0A080005
unfolding parse_ip
parse_ip_sample = refl

parse_ip_leading_zero : parse_ip (codes "10.8.00.5") ≡ none
unfolding parse_ip
parse_ip_leading_zero = refl

print_ip_sample : print_ip 0x0AC800FE ≡ codes "10.200.0.254"
unfolding print_ip
print_ip_sample = refl

parse_cidr_sample :
    parse_cidr (codes "10.8.3.4/16") ≡ some (record { address = 0x0A080000; prefix_len = 16 })
unfolding parse_cidr
parse_cidr_sample = refl
