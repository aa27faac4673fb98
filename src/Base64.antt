-- ===== src/Base64.antt =====
-- encoding/base64's StdEncoding as the program uses it: EncodeToString and DecodeString over texts
-- as lists of bytes. DecodeString passes over '\r' and '\n', wants whole groups of four, and takes
-- '=' only as the last one or two characters.
pub mod RoundTrip
use midori_vpn_core.Prelude.{
  ℕ, zero, suc, ◌+◌, ◌-◌, ◌*◌, ◌/◌, ◌%◌, Bool, true, false, ◌&&◌, ◌||◌, not, List, [], ◌∷◌, ◌++◌,
  Option, none, some, ltb, leb, ◌==◌, if◌then◌else◌, ◌≡◌, refl,
}
use midori_vpn_core.Net.{Text, codes}

-- The alphabet A-Z a-z 0-9 + /.
pub char_of : ℕ → ℕ
char_of n =
    if ltb n 26
    then b'A' + n
    else if ltb n 52
    then b'a' + (n - 26)
    else if ltb n 62
    then b'0' + (n - 52)
    else if n == 62
    then b'+'
    else b'/'

pub value_of : ℕ → Option ℕ
value_of c =
    if leb b'A' c && leb c b'Z'
    then some (c - b'A')
    else if leb b'a' c && leb c b'z'
    then some (c - b'a' + 26)
    else if leb b'0' c && leb c b'9'
    then some (c - b'0' + 52)
    else if c == b'+'
    then some 62
    else if c == b'/'
    then some 63
    else none

abbrev pub pad : ℕ
pad = b'='

unfoldable pub encode : List ℕ → Text
unfolding char_of
encode [] = []
encode (a ∷ []) = char_of (a / 4) ∷ char_of (a % 4 * 16) ∷ pad ∷ pad ∷ []
encode (a ∷ b ∷ []) =
    char_of (a / 4) ∷ char_of (a % 4 * 16 + b / 16) ∷ char_of (b % 16 * 4) ∷ pad ∷ []
encode (a ∷ b ∷ c ∷ rest) =
    char_of (a / 4)
    ∷ char_of (a % 4 * 16 + b / 16)
    ∷ char_of (b % 16 * 4 + c / 64)
    ∷ char_of (c % 64)
    ∷ encode rest

pub strip_newlines : Text → Text
strip_newlines [] = []
strip_newlines (c ∷ t) =
    let rest = strip_newlines t in if c == 10 || c == 13 then rest else c ∷ rest

-- A full group, once its characters have values.
pub full_group : Option ℕ → Option ℕ → Option ℕ → Option ℕ → Option (List ℕ) → Option (List ℕ)
full_group (some p) (some q) (some r) (some s) (some rest) =
    some ((p * 4 + q / 16) ∷ (q % 16 * 16 + r / 4) ∷ (r % 4 * 64 + s) ∷ rest)
full_group _ _ _ _ _ = none

pub two_bytes : Option ℕ → Option ℕ → Option ℕ → Option (List ℕ)
two_bytes (some p) (some q) (some r) = some ((p * 4 + q / 16) ∷ (q % 16 * 16 + r / 4) ∷ [])
two_bytes _ _ _ = none

pub one_byte : Option ℕ → Option ℕ → Option (List ℕ)
one_byte (some p) (some q) = some ((p * 4 + q / 16) ∷ [])
one_byte _ _ = none

-- The last group, which may be padded.
pub last_group : ℕ → ℕ → ℕ → ℕ → Option (List ℕ)
last_group w x y z =
    if z == pad
    then (if y == pad
        then one_byte (value_of w) (value_of x)
        else two_bytes (value_of w) (value_of x) (value_of y))
    else full_group (value_of w) (value_of x) (value_of y) (value_of z) (some [])

pub groups : Text → Option (List ℕ)
groups [] = some []
groups (w ∷ x ∷ y ∷ z ∷ []) = last_group w x y z
groups (w ∷ x ∷ y ∷ z ∷ u ∷ rest) =
    full_group (value_of w) (value_of x) (value_of y) (value_of z) (groups (u ∷ rest))
groups _ = none

unfoldable pub decode : Text → Option (List ℕ)
unfolding groups last_group full_group two_bytes one_byte value_of strip_newlines
decode t = groups (strip_newlines t)

encode_sample : encode (codes "wg") ≡ codes "d2c="
unfolding encode
encode_sample = refl

decode_sample : decode (codes "d2c=") ≡ some (codes "wg")
unfolding decode
decode_sample = refl

decode_short : decode (codes "d2c") ≡ none
unfolding decode
decode_short = refl
