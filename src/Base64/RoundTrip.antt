-- ===== src/Base64/RoundTrip.antt =====
-- Decoding what StdEncoding encodes.
use midori_vpn_core.Prelude.{
  ℕ, ◌+◌, ◌*◌, ◌/◌, ◌%◌, ◌<◌, false, List, [], ◌∷◌, some, ◌≡◌, ◌≢◌, refl, arith, ap, ◌∙◌,
}
use midori_vpn_core.Net.{Text}
use midori_vpn_core.Strings.{is_empty}
use midori_vpn_core.Strings.Laws.{Chars, IsSolid}
use midori_vpn_core.Base64.{
  char_of, value_of, pad, encode, decode, strip_newlines, groups, full_group, two_bytes, one_byte,
  last_group,
}

value_of-char_of : (n : ℕ) → n < 64 → value_of (char_of n) ≡ some n
unfolding value_of char_of
value_of-char_of n h = ground arith

-- No character of the alphabet is a newline or the padding.
char_of_plain : (n : ℕ) → n < 64 → (char_of n ≢ 10) × (char_of n ≢ 13) × (char_of n ≢ pad)
unfolding char_of
char_of_plain n h = (ground arith, ground arith, ground arith)

abbrev pub AllBytes : List ℕ → Type 0
AllBytes [] = Unit {0}
AllBytes (a ∷ s) = (a < 256) × AllBytes s

-- A text in which DecodeString passes over nothing.
abbrev Plain : Text → Type 0
Plain t = strip_newlines t ≡ t

Plain-char : (n : ℕ) (t : Text) → n < 64 → Plain t → Plain (char_of n ∷ t)
unfolding strip_newlines
Plain-char n t h p = ground (arith, char_of_plain n h)

Plain-pad : (t : Text) → Plain t → Plain (pad ∷ t)
unfolding strip_newlines
Plain-pad t p = ground arith

Plain-nil : Plain []
unfolding strip_newlines
Plain-nil = refl

encode-Plain : (s : List ℕ) → AllBytes s → Plain (encode s)
unfolding encode
encode-Plain [] h = Plain-nil
encode-Plain (a ∷ []) h =
    Plain-char (a / 4) _ (omega arith)
      (Plain-char (a % 4 * 16) _ (omega arith) (Plain-pad _ (Plain-pad [] Plain-nil)))
encode-Plain (a ∷ b ∷ []) h = Plain-char (a / 4) _ (omega arith) (
    Plain-char (a % 4 * 16 + b / 16) _ (omega arith)
      (Plain-char (b % 16 * 4) _ (omega arith) (Plain-pad [] Plain-nil)))
encode-Plain (a ∷ b ∷ c ∷ rest) h = Plain-char (a / 4) _ (omega arith) (
    Plain-char (a % 4 * 16 + b / 16) _ (omega arith) (
      Plain-char (b % 16 * 4 + c / 64) _ (omega arith)
        (Plain-char (c % 64) _ (omega arith) (encode-Plain rest h.1.1.1))))

groups_full :
    (w x y z : ℕ) (t : Text)
    → z ≢ pad
    → groups (w ∷ x ∷ y ∷ z ∷ t)
      ≡ full_group (value_of w) (value_of x) (value_of y) (value_of z) (groups t)
unfolding groups last_group
groups_full w x y z [] h = ground arith
groups_full w x y z (u ∷ rest) h = refl

groups-encode : (s : List ℕ) → AllBytes s → groups (encode s) ≡ some s
unfolding encode full_group
groups-encode [] h = unfold groups in refl
groups-encode (a ∷ []) h =
    unfold groups last_group one_byte in
    ground
      (arith, value_of-char_of (a / 4) (omega arith), value_of-char_of (a % 4 * 16) (omega arith))
groups-encode (a ∷ b ∷ []) h =
    unfold groups last_group two_bytes in
    ground (
      arith,
      value_of-char_of (a / 4) (omega arith),
      value_of-char_of (a % 4 * 16 + b / 16) (omega arith),
      value_of-char_of (b % 16 * 4) (omega arith),
      char_of_plain (b % 16 * 4) (omega arith),
    )
groups-encode (a ∷ b ∷ c ∷ rest) h =
    groups_full _ _ _ _ (encode rest) (char_of_plain (c % 64) (omega arith)).2
    ∙ ground (
      arith,
      value_of-char_of (a / 4) (omega arith),
      value_of-char_of (a % 4 * 16 + b / 16) (omega arith),
      value_of-char_of (b % 16 * 4 + c / 64) (omega arith),
      value_of-char_of (c % 64) (omega arith),
      groups-encode rest h.1.1.1,
    )

-- DecodeString gives back what EncodeToString was given, for any bytes.
pub decode-encode : (s : List ℕ) → AllBytes s → decode (encode s) ≡ some s
unfolding decode
decode-encode s h = ap groups (encode-Plain s h) ∙ groups-encode s h

-- What is encoded is printable, and empty only for no bytes.
char_of-solid : (n : ℕ) → n < 64 → 32 < char_of n
unfolding char_of
char_of-solid n h = ground arith

pub encode-IsSolid : (s : List ℕ) → AllBytes s → Chars IsSolid (encode s)
unfolding encode
encode-IsSolid [] h = tt
encode-IsSolid (a ∷ []) h =
    (char_of-solid (a / 4) (omega arith), (char_of-solid (a % 4 * 16) (omega arith), omega arith))
encode-IsSolid (a ∷ b ∷ []) h = (
  char_of-solid (a / 4) (omega arith),
  (
    char_of-solid (a % 4 * 16 + b / 16) (omega arith),
    (char_of-solid (b % 16 * 4) (omega arith), omega arith),
  ),
)
encode-IsSolid (a ∷ b ∷ c ∷ rest) h = (
  char_of-solid (a / 4) (omega arith),
  (
    char_of-solid (a % 4 * 16 + b / 16) (omega arith),
    (
      char_of-solid (b % 16 * 4 + c / 64) (omega arith),
      (char_of-solid (c % 64) (omega arith), encode-IsSolid rest h.1.1.1),
    ),
  ),
)

pub encode-nonempty : (a : ℕ) (s : List ℕ) → is_empty (encode (a ∷ s)) ≡ false
unfolding encode is_empty
encode-nonempty a [] = refl
encode-nonempty a (b ∷ []) = refl
encode-nonempty a (b ∷ c ∷ s) = refl
