-- ===== src/IpPool/Bitset.antt =====
-- The field bitset of internal/ippool/pool.go: one bit for each host offset, in words of 64 bits.
-- Clients see `used` and the laws below.
use midori_vpn_core.Prelude.{
  ℕ, zero, suc, ◌+◌, ◌*◌, ◌/◌, ◌%◌, ◌<◌, ◌≡◌, refl, ap, sym, ◌∙◌, inl, inr, Bool, true, false, List,
  [], ◌∷◌, Option, none, some, length, get_elem?, set, replicate, length-set, get_elem?-set_self,
  get_elem?-set_ne, get_elem?_in, get_elem?-replicate, ◌≡⟨◌⟩◌, ◌∎, ◌==◌, ltb, ltb→lt, ◌-◌,
  if◌then◌else◌, arith, Bool-cases, ==_iff, Option-cases,
}
use midori_vpn_core.Prelude.Bits.{
  has_bit, with_bit, without_bit, ones, has_bit-with_bit, has_bit-without_bit, has_bit-zero,
  has_bit_zero, has_bit-suc, ones-count_below,
}
use Prim.Native.Nat.{bit_or}
use mathlib.Core.Option.{some-injective}
use midori_vpn_core.Prelude.Counting.{count_below, count_below-add, count_below-cong}

-- p.bitset[offset/64] & (1 << (offset%64)) != 0; `none` is an index out of range.
unfoldable pub test : List ℕ → ℕ → Option Bool
test ws o = elim (get_elem? ws (o / 64)) [ none ↦ none | some w ↦ some (has_bit w (o % 64)) ]

-- p.bitset[offset/64] |= 1 << (offset%64)
unfoldable pub mark : List ℕ → ℕ → List ℕ
mark ws o = elim (get_elem? ws (o / 64)) [
  | none ↦ ws
  | some w ↦ set ws (o / 64) (with_bit w (o % 64))
]

-- p.bitset[offset/64] &^= 1 << (offset%64)
unfoldable pub unmark : List ℕ → ℕ → List ℕ
unmark ws o = elim (get_elem? ws (o / 64)) [
  | none ↦ ws
  | some w ↦ set ws (o / 64) (without_bit w (o % 64))
]

-- The loop of FreeCount over bits.OnesCount64.
unfoldable pub popcount : List ℕ → ℕ
popcount [] = 0
popcount (w ∷ ws) = ones 64 w + popcount ws

-- The abstract view: is the offset assigned?
unfoldable pub used : List ℕ → ℕ → Bool
used ws o = elim (get_elem? ws (o / 64)) [ none ↦ false | some w ↦ has_bit w (o % 64) ]

pub test-used : (ws : List ℕ) (o : ℕ) → o < length ws * 64 → test ws o ≡ some (used ws o)
unfolding test used
test-used ws o h = ground (arith, get_elem?_in ws (o / 64) (omega arith))

pub length-mark : (ws : List ℕ) (o : ℕ) → length (mark ws o) ≡ length ws
unfolding mark
length-mark ws o = elim (Option-cases (get_elem? ws (o / 64))) [
  | inl e ↦ rw (e, mark)
  | inr (w, e) ↦ rw (e, mark) (length-set ws (o / 64) _)
]

pub length-unmark : (ws : List ℕ) (o : ℕ) → length (unmark ws o) ≡ length ws
unfolding unmark
length-unmark ws o = elim (Option-cases (get_elem? ws (o / 64))) [
  | inl e ↦ rw (e, unmark)
  | inr (w, e) ↦ rw (e, unmark) (length-set ws (o / 64) _)
]

same_offset : (o j : ℕ) → o / 64 ≡ j / 64 → (o % 64 == j % 64) ≡ (o == j)
same_offset o j e = ground arith

-- Writing a word that differs from the old one in the bit of offset o, which becomes b.
used_update :
    (ws : List ℕ) (o j w v : ℕ) (b : Bool)
    → o < length ws * 64
    → get_elem? ws (o / 64) ≡ some w
    → has_bit v (j % 64) ≡ (if o % 64 == j % 64 then b else has_bit w (j % 64))
    → used (set ws (o / 64) v) j ≡ (if o == j then b else used ws j)
unfolding used
used_update ws o j w v b h e bits = elim (Bool-cases (o / 64 == j / 64)) [
  | inl same ↦
      let q : o / 64 ≡ j / 64 = (==_iff _ _).0 same in
      ground (
        arith,
        get_elem?-set_self ws (o / 64) v (omega arith),
        ap (get_elem? ws) q,
        ap (get_elem? (set ws (o / 64) v)) q,
        same_offset o j q,
      )
  | inr other ↦ ground (arith, get_elem?-set_ne ws (o / 64) (j / 64) v (ground arith))
]

-- Marking an offset marks it and no other.
pub used-mark :
    (ws : List ℕ) (o j : ℕ)
    → o < length ws * 64
    → used (mark ws o) j ≡ (if o == j then true else used ws j)
unfolding mark
used-mark ws o j h =
    let (w, e) = get_elem?_in ws (o / 64) (omega arith) in
    rw (e, mark) (used_update ws o j w _ true h e (has_bit-with_bit w (o % 64) (j % 64)))

-- Unmarking an offset frees it and no other.
pub used-unmark :
    (ws : List ℕ) (o j : ℕ)
    → o < length ws * 64
    → used (unmark ws o) j ≡ (if o == j then false else used ws j)
unfolding unmark
used-unmark ws o j h =
    let (w, e) = get_elem?_in ws (o / 64) (omega arith) in
    rw (e, unmark) (used_update ws o j w _ false h e (has_bit-without_bit w (o % 64) (j % 64)))

used-cons_low : (w : ℕ) (ws : List ℕ) (o : ℕ) → o < 64 → used (w ∷ ws) o ≡ has_bit w o
unfolding used
used-cons_low w ws o h =
    let q : o / 64 ≡ 0 = omega arith in let r : o % 64 ≡ o = omega arith in rw (q, r, used)

used-cons_high : (w : ℕ) (ws : List ℕ) (o : ℕ) → used (w ∷ ws) (o + 64) ≡ used ws o
unfolding used
used-cons_high w ws o =
    let q : (o + 64) / 64 ≡ suc (o / 64) = omega arith in
    let r : (o + 64) % 64 ≡ o % 64 = omega arith in ground (arith, q, r)

-- The popcount of the words is the number of assigned offsets.
pub popcount-count_below : (ws : List ℕ) → popcount ws ≡ count_below (used ws) (length ws * 64)
unfolding popcount
popcount-count_below [] = unfold count_below in refl
popcount-count_below (w ∷ ws) =
    popcount (w ∷ ws)
    ≡⟨ omega (
      arith,
      ones-count_below 64 w,
      popcount-count_below ws,
      count_below-cong (has_bit w) (used (w ∷ ws)) 64 (λ i p. sym (used-cons_low w ws i p)),
      count_below-cong (used ws) (λ i. used (w ∷ ws) (i + 64)) (length ws * 64)
          (λ i p. sym (used-cons_high w ws i)),
      count_below-add (used (w ∷ ws)) 64 (length ws * 64),
    ) ⟩
      count_below (used (w ∷ ws)) (length ws * 64 + 64)
    ≡⟨ ap (count_below (used (w ∷ ws))) {y = length (w ∷ ws) * 64} (omega arith) ⟩
      count_below (used (w ∷ ws)) (length (w ∷ ws) * 64) ∎

-- make([]uint64, words)
abbrev pub zero_words : ℕ → List ℕ
zero_words n = replicate n 0

pub used-zero_words : (n o : ℕ) → used (zero_words n) o ≡ false
unfolding used
used-zero_words n o = elim (Option-cases (get_elem? (zero_words n) (o / 64))) [
  | inl e ↦ rw (e, used)
  | inr (w, e) ↦ ground (arith, get_elem?-replicate n (o / 64) 0 w e, has_bit-zero (o % 64))
]

-- bs[0] |= 0b11; `none` is an index out of range.
unfoldable pub reserve_low : List ℕ → Option (List ℕ)
reserve_low [] = none
reserve_low (w ∷ ws) = some (bit_or w 0b11 ∷ ws)

has_bit_three : (b : ℕ) → has_bit 3 b ≡ ltb b 2
has_bit_three zero = rw (has_bit_zero 3)
has_bit_three (suc zero) = rw (has_bit-suc 3 0, has_bit_zero 1)
has_bit_three (suc (suc b)) =
    rw (has_bit-suc 3 (suc b), has_bit-suc 1 b, has_bit-zero b) (ground arith)

-- On fresh words, offsets 0 and 1 are taken and no others.
pub used-reserve_low :
    (n o : ℕ) {ws : List ℕ} → reserve_low (zero_words (suc n)) ≡ some ws → used ws o ≡ ltb o 2
unfolding reserve_low
used-reserve_low n o {ws} h =
    ap (λ l. used l o) (sym (some-injective _ _ h)) ∙ elim (Bool-cases (ltb o 64)) [
      | inl low ↦ used-cons_low 3 (zero_words n) o (ltb→lt o 64 low) ∙ has_bit_three o
      | inr high ↦
          let e : o ≡ (o - 64) + 64 = ground arith in
          ap (used (3 ∷ zero_words n)) e
          ∙ used-cons_high 3 (zero_words n) (o - 64)
          ∙ used-zero_words n (o - 64)
          ∙ ground arith
    ]

pub length-reserve_low :
    (ws : List ℕ) {vs : List ℕ} → reserve_low ws ≡ some vs → length vs ≡ length ws
unfolding reserve_low
length-reserve_low [] h = cc
length-reserve_low (w ∷ ws) h = ap length (sym (some-injective _ _ h))

pub reserve_low-ne-none : (n : ℕ) → reserve_low (zero_words (suc n)) ≡ none → ⊥
unfolding reserve_low
reserve_low-ne-none n h = cc
