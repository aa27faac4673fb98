-- ===== src/Inputs/Addresses.antt =====
-- The address of a client configuration: the loop of buildWGConfig in internal/control/handler.go.
use midori_vpn_core.Prelude.{
  ℕ, zero, suc, ◌+◌, ◌<◌, ◌≡◌, refl, sym, ap, subst, ◌∙◌, true, false, [], ◌∷◌, ◌++◌, Outcome, ok,
  length, ltb, arith, Bool-cases, inl, inr,
}
use midori_vpn_core.Prelude.Equality.{text_eq, text_beq_iff, ◌=?◌}
use midori_vpn_core.Net.{Text, codes}
use midori_vpn_core.Strings.{is_empty, contains_text, has_prefix, count_char}
use midori_vpn_core.Inputs.{
  has_suffix, trim_suffix, mask, strip_masks, with_mask, interface_address,
}

has_suffix_self : (t : Text) → has_suffix t t ≡ true
unfolding has_suffix is_empty
has_suffix_self [] = refl
has_suffix_self (c ∷ t) = ground (arith, text_beq_iff (c ∷ t) (c ∷ t))

has_suffix-append : (s t : Text) → has_suffix (s ++ t) t ≡ true
unfolding has_suffix
has_suffix-append [] t = has_suffix_self t
has_suffix-append (c ∷ s) t = ground (arith, has_suffix-append s t)

-- A suffix of a suffix.
has_suffix-part : (t a b : Text) → has_suffix t (a ++ b) ≡ true → has_suffix t b ≡ true
unfolding has_suffix is_empty
has_suffix-part [] [] b h = h
has_suffix-part [] (d ∷ a) b h = cc
has_suffix-part (c ∷ t) a b h = elim (Bool-cases ((c ∷ t) =? (a ++ b))) [
  | inl e ↦
      subst (λ u. has_suffix u b ≡ true) (sym ((text_beq_iff (c ∷ t) (a ++ b)).0 e))
        (has_suffix-append a b)
  | inr e ↦ ground (arith, has_suffix-part t a b (ground arith))
]

trim_suffix-shorter :
    (t s : Text) → is_empty s ≡ false → has_suffix t s ≡ true → length (trim_suffix t s) < length t
unfolding has_suffix trim_suffix
trim_suffix-shorter [] s n h = cc
trim_suffix-shorter (c ∷ t) s n h = ground (arith, trim_suffix-shorter t s n)

pub count_char-append :
    (c : ℕ) (s t : Text) → count_char c (s ++ t) ≡ count_char c s + count_char c t
unfolding count_char
count_char-append c [] t = omega arith
count_char-append c (d ∷ s) t = ground (arith, count_char-append c s t)

pub contains_text-slash : (t : Text) → contains_text t (codes "/") ≡ ltb 0 (count_char b'/' t)
unfolding contains_text count_char has_prefix
contains_text-slash [] = refl
contains_text-slash (c ∷ t) = ground (arith, contains_text-slash t)

-- Where the loop ends: with at most one mask at the end.
record Stripped (r : Outcome (Unit {0}) Text) : Type 0 where
  text : Text
  ends : r ≡ ok text
  single : has_suffix text (mask ++ mask) ≡ false

strip_masks-Stripped : (fuel : ℕ) (ip : Text) → length ip < fuel → Stripped (strip_masks fuel ip)
unfolding strip_masks
strip_masks-Stripped zero ip h = absurd (omega arith)
strip_masks-Stripped (suc fuel) ip h = elim (Bool-cases (has_suffix ip (mask ++ mask))) [
  | inl e ↦ rw e (
      strip_masks-Stripped fuel (trim_suffix ip mask) (
        omega (
          arith,
          trim_suffix-shorter ip mask (unfold is_empty in refl) (has_suffix-part ip mask mask e),
        )))
  | inr e ↦ rw e (record { text = ip; ends = refl; single = e })
]

-- A loop that ended, with an address that has a slash.
pub record IsPrinted (r : Outcome (Unit {0}) Text) : Type 0 where
  pub address : Text
  pub ends : r ≡ ok address
  pub masked : contains_text address (codes "/") ≡ true

with_mask-IsPrinted : (ip : Text) → IsPrinted (with_mask (ok ip))
unfolding with_mask
with_mask-IsPrinted ip = elim (Bool-cases (contains_text ip (codes "/"))) [
  | inl e ↦ rw e (record { address = ip; ends = refl; masked = e })
  | inr e ↦ rw e (record {
    address = ip ++ mask;
    ends = refl;
    masked = contains_text-slash (ip ++ mask) ∙ positive ip;
  })
]
  where
    positive : (ip : Text) → ltb 0 (count_char b'/' (ip ++ mask)) ≡ true
    positive ip = unfold count_char in ground (arith, count_char-append b'/' ip mask)

-- The loop that strips masks ends within its fuel for every address, and the address that is
-- printed has a mask.
pub interface_address-IsPrinted : (ip : Text) → IsPrinted (interface_address ip)
unfolding interface_address
interface_address-IsPrinted ip =
    let s = strip_masks-Stripped (suc (length ip)) ip (omega arith) in
    rw s.ends (with_mask-IsPrinted s.text)

module _ (ip : Text) (bare : contains_text ip (codes "/") ≡ false) where
  no_slash : count_char b'/' ip ≡ 0
  no_slash =
      let h : ltb 0 (count_char b'/' ip) ≡ false = sym (contains_text-slash ip) ∙ bare in
      ground arith

  one_slash : count_char b'/' (ip ++ mask) ≡ 1
  one_slash = unfold count_char in omega (arith, count_char-append b'/' ip mask, no_slash)

  masked : contains_text (ip ++ mask) (codes "/") ≡ true
  masked = contains_text-slash (ip ++ mask) ∙ ap (ltb 0) one_slash
