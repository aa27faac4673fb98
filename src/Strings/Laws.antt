-- ===== src/Strings/Laws.antt =====
-- Laws of trimming and splitting, for texts of printable characters.
use midori_vpn_core.Prelude.{ℕ, ◌<◌, ◌≡◌, ◌≢◌, refl, ap, ◌∙◌, false, [], ◌∷◌, ◌++◌, arith}
use midori_vpn_core.Net.{Text}
use midori_vpn_core.Strings.{is_space, is_empty, trim_left, trim_right, trim_space, split}

-- A predicate on every character of a text.
abbrev pub Chars : (ℕ → Type 0) → Text → Type 0
Chars P [] = Unit {0}
Chars P (c ∷ t) = P c × Chars P t

pub Chars-append : (P : ℕ → Type 0) (s t : Text) → Chars P s → Chars P t → Chars P (s ++ t)
Chars-append P [] t h k = k
Chars-append P (c ∷ s) t h k = (h.0, Chars-append P s t h.1 k)

pub Chars-map : (P Q : ℕ → Type 0) (s : Text) → ((c : ℕ) → P c → Q c) → Chars P s → Chars Q s
Chars-map P Q [] f h = tt
Chars-map P Q (c ∷ s) f h = (f c h.0, Chars-map P Q s f h.1)

-- Printable, and no space.
abbrev pub IsSolid : ℕ → Type 0
IsSolid c = 32 < c

solid_not_space : (c : ℕ) → IsSolid c → is_space c ≡ false
unfolding is_space
solid_not_space c h = ground arith

trim_right-append :
    (s t : Text) → trim_right t ≡ t → is_empty t ≡ false → trim_right (s ++ t) ≡ s ++ t
unfolding trim_right is_empty
trim_right-append [] t h e = h
trim_right-append (c ∷ s) t h e =
    let rest : is_empty (s ++ t) ≡ false = nonempty s t e in
    ground (arith, trim_right-append s t h e, rest)
  where
    nonempty : (s t : Text) → is_empty t ≡ false → is_empty (s ++ t) ≡ false
    nonempty [] t e = e
    nonempty (c ∷ s) t e = refl

trim_right-solid : (t : Text) → Chars IsSolid t → trim_right t ≡ t
unfolding trim_right
trim_right-solid [] h = refl
trim_right-solid (c ∷ t) h = ground (arith, trim_right-solid t h.1, solid_not_space c h.0)

trim_left-solid : (c : ℕ) (t : Text) → IsSolid c → trim_left (c ∷ t) ≡ c ∷ t
unfolding trim_left
trim_left-solid c t h = ground (arith, solid_not_space c h)

-- A text whose first character and whose last part are solid is not changed.
pub trim_space-between :
    (c : ℕ) (s t : Text)
    → IsSolid c
    → Chars IsSolid t
    → is_empty t ≡ false
    → trim_space (c ∷ s ++ t) ≡ c ∷ s ++ t
unfolding trim_space
trim_space-between c s t h k e =
    ap trim_right (trim_left-solid c (s ++ t) h)
    ∙ trim_right-append (c ∷ s) t (trim_right-solid t k) e

pub trim_space-solid : (t : Text) → Chars IsSolid t → trim_space t ≡ t
unfolding trim_space
trim_space-solid [] h = refl
trim_space-solid (c ∷ t) h = ap trim_right (trim_left-solid c t h.0) ∙ trim_right-solid (c ∷ t) h

pub trim_space-lead : (t : Text) → Chars IsSolid t → trim_space (32 ∷ t) ≡ t
unfolding trim_space
trim_space-lead t h = ap trim_right (lead t) ∙ trim_space-solid t h
  where
    lead : (t : Text) → trim_left (32 ∷ t) ≡ trim_left t
    lead t = unfold trim_left is_space in refl

pub trim_space-trail :
    (c : ℕ) (t : Text) → Chars IsSolid (c ∷ t) → trim_space (c ∷ t ++ 32 ∷ []) ≡ c ∷ t
unfolding trim_space
trim_space-trail c t h = ap trim_right (trim_left-solid c (t ++ 32 ∷ []) h.0) ∙ trail (c ∷ t) h
  where
    trail : (t : Text) → Chars IsSolid t → trim_right (t ++ 32 ∷ []) ≡ t
    trail [] h = refl
    trail (c ∷ t) h = ground (arith, trail t h.1, solid_not_space c h.0)

-- Splitting behind a part without the separator.
pub split-append :
    (sep : ℕ) (s t : Text) → Chars (λ c. c ≢ sep) s → split sep (s ++ sep ∷ t) ≡ s ∷ split sep t
unfolding split
split-append sep [] t h = ground arith
split-append sep (c ∷ s) t h = ground (arith, split-append sep s t h.1)

pub split-one : (sep : ℕ) (s : Text) → Chars (λ c. c ≢ sep) s → split sep s ≡ s ∷ []
unfolding split
split-one sep [] h = refl
split-one sep (c ∷ s) h = ground (arith, split-one sep s h.1)
