-- ===== src/Wg/Conf/Lines.antt =====
-- How restoreFromConfig of internal/wg/manager.go reads one line that persistConfig wrote.
use mathlib.Core.List.{append_assoc}
use midori_vpn_core.Prelude.{ℕ, ◌≡◌, ◌≢◌, refl, ap, sym, ◌∙◌, false, [], ◌∷◌, ◌++◌, arith, some}
use midori_vpn_core.Prelude.Equality.{text_eq, text_beq}
use midori_vpn_core.Net.{Text, codes}
use midori_vpn_core.Strings.{trim_space, split, is_empty, has_prefix}
use midori_vpn_core.Strings.Laws.{
  Chars, Chars-append, Chars-map, IsSolid, trim_space-between, trim_space-lead, trim_space-trail,
  split-append,
}
use midori_vpn_core.Wg.Conf.{
  Reading, entry, newline, read_line, read_lines, read_pair, read_entry, before_eq,
}

-- Reading a text line by line.
abbrev pub read_text : Reading → Text → Reading
read_text r t = read_lines r (split newline t)

pub read_text-line :
    (r : Reading) (s t : Text)
    → Chars (λ c. c ≢ newline) s
    → read_text r (s ++ newline ∷ t) ≡ read_text (read_line r (trim_space s)) t
unfolding read_lines
read_text-line r s t h = ap (read_lines r) {y = s ∷ split newline t} (split-append newline s t h)

-- A name that starts an entry: printable, with no '=', and no comment or section.
pub record IsName (c : ℕ) (name : Text) : Type 0 where
  pub solid : Chars IsSolid (c ∷ name)
  pub no_eq : Chars (λ d. d ≢ b'=') (c ∷ name)
  pub no_hash : c ≢ b'#'
  pub no_bracket : c ≢ b'['

before_eq-append : (s t : Text) → Chars (λ d. d ≢ b'=') s → before_eq (s ++ b'=' ∷ t) ≡ some (s, t)
unfolding before_eq
before_eq-append [] t h = refl
before_eq-append (c ∷ s) t h = ground (arith, before_eq-append s t h.1)

read_line-other :
    (r : Reading) (c : ℕ) (t : Text)
    → c ≢ b'#'
    → c ≢ b'['
    → read_line r (c ∷ t) ≡ read_pair r (before_eq (c ∷ t))
unfolding read_line is_empty has_prefix text_beq
read_line-other r c t h k = ground arith

module _ (r : Reading) (c : ℕ) (name v : Text) (n : IsName c name) (solid : Chars IsSolid v)
    (full : is_empty v ≡ false) where
  line : Text
  line = c ∷ name ++ (codes " = " ++ v)

  trim-line : trim_space line ≡ line
  unfolding line
  trim-line =
      let regroup : c ∷ name ++ (codes " = " ++ v) ≡ c ∷ (name ++ codes " = ") ++ v =
        sym (append_assoc (c ∷ name) (codes " = ") v) in
      ap trim_space regroup
      ∙ trim_space-between c (name ++ codes " = ") v n.solid.0 solid full
      ∙ sym regroup

  parts : before_eq line ≡ some (c ∷ name ++ b' ' ∷ [], b' ' ∷ v)
  unfolding line
  parts =
      let regroup : c ∷ name ++ (codes " = " ++ v) ≡ (c ∷ name ++ b' ' ∷ []) ++ b'=' ∷ b' ' ∷ v =
        sym (append_assoc (c ∷ name) (b' ' ∷ []) (b'=' ∷ b' ' ∷ v)) in
      ap before_eq regroup
      ∙ before_eq-append (c ∷ name ++ b' ' ∷ []) (b' ' ∷ v)
          (Chars-append (λ d. d ≢ b'=') (c ∷ name) (b' ' ∷ []) n.no_eq (omega arith))

  read_line-entry : read_line r (trim_space line) ≡ read_entry r r.cur (c ∷ name) v
  unfolding line
  read_line-entry =
      ap (read_line r) trim-line
      ∙ read_line-other r c (name ++ (codes " = " ++ v)) n.no_hash n.no_bracket
      ∙ ap (read_pair r) parts
      ∙ trimmed
    where
      trimmed :
          read_pair r (some (c ∷ name ++ b' ' ∷ [], b' ' ∷ v)) ≡ read_entry r r.cur (c ∷ name) v
      trimmed =
          unfold read_pair in
          ap (λ k. read_entry r r.cur k (trim_space (b' ' ∷ v))) (trim_space-trail c name n.solid)
          ∙ ap (read_entry r r.cur (c ∷ name)) (trim_space-lead v solid)

  -- An entry is read as its name and its value.
  pub read_text-entry :
      (t : Text)
      → read_text r (entry (c ∷ name) v ++ t) ≡ read_text (read_entry r r.cur (c ∷ name) v) t
  unfolding entry line
  read_text-entry t =
      ap (read_text r) regroup
      ∙ read_text-line r line t no_newline
      ∙ ap (λ q. read_text q t) read_line-entry
    where
      regroup : (c ∷ name ++ (codes " = " ++ (v ++ newline ∷ []))) ++ t ≡ line ++ newline ∷ t
      regroup = simp append_assoc

      no_newline : Chars (λ d. d ≢ newline) (c ∷ name ++ (codes " = " ++ v))
      no_newline =
          Chars-append (λ d. d ≢ newline) (c ∷ name) (codes " = " ++ v)
            (Chars-map IsSolid (λ d. d ≢ newline) (c ∷ name) (λ d h. omega arith) n.solid)
            (
              omega arith,
              (
                omega arith,
                (omega arith, Chars-map IsSolid (λ d. d ≢ newline) v (λ d h. omega arith) solid),
              ),
            )
