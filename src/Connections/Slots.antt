-- ===== src/Connections/Slots.antt =====
-- The counts of the table vpn_servers under the statements of internal/repo/server.go.
use midori_vpn_core.Prelude.{
  ℕ, suc, ◌+◌, ◌-◌, ◌≡◌, refl, sym, ap, ◌∙◌, true, false, ◌&&◌, List, [], ◌∷◌, none, some, ◌==◌,
  arith, Bool-cases, inl, inr,
}
use midori_vpn_core.Prelude.Counting.{one_if}
use midori_vpn_core.Net.{Text}
use midori_vpn_core.Connections.{
  Server, find_server, on_server, one_less, one_more, has_room, is_available,
}
use midori_vpn_core.Connections.Connect.Outcomes.{saved}

-- The primary key: no two rows have one id.
unfoldable pub AreKeyed : List Server → Type 0
AreKeyed [] = Unit {0}
AreKeyed (s ∷ ss) = (find_server s.id ss ≡ none) × AreKeyed ss

-- The column current_peers holds what is expected of each server.
unfoldable pub Counts : (ℕ → ℕ) → List Server → Type 0
Counts e [] = Unit {0}
Counts e (s ∷ ss) = (s.current_peers ≡ e s.id) × Counts e ss

pub Counts-cong :
    (e f : ℕ → ℕ) (ss : List Server) → ((j : ℕ) → f j ≡ e j) → Counts e ss → Counts f ss
unfolding Counts
Counts-cong e f [] h c = tt
Counts-cong e f (s ∷ ss) h c = (c.0 ∙ sym (h s.id), Counts-cong e f ss h c.1)

Counts-absent :
    (e f : ℕ → ℕ) (i : ℕ) (ss : List Server)
    → find_server i ss ≡ none
    → ((j : ℕ) → (j == i) ≡ false → f j ≡ e j)
    → Counts e ss
    → Counts f ss
unfolding Counts find_server
Counts-absent e f i [] n h c = tt
Counts-absent e f i (s ∷ ss) n h c =
    (c.0 ∙ sym (h s.id (ground arith)), Counts-absent e f i ss (ground arith) h c.1)

-- One peer fewer is expected of a server, and its count is lowered.
pub Counts-one_less :
    (e f : ℕ → ℕ) (i : ℕ) (ss : List Server)
    → suc (f i) ≡ e i
    → ((j : ℕ) → (j == i) ≡ false → f j ≡ e j)
    → Counts e ss
    → Counts f (on_server i one_less ss)
unfolding Counts on_server one_less
Counts-one_less e f i [] one h c = tt
Counts-one_less e f i (s ∷ ss) one h c = elim (Bool-cases (s.id == i)) [
  | inl q ↦
      let same : s.id ≡ i = ground arith in
      rw q (omega (arith, c.0, one, ap e same, ap f same), Counts-one_less e f i ss one h c.1)
  | inr q ↦ rw q (c.0 ∙ sym (h s.id q), Counts-one_less e f i ss one h c.1)
]

pub on_server-absent :
    (i : ℕ) (f : Server → Server) (ss : List Server)
    → find_server i ss ≡ none
    → on_server i f ss ≡ ss
unfolding on_server find_server
on_server-absent i f [] n = refl
on_server-absent i f (s ∷ ss) n = ground (arith, on_server-absent i f ss)

-- A slot is taken, where the server has one.
pub Counts-one_more :
    (e f : ℕ → ℕ) (i : ℕ) (ss : List Server)
    → AreKeyed ss
    → is_available (find_server i ss) ≡ true
    → f i ≡ suc (e i)
    → ((j : ℕ) → (j == i) ≡ false → f j ≡ e j)
    → Counts e ss
    → Counts f (on_server i one_more ss)
unfolding Counts on_server AreKeyed
Counts-one_more e f i [] k a one h c = tt
Counts-one_more e f i (s ∷ ss) k a one h c = elim (Bool-cases (s.id == i)) [
  | inl q ↦
      let same : s.id ≡ i = ground arith in
      let none_left : find_server i ss ≡ none = rw (sym same) k.0 in
      rw (q, on_server-absent i one_more ss none_left)
        (raised same (at_head q), Counts-absent e f i ss none_left h c.1)
  | inr q ↦ rw q (c.0 ∙ sym (h s.id q), Counts-one_more e f i ss k.1 (at_tail q) one h c.1)
]
  where
    at_head : (s.id == i) ≡ true → s.is_active && has_room s ≡ true
    at_head q = unfold find_server in unfold is_available in ground arith

    at_tail : (s.id == i) ≡ false → is_available (find_server i ss) ≡ true
    at_tail q = unfold find_server in ground arith

    raised :
        s.id ≡ i → s.is_active && has_room s ≡ true → (one_more s).current_peers ≡ f (one_more s).id
    raised same room = unfold one_more in rw room (omega (arith, c.0, one, ap e same, ap f same))

-- Without a slot the statement changes nothing.
pub on_server-full :
    (i : ℕ) (ss : List Server)
    → AreKeyed ss
    → is_available (find_server i ss) ≡ false
    → on_server i one_more ss ≡ ss
unfolding on_server AreKeyed find_server
on_server-full i [] k a = refl
on_server-full i (s ∷ ss) k a = elim (Bool-cases (s.id == i)) [
  | inl q ↦
      let same : s.id ≡ i = ground arith in
      let none_left : find_server i ss ≡ none = rw (sym same) k.0 in
      rw (q, on_server-absent i one_more ss none_left) (ap (λ t. t ∷ ss) (unchanged (ground arith)))
  | inr q ↦ rw q (ap (λ ts. s ∷ ts) (on_server-full i ss k.1 (ground arith)))
]
  where
    unchanged : is_available (some s) ≡ false → one_more s ≡ s
    unchanged h = unfold one_more in unfold is_available in ground arith

find_server-on_server :
    (i j : ℕ) (f : Server → Server) (ss : List Server)
    → ((s : Server) → s.id ≡ i → (f s).id ≡ s.id)
    → find_server j ss ≡ none
    → find_server j (on_server i f ss) ≡ none
unfolding find_server on_server
find_server-on_server i j f [] keeps n = refl
find_server-on_server i j f (s ∷ ss) keeps n =
    ground (arith, find_server-on_server i j f ss keeps, keeps s)

-- A change that keeps the ids keeps the key.
pub AreKeyed-on_server :
    (i : ℕ) (f : Server → Server) (ss : List Server)
    → ((s : Server) → s.id ≡ i → (f s).id ≡ s.id)
    → AreKeyed ss
    → AreKeyed (on_server i f ss)
unfolding AreKeyed on_server
AreKeyed-on_server i f [] keeps k = tt
AreKeyed-on_server i f (s ∷ ss) keeps k = elim (Bool-cases (s.id == i)) [
  | inl q ↦
      let same : (f s).id ≡ s.id = keeps s (ground arith) in
      rw (q, same)
        (find_server-on_server i s.id f ss keeps k.0, AreKeyed-on_server i f ss keeps k.1)
  | inr q ↦ rw q (find_server-on_server i s.id f ss keeps k.0, AreKeyed-on_server i f ss keeps k.1)
]

pub one_more-id : (s : Server) → (one_more s).id ≡ s.id
unfolding one_more
one_more-id s = ground arith

-- Saving the row as a handler read it keeps the counts.
pub Counts-saved :
    (e : ℕ → ℕ) (s : Server) (key : Text) (ss : List Server)
    → Counts e ss
    → Counts e (saved s key ss)
unfolding Counts on_server
Counts-saved e s key [] c = tt
Counts-saved e s key (t ∷ ss) c = elim (Bool-cases (t.id == s.id)) [
  | inl q ↦
      let same : t.id ≡ s.id = ground arith in rw q (c.0 ∙ ap e same, Counts-saved e s key ss c.1)
  | inr q ↦ rw q (c.0, Counts-saved e s key ss c.1)
]

-- A slot that is taken and released again leaves the table as it was.
pub one_less-one_more :
    (i : ℕ) (ss : List Server)
    → AreKeyed ss
    → is_available (find_server i ss) ≡ true
    → on_server i one_less (on_server i one_more ss) ≡ ss
unfolding on_server AreKeyed find_server
one_less-one_more i [] k a = refl
one_less-one_more i (s ∷ ss) k a = elim (Bool-cases (s.id == i)) [
  | inl q ↦
      let same : s.id ≡ i = ground arith in
      let none_left : find_server i ss ≡ none = rw (sym same) k.0 in
      let id_kept : ((one_more s).id == i) ≡ true = ground (arith, one_more-id s) in
      rw (q, on_server-absent i one_more ss none_left)
        (rw (id_kept, on_server-absent i one_less ss none_left)
          (ap (λ t. t ∷ ss) (restored (ground arith))))
  | inr q ↦ rw q (rw q (ap (λ ts. s ∷ ts) (one_less-one_more i ss k.1 (ground arith))))
]
  where
    restored : is_available (some s) ≡ true → one_less (one_more s) ≡ s
    restored h =
        unfold one_less in
        unfold one_more in
        unfold is_available in rw h (ap (λ n. record s { current_peers = n }) lowered)
      where
        lowered : s.current_peers + 1 - 1 ≡ s.current_peers
        lowered = omega arith

-- Lowering the count of a server that has no peer fewer.
pub Counts-lowered :
    (e : ℕ → ℕ) (i : ℕ) (ss : List Server)
    → Counts e ss
    → Counts (λ j. e j - one_if (j == i)) (on_server i one_less ss)
unfolding Counts on_server one_less
Counts-lowered e i [] c = tt
Counts-lowered e i (s ∷ ss) c = elim (Bool-cases (s.id == i)) [
  | inl q ↦
      rw q (ap (λ n. n - 1) c.0 ∙ sym (ap (λ b. e s.id - one_if b) q), Counts-lowered e i ss c.1)
  | inr q ↦ rw q (c.0 ∙ sym (kept q), Counts-lowered e i ss c.1)
]
  where
    kept : (s.id == i) ≡ false → e s.id - one_if (s.id == i) ≡ e s.id
    kept q = rw q (omega arith)
