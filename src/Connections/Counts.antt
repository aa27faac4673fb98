-- ===== src/Connections/Counts.antt =====
-- The table peers under the changes of a row: the keys, and how many active peers a server has.
use midori_vpn_core.Prelude.{
  ℕ, ◌+◌, ◌≡◌, refl, sym, ap, ◌∙◌, Bool, true, false, ◌&&◌, List, [], ◌∷◌, none, some, ◌==◌, arith,
  Bool-cases, inl, inr,
}
use midori_vpn_core.Prelude.Counting.{one_if}
use midori_vpn_core.Connections.{Peer, find_peer, rows, deactivate, without_peer}

-- The primary key: no two rows have one id.
unfoldable pub IsKeyed : List Peer → Type 0
IsKeyed [] = Unit {0}
IsKeyed (p ∷ ps) = (find_peer p.id ps ≡ none) × IsKeyed ps

-- How many active peers of a server the table has.
unfoldable pub active_on : ℕ → List Peer → ℕ
active_on s [] = 0
active_on s (p ∷ ps) = one_if (p.is_active && p.server_id == s) + active_on s ps

-- Every peer of the second list is a row of the first.
unfoldable pub AreFound : List Peer → List Peer → Type 0
AreFound all [] = Unit {0}
AreFound all (q ∷ qs) = (find_peer q.id all ≡ some q) × AreFound all qs

pub find_peer-id : (i : ℕ) (ps : List Peer) (p : Peer) → find_peer i ps ≡ some p → p.id ≡ i
unfolding find_peer
find_peer-id i [] p h = cc
find_peer-id i (q ∷ ps) p h = ground (arith, find_peer-id i ps p)

pub find_peer_self :
    (i : ℕ) (ps : List Peer) (p : Peer) → find_peer i ps ≡ some p → find_peer p.id ps ≡ some p
find_peer_self i ps p h = ap (λ j. find_peer j ps) (find_peer-id i ps p h) ∙ h

pub deactivate-absent : (i : ℕ) (ps : List Peer) → find_peer i ps ≡ none → deactivate i ps ≡ ps
unfolding find_peer deactivate
deactivate-absent i [] h = refl
deactivate-absent i (q ∷ ps) h = ground (arith, deactivate-absent i ps)

pub without_peer-absent : (i : ℕ) (ps : List Peer) → find_peer i ps ≡ none → without_peer i ps ≡ ps
unfolding find_peer without_peer
without_peer-absent i [] h = refl
without_peer-absent i (q ∷ ps) h = ground (arith, without_peer-absent i ps)

-- Whether a row counts for a server.
abbrev pub counted : ℕ → Peer → ℕ
counted s p = one_if (p.is_active && p.server_id == s)

pub active_on-deactivate :
    (s i : ℕ) (ps : List Peer) (p : Peer)
    → IsKeyed ps
    → find_peer i ps ≡ some p
    → active_on s (deactivate i ps) + counted s p ≡ active_on s ps
unfolding active_on deactivate find_peer IsKeyed
active_on-deactivate s i [] p k h = cc
active_on-deactivate s i (q ∷ ps) p k h = elim (Bool-cases (q.id == i)) [
  | inl e ↦
      let same : q ≡ p = ground arith in
      let gone : deactivate i ps ≡ ps = deactivate-absent i ps (rw (← (id_eq e)) k.0) in
      rw (e, gone, sym same) (omega arith)
  | inr e ↦ rw e (omega (arith, active_on-deactivate s i ps p k.1 (ground arith)))
]
  where
    id_eq : {a b : ℕ} → (a == b) ≡ true → a ≡ b
    id_eq h = ground arith

pub active_on-without_peer :
    (s i : ℕ) (ps : List Peer) (p : Peer)
    → IsKeyed ps
    → find_peer i ps ≡ some p
    → active_on s (without_peer i ps) + counted s p ≡ active_on s ps
unfolding active_on without_peer find_peer IsKeyed
active_on-without_peer s i [] p k h = cc
active_on-without_peer s i (q ∷ ps) p k h = elim (Bool-cases (q.id == i)) [
  | inl e ↦
      let same : q ≡ p = ground arith in
      let gone : without_peer i ps ≡ ps = without_peer-absent i ps (rw (← (id_eq e)) k.0) in
      rw (e, gone, sym same) (omega arith)
  | inr e ↦ rw e (omega (arith, active_on-without_peer s i ps p k.1 (ground arith)))
]
  where
    id_eq : {a b : ℕ} → (a == b) ≡ true → a ≡ b
    id_eq h = ground arith

find_peer-deactivate-none :
    (i j : ℕ) (ps : List Peer) → find_peer j ps ≡ none → find_peer j (deactivate i ps) ≡ none
unfolding find_peer deactivate
find_peer-deactivate-none i j [] h = refl
find_peer-deactivate-none i j (q ∷ ps) h = ground (arith, find_peer-deactivate-none i j ps)

pub find_peer-deactivate_other :
    (i j : ℕ) (ps : List Peer) → (i == j) ≡ false → find_peer j (deactivate i ps) ≡ find_peer j ps
unfolding find_peer deactivate
find_peer-deactivate_other i j [] h = refl
find_peer-deactivate_other i j (q ∷ ps) h = ground (arith, find_peer-deactivate_other i j ps)

find_peer-without_none :
    (i j : ℕ) (ps : List Peer) → find_peer j ps ≡ none → find_peer j (without_peer i ps) ≡ none
unfolding find_peer without_peer
find_peer-without_none i j [] h = refl
find_peer-without_none i j (q ∷ ps) h = ground (arith, find_peer-without_none i j ps)

pub IsKeyed-deactivate : (i : ℕ) (ps : List Peer) → IsKeyed ps → IsKeyed (deactivate i ps)
unfolding IsKeyed deactivate
IsKeyed-deactivate i [] k = tt
IsKeyed-deactivate i (q ∷ ps) k = elim (Bool-cases (q.id == i)) [
  | inl e ↦ rw e (find_peer-deactivate-none i q.id ps k.0, IsKeyed-deactivate i ps k.1)
  | inr e ↦ rw e (find_peer-deactivate-none i q.id ps k.0, IsKeyed-deactivate i ps k.1)
]

pub IsKeyed-without_peer : (i : ℕ) (ps : List Peer) → IsKeyed ps → IsKeyed (without_peer i ps)
unfolding IsKeyed without_peer
IsKeyed-without_peer i [] k = tt
IsKeyed-without_peer i (q ∷ ps) k = elim (Bool-cases (q.id == i)) [
  | inl e ↦ rw e (IsKeyed-without_peer i ps k.1)
  | inr e ↦ rw e (find_peer-without_none i q.id ps k.0, IsKeyed-without_peer i ps k.1)
]

pub find_peer-rows :
    (f : Peer → Bool) (i : ℕ) (ps : List Peer)
    → find_peer i ps ≡ none
    → find_peer i (rows f ps) ≡ none
unfolding find_peer rows
find_peer-rows f i [] h = refl
find_peer-rows f i (q ∷ ps) h = ground (arith, find_peer-rows f i ps)

pub IsKeyed-rows : (f : Peer → Bool) (ps : List Peer) → IsKeyed ps → IsKeyed (rows f ps)
unfolding IsKeyed rows
IsKeyed-rows f [] k = tt
IsKeyed-rows f (q ∷ ps) k = elim (Bool-cases (f q)) [
  | inl e ↦ rw e (find_peer-rows f q.id ps k.0, IsKeyed-rows f ps k.1)
  | inr e ↦ rw e (IsKeyed-rows f ps k.1)
]

AreFound-cons :
    (p : Peer) (ps qs : List Peer)
    → find_peer p.id ps ≡ none
    → AreFound ps qs
    → AreFound (p ∷ ps) qs
unfolding AreFound find_peer
AreFound-cons p ps [] n f = tt
AreFound-cons p ps (q ∷ qs) n f = (ground arith, AreFound-cons p ps qs n f.1)

pub AreFound-rows : (f : Peer → Bool) (ps : List Peer) → IsKeyed ps → AreFound ps (rows f ps)
unfolding AreFound IsKeyed rows
AreFound-rows f [] k = tt
AreFound-rows f (p ∷ ps) k = elim (Bool-cases (f p)) [
  | inl e ↦ rw e (
    unfold find_peer in ground arith,
    AreFound-cons p ps (rows f ps) k.0 (AreFound-rows f ps k.1),
  )
  | inr e ↦ rw e (AreFound-cons p ps (rows f ps) k.0 (AreFound-rows f ps k.1))
]

-- The rows of the other peers are still there.
pub AreFound-deactivate :
    (i : ℕ) (ps qs : List Peer)
    → find_peer i qs ≡ none
    → AreFound ps qs
    → AreFound (deactivate i ps) qs
unfolding AreFound find_peer
AreFound-deactivate i ps [] n f = tt
AreFound-deactivate i ps (q ∷ qs) n f = (
  find_peer-deactivate_other i q.id ps (ground arith) ∙ f.0,
  AreFound-deactivate i ps qs (ground arith) f.1,
)

pub find_peer-deactivate_self :
    (i : ℕ) (ps : List Peer) (p : Peer)
    → find_peer i ps ≡ some p
    → find_peer i (deactivate i ps) ≡ some (record p { is_active = false })
unfolding find_peer deactivate
find_peer-deactivate_self i [] p h = cc
find_peer-deactivate_self i (q ∷ ps) p h = elim (Bool-cases (q.id == i)) [
  | inl e ↦
      let same : q ≡ p = ground arith in
      rw e (rw e (ap (λ (r : Peer). some (record r { is_active = false })) same))
  | inr e ↦ rw e (rw e (find_peer-deactivate_self i ps p (ground arith)))
]

-- A second deactivation changes nothing.
pub deactivate-deactivate :
    (i : ℕ) (ps : List Peer) → deactivate i (deactivate i ps) ≡ deactivate i ps
unfolding deactivate
deactivate-deactivate i [] = refl
deactivate-deactivate i (q ∷ ps) = elim (Bool-cases (q.id == i)) [
  | inl e ↦
      rw e (rw e (ap (λ ts. record q { is_active = false } ∷ ts) (deactivate-deactivate i ps)))
  | inr e ↦ rw e (rw e (ap (λ ts. q ∷ ts) (deactivate-deactivate i ps)))
]

pub find_peer-without_other :
    (i j : ℕ) (ps : List Peer) → (i == j) ≡ false → find_peer j (without_peer i ps) ≡ find_peer j ps
unfolding find_peer without_peer
find_peer-without_other i j [] h = refl
find_peer-without_other i j (q ∷ ps) h = ground (arith, find_peer-without_other i j ps)
