-- ===== src/Throttle/Isolation.antt =====
-- The keyed rate limiters against one bucket per key that is never removed.
use midori_vpn_core.Prelude.{
  ℕ, ◌+◌, ◌-◌, ◌<◌, ◌≤◌, ◌≡◌, refl, ap, sym, ◌∙◌, Bool, false, List, [], ◌∷◌, Option, none, some,
  ltb, if◌then◌else◌, arith, Bool-cases, inl, inr, ltb→lt,
}
use midori_vpn_core.Prelude.Equality.{text_eq, text_beq_iff, ◌=?◌, =?_refl}
use midori_vpn_core.Prelude.Dict
use midori_vpn_core.Prelude.Dict.{Dict, get-put, get-empty}
use midori_vpn_core.Net.{Text}
use mathlib.Core.Path.{ap₂}
use midori_vpn_core.Throttle.{Visitor, Store, seen, spent, stale, user_allow, cleanup}
use midori_vpn_core.Throttle.Cleanup.{get-cleanup}

-- What happens at the limiter: a request of a key, or a round of the cleanup. Each event comes with
-- the time since the one before.
pub data Event : Type 0 where
  request : Text → Event
  round : Event

module _ {L : Type 0} (fresh : L) (ask : L → ℕ → L × Bool) (idle : ℕ) (key : Text) where
  -- The answers that the key gets from the store.
  pub answers : Store L → ℕ → List (ℕ × Event) → List Bool
  answers s now [] = []
  answers s now ((d, request k) ∷ es) =
      let (t, b) = user_allow fresh ask s (now + d) k in
      let rest = answers t (now + d) es in if k =? key then b ∷ rest else rest
  answers s now ((d, round) ∷ es) = answers (cleanup idle (now + d) s) (now + d) es

  -- The answers of one bucket that only the requests of the key reach, and that stays.
  pub solo : L → ℕ → List (ℕ × Event) → List Bool
  solo l now [] = []
  solo l now ((d, request k) ∷ es) =
      let kept = solo l (now + d) es in
      let asked = solo (ask l (now + d)).0 (now + d) es in
      if k =? key then (ask l (now + d)).1 ∷ asked else kept
  solo l now ((d, round) ∷ es) = solo l (now + d) es

  -- The store holds the key's bucket as it was last asked, or has lost one that is idle since.
  data Agrees (now : ℕ) : Option (Visitor L) → L → Type 0 where
    held :
        (l : L) (at : ℕ)
        → at ≤ now
        → Agrees now (some (record { limiter = (ask l at).0; last_seen = at })) (ask l at).0
    lost : (l : L) (at : ℕ) → at + idle < now → Agrees now none (ask l at).0
    unseen : Agrees now none fresh

  module _
      (refilled : (l : L) (at now : ℕ)
        → at + idle < now
        → ask (ask l at).0 now ≡ ask fresh now) where
    later : {a b : ℕ} (o : Option (Visitor L)) (l : L) → a ≤ b → Agrees a o l → Agrees b o l
    later _ _ h (held l at p) = held l at (omega arith)
    later _ _ h (lost l at p) = lost l at (omega arith)
    later _ _ h unseen = unseen

    cleaned :
        (now : ℕ) (o : Option (Visitor L)) (l : L)
        → Agrees now o l
        → Agrees now (if stale idle now o then none else o) l
    unfolding stale
    cleaned now _ _ (held l at p) = elim (Bool-cases (ltb idle (now - at))) [
      | inl h ↦ rw h (lost l at (omega (arith, ltb→lt _ _ h)))
      | inr h ↦ rw h (held l at p)
    ]
    cleaned now _ _ (lost l at p) = lost l at p
    cleaned now _ _ unseen = unseen

    same_answer :
        (now : ℕ) (o : Option (Visitor L)) (l : L)
        → Agrees now o l
        → ask (seen fresh now o).limiter now ≡ ask l now
    unfolding seen
    same_answer now _ _ (held l at p) = refl
    same_answer now _ _ (lost l at p) = sym (refilled l at now p)
    same_answer now _ _ unseen = refl

    seen_at : (now : ℕ) (o : Option (Visitor L)) → (seen fresh now o).last_seen ≡ now
    unfolding seen
    seen_at now none = refl
    seen_at now (some v) = refl

    -- The store after a request of the key.
    asked :
        (now : ℕ) (s : Store L) (l : L)
        → Agrees now (Dict.get s key) l
        → Agrees now (Dict.get (user_allow fresh ask s now key).0 key) (ask l now).0
    unfolding user_allow spent
    asked now s l a =
        let v = seen fresh now (Dict.get s key) in
        let stored : Dict.get (user_allow fresh ask s now key).0 key
            ≡ some (record { limiter = (ask v.limiter now).0; last_seen = now }) =
          get-put s key key (spent fresh ask v now)
          ∙ rw (=?_refl key) (rw (seen_at now (Dict.get s key)) refl) in
        rw (stored, sym (same_answer now (Dict.get s key) l a)) (held v.limiter now (omega arith))

    answered :
        (now : ℕ) (s : Store L) (l : L)
        → Agrees now (Dict.get s key) l
        → (user_allow fresh ask s now key).1 ≡ (ask l now).1
    unfolding user_allow
    answered now s l a = ap (λ (x : L × Bool). x.1) (same_answer now (Dict.get s key) l a)

    -- A request of another key leaves the entry of the key alone.
    other :
        (now : ℕ) (s : Store L) (k : Text) (l : L)
        → (k =? key) ≡ false
        → Agrees now (Dict.get s key) l
        → Agrees now (Dict.get (user_allow fresh ask s now k).0 key) l
    unfolding user_allow
    other now s k l h a = rw get-put (rw h a)

    agrees :
        (es : List (ℕ × Event)) (s : Store L) (now : ℕ) (l : L)
        → Agrees now (Dict.get s key) l
        → answers s now es ≡ solo l now es
    unfolding answers solo
    agrees [] s now l a = refl
    agrees ((d, request k) ∷ es) s now l a =
        let b = later {b = now + d} (Dict.get s key) l (omega arith) a in
        elim (Bool-cases (k =? key)) [
          | inl h ↦ rw h (
              rw ((text_beq_iff k key).0 h) (
                ap₂ {C = List Bool} (λ (b : Bool) (bs : List Bool). b ∷ bs)
                  (answered (now + d) s l b) (agrees es _ (now + d) _ (asked (now + d) s l b))))
          | inr h ↦ rw h (agrees es _ (now + d) l (other (now + d) s k l h b))
        ]
    agrees ((d, round) ∷ es) s now l a = agrees es (cleanup idle (now + d) s) (now + d) l (
        rw (get-cleanup idle (now + d) s key)
          (cleaned (now + d) _ l (later (Dict.get s key) l (omega arith) a)))

    -- Where an idle bucket answers as a new one does, the answers that a key gets from an empty
    -- store, among any requests of other keys and any rounds of the cleanup, are those of a single
    -- bucket that only its own requests reach and that is never removed.
    pub answers-solo :
        (es : List (ℕ × Event)) (now : ℕ) → answers Dict.empty now es ≡ solo fresh now es
    answers-solo es now = agrees es Dict.empty now fresh (rw (get-empty {V = Visitor L} key) unseen)
