-- ===== src/Throttle/Cleanup.antt =====
-- The cleanup of the keyed rate limiters: exactly the stale entries go.
use midori_vpn_core.Prelude.{
  ℕ, ◌≡◌, refl, ap, Bool, true, false, List, [], ◌∷◌, none, if◌then◌else◌, arith,
}
use midori_vpn_core.Prelude.Equality.{text_eq, text_beq_iff, ◌=?◌}
use midori_vpn_core.Prelude.Dict
use midori_vpn_core.Prelude.Dict.{Dict, get-put, get-remove}
use midori_vpn_core.Net.{Text}
use midori_vpn_core.Throttle.{Visitor, Store, stale, sweep, keys, cleanup}

listed : List Text → Text → Bool
listed [] j = false
listed (k ∷ ks) j = if k =? j then true else listed ks j

module _ {L : Type 0} (idle now : ℕ) where
  get-sweep :
      (ks : List Text) (s : Store L) (j : Text)
      → Dict.get (sweep idle now s ks) j ≡ (
          if listed ks j
          then (if stale idle now (Dict.get s j) then none else Dict.get s j)
          else Dict.get s j)
  unfolding sweep listed stale
  get-sweep [] s j = refl
  get-sweep (k ∷ ks) s j = ground (
    arith,
    get-sweep ks (Dict.remove s k) j,
    get-sweep ks s j,
    get-remove s k j,
    text_beq_iff k j,
    ap (Dict.get s) {x = k} {y = j},
  )

  listed-keys :
      (l : List (Text × Visitor L)) (j : Text)
      → listed (keys idle now l) j ≡ false
      → Dict.lookup l j ≡ none
  unfolding listed keys Dict.lookup
  listed-keys [] j h = refl
  listed-keys ((k, v) ∷ l) j h = ground (arith, listed-keys l j)

  -- After the cleanup an entry is there exactly if it was there and was seen within the idle time.
  pub get-cleanup :
      (s : Store L) (j : Text)
      → Dict.get (cleanup idle now s) j
        ≡ (if stale idle now (Dict.get s j) then none else Dict.get s j)
  unfolding cleanup
  get-cleanup s j = ground (arith, get-sweep (keys idle now s.entries) s j, absent s j)
    where
      absent :
          (s : Store L) (j : Text)
          → listed (keys idle now s.entries) j ≡ false
          → Dict.get s j ≡ none
      absent s j h = unfold Dict.get in listed-keys s.entries j h
