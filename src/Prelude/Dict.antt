-- ===== src/Prelude/Dict.antt =====
-- Go's map as an association list behind its laws. A range over a map visits the entries in an
-- order that Go leaves open: `entries` is one such order.
use mathlib.Core.Path.{◌≡◌, refl}
use mathlib.Core.Option.{Option, none, some}
use mathlib.Core.List.{List, [], ◌∷◌}
use native.Mathlib.Omega.{arith}
use midori_vpn_core.Prelude.Tests.{if◌then◌else◌}
use midori_vpn_core.Prelude.Equality.{Eq, ◌=?◌}

pub record Dict {ℓ κ} (K : Type ℓ) (V : Type κ) : Type (ℓ ⊔ κ) where
  pub entries : List (K × V)

module _ {ℓ κ} {K : Type ℓ} {V : Type κ} where
  unfoldable pub empty : Dict K V
  empty = record { entries = [] }

module _ {ℓ κ} {K : Type ℓ} {V : Type κ} ⦃e : Eq K⦄ where
  unfoldable pub lookup : List (K × V) → K → Option V
  lookup [] k = none
  lookup ((j, v) ∷ l) k = if j =? k then some v else lookup l k

  without : List (K × V) → K → List (K × V)
  without [] k = []
  without ((j, v) ∷ l) k = let rest = without l k in if j =? k then rest else (j, v) ∷ rest

  -- v, ok := d[k]
  unfoldable pub get : Dict K V → K → Option V
  unfolding lookup
  get d k = lookup d.entries k

  -- delete(d, k)
  unfoldable pub remove : Dict K V → K → Dict K V
  unfolding without
  remove d k = record { entries = without d.entries k }

  -- d[k] = v
  unfoldable pub put : Dict K V → K → V → Dict K V
  unfolding without
  put d k v = record { entries = (k, v) ∷ without d.entries k }

  lookup-without :
      (l : List (K × V)) (k j : K) → lookup (without l k) j ≡ (if k =? j then none else lookup l j)
  unfolding lookup without
  lookup-without [] k j = ground arith
  lookup-without ((i, v) ∷ l) k j =
      ground (arith, lookup-without l k j, e.beq_iff i k, e.beq_iff i j, e.beq_iff k j)

  pub get-remove :
      (d : Dict K V) (k j : K) → get (remove d k) j ≡ (if k =? j then none else get d j)
  unfolding get remove
  get-remove d k j = lookup-without d.entries k j

  pub get-put :
      (d : Dict K V) (k j : K) (v : V) → get (put d k v) j ≡ (if k =? j then some v else get d j)
  unfolding get put
  get-put d k j v = ground (arith, lookup-without d.entries k j)

  pub get-empty : (k : K) → get (empty {V = V}) k ≡ none
  unfolding get empty
  get-empty k = refl
