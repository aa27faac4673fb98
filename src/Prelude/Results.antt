-- ===== src/Prelude/Results.antt =====
-- What a Go function with an error result gives: a value, an error, a run-time panic, or (for a
-- loop modelled on fuel) no end within the fuel.
use mathlib.Core.Path.{◌≡◌, refl, sym}
use mathlib.Core.Bool.{Bool, true, false}
use midori_vpn_core.Prelude.Tests.{if◌then◌else◌}

pub data Outcome {ℓ κ} (E : Type ℓ) (A : Type κ) : Type (ℓ ⊔ κ) where
  ok : A → Outcome E A
  err : E → Outcome E A
  panic : Outcome E A
  diverges : Outcome E A

pub ok-injective {ℓ κ} :
    {E : Type ℓ} {A : Type κ} {a b : A} → ◌≡◌ {A = Outcome E A} (ok a) (ok b) → a ≡ b
ok-injective h = cc

pub ok_not_err {ℓ κ} :
    {E : Type ℓ} {A : Type κ} (a : A) (e : E) → ◌≡◌ {A = Outcome E A} (ok a) (err e) → ⊥
ok_not_err a e h = cc

-- The outcome of one step after another: the first that is not ok ends both.
unfoldable pub and_then {ℓ κ μ} :
    {E : Type ℓ} {A : Type κ} {B : Type μ} → Outcome E A → (A → Outcome E B) → Outcome E B
and_then (ok a) f = f a
and_then (err e) f = err e
and_then panic f = panic
and_then diverges f = diverges

-- An early return of an error is not taken where the whole succeeds.
pub passed {ℓ κ} :
    {E : Type ℓ} {A : Type κ} (b : Bool) (e : E) (r : Outcome E A) {a : A}
    → (if b then err e else r) ≡ ok a
    → (b ≡ false) × (r ≡ ok a)
passed true e r h = absurd (ok_not_err _ _ (sym h))
passed false e r h = (refl, h)

-- Both steps succeed where the whole does.
pub then_ok {ℓ κ μ} :
    {E : Type ℓ} {A : Type κ} {B : Type μ} (o : Outcome E A) (f : A → Outcome E B) (b : B)
    → and_then o f ≡ ok b
    → (a : A) × (o ≡ ok a) × (f a ≡ ok b)
unfolding and_then
then_ok (ok a) f b h = (a, refl, h)
then_ok (err e) f b h = absurd cc
then_ok panic f b h = absurd cc
then_ok diverges f b h = absurd cc
