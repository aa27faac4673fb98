-- ===== src/Throttle/Samples.antt =====
-- The theorems on the keyed rate limiters with a bucket of two tokens that is full again one
-- minute after it was last asked.
use midori_vpn_core.Prelude.{
  ℕ, ◌+◌, ◌-◌, ◌*◌, ◌<◌, ◌≡◌, ap, Bool, List, [], ◌∷◌, ltb, if◌then◌else◌, arith,
}
use midori_vpn_core.Prelude.Equality.{text_eq}
use midori_vpn_core.Prelude.Dict
use midori_vpn_core.Prelude.Dict.{Dict}
use midori_vpn_core.Net.{codes}
use midori_vpn_core.Throttle.{minute}
use midori_vpn_core.Throttle.Isolation.{Event, request, round, answers, solo, answers-solo}

-- The tokens left, and the time of the last request.
record Bucket : Type 0 where
  tokens : ℕ
  last : ℕ

abbrev full : Bucket
full = record { tokens = 2; last = 0 }

abbrev left : Bucket → ℕ → ℕ
left b now = if ltb (b.last + minute) now then 2 else b.tokens

abbrev ask : Bucket → ℕ → Bucket × Bool
ask b now = (record { tokens = left b now - 1; last = now }, ltb 0 (left b now))

refilled : (b : Bucket) (at now : ℕ) → at + 3 * minute < now → ask (ask b at).0 now ≡ ask full now
refilled b at now h =
    ap (λ (n : ℕ). (record { tokens = n - 1; last = now }, ltb 0 n)) {y = left full now}
      (ground arith)

abbrev traffic : List (ℕ × Event)
traffic =
    (0, request (codes "a"))
    ∷ (1, request (codes "a"))
    ∷ (1, request (codes "b"))
    ∷ (1, request (codes "a"))
    ∷ (4 * minute, round)
    ∷ (1, request (codes "a"))
    ∷ []

answers-solo_example :
    answers full ask (3 * minute) (codes "a") Dict.empty 1 traffic
    ≡ solo full ask (3 * minute) (codes "a") full 1 traffic
answers-solo_example = answers-solo full ask (3 * minute) (codes "a") refilled traffic 1
