-- ===== src/Throttle.antt =====
-- The keyed rate limiters: per address of internal/api/ratelimit.go, per refresh token of
-- internal/api/refresh_ratelimit.go, and per user of internal/control/user_ratelimit.go. The token
-- bucket behind a key is golang.org/x/time/rate, a parameter: `fresh` is what NewLimiter gives, and
-- `ask` what Allow answers at a time, with the bucket that it leaves. Times are in nanoseconds.
pub mod Cleanup
pub mod Isolation
pub mod Samples
use midori_vpn_core.Prelude.{
  ℕ, ◌+◌, ◌-◌, ◌*◌, Bool, true, false, List, [], ◌∷◌, ◌++◌, Option, none, some, ltb, if◌then◌else◌,
  map,
}
use midori_vpn_core.Prelude.Equality.{text_eq, ◌=?◌}
use midori_vpn_core.Prelude.Dict
use midori_vpn_core.Prelude.Dict.{Dict}
use midori_vpn_core.Net.{Text}

-- visitorEntry, refreshEntry and userEntry
pub record Visitor (L : Type 0) : Type 0 where
  pub limiter : L
  pub last_seen : ℕ

abbrev pub Store : Type 0 → Type 0
Store L = Dict Text (Visitor L)

module _ {L : Type 0} (fresh : L) where
  pub seen : ℕ → Option (Visitor L) → Visitor L
  seen now none = record { limiter = fresh; last_seen = now }
  seen now (some v) = record { limiter = v.limiter; last_seen = now }

  -- getLimiter of the limiter per address: the store, and the bucket of the address.
  unfoldable pub get_limiter : Store L → ℕ → Text → Store L × L
  unfolding seen
  get_limiter s now ip = let v = seen now (Dict.get s ip) in (Dict.put s ip v, v.limiter)

module _ {L : Type 0} (fresh : L) (ask : L → ℕ → L × Bool) where
  -- The entry after its bucket was asked.
  pub spent : Visitor L → ℕ → Visitor L
  spent v now = record v { limiter = (ask v.limiter now).0 }

  -- The limiter per address: `limiter.getLimiter(ip).Allow()`.
  unfoldable pub ip_allow : Store L → ℕ → Text → Store L × Bool
  unfolding get_limiter seen spent
  ip_allow s now ip =
      let (t, l) = get_limiter fresh s now ip in
      (Dict.put t ip (spent (record { limiter = l; last_seen = now }) now), (ask l now).1)

  -- Allow of the limiter per refresh token, on the hash of the token, with one reading of the clock as
  -- in user_allow below.
  unfoldable pub refresh_allow : Store L → ℕ → Text → Store L × Bool
  unfolding seen spent
  refresh_allow s now key =
      let v = seen fresh now (Dict.get s key) in
      (Dict.put s key (spent v now), (ask v.limiter now).1)

  -- Allow of the limiter per user. The code reads the clock for lastSeen and again in Allow, under
  -- one lock; here both readings are the same instant.
  unfoldable pub user_allow : Store L → ℕ → Text → Store L × Bool
  unfolding seen spent
  user_allow s now user =
      let v = seen fresh now (Dict.get s user) in
      (Dict.put s user (spent v now), (ask v.limiter now).1)

module _ {L : Type 0} (idle now : ℕ) where
  pub stale : Option (Visitor L) → Bool
  stale none = false
  stale (some v) = ltb idle (now - v.last_seen)

  -- The range over the keys of the map, which deletes the entries not seen for longer than `idle`.
  pub sweep : Store L → List Text → Store L
  sweep s [] = s
  sweep s (k ∷ ks) = if stale (Dict.get s k) then sweep (Dict.remove s k) ks else sweep s ks

  pub keys : List (Text × Visitor L) → List Text
  keys [] = []
  keys ((k, v) ∷ l) = k ∷ keys l

  unfoldable pub cleanup : Store L → Store L
  unfolding sweep keys stale
  cleanup s = sweep s (keys s.entries)

abbrev pub minute : ℕ
minute = 60000000000

-- One round of the three cleanup loops.
module _ {L : Type 0} where
  abbrev pub ip_cleanup : ℕ → Store L → Store L
  ip_cleanup now s = cleanup (3 * minute) now s

  abbrev pub refresh_cleanup : ℕ → Store L → Store L
  refresh_cleanup now s = cleanup (30 * minute) now s

  abbrev pub user_cleanup : ℕ → Store L → Store L
  user_cleanup now s = cleanup (10 * minute) now s
