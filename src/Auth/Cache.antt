-- ===== src/Auth/Cache.antt =====
-- internal/auth/introspection_cache.go: the answers of the introspection, kept under a hash of the
-- token. Times are in nanoseconds; the hash is SHA-256, a parameter.
pub mod Freshness
use midori_vpn_core.Prelude.{
  ℕ, ◌+◌, ◌-◌, ◌*◌, Bool, true, false, List, [], ◌∷◌, Option, none, some, Outcome, ok, err, panic,
  diverges, leb, ltb, ◌==◌, if◌then◌else◌, length,
}
use midori_vpn_core.Prelude.Equality.{text_eq, ◌=?◌}
use midori_vpn_core.Prelude.Dict
use midori_vpn_core.Prelude.Dict.{Dict}
use midori_vpn_core.Net.{Text}
use midori_vpn_core.Strings.{is_empty}
use midori_vpn_core.Auth.Introspect.{Claims, AuthError, empty_token}

abbrev pub second : ℕ
second = 1000000000

abbrev pub max_positive_ttl : ℕ
max_positive_ttl = 300 * second

abbrev pub negative_ttl : ℕ
negative_ttl = 10 * second

abbrev pub exp_leeway : ℕ
exp_leeway = 30 * second

-- introspectionCacheEntry
pub record Entry : Type 0 where
  pub answer : Outcome AuthError Claims
  pub expires_at : ℕ

abbrev pub Cache : Type 0
Cache = Dict Text Entry

pub unexpired : ℕ → Option Entry → Option Entry
unexpired now none = none
unexpired now (some e) = if ltb e.expires_at now then none else some e

unfoldable pub get : ℕ → Cache → Text → Option Entry
unfolding unexpired
get now c key = unexpired now (Dict.get c key)

pub prune_key : ℕ → Cache → Text → Option Entry → Cache
prune_key now c k none = c
prune_key now c k (some e) = if ltb e.expires_at now then Dict.remove c k else c

-- The range over the keys that deletes the expired entries.
pub prune : ℕ → Cache → List Text → Cache
prune now c [] = c
prune now c (k ∷ ks) = prune now (prune_key now c k (Dict.get c k)) ks

pub keys : List (Text × Entry) → List Text
keys [] = []
keys ((k, e) ∷ l) = k ∷ keys l

unfoldable pub set : ℕ → Cache → Text → Entry → Cache
unfolding prune prune_key keys
set now c key e =
    let d = Dict.put c key e in
    if ltb 2048 (length d.entries) then prune now d (keys d.entries) else d

-- The times at which one call reads the clock: for the lookup, for the time that the token has
-- left, for the expiry of the entry, and for the cleanup.
pub record Clock : Type 0 where
  pub looked : ℕ
  pub asked : ℕ
  pub stored : ℕ
  pub swept : ℕ

-- How long a positive answer may be kept; 0 is not at all.
unfoldable pub ttl : ℕ → ℕ → ℕ
ttl exp asked =
    if ltb 0 exp
    then (let remaining = exp * second - (asked + exp_leeway) in
        if ltb remaining max_positive_ttl then remaining else max_positive_ttl)
    else max_positive_ttl

pub kept : Clock → Cache → Text → Claims → Cache
kept t c key claims =
    if ttl claims.exp t.asked == 0
    then c
    else set t.swept c key
        (record { answer = ok claims; expires_at = t.stored + ttl claims.exp t.asked })

-- The answer of IntrospectToken is stored.
pub remembered : Clock → Cache → Text → Outcome AuthError Claims → Cache × Outcome AuthError Claims
remembered t c key (ok claims) = (kept t c key claims, ok claims)
remembered t c key (err e) =
    (set t.swept c key (record { answer = err e; expires_at = t.stored + negative_ttl }), err e)
remembered t c key panic = (c, panic)
remembered t c key diverges = (c, diverges)

module _ (hash : Text → Text) where
  -- InvalidateIntrospection
  unfoldable pub invalidate : Cache → Text → Cache
  invalidate c token = if is_empty token then c else Dict.remove c (hash token)

  pub looked_up :
      Clock
      → Cache
      → Text
      → Outcome AuthError Claims
      → Option Entry
      → Cache × Outcome AuthError Claims
  looked_up t c key fresh (some e) = (c, e.answer)
  looked_up t c key fresh none = remembered t c key fresh

  -- IntrospectTokenCached; `fresh` is what IntrospectToken answers if it is asked.
  unfoldable pub introspect_token_cached :
      Clock → Cache → Text → Outcome AuthError Claims → Cache × Outcome AuthError Claims
  unfolding looked_up remembered kept
  introspect_token_cached t c token fresh =
      if is_empty token
      then (c, fresh)
      else looked_up t c (hash token) fresh (get t.looked c (hash token))
