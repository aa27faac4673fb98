-- ===== src/Auth/Cache/Freshness.antt =====
-- The cache of internal/auth/introspection_cache.go does not outlive the tokens.
use midori_vpn_core.Prelude.{
  ℕ, ◌+◌, ◌*◌, ◌<◌, ◌≤◌, ◌≡◌, refl, ap, sym, ◌∙◌, List, [], ◌∷◌, Option, none, some, Outcome, ok,
  err, panic, diverges, arith, Bool-cases, Option-cases, inl, inr, ◌⊎◌, ltb, ◌==◌, length,
  ok-injective, subst,
}
use midori_vpn_core.Prelude.Equality.{text_eq, ◌=?◌}
use midori_vpn_core.Prelude.Dict
use midori_vpn_core.Prelude.Dict.{Dict, get-put, get-remove, get-empty}
use midori_vpn_core.Net.{Text}
use midori_vpn_core.Strings.{is_empty}
use midori_vpn_core.Auth.Introspect.{Claims, AuthError}
use midori_vpn_core.Auth.Cache
use midori_vpn_core.Auth.Cache.{
  Cache, Entry, Clock, second, exp_leeway, get, set, prune, prune_key, ttl, kept, remembered,
  looked_up, invalidate, introspect_token_cached,
}

-- A positive answer that has an expiry is gone by then.
pub IsFresh : Cache → Type 0
IsFresh c =
    (key : Text) (e : Entry) (claims : Claims)
    → Dict.get c key ≡ some e
    → e.answer ≡ ok claims
    → 0 < claims.exp
    → e.expires_at ≤ claims.exp * second

-- Every entry of one cache is in another.
Within : Cache → Cache → Type 0
Within c d = (key : Text) (e : Entry) → Dict.get c key ≡ some e → Dict.get d key ≡ some e

Within-IsFresh : (c d : Cache) → Within c d → IsFresh d → IsFresh c
unfolding Within IsFresh
Within-IsFresh c d w f key e claims g h p = f key e claims (w key e g) h p

remove-Within : (c : Cache) (k : Text) → Within (Dict.remove c k) c
unfolding Within
remove-Within c k key e g = ground (arith, get-remove c k key)

prune_key-Within :
    (now : ℕ) (c : Cache) (k : Text) (o : Option Entry) → Within (prune_key now c k o) c
unfolding prune_key Within
prune_key-Within now c k none key e = λ g. g
prune_key-Within now c k (some x) key e = elim (Bool-cases (ltb x.expires_at now)) [
  | inl h ↦ rw h (λ g. remove-Within c k key e g)
  | inr h ↦ rw h (λ g. g)
]

prune-Within : (now : ℕ) (ks : List Text) (c : Cache) → Within (prune now c ks) c
unfolding prune Within
prune-Within now [] c key e g = g
prune-Within now (k ∷ ks) c key e g =
    prune_key-Within now c k (Dict.get c k) key e
      (prune-Within now ks (prune_key now c k (Dict.get c k)) key e g)

put-IsFresh :
    (c : Cache) (key : Text) (e : Entry)
    → IsFresh c
    → ((claims : Claims)
        → e.answer ≡ ok claims
        → 0 < claims.exp
        → e.expires_at ≤ claims.exp * second)
    → IsFresh (Dict.put c key e)
unfolding IsFresh
put-IsFresh c key e f new j d claims g h p = elim (Bool-cases (key =? j)) [
  | inl s ↦
      let same : e ≡ d = ground (arith, get-put c key j e) in
      subst (λ (x : Entry). x.expires_at ≤ claims.exp * second) same
        (new claims (ap (λ (x : Entry). x.answer) same ∙ h) p)
  | inr s ↦ f j d claims (ground (arith, get-put c key j e)) h p
]

set-IsFresh :
    (now : ℕ) (c : Cache) (key : Text) (e : Entry)
    → IsFresh c
    → ((claims : Claims)
        → e.answer ≡ ok claims
        → 0 < claims.exp
        → e.expires_at ≤ claims.exp * second)
    → IsFresh (set now c key e)
unfolding set
set-IsFresh now c key e f new = elim (Bool-cases (ltb 2048 (length (Dict.put c key e).entries))) [
  | inl h ↦ rw h (
      Within-IsFresh _ _
        (prune-Within now (Cache.keys (Dict.put c key e).entries) (Dict.put c key e))
        (put-IsFresh c key e f new))
  | inr h ↦ rw h (put-IsFresh c key e f new)
]

-- A call of the cache: IntrospectTokenCached with its times and with what IntrospectToken would
-- answer, or InvalidateIntrospection.
pub data Call : Type 0 where
  introspect : Clock → Text → Outcome AuthError Claims → Call
  forget : Text → Call

module _ (hash : Text → Text) where
  unfoldable pub step : Cache → Call → Cache
  step c (introspect t token fresh) = (introspect_token_cached hash t c token fresh).0
  step c (forget token) = invalidate hash c token

  unfoldable pub run : Cache → List Call → Cache
  unfolding step
  run c [] = c
  run c (k ∷ ks) = run (step c k) ks

  -- An answer is stored at most 30 seconds after the time that its token has left was computed.
  pub data Prompt : List Call → Type 0 where
    no_call : Prompt []
    stored_promptly :
        (t : Clock) (token : Text) (fresh : Outcome AuthError Claims) (ks : List Call)
        → t.stored ≤ t.asked + exp_leeway
        → Prompt ks
        → Prompt (introspect t token fresh ∷ ks)
    forgotten : (token : Text) (ks : List Call) → Prompt ks → Prompt (forget token ∷ ks)

  remembered-IsFresh :
      (t : Clock) (c : Cache) (key : Text) (fresh : Outcome AuthError Claims)
      → t.stored ≤ t.asked + exp_leeway
      → IsFresh c
      → IsFresh (remembered t c key fresh).0
  unfolding remembered kept ttl
  remembered-IsFresh t c key (ok claims) p f = elim (Bool-cases (ttl claims.exp t.asked == 0)) [
    | inl h ↦ rw h f
    | inr h ↦ rw h (
        set-IsFresh t.swept c key _ f (λ d e x.
          subst (λ (k : Claims). t.stored + ttl claims.exp t.asked ≤ k.exp * second)
            (ok-injective {E = AuthError} e)
            (ground (arith, ap (λ (k : Claims). k.exp) (ok-injective {E = AuthError} e)))))
  ]
  remembered-IsFresh t c key (err e) p f = set-IsFresh t.swept c key _ f (λ d g x. cc)
  remembered-IsFresh t c key panic p f = f
  remembered-IsFresh t c key diverges p f = f

  introspect-IsFresh :
      (t : Clock) (c : Cache) (token : Text) (fresh : Outcome AuthError Claims)
      → t.stored ≤ t.asked + exp_leeway
      → IsFresh c
      → IsFresh (introspect_token_cached hash t c token fresh).0
  unfolding introspect_token_cached looked_up
  introspect-IsFresh t c token fresh p f = elim (Bool-cases (is_empty token)) [
    | inl h ↦ rw h f
    | inr h ↦ rw h (elim (Option-cases (get t.looked c (hash token))) [
      | inl e ↦ rw e (remembered-IsFresh t c (hash token) fresh p f)
      | inr (x, e) ↦ rw e f
    ])
  ]

  invalidate-IsFresh : (c : Cache) (token : Text) → IsFresh c → IsFresh (invalidate hash c token)
  unfolding invalidate
  invalidate-IsFresh c token f = elim (Bool-cases (is_empty token)) [
    | inl h ↦ rw h f
    | inr h ↦ rw h (Within-IsFresh _ c (remove-Within c (hash token)) f)
  ]

  run-IsFresh : (ks : List Call) (c : Cache) → Prompt ks → IsFresh c → IsFresh (run c ks)
  unfolding run
  run-IsFresh _ c no_call f = f
  run-IsFresh _ c (stored_promptly t token fresh ks p q) f =
      run-IsFresh ks _ q (introspect-IsFresh t c token fresh p f)
  run-IsFresh _ c (forgotten token ks q) f = run-IsFresh ks _ q (invalidate-IsFresh c token f)

  remembered_answer :
      (t : Clock) (c : Cache) (key : Text) (fresh : Outcome AuthError Claims)
      → (remembered t c key fresh).1 ≡ fresh
  unfolding remembered
  remembered_answer t c key (ok claims) = refl
  remembered_answer t c key (err e) = refl
  remembered_answer t c key panic = refl
  remembered_answer t c key diverges = refl

  empty-IsFresh : IsFresh Dict.empty
  unfolding IsFresh
  empty-IsFresh key e claims g h p = absurd (cc (get-empty {V = Entry} key))

  found :
      (now : ℕ) (o : Option Entry) (x : Entry)
      → Cache.unexpired now o ≡ some x
      → (o ≡ some x) × (now ≤ x.expires_at)
  unfolding Cache.unexpired
  found now none x = λ e. cc
  found now (some y) x = elim (Bool-cases (ltb y.expires_at now)) [
    | inl h ↦ rw h (λ e. cc)
    | inr h ↦
        rw h
          (λ e. let same : y ≡ x = cc in (e, ground (arith, ap (λ (z : Entry). z.expires_at) same)))
  ]

  stored :
      (t : Clock) (c : Cache) (key : Text) (x : Entry) (claims : Claims)
      → IsFresh c
      → get t.looked c key ≡ some x
      → x.answer ≡ ok claims
      → (claims.exp ≡ 0) ⊎ (t.looked ≤ claims.exp * second)
  unfolding IsFresh get
  stored t c key x claims f g e =
      let (at, left) = found t.looked (Dict.get c key) x g in
      elim (Bool-cases (ltb 0 claims.exp)) [
        | inl h ↦ inr (omega (arith, f key x claims at e (ground arith)))
        | inr h ↦ inl (ground arith)
      ]

  -- After any history of calls on an empty cache, each of which stores its answer promptly, a call
  -- that accepts a token gives what IntrospectToken answers now, or stored claims that carry no
  -- expiry or whose expiry is not before the time of the lookup.
  pub introspect_token_cached-unexpired :
      (ks : List Call) (t : Clock) (token : Text) (fresh : Outcome AuthError Claims)
      (claims : Claims)
      → Prompt ks
      → (introspect_token_cached hash t (run Dict.empty ks) token fresh).1 ≡ ok claims
      → (fresh ≡ ok claims) ⊎ (claims.exp ≡ 0) ⊎ (t.looked ≤ claims.exp * second)
  unfolding introspect_token_cached looked_up
  introspect_token_cached-unexpired ks t token fresh claims p = elim (Bool-cases (is_empty token)) [
    | inl h ↦ rw h (λ e. inl e)
    | inr h ↦ rw h (elim (Option-cases (get t.looked (run Dict.empty ks) (hash token))) [
      | inl g ↦
          rw g (λ e. inl (sym (remembered_answer t (run Dict.empty ks) (hash token) fresh) ∙ e))
      | inr (x, g) ↦ rw g (λ e. inr (
          stored t (run Dict.empty ks) (hash token) x claims
            (run-IsFresh ks Dict.empty p empty-IsFresh) g e))
    ])
  ]
