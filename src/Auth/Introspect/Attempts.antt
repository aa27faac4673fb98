-- ===== src/Auth/Introspect/Attempts.antt =====
-- The loop over the endpoints of IntrospectToken in internal/auth/introspection.go.
use midori_vpn_core.Prelude.{
  ℕ, ◌<◌, ◌≡◌, refl, Bool, true, false, ◌&&◌, not, List, [], ◌∷◌, ◌++◌, Option, none, some, Outcome,
  ok, err, if◌then◌else◌, arith, Bool-cases, inl, inr, ◌⊎◌, leb, ltb, ◌==◌,
}
use midori_vpn_core.Net.{Text}
use midori_vpn_core.Strings.{is_empty}
use midori_vpn_core.Auth.Introspect
use midori_vpn_core.Auth.Introspect.{
  Claims, AuthError, Answer, do_introspection_request, attempts, or_else, decoded, introspect_token,
  no_url,
}

-- What one request gives: claims that are active and unexpired, or an error.
pub data Requested (now : ℕ) : Outcome AuthError Claims → Type 0 where
  accepted : (c : Claims) → c.active ≡ true → (c.exp ≡ 0) ⊎ (now < c.exp) → Requested now (ok c)
  rejected : (e : AuthError) → Requested now (err e)

claimed-Requested :
    (now : ℕ) (c : Claims)
    → Requested now (
        if not c.active
        then err Introspect.inactive
        else if ltb 0 c.exp && leb c.exp now
        then err Introspect.expired
        else ok c)
claimed-Requested now c = go c.active (ltb 0 c.exp && leb c.exp now) refl refl
  where
    go :
        (a x : Bool)
        → c.active ≡ a
        → (ltb 0 c.exp && leb c.exp now) ≡ x
        → Requested now
            (if not a then err Introspect.inactive else if x then err Introspect.expired else ok c)
    go false x f g = rejected _
    go true true f g = rejected _
    go true false f g = accepted c f (ground arith)

request-Requested : (now : ℕ) (a : Option Answer) → Requested now (do_introspection_request now a)
unfolding do_introspection_request
request-Requested now none = rejected _
request-Requested now (some a) = go a.body a.code
  where
    go : (body : Option (Option Claims)) (n : ℕ) → Requested now (decoded now body n)
    go none n = unfold decoded in rejected _
    go (some none) n =
        unfold decoded in
        elim (Bool-cases (n == 200)) [ inl e ↦ rw e (rejected _) | inr e ↦ rw e (rejected _) ]
    go (some (some c)) n =
        unfold decoded in
        elim (Bool-cases (n == 200)) [
          | inl e ↦ rw e (claimed-Requested now c)
          | inr e ↦ rw e (rejected _)
        ]

module _ (now : ℕ) (http : Text → Option Answer) where
  abbrev pub Fails : Text → Type 0
  Fails u = (e : AuthError) × (do_introspection_request now (http u) ≡ err e)

  pub data AllFail : List Text → Type 0 where
    none_left : AllFail []
    one_more : (u : Text) (us : List Text) → Fails u → AllFail us → AllFail (u ∷ us)

  -- What a list of endpoints gives: the claims of the first that succeeds, or an error if all fail.
  pub data Finds : List Text → Outcome AuthError Claims → Type 0 where
    first :
        (before after : List Text) (u : Text) (c : Claims)
        → AllFail before
        → do_introspection_request now (http u) ≡ ok c
        → c.active ≡ true
        → (c.exp ≡ 0) ⊎ (now < c.exp)
        → Finds (before ++ u ∷ after) (ok c)
    all_failed : (us : List Text) (e : AuthError) → AllFail us → Finds us (err e)

  later :
      (u : Text) (us : List Text) (o : Outcome AuthError Claims)
      → Fails u
      → Finds us o
      → Finds (u ∷ us) o
  later u _ _ f (first before after v c all e a x) =
      first (u ∷ before) after v c (one_more u before f all) e a x
  later u _ _ f (all_failed us e all) = all_failed (u ∷ us) e (one_more u us f all)

  attempted :
      (u : Text) (us : List Text) (o : Outcome AuthError Claims)
      → do_introspection_request now (http u) ≡ o
      → Requested now o
      → ((e : AuthError) → Finds us (attempts now http e us))
      → Finds (u ∷ us) (or_else o (λ e. attempts now http e us))
  unfolding or_else
  attempted u us _ e (accepted c a x) k = first [] us u c none_left e a x
  attempted u us _ e (rejected f) k = later u us _ (f, e) (k f)

  attempts-Finds : (us : List Text) (last : AuthError) → Finds us (attempts now http last us)
  unfolding attempts
  attempts-Finds [] last = all_failed [] last none_left
  attempts-Finds (u ∷ us) last =
      attempted u us _ refl (request-Requested now (http u)) (λ e. attempts-Finds us e)

  -- With a token, a client and a URL, IntrospectToken gives the claims of the first endpoint that
  -- reports an active and unexpired token, and fails only if every endpoint has failed: whatever the
  -- status of a failure is, the next endpoint is asked.
  pub introspect_token-Finds :
      (client_id client_secret u : Text) (us : List Text) (token : Text)
      → is_empty token ≡ false
      → is_empty client_id ≡ false
      → is_empty client_secret ≡ false
      → Finds (u ∷ us) (introspect_token now http client_id client_secret (u ∷ us) token)
  unfolding introspect_token Introspect.asked
  introspect_token-Finds client_id client_secret u us token t i s =
      rw (t, i, s) (attempts-Finds (u ∷ us) no_url)
