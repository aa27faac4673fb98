-- ===== src/Auth/Tokens/Agreement.antt =====
-- The three readers of a token in internal/auth/middleware.go, against each other.
use midori_vpn_core.Prelude.{
  ◌≡◌, ◌≢◌, refl, Bool, true, false, List, Option, none, some, Outcome, ok, err, panic, diverges,
  and_then, Bool-cases, Option-cases, inl, inr, subst,
}
use midori_vpn_core.Net.{Text}
use midori_vpn_core.Strings.{is_empty}
use midori_vpn_core.Auth.Introspect.{
  Claims, AuthError, invalid_token, invalid_issuer, missing_sub, provisioning_failed,
  introspection_groups,
}
use midori_vpn_core.Auth.Tokens
use midori_vpn_core.Auth.Tokens.{
  Token, WsClaims, ClaimsError, jwe_introspection_failed, introspection_failed, wrong_issuer,
  no_subject, Identity, same_issuer, is_jwe, string_slice_claim, bearer_token, foreign,
  jwt_middleware, validate_token_and_extract_claims,
}

module _ (issuer : Text) (jwt : Text → Option Token)
    (introspect : Text → Outcome AuthError Claims) where
  -- What ValidateTokenOnly answers, from what ValidateTokenAndExtractClaims answers.
  pub data Compared (local : Option Token) : Bool → Outcome ClaimsError WsClaims → Type 0 where
    both : (c : WsClaims) → is_empty c.subject ≡ false → Compared local true (ok c)
    neither :
        (o : Outcome ClaimsError WsClaims) → ((c : WsClaims) → o ≢ ok c) → Compared local false o
    nameless :
        (k : Token)
        → local ≡ some k
        → is_empty k.subject ≡ true
        → Compared local true (err no_subject)

  module _ {U : Type 0} (upsert : Text → Text → List Text → Option U) where
    -- The answer of the middleware that corresponds to an error of the WebSocket.
    abbrev pub answer_of : ClaimsError → AuthError
    answer_of (jwe_introspection_failed e) = invalid_token
    answer_of (introspection_failed e) = invalid_token
    answer_of (wrong_issuer t) = invalid_issuer
    answer_of no_subject = missing_sub

    -- What the middleware answers for a token, from what ValidateTokenAndExtractClaims answers.
    pub data Served : Outcome ClaimsError WsClaims → Outcome AuthError U → Type 0 where
      refused : (e : ClaimsError) → Served (err e) (err (answer_of e))
      served :
          (c : WsClaims) (email : Text) (user : U)
          → is_empty c.subject ≡ false
          → upsert c.subject email c.groups ≡ some user
          → Served (ok c) (ok user)
      unprovisioned :
          (c : WsClaims) (email : Text)
          → is_empty c.subject ≡ false
          → upsert c.subject email c.groups ≡ none
          → Served (ok c) (err provisioning_failed)
      stuck : Served panic panic
      endless : Served diverges diverges

    after : Outcome AuthError Identity → Outcome AuthError U
    after o = and_then o (λ i.
        and_then (Tokens.with_sub issuer jwt introspect i)
          (λ j. Tokens.provisioned issuer jwt introspect upsert (upsert j.sub j.email j.groups)))

    provisioned-Served :
        (c : WsClaims) (email : Text)
        → is_empty c.subject ≡ false
        → Served
            (ok c)
            (Tokens.provisioned issuer jwt introspect upsert (upsert c.subject email c.groups))
    unfolding Tokens.provisioned
    provisioned-Served c email e = elim (Option-cases (upsert c.subject email c.groups)) [
      | inl n ↦ rw n (unprovisioned c email e n)
      | inr (user, n) ↦ rw n (served c email user e n)
    ]

    introspected_Served :
        (failed : AuthError → ClaimsError)
        → ((e : AuthError) → answer_of (failed e) ≡ invalid_token)
        → (o : Outcome AuthError Claims)
        → Served
            (Tokens.claims_introspected issuer jwt introspect failed o)
            (after (Tokens.identity_introspected issuer jwt introspect o))
    unfolding Tokens.claims_introspected Tokens.identity_introspected after and_then Tokens.with_sub
    introspected_Served failed same (ok c) = elim (Bool-cases (foreign issuer jwt introspect c)) [
      | inl h ↦ rw h (refused _)
      | inr h ↦ rw h (elim (Bool-cases (is_empty c.sub)) [
        | inl e ↦ rw e (refused _)
        | inr e ↦ rw e (
            provisioned-Served (record { subject = c.sub; groups = introspection_groups c.groups })
              c.email e)
      ])
    ]
    introspected_Served failed same (err e) =
        subst (λ a. Served (err (failed e)) (err a)) (same e) (refused (failed e))
    introspected_Served failed same panic = stuck
    introspected_Served failed same diverges = endless

    local_Served :
        (t : Text) (k : Option Token)
        → Served
            (Tokens.claims_local issuer jwt introspect t k)
            (after (Tokens.identity_local issuer jwt introspect t k))
    unfolding Tokens.claims_local Tokens.identity_local after and_then Tokens.with_sub
    local_Served t none = introspected_Served introspection_failed (λ e. refl) (introspect t)
    local_Served t (some k) = elim (Bool-cases (same_issuer k.issuer issuer)) [
      | inr h ↦ rw h (refused _)
      | inl h ↦ rw h (elim (Bool-cases (is_empty k.subject)) [
        | inl e ↦ rw e (refused _)
        | inr e ↦ rw e (
            provisioned-Served
              (record { subject = k.subject; groups = string_slice_claim k.groups }) k.email e)
      ])
    ]

    -- The middleware of the API and ValidateTokenAndExtractClaims of the WebSocket decide alike on
    -- the claims of every token, given one answer of the introspection and of the JWT check. Where the WebSocket refuses it, the middleware refuses it with the
    -- answer that corresponds: invalid token for a failed introspection of either kind, and its own
    -- answers for a wrong issuer and for a missing subject. Where the WebSocket reads a subject,
    -- which is not empty, and groups, the middleware provisions that subject with those groups: it
    -- serves the user, or refuses the request because the user cannot be provisioned, though the
    -- WebSocket accepts the token. Where an introspection panics or does not end, both do.
    pub jwt_middleware-Served :
        (header t : Text)
        → bearer_token header ≡ ok t
        → Served
            (validate_token_and_extract_claims issuer jwt introspect t)
            (jwt_middleware issuer jwt introspect upsert header)
    unfolding validate_token_and_extract_claims jwt_middleware Tokens.identity after and_then
    jwt_middleware-Served header t b = rw b (elim (Bool-cases (is_jwe t)) [
      | inl h ↦ rw h (introspected_Served jwe_introspection_failed (λ e. refl) (introspect t))
      | inr h ↦ rw h (local_Served t (jwt t))
    ])
