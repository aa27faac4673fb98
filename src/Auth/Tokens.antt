-- ===== src/Auth/Tokens.antt =====
-- internal/auth/middleware.go: which tokens the API and the WebSocket accept, and for whom. The
-- check of a JWT against the keys of the issuer is a parameter (jwx), as is the introspection, and
-- the row of the user in the database.
pub mod Agreement
use midori_vpn_core.Prelude.{
  ℕ, Bool, true, false, ◌&&◌, ◌||◌, not, List, [], ◌∷◌, ◌++◌, Option, none, some, Outcome, ok, err,
  panic, diverges, ◌==◌, if◌then◌else◌, and_then,
}
use midori_vpn_core.Prelude.Equality.{text_eq, ◌=?◌}
use midori_vpn_core.Net.{Text, codes, slash, cut, dot}
use midori_vpn_core.Strings.{is_empty, trim_space, count_char, map_text, lower}
use midori_vpn_core.Auth.Introspect.{
  Claims, AuthError, missing_header, invalid_format, invalid_token, invalid_issuer, missing_sub,
  provisioning_failed, Groups, introspection_groups, strings_of, items, words, other,
}

-- The claims of a JWT that jwx accepts; a claim that is absent or no string is empty.
pub record Token : Type 0 where
  pub issuer : Text
  pub subject : Text
  pub email : Text
  pub groups : Groups

-- WSClaims, and with the address the user that the middleware provisions.
pub record WsClaims : Type 0 where
  pub subject : Text
  pub groups : List Text

-- The errors of ValidateTokenAndExtractClaims: that of the introspection of a JWE, that of the
-- introspection of a token that is no JWT of the issuer's keys (behind the error of jwx, which the
-- model leaves out), and those of the claims.
pub data ClaimsError : Type 0 where
  jwe_introspection_failed introspection_failed : AuthError → ClaimsError
  wrong_issuer : Text → ClaimsError
  no_subject : ClaimsError

pub record Identity : Type 0 where
  pub sub : Text
  pub email : Text
  pub groups : List Text

-- strings.TrimRight(s, "/")
pub trim_slashes : Text → Text
trim_slashes [] = []
trim_slashes (c ∷ t) =
    let rest = trim_slashes t in if c == slash && is_empty rest then [] else c ∷ rest

unfoldable pub same_issuer : Text → Text → Bool
unfolding trim_slashes
same_issuer actual expected = trim_slashes actual =? trim_slashes expected

-- isJWE
unfoldable pub is_jwe : Text → Bool
is_jwe token = count_char dot token == 4

-- getStringSliceClaim
unfoldable pub string_slice_claim : Groups → List Text
string_slice_claim (items l) = strings_of l
string_slice_claim (words t) = []
string_slice_claim other = []

-- The token of an Authorization header: the text behind the scheme, which is bearer in any case.
unfoldable pub bearer_token : Text → Outcome AuthError Text
bearer_token header =
    let parts = cut b' ' header in
    if is_empty header then err missing_header else found parts.0 parts.1
  where
    found : Text → Option Text → Outcome AuthError Text
    found scheme none = err invalid_format
    found scheme (some t) =
        if not (map_text lower scheme =? codes "bearer") || is_empty (trim_space t)
        then err invalid_format
        else ok (trim_space t)

module _ (issuer : Text) (jwt : Text → Option Token)
    (introspect : Text → Outcome AuthError Claims) where
  foreign : Claims → Bool
  foreign c = not (is_empty c.iss) && not (same_issuer c.iss issuer)

  -- The middleware's reading of an introspected token.
  pub identity_introspected : Outcome AuthError Claims → Outcome AuthError Identity
  identity_introspected (ok c) =
      if foreign c
      then err invalid_issuer
      else ok (record { sub = c.sub; email = c.email; groups = introspection_groups c.groups })
  identity_introspected (err e) = err invalid_token
  identity_introspected panic = panic
  identity_introspected diverges = diverges

  pub identity_local : Text → Option Token → Outcome AuthError Identity
  identity_local t none = identity_introspected (introspect t)
  identity_local t (some k) =
      if not (same_issuer k.issuer issuer)
      then err invalid_issuer
      else ok (record { sub = k.subject; email = k.email; groups = string_slice_claim k.groups })

  pub identity : Text → Outcome AuthError Identity
  identity t = if is_jwe t then identity_introspected (introspect t) else identity_local t (jwt t)

  pub with_sub : Identity → Outcome AuthError Identity
  with_sub i = if is_empty i.sub then err missing_sub else ok i

  module _ {U : Type 0} (upsert : Text → Text → List Text → Option U) where
    pub provisioned : Option U → Outcome AuthError U
    provisioned none = err provisioning_failed
    provisioned (some u) = ok u

    -- JWTMiddleware: the user that the next handler sees, or the refusal.
    unfoldable pub jwt_middleware : Text → Outcome AuthError U
    unfolding identity identity_introspected identity_local with_sub provisioned foreign and_then
    jwt_middleware header = and_then (bearer_token header) (λ t.
        and_then (identity t)
          (λ i. and_then (with_sub i) (λ j. provisioned (upsert j.sub j.email j.groups))))

  pub only_introspected : Outcome AuthError Claims → Bool
  only_introspected (ok c) = if foreign c then false else not (is_empty c.sub)
  only_introspected _ = false

  pub only_local : Text → Option Token → Bool
  only_local t none = only_introspected (introspect t)
  only_local t (some k) = same_issuer k.issuer issuer

  -- ValidateTokenOnly
  unfoldable pub validate_token_only : Text → Bool
  unfolding only_introspected only_local foreign
  validate_token_only t =
      if is_jwe t then only_introspected (introspect t) else only_local t (jwt t)

  -- What is read of an introspection, with the error of one that fails.
  pub claims_introspected :
      (AuthError → ClaimsError) → Outcome AuthError Claims → Outcome ClaimsError WsClaims
  claims_introspected failed (ok c) =
      if foreign c
      then err (wrong_issuer c.iss)
      else if is_empty c.sub
      then err no_subject
      else ok (record { subject = c.sub; groups = introspection_groups c.groups })
  claims_introspected failed (err e) = err (failed e)
  claims_introspected failed panic = panic
  claims_introspected failed diverges = diverges

  pub claims_local : Text → Option Token → Outcome ClaimsError WsClaims
  claims_local t none = claims_introspected introspection_failed (introspect t)
  claims_local t (some k) =
      if not (same_issuer k.issuer issuer)
      then err (wrong_issuer k.issuer)
      else if is_empty k.subject
      then err no_subject
      else ok (record { subject = k.subject; groups = string_slice_claim k.groups })

  -- ValidateTokenAndExtractClaims
  unfoldable pub validate_token_and_extract_claims : Text → Outcome ClaimsError WsClaims
  unfolding claims_introspected claims_local foreign
  validate_token_and_extract_claims t =
      if is_jwe t
      then claims_introspected jwe_introspection_failed (introspect t)
      else claims_local t (jwt t)
