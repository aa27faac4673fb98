-- ===== src/Auth/Introspect.antt =====
-- internal/auth/introspection.go: a token is shown to one introspection endpoint after another.
-- HTTP and JSON are the environment: for every endpoint, the status and the decoded body.
pub mod Attempts
use midori_vpn_core.Prelude.{
  ℕ, ◌+◌, Bool, true, false, ◌&&◌, ◌||◌, not, List, [], ◌∷◌, ◌++◌, Option, none, some, Outcome, ok,
  err, panic, diverges, leb, ltb, ◌==◌, if◌then◌else◌,
}
use midori_vpn_core.Prelude.Equality.{text_eq, ◌=?◌}
use midori_vpn_core.Net.{Text, codes}
use midori_vpn_core.Strings.{is_empty, is_space, trim_space}

-- The groups claim as it is decoded: an array, whose items that are no strings are `none`, a
-- string, or anything else.
pub data Groups : Type 0 where
  items : List (Option Text) → Groups
  words : Text → Groups
  other : Groups

-- IntrospectionClaims. An expiry at or below 0 is 0.
pub record Claims : Type 0 where
  pub active : Bool
  pub sub : Text
  pub iss : Text
  pub email : Text
  pub exp : ℕ
  pub groups : Groups

pub data AuthError : Type 0 where
  empty_token missing_client_id missing_client_secret no_url : AuthError
  request_failed read_failed parse_failed inactive expired : AuthError
  status : ℕ → AuthError
  missing_header invalid_format invalid_token invalid_issuer missing_sub provisioning_failed :
      AuthError

-- What an endpoint answers: the body is `none` if it cannot be read, and its content is `none` if
-- it is not the JSON of claims.
pub record Answer : Type 0 where
  pub code : ℕ
  pub body : Option (Option Claims)

pub decoded : ℕ → Option (Option Claims) → ℕ → Outcome AuthError Claims
decoded now none code = err read_failed
decoded now (some content) code = if code == 200 then claimed content else err (status code)
  where
    claimed : Option Claims → Outcome AuthError Claims
    claimed none = err parse_failed
    claimed (some c) =
        if not c.active
        then err inactive
        else if ltb 0 c.exp && leb c.exp now
        then err expired
        else ok c

-- doIntrospectionRequest at a time in seconds.
unfoldable pub do_introspection_request : ℕ → Option Answer → Outcome AuthError Claims
unfolding decoded
do_introspection_request now none = err request_failed
do_introspection_request now (some a) = decoded now a.body a.code

pub seen_before : List Text → Text → Bool
seen_before [] u = false
seen_before (v ∷ vs) u = v =? u || seen_before vs u

-- The closure `add`.
pub add_url : List Text → Text → List Text
add_url urls u =
    let t = trim_space u in if is_empty t || seen_before urls t then urls else urls ++ t ∷ []

-- introspectionURLs, of the URLs that the configuration derives.
unfoldable pub introspection_urls : Text → Text → Text → List Text
unfolding add_url seen_before
introspection_urls direct app origin =
    let one = add_url [] direct in
    let two = if is_empty app then one else add_url one (app ++ codes "/introspect/") in
    if is_empty origin then two else add_url two (origin ++ codes "/application/o/introspect/")

pub or_else :
    Outcome AuthError Claims → (AuthError → Outcome AuthError Claims) → Outcome AuthError Claims
or_else (ok c) f = ok c
or_else (err e) f = f e
or_else panic f = panic
or_else diverges f = diverges

-- The loop over the endpoints: the first success, or else the last error.
pub attempts : ℕ → (Text → Option Answer) → AuthError → List Text → Outcome AuthError Claims
attempts now http last [] = err last
attempts now http last (u ∷ us) =
    or_else (do_introspection_request now (http u)) (λ e. attempts now http e us)

pub asked : ℕ → (Text → Option Answer) → List Text → Outcome AuthError Claims
asked now http [] = err no_url
asked now http (u ∷ us) = attempts now http no_url (u ∷ us)

-- IntrospectToken
unfoldable pub introspect_token :
    ℕ → (Text → Option Answer) → Text → Text → List Text → Text → Outcome AuthError Claims
unfolding asked attempts or_else
introspect_token now http client_id client_secret urls token =
    if is_empty token
    then err empty_token
    else if is_empty client_id
    then err missing_client_id
    else if is_empty client_secret
    then err missing_client_secret
    else asked now http urls

pub nonempty_words : List Text → List Text
nonempty_words [] = []
nonempty_words (w ∷ ws) = let rest = nonempty_words ws in if is_empty w then rest else w ∷ rest

-- strings.Fields, read from the left with the word so far.
pub fields : Text → Text → List Text
fields word [] = word ∷ []
fields word (c ∷ t) =
    let more = fields (word ++ c ∷ []) t in
    let after = fields [] t in if is_space c then word ∷ after else more

pub strings_of : List (Option Text) → List Text
strings_of [] = []
strings_of (none ∷ l) = strings_of l
strings_of (some s ∷ l) = s ∷ strings_of l

-- introspectionGroups
unfoldable pub introspection_groups : Groups → List Text
unfolding nonempty_words fields strings_of
introspection_groups (items l) = nonempty_words (strings_of l)
introspection_groups (words t) = nonempty_words (fields [] t)
introspection_groups other = []
