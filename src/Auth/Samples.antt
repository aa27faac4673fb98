-- ===== src/Auth/Samples.antt =====
-- The theorems on internal/auth at one token and one user.
use midori_vpn_core.Prelude.{
  ℕ, ◌*◌, ◌≤◌, ◌≡◌, refl, true, List, [], ◌∷◌, Option, none, some, Outcome, ok, err, ◌⊎◌, arith,
  if◌then◌else◌,
}
use midori_vpn_core.Prelude.Equality.{text_eq, text_beq, ◌=?◌}
use midori_vpn_core.Prelude.Dict
use midori_vpn_core.Net.{Text, codes, cut}
use midori_vpn_core.Strings.{is_empty, trim_space, map_text, lower}
use midori_vpn_core.Auth.Introspect.{Claims, AuthError, Answer, introspect_token, words, inactive}
use midori_vpn_core.Auth.Introspect.Attempts.{Finds, introspect_token-Finds}
use midori_vpn_core.Auth.Cache.{Clock, second, introspect_token_cached, get, set, ttl}
use midori_vpn_core.Auth.Cache.Freshness.{
  Call, introspect, Prompt, no_call, stored_promptly, run, introspect_token_cached-unexpired,
}
use midori_vpn_core.Auth.Tokens.{
  Token, bearer_token, validate_token_and_extract_claims, jwt_middleware,
}
use midori_vpn_core.Auth.Tokens.Agreement.{Served, jwt_middleware-Served}

abbrev claims : Claims
claims = record {
  active = true;
  sub = codes "u1";
  iss = codes "https://id/";
  email = codes "u@x";
  exp = 1000;
  groups = words (codes "admin staff");
}

-- The first endpoint is missing, the second one knows the token.
abbrev http : Text → Option Answer
http u =
    if u =? codes "https://id/a"
    then some (record { code = 404; body = some none })
    else some (record { code = 200; body = some (some claims) })

introspect_token-Finds_example : Finds 900 http (codes "https://id/a" ∷ codes "https://id/b" ∷ []) (
    introspect_token 900 http
      (codes "id")
      (codes "secret")
      (codes "https://id/a" ∷ codes "https://id/b" ∷ [])
      (codes "t"))
unfolding is_empty
introspect_token-Finds_example =
    introspect_token-Finds 900 http (codes "id") (codes "secret") (codes "https://id/a")
      (codes "https://id/b" ∷ []) (codes "t") refl refl refl

abbrev at : ℕ → Clock
at s = record { looked = s * second; asked = s * second; stored = s * second; swept = s * second }

abbrev plain : Text → Text
plain t = t

abbrev history : List Call
history = introspect (at 900) (codes "t") (ok claims) ∷ []

prompt : Prompt plain history
prompt = stored_promptly (at 900) (codes "t") (ok claims) [] (omega arith) no_call

-- At 960 seconds the cache still accepts the token, though the endpoint would not.
cached :
    (introspect_token_cached plain
      (at 960)
      (run plain Dict.empty history)
      (codes "t")
      (err inactive)).1
    ≡ ok claims
unfolding introspect_token_cached run get set ttl Dict.get Dict.put text_beq is_empty Dict.empty
cached = refl

introspect_token_cached-unexpired_example :
    (◌≡◌ {A = Outcome AuthError Claims} (err inactive) (ok claims))
    ⊎ (◌≡◌ {A = ℕ} 1000 0)
    ⊎ (960 * second ≤ 1000 * second)
introspect_token_cached-unexpired_example =
    introspect_token_cached-unexpired plain history (at 960) (codes "t") (err inactive) claims
      prompt cached

abbrev issuer : Text
issuer = codes "https://id"

abbrev jwt : Text → Option Token
jwt t =
    if t =? codes "a.b.c"
    then some (record { issuer = codes "https://id/"; subject = []; email = []; groups = words [] })
    else none

abbrev introspected : Text → Outcome AuthError Claims
introspected t = if t =? codes "opaque" then ok claims else err inactive

abbrev upsert : Text → Text → List Text → Option Text
upsert sub email groups = some sub

bearer : bearer_token (codes "Bearer opaque") ≡ ok (codes "opaque")
unfolding bearer_token cut is_empty map_text lower trim_space text_beq
bearer = refl

jwt_middleware-Served_example :
    Served issuer jwt introspected upsert
      (validate_token_and_extract_claims issuer jwt introspected (codes "opaque"))
      (jwt_middleware issuer jwt introspected upsert (codes "Bearer opaque"))
jwt_middleware-Served_example =
    jwt_middleware-Served issuer jwt introspected upsert (codes "Bearer opaque") (codes "opaque")
      bearer
