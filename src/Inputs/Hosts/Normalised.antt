-- ===== src/Inputs/Hosts/Normalised.antt =====
-- What normalizeAdminServerHost of internal/control/server_host.go lets through.
use midori_vpn_core.Prelude.{
  ◌≡◌, refl, sym, ap, subst, ◌∙◌, Bool, true, false, ◌&&◌, ◌||◌, not, [], ◌∷◌, Option, none, some,
  Outcome, ok, ok-injective, ok_not_err, passed, if◌then◌else◌, arith, Bool-cases, inl, inr,
}
use midori_vpn_core.Prelude.Int.{ℤ}
use midori_vpn_core.Prelude.Equality.{text_eq, ◌=?◌}
use midori_vpn_core.Net.{Text, codes}
use midori_vpn_core.Strings.{is_empty, trim_space, contains_text, atoi}
use midori_vpn_core.Inputs.Hosts.{
  Url, HostError, HostPort, is_bracket, trim_brackets_left, trim_brackets_right, trim_brackets,
  has_reserved, port_in_range, checked_host, url_port, url_host, normalize_admin_server_host,
}

-- A host that needs no brackets, no path and no query, and a port that TCP has.
pub record IsClean (hp : HostPort) : Type 0 where
  pub present : is_empty hp.0 ≡ false
  pub unreserved : has_reserved hp.0 ≡ false
  pub unbracketed : trim_brackets hp.0 ≡ hp.0
  pub has_port : port_in_range hp.1 ≡ true

StartsPlain : Text → Type 0
StartsPlain [] = Unit {0}
StartsPlain (c ∷ t) = is_bracket c ≡ false

trim_left-StartsPlain : (t : Text) → StartsPlain (trim_brackets_left t)
unfolding trim_brackets_left StartsPlain
trim_left-StartsPlain [] = tt
trim_left-StartsPlain (c ∷ t) = elim (Bool-cases (is_bracket c)) [
  | inl e ↦ rw e (trim_left-StartsPlain t)
  | inr e ↦ rw e e
]

trim_right-StartsPlain : (t : Text) → StartsPlain t → StartsPlain (trim_brackets_right t)
unfolding trim_brackets_right StartsPlain
trim_right-StartsPlain [] h = tt
trim_right-StartsPlain (c ∷ t) h =
    elim (Bool-cases (is_empty (trim_brackets_right t) && is_bracket c)) [
      | inl e ↦ rw e tt
      | inr e ↦ rw e h
    ]

trim_left-plain : (t : Text) → StartsPlain t → trim_brackets_left t ≡ t
unfolding trim_brackets_left StartsPlain
trim_left-plain [] h = refl
trim_left-plain (c ∷ t) h = rw h refl

trim_right-right : (t : Text) → trim_brackets_right (trim_brackets_right t) ≡ trim_brackets_right t
unfolding trim_brackets_right is_empty
trim_right-right [] = refl
trim_right-right (c ∷ t) = elim (Bool-cases (is_empty (trim_brackets_right t) && is_bracket c)) [
  | inl e ↦ rw e refl
  | inr e ↦ rw e (rw (trim_right-right t) (rw e refl))
]

trim_brackets-trim_brackets : (t : Text) → trim_brackets (trim_brackets t) ≡ trim_brackets t
unfolding trim_brackets
trim_brackets-trim_brackets t =
    ap trim_brackets_right
      (trim_left-plain _ (trim_right-StartsPlain (trim_brackets_left t) (trim_left-StartsPlain t)))
    ∙ trim_right-right (trim_brackets_left t)

either :
    (b : Bool) {x y : Outcome HostError HostPort} {hp : HostPort}
    → (x ≡ ok hp → IsClean hp)
    → (y ≡ ok hp → IsClean hp)
    → (if b then x else y) ≡ ok hp
    → IsClean hp
either true f g h = f h
either false f g h = g h

checked_host-IsClean : (a hp : HostPort) → checked_host a ≡ ok hp → IsClean hp
unfolding checked_host
checked_host-IsClean (raw, port) hp h =
    let host = trim_brackets raw in
    let (present, h1) = passed (is_empty host) _ _ h in
    let (unreserved, h2) = passed (has_reserved host) _ _ h1 in
    let (has_port, h3) = passed (not (port_in_range port)) _ _ h2 in
    subst IsClean (ok-injective h3) (record {
      present = present;
      unreserved = unreserved;
      unbracketed = trim_brackets-trim_brackets raw;
      has_port = ground arith;
    })

url_port-IsClean :
    (host : Text) (port : ℤ) (o : Option ℤ) (hp : HostPort)
    → url_port host port o ≡ ok hp
    → IsClean hp
unfolding url_port
url_port-IsClean host port none hp h = absurd (ok_not_err _ _ (sym h))
url_port-IsClean host port (some p) hp h = checked_host-IsClean (host, p) hp h

url_host-IsClean :
    (port : ℤ) (o : Option Url) (hp : HostPort) → url_host port o ≡ ok hp → IsClean hp
unfolding url_host
url_host-IsClean port none hp h = absurd (ok_not_err _ _ (sym h))
url_host-IsClean port (some u) hp h =
    let (_, h1) = passed (not (u.scheme =? codes "http" || u.scheme =? codes "https")) _ _ h in
    let (_, h2) = passed (is_empty u.host) _ _ h1 in
    let (_, h3) = passed (not (is_empty u.path || u.path =? codes "/")) _ _ h2 in
    let (_, h4) = passed (not (is_empty u.raw_query && is_empty u.fragment)) _ _ h3 in
    either (is_empty u.port) (checked_host-IsClean (trim_space u.hostname, port) hp)
      (url_port-IsClean (trim_space u.hostname) port (atoi u.port) hp) h4

module _ (parse_url : Text → Option Url) where
  -- A host and a port that are accepted, as a name or as a URL, are a host that is not empty, has
  -- no character of a path or a query and no bracket around it, and a port from 1 to 65535.
  pub normalize_admin_server_host-IsClean :
      (raw : Text) (port : ℤ) (hp : HostPort)
      → normalize_admin_server_host parse_url raw port ≡ ok hp
      → IsClean hp
  unfolding normalize_admin_server_host
  normalize_admin_server_host-IsClean raw port hp h =
      let host = trim_space raw in
      let (_, h1) = passed (is_empty host) _ _ h in
      either (contains_text host (codes "://")) (url_host-IsClean port (parse_url host) hp)
        (checked_host-IsClean (host, port) hp) h1
