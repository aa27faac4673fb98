-- ===== src/Proxies.antt =====
-- The client address of internal/api/ratelimit.go, on IPv4: which proxies are trusted, and whether
-- the forwarding headers of a request are read.
use midori_vpn_core.Prelude.{
  ℕ, Bool, false, ◌||◌, not, List, [], ◌∷◌, ◌++◌, Option, none, some, ◌==◌, if◌then◌else◌,
}
use midori_vpn_core.Net.{Text, slash, Network, parse_ip, parse_cidr, contains}
use midori_vpn_core.Strings.{is_empty, trim_space, split, contains_text}

abbrev pub colon : ℕ
colon = b':'

-- The parts of a request that realIP reads. A header that is absent is empty.
pub record Request : Type 0 where
  pub remote_addr : Text
  pub x_real_ip : Text
  pub x_forwarded_for : Text

-- The text before the last separator and the text behind it.
pub last_cut : ℕ → Text → Option (Text × Text)
last_cut sep [] = none
last_cut sep (c ∷ t) = longer (last_cut sep t)
  where
    longer : Option (Text × Text) → Option (Text × Text)
    longer (some (a, b)) = some (c ∷ a, b)
    longer none = if c == sep then some ([], t) else none

unfoldable pub has_char : ℕ → Text → Bool
has_char c [] = false
has_char c (d ∷ t) = d == c || has_char c t

-- The host of a text like 1.2.3.4:80: it has no colon, and no bracket is anywhere.
pub plain_host : Text → Option (Text × Text) → Option Text
plain_host t none = none
plain_host t (some (host, port)) =
    if has_char colon host || has_char b'[' t || has_char b']' t then none else some host

-- The host of a text like [::1]:80, which follows the opening bracket.
pub bracketed_host : Text → Option (Text × Text) → Option Text
bracketed_host t none = none
bracketed_host t (some (host, port)) = closed host (last_cut b']' host)
  where
    closed : Text → Option (Text × Text) → Option Text
    closed host (some (inner, [])) =
        if has_char b']' inner || has_char b'[' host || has_char b'[' port || has_char b']' port
        then none
        else some inner
    closed host _ = none

-- net.SplitHostPort, without the port.
unfoldable pub split_host_port : Text → Option Text
unfolding last_cut has_char plain_host bracketed_host
split_host_port [] = none
split_host_port (c ∷ t) =
    if c == b'['
    then bracketed_host t (last_cut colon t)
    else plain_host (c ∷ t) (last_cut colon (c ∷ t))

pub bare_network : Option ℕ → List Network
bare_network none = []
bare_network (some a) = record { address = a; prefix_len = 32 } ∷ []

pub cidr_network : Option Network → List Network
cidr_network none = []
cidr_network (some n) = n ∷ []

pub entry_networks : Text → List Network
entry_networks e =
    if is_empty e
    then []
    else if not (contains_text e (slash ∷ []))
    then bare_network (parse_ip e)
    else cidr_network (parse_cidr e)

pub parse_entries : List Text → List Network
parse_entries [] = []
parse_entries (e ∷ es) = entry_networks (trim_space e) ++ parse_entries es

-- parseTrustedProxies
unfoldable pub parse_trusted_proxies : Text → List Network
unfolding entry_networks bare_network cidr_network parse_entries
parse_trusted_proxies raw = parse_entries (split b',' raw)

pub any_contains : List Network → ℕ → Bool
any_contains [] a = false
any_contains (n ∷ ns) a = contains n a || any_contains ns a

pub trusted_ip : List Network → Option ℕ → Bool
trusted_ip ns none = false
trusted_ip ns (some a) = any_contains ns a

pub host_or : Text → Option Text → Text
host_or t none = t
host_or t (some host) = host

-- isTrustedProxy
unfoldable pub is_trusted_proxy : Text → List Network → Bool
unfolding any_contains trusted_ip host_or
is_trusted_proxy remote [] = false
is_trusted_proxy remote (n ∷ ns) =
    trusted_ip (n ∷ ns) (parse_ip (host_or remote (split_host_port remote)))

pub last_part : List Text → Text
last_part [] = []
last_part (t ∷ []) = t
last_part (t ∷ u ∷ ts) = last_part (u ∷ ts)

-- realIP
unfoldable pub real_ip : Request → List Network → Text
unfolding last_part host_or
real_ip r trusted =
    let direct = host_or r.remote_addr (split_host_port r.remote_addr) in
    if is_trusted_proxy r.remote_addr trusted
    then (if not (is_empty r.x_real_ip)
        then trim_space r.x_real_ip
        else if not (is_empty r.x_forwarded_for)
        then trim_space (last_part (split b',' r.x_forwarded_for))
        else direct)
    else direct
