-- ===== src/Inputs.antt =====
-- What the handlers of internal/control/handler.go check of a request before they act: the name of
-- a device, the endpoint of a server, a WireGuard key, the page of a listing, the groups of a user;
-- and the configuration text that they return. Texts are lists of bytes.
pub mod Names
pub mod Addresses
pub mod Hosts
pub mod Samples
use midori_vpn_core.Prelude.{
  ℕ, zero, suc, ◌+◌, Bool, true, false, ◌&&◌, ◌||◌, not, List, [], ◌∷◌, ◌++◌, Option, none, some,
  Outcome, ok, err, diverges, ltb, leb, length, ◌==◌, if◌then◌else◌,
}
use midori_vpn_core.Prelude.Int.{ℤ, pos, negsuc}
use midori_vpn_core.Prelude.Equality.{text_eq, ◌=?◌}
use midori_vpn_core.Net.{Text, codes}
use midori_vpn_core.Base64.{decode}
use midori_vpn_core.Strings.{is_empty, atoi, contains_text}

pub between : ℕ → ℕ → ℕ → Bool
between a b c = leb a c && leb c b

-- [a-zA-Z0-9]
pub is_alphanumeric : ℕ → Bool
is_alphanumeric c = between b'a' b'z' c || (between b'A' b'Z' c || between b'0' b'9' c)

-- [a-zA-Z0-9._-]
unfoldable pub is_name_char : ℕ → Bool
unfolding is_alphanumeric between
is_name_char c = is_alphanumeric c || (c == b'.' || (c == b'_' || c == b'-'))

-- [a-zA-Z0-9._\[\]:-]
unfoldable pub is_host_char : ℕ → Bool
is_host_char c = is_name_char c || (c == b'[' || (c == b']' || c == b':'))

unfoldable pub all_chars : (ℕ → Bool) → Text → Bool
all_chars f [] = true
all_chars f (c ∷ t) = f c && all_chars f t

-- ReplaceAllString of the other characters by nothing
unfoldable pub keep_chars : (ℕ → Bool) → Text → Text
keep_chars f [] = []
keep_chars f (c ∷ t) = let rest = keep_chars f t in if f c then c ∷ rest else rest

-- t[:n], where the text is at least that long
unfoldable pub first_chars : ℕ → Text → Text
first_chars zero t = []
first_chars (suc n) [] = []
first_chars (suc n) (c ∷ t) = c ∷ first_chars n t

pub or_default : Text → Text → Text
or_default d t = if is_empty t then d else t

-- sanitizeDeviceName
unfoldable pub sanitize_device_name : Text → Text
unfolding or_default
sanitize_device_name name =
    let kept = keep_chars is_name_char name in
    or_default (codes "device") (if ltb 64 (length kept) then first_chars 64 kept else kept)

pub data EndpointError : Type 0 where
  too_long malformed : EndpointError

-- validateServerEndpoint
unfoldable pub validate_server_endpoint : Text → Outcome EndpointError (Unit {0})
validate_server_endpoint ep =
    if ltb 253 (length ep)
    then err too_long
    else if not (is_empty ep) && all_chars is_host_char ep
    then ok tt
    else err malformed

pub has_32_bytes : Option (List ℕ) → Bool
has_32_bytes none = false
has_32_bytes (some raw) = length raw == 32

-- isValidWGKey
unfoldable pub is_valid_wg_key : Text → Bool
unfolding has_32_bytes
is_valid_wg_key key = has_32_bytes (decode key)

pub admin_group : Text → Bool
admin_group g = g =? codes "vpn-admins" || (g =? codes "admins" || g =? codes "authentik Admins")

pub any_admin : List Text → Bool
any_admin [] = false
any_admin (g ∷ gs) = admin_group g || any_admin gs

-- IsAdmin, of the groups of the user that the context holds
unfoldable pub is_admin : Option (List Text) → Bool
unfolding any_admin admin_group
is_admin none = false
is_admin (some groups) = any_admin groups

pub limit_of : Option ℤ → ℕ
limit_of (some (pos l)) = if ltb 0 l && leb l 200 then l else 50
limit_of _ = 50

pub offset_of : Option ℤ → ℕ
offset_of (some (pos o)) = o
offset_of _ = 0

-- paginationParams, of the parameters limit and offset of the query
unfoldable pub pagination_params : Text → Text → ℕ × ℕ
unfolding limit_of offset_of
pagination_params limit offset = (limit_of (atoi limit), offset_of (atoi offset))

-- strings.HasSuffix
unfoldable pub has_suffix : Text → Text → Bool
has_suffix [] s = is_empty s
has_suffix (c ∷ t) s = (c ∷ t) =? s || has_suffix t s

-- strings.TrimSuffix
unfoldable pub trim_suffix : Text → Text → Text
trim_suffix [] s = []
trim_suffix (c ∷ t) s = let rest = trim_suffix t s in if (c ∷ t) =? s then [] else c ∷ rest

abbrev pub mask : Text
mask = codes "/32"

-- The loop of buildWGConfig, one round for each unit of fuel.
unfoldable pub strip_masks : ℕ → Text → Outcome (Unit {0}) Text
strip_masks zero ip = diverges
strip_masks (suc fuel) ip =
    let rest = strip_masks fuel (trim_suffix ip mask) in
    if has_suffix ip (mask ++ mask) then rest else ok ip

pub with_mask : Outcome (Unit {0}) Text → Outcome (Unit {0}) Text
with_mask (ok ip) = ok (if contains_text ip (codes "/") then ip else ip ++ mask)
with_mask r = r

-- The address of the [Interface] section: a round of the loop takes three characters away.
unfoldable pub interface_address : Text → Outcome (Unit {0}) Text
unfolding with_mask
interface_address ip = with_mask (strip_masks (suc (length ip)) ip)

-- s[:strings.Index(s, "/")], where there is one
unfoldable pub without_mask : Text → Text
without_mask [] = []
without_mask (c ∷ t) = let rest = without_mask t in if c == b'/' then [] else c ∷ rest

-- The text that buildWGConfig prints.
pub print_config : Text → Text → Text → Outcome (Unit {0}) Text → Outcome (Unit {0}) Text
print_config dns key endpoint (ok address) = ok (
    codes "[Interface]\nPrivateKey = <YOUR_PRIVATE_KEY>\nAddress = "
    ++ address
    ++ codes "\nDNS = "
    ++ dns
    ++ codes "\n\n[Peer]\nPublicKey = "
    ++ key
    ++ codes "\nEndpoint = "
    ++ endpoint
    ++ codes "\nAllowedIPs = 0.0.0.0/0, ::/0\nPersistentKeepalive = 25\n")
print_config dns key endpoint r = r

-- buildWGConfig, of the DNS server, the key and the endpoint of the server and the stored address
unfoldable pub build_wg_config : Text → Text → Text → Text → Outcome (Unit {0}) Text
unfolding print_config
build_wg_config dns key endpoint ip = print_config dns key endpoint (interface_address ip)
