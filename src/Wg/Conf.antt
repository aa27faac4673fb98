-- ===== src/Wg/Conf.antt =====
-- The saved configuration of internal/wg/manager.go: what persistConfig writes, and how
-- restoreFromConfig reads it. Keys are 32 bytes; a keep-alive is a number of nanoseconds.
pub mod Lines
pub mod Validity
pub mod Entries
pub mod RoundTrip
use midori_vpn_core.Prelude.{
  ℕ, zero, suc, ◌+◌, ◌-◌, ◌*◌, ◌/◌, ◌%◌, ◌^◌, Bool, true, false, ◌&&◌, ◌||◌, not, List, [], ◌∷◌,
  ◌++◌, Option, none, some, ltb, leb, ◌==◌, if◌then◌else◌, ◌≡◌, refl, length,
}
use midori_vpn_core.Prelude.Int.{ℤ, pos, negsuc}
use midori_vpn_core.Prelude.Equality.{◌=?◌, text_eq, text_beq}
use midori_vpn_core.Net.{Text, codes, slash, Network, print_ip, parse_cidr}
use midori_vpn_core.Base64.{encode, decode}
use midori_vpn_core.Strings.{trim_space, split, has_prefix, is_empty, itoa, atoi, cons_first}

-- A peer of the device: wgtypes.Peer, and the peerConf of restoreFromConfig.
pub record PeerConf : Type 0 where
  pub pubkey : List ℕ
  pub allowed_ips : List Network
  pub keepalive : ℕ

abbrev pub second : ℕ
second = 1_000_000_000

abbrev pub newline : ℕ
newline = 10

-- (*net.IPNet).String
pub print_cidr : Network → Text
print_cidr n = print_ip n.address ++ slash ∷ itoa n.prefix_len

-- One line of the file, `name = value`.
pub entry : Text → Text → Text
entry name value = name ++ (codes " = " ++ (value ++ newline ∷ []))

pub write_allowed : List Network → Text
write_allowed [] = []
write_allowed (n ∷ ns) = entry (codes "AllowedIPs") (print_cidr n) ++ write_allowed ns

pub write_keepalive : ℕ → Text
write_keepalive ka =
    if ltb 0 ka then entry (codes "PersistentKeepalive") (itoa (ka / second)) else []

pub write_peer : PeerConf → Text
write_peer p =
    codes "[Peer]"
    ++ newline
      ∷ (entry (codes "PublicKey") (encode p.pubkey)
          ++ (write_allowed p.allowed_ips ++ (write_keepalive p.keepalive ++ newline ∷ [])))

pub write_peers : List PeerConf → Text
write_peers [] = []
write_peers (p ∷ ps) = write_peer p ++ write_peers ps

-- The text that persistConfig builds.
unfoldable pub render : List ℕ → ℕ → Text → List PeerConf → Text
unfolding write_peers write_peer write_keepalive write_allowed entry print_cidr
render private_key port gateway peers =
    codes "[Interface]"
    ++ newline
      ∷ (entry (codes "PrivateKey") (encode private_key)
          ++ (entry (codes "ListenPort") (itoa port)
              ++ (entry (codes "Address") gateway ++ newline ∷ write_peers peers)))

-- What the loop over the lines keeps: the private key, the peers so far, the peer being read.
pub record Reading : Type 0 where
  pub priv_key : Option (List ℕ)
  pub peers : List PeerConf
  pub cur : Option PeerConf

-- make a peerConf of zero bytes
pub blank_peer : PeerConf
blank_peer = record {
  pubkey =
      0 ∷ 0 ∷ 0 ∷ 0 ∷ 0 ∷ 0 ∷ 0 ∷ 0 ∷ 0 ∷ 0 ∷ 0 ∷ 0 ∷ 0 ∷ 0 ∷ 0 ∷ 0 ∷ 0 ∷ 0 ∷ 0 ∷ 0 ∷ 0 ∷ 0 ∷ 0 ∷ 0
      ∷ 0 ∷ 0 ∷ 0 ∷ 0 ∷ 0 ∷ 0 ∷ 0 ∷ 0 ∷ [];
  allowed_ips = [];
  keepalive = 0;
}

-- `if curPeer != nil { peers = append(peers, *curPeer) }`
pub flush : List PeerConf → Option PeerConf → List PeerConf
flush ps none = ps
flush ps (some p) = ps ++ p ∷ []

-- A decoded key, if it has 32 bytes.
pub key_bytes : Option (List ℕ) → Option (List ℕ)
key_bytes none = none
key_bytes (some raw) = if length raw == 32 then some raw else none

pub read_networks : List Text → List Network
read_networks [] = []
read_networks (t ∷ ts) = elim (parse_cidr (trim_space t)) [
  | none ↦ read_networks ts
  | some n ↦ n ∷ read_networks ts
]

-- time.Duration(secs) * time.Second, in an int64. A negative keep-alive is kept as none at all,
-- since it is used only where it is positive.
pub read_keepalive : ℕ → Option ℤ → ℕ
read_keepalive old none = old
read_keepalive old (some (pos s)) =
    let ns = s * second % 2 ^ 64 in if ltb ns (2 ^ 63) then ns else 0
read_keepalive old (some (negsuc s)) =
    let ns = (s + 1) * second % 2 ^ 64 in if ltb (2 ^ 63) ns then 2 ^ 64 - ns else 0

pub read_private : Reading → Option (List ℕ) → Reading
read_private r none = r
read_private r (some raw) = record r { priv_key = some raw }

pub read_pubkey : Reading → PeerConf → Option (List ℕ) → Reading
read_pubkey r p none = record r { cur = none }
read_pubkey r p (some raw) = record r { cur = some (record p { pubkey = raw }) }

-- A line `key = value` outside and inside a peer's block.
pub read_entry : Reading → Option PeerConf → Text → Text → Reading
read_entry r none k v = if k =? codes "PrivateKey" then read_private r (key_bytes (decode v)) else r
read_entry r (some p) k v =
    if k =? codes "PublicKey"
    then read_pubkey r p (key_bytes (decode v))
    else if k =? codes "AllowedIPs"
    then record r {
      cur = some (record p { allowed_ips = p.allowed_ips ++ read_networks (split b',' v) });
    }
    else if k =? codes "PersistentKeepalive"
    then record r { cur = some (record p { keepalive = read_keepalive p.keepalive (atoi v) }) }
    else r

-- strings.SplitN(line, "=", 2): the parts before and behind the first '='.
pub before_eq : Text → Option (Text × Text)
before_eq [] = none
before_eq (c ∷ t) = elim (c == b'=') [
  | true ↦ some ([], t)
  | false ↦ elim (before_eq t) [ none ↦ none | some (k, v) ↦ some (c ∷ k, v) ]
]

pub read_pair : Reading → Option (Text × Text) → Reading
read_pair r none = r
read_pair r (some (k, v)) = read_entry r r.cur (trim_space k) (trim_space v)

-- The body of the loop, on a line without its white space.
pub read_line : Reading → Text → Reading
read_line r line =
    if is_empty line || has_prefix line (codes "#")
    then r
    else if line =? codes "[Interface]"
    then record r { peers = flush r.peers r.cur; cur = none }
    else if line =? codes "[Peer]"
    then record r { peers = flush r.peers r.cur; cur = some blank_peer }
    else read_pair r (before_eq line)

pub read_lines : Reading → List Text → Reading
read_lines r [] = r
read_lines r (l ∷ ls) = read_lines (read_line r (trim_space l)) ls

pub fresh : Reading
fresh = record { priv_key = none; peers = []; cur = none }

pub closed : Reading → Reading
closed r = record r { peers = flush r.peers r.cur }

-- The parser of restoreFromConfig: `priv_key` is none where no valid PrivateKey was found.
unfoldable pub parse : Text → Reading
unfolding read_lines read_line read_pair before_eq read_entry read_pubkey read_private
    read_keepalive read_networks key_bytes flush blank_peer fresh closed
parse text = closed (read_lines fresh (split newline text))
