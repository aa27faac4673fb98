-- ===== src/Wg/Samples.antt =====
-- The theorems on internal/wg/manager.go at a manager of 10.8.0.0/29 and one peer.
use midori_vpn_core.Prelude.{
  ℕ, ◌≡◌, refl, if◌then◌else◌, Bool, true, false, List, [], ◌∷◌, none, some, ok, arith,
}
use midori_vpn_core.Prelude.Bits.{has_bit}
use midori_vpn_core.Prelude.Equality.{text_eq, ◌=?◌}
use midori_vpn_core.Prelude.Dict
use midori_vpn_core.Prelude.Dict.{Dict, get-empty}
use midori_vpn_core.Net.{Text, codes, print_ip, parse_cidr}
use midori_vpn_core.Net.Printable.{IsDotted}
use midori_vpn_core.Base64.{decode}
use midori_vpn_core.Strings.{is_empty}
use midori_vpn_core.Strings.Laws.{Chars}
use midori_vpn_core.IpPool.{used, allocate, test}
use midori_vpn_core.IpPool.Validity.{IsValid}
use midori_vpn_core.IpPool.Samples.{small, small-IsValid}
use midori_vpn_core.Wg.Conf.{PeerConf, parse, render}
use midori_vpn_core.Wg.Conf.RoundTrip.{parse-render}
use midori_vpn_core.Wg.Conf.Validity.{IsKey, AllPeers}
use midori_vpn_core.Wg.Manager.{fit, Manager, Host, add_peer, remove_peer}
use midori_vpn_core.Wg.Manager.Consistency.{IsConsistent}
use midori_vpn_core.Wg.Manager.Histories.{Call, run, run-IsConsistent}
use midori_vpn_core.Wg.Manager.Histories
use midori_vpn_core.Wg.Manager.Atomicity.{Adds, add_peer-Adds}
use midori_vpn_core.Wg.Manager.MeshAddresses.{on_device, remove_peer-add_peer}

-- A host that accepts every configuration and never saves the file.
abbrev host : Host
host = record { accepts = λ sent c. true; device = λ sent. none; saves = λ sent. false }

abbrev start : Manager
start = record {
  wg_port = 51820;
  private_key = [];
  pool = small;
  peer_ips = Dict.empty;
  mesh_ips = Dict.empty;
  sent = [];
  conf = none;
}

start-IsConsistent : IsConsistent start
start-IsConsistent = record {
  valid = small-IsValid;
  owned = λ k. rw (get-empty {V = Text} k) tt;
  apart = λ j k ip a b. absurd (cc (get-empty {V = Text} j));
}

abbrev key : Text
key = codes "AAAA"

abbrev history : List (Host × Call)
history =
    (host, Histories.add_peer key 25)
    ∷ (host, Histories.remove_peer key)
    ∷ (host, Histories.add_peer key 25)
    ∷ []

run-IsConsistent_example : IsConsistent (run start history)
run-IsConsistent_example = run-IsConsistent start history start-IsConsistent

add_peer-Adds_example : Adds host start key 25 (add_peer host start key 25)
add_peer-Adds_example = add_peer-Adds host start key 25 small-IsValid

abbrev added : Manager
added = (add_peer host start key 25).0

peer_added : add_peer host start key 25 ≡ (added, ok (codes "10.8.0.2/32"))
unfolding add_peer Dict.get Dict.empty decode allocate test has_bit parse_cidr print_ip
peer_added = refl

abbrev removed : Manager
removed = (remove_peer host added key).0

peer_removed : remove_peer host added key ≡ (removed, ok tt)
unfolding remove_peer decode
peer_removed = refl

remove_peer-add_peer_example :
    ((j : Text) → Dict.get removed.peer_ips j ≡ Dict.get start.peer_ips j)
    × ((j : ℕ) → used removed.pool.bitset j ≡ used small.bitset j)
    × (removed.pool.count ≡ small.count)
    × IsValid removed.pool
    × (raw : List ℕ) × (decode key ≡ some raw)
    × ((on : List ℕ → Bool) (k : List ℕ)
        → on_device on removed.sent k
          ≡ (if fit 32 raw =? k then false else on_device on start.sent k))
remove_peer-add_peer_example =
    remove_peer-add_peer host host start added removed key (codes "10.8.0.2/32") 25 small-IsValid
      peer_added peer_removed

abbrev bytes : List ℕ
bytes =
    1 ∷ 2 ∷ 3 ∷ 4 ∷ 5 ∷ 6 ∷ 7 ∷ 8 ∷ 1 ∷ 2 ∷ 3 ∷ 4 ∷ 5 ∷ 6 ∷ 7 ∷ 8 ∷ 1 ∷ 2 ∷ 3 ∷ 4 ∷ 5 ∷ 6 ∷ 7 ∷ 8
    ∷ 1 ∷ 2 ∷ 3 ∷ 4 ∷ 5 ∷ 6 ∷ 7 ∷ 8 ∷ []

bytes-IsKey : IsKey bytes
bytes-IsKey = record { bytes = omega arith; size = refl }

abbrev peer : PeerConf
peer = record {
  pubkey = bytes;
  allowed_ips = record { address = 0x0A080002; prefix_len = 32 } ∷ [];
  keepalive = 25_000_000_000;
}

peers-AllPeers : AllPeers (peer ∷ [])
peers-AllPeers = (
  record {
    key = bytes-IsKey;
    networks = (record { small = omega arith; bits = omega arith; aligned = omega arith }, tt);
    whole = omega arith;
    fits = omega arith;
  },
  tt,
)

gateway : Chars IsDotted (codes "10.8.0.1/16")
gateway = omega arith

gateway-nonempty : is_empty (codes "10.8.0.1/16") ≡ false
unfolding is_empty
gateway-nonempty = refl

parse-render_example :
    ((parse (render bytes 51820 (codes "10.8.0.1/16") (peer ∷ []))).priv_key ≡ some bytes)
    × ((parse (render bytes 51820 (codes "10.8.0.1/16") (peer ∷ []))).peers ≡ peer ∷ [])
parse-render_example =
    parse-render bytes 51820 (codes "10.8.0.1/16") (peer ∷ []) bytes-IsKey gateway gateway-nonempty
      peers-AllPeers
