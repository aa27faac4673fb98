-- ===== src/Wg/Conf/Validity.antt =====
-- What persistConfig of internal/wg/manager.go may be asked to save: valid keys, networks and peers.
use midori_vpn_core.Prelude.{ℕ, ◌-◌, ◌%◌, ◌^◌, ◌≤◌, ◌<◌, ◌≡◌, List, [], ◌∷◌, length}
use midori_vpn_core.Prelude.Equality.{text_eq}
use midori_vpn_core.Net.{Network}
use midori_vpn_core.Base64.RoundTrip.{AllBytes}
use midori_vpn_core.Wg.Conf.{PeerConf, second}

-- A key of WireGuard.
pub record IsKey (s : List ℕ) : Type 0 where
  pub bytes : AllBytes s
  pub size : length s ≡ 32

-- A network as the kernel reports it: no host bits.
pub record IsNetwork (n : Network) : Type 0 where
  pub small : n.address < 2 ^ 32
  pub bits : n.prefix_len ≤ 32
  pub aligned : n.address % 2 ^ (32 - n.prefix_len) ≡ 0

abbrev pub AllNetworks : List Network → Type 0
AllNetworks [] = Unit {0}
AllNetworks (n ∷ ns) = IsNetwork n × AllNetworks ns

-- A peer with a valid key and a keep-alive of whole seconds that fits a time.Duration.
pub record IsPeer (p : PeerConf) : Type 0 where
  pub key : IsKey p.pubkey
  pub networks : AllNetworks p.allowed_ips
  pub whole : p.keepalive % second ≡ 0
  pub fits : p.keepalive < 2 ^ 63

abbrev pub AllPeers : List PeerConf → Type 0
AllPeers [] = Unit {0}
AllPeers (p ∷ ps) = IsPeer p × AllPeers ps
