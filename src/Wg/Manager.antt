-- ===== src/Wg/Manager.antt =====
-- The peers of internal/wg/manager.go. The mutex makes each method one step. What the program does
-- not implement is the host: the kernel's WireGuard device behind wgctrl, and the disk.
pub mod Consistency
pub mod Steps
pub mod Histories
pub mod Atomicity
pub mod MeshAddresses
use midori_vpn_core.Prelude.{
  ℕ, zero, suc, ◌+◌, ◌-◌, ◌*◌, ◌%◌, ◌^◌, Bool, true, false, ◌&&◌, not, List, [], ◌∷◌, ◌++◌, Option,
  none, some, Outcome, ok, err, panic, diverges, ltb, ◌==◌, if◌then◌else◌,
}
use midori_vpn_core.Prelude.Equality.{text_eq}
use midori_vpn_core.Prelude.Dict
use midori_vpn_core.Prelude.Dict.{Dict}
use midori_vpn_core.Net.{Text, codes, Network, parse_cidr, parse_ip, contains, print_ip}
use midori_vpn_core.Base64.{encode, decode}
use midori_vpn_core.IpPool.{Pool, PoolError, allocate, release, reserve, gateway_ip}
use midori_vpn_core.Wg.Conf.{PeerConf, render, second}

-- wgtypes.PeerConfig. A keep-alive is in nanoseconds.
pub record PeerConfig : Type 0 where
  pub public_key : List ℕ
  pub to_remove : Bool
  pub update_only : Bool
  pub replace_allowed_ips : Bool
  pub allowed_ips : List Network
  pub keepalive : Option ℕ

-- wgtypes.Device, as far as the manager reads it.
pub record Device : Type 0 where
  pub private_key : List ℕ
  pub peers : List PeerConf

-- The answers of the host after the peer configurations that it has accepted so far, newest first:
-- does ConfigureDevice accept one more, what does Device report, can the file be saved.
pub record Host : Type 0 where
  pub accepts : List PeerConfig → PeerConfig → Bool
  pub device : List PeerConfig → Option Device
  pub saves : List PeerConfig → Bool

pub data WgError : Type 0 where
  peer_exists invalid_public_key invalid_allocated_ip configure_failed peer_not_found : WgError
  invalid_stored_ip invalid_mesh_ip device_failed : WgError
  allocation : PoolError → WgError

pub record Manager : Type 0 where
  pub wg_port : ℕ
  pub private_key : List ℕ
  pub pool : Pool
  pub peer_ips : Dict Text Text
  pub mesh_ips : Dict Text Text
  pub sent : List PeerConfig
  pub conf : Option Text

abbrev pub Reply {ℓ} : Type ℓ → Type ℓ
Reply A = Manager × Outcome WgError A

-- copy(pubKey[:], pubKeyBytes) into 32 zero bytes.
pub fit : ℕ → List ℕ → List ℕ
fit zero raw = []
fit (suc n) [] = 0 ∷ fit n []
fit (suc n) (b ∷ raw) = b ∷ fit n raw

-- `_ = m.pool.Release(ip)`: the error is dropped.
pub dropped : Pool → Outcome PoolError Pool → Pool
dropped p (ok q) = q
dropped p _ = p

unfoldable pub free_ip : Pool → Text → Pool
unfolding dropped
free_ip p ip = dropped p (release p ip)

unfoldable pub keep_ip : Pool → Text → Pool
unfolding dropped
keep_ip p ip = dropped p (reserve p ip)

-- time.Duration(keepalive) * time.Second
abbrev pub duration : ℕ → ℕ
duration s = s * second % 2 ^ 64

module _ (host : Host) where
  -- persistConfig: on any failure the file is left as it was.
  pub persisted : Manager → Option Device → Manager
  persisted m none = m
  persisted m (some d) =
      if host.saves m.sent
      then record m { conf = some (render m.private_key m.wg_port (gateway_ip m.pool) d.peers) }
      else m

  unfoldable pub persist : Manager → Manager
  unfolding persisted
  persist m = persisted m (host.device m.sent)

  -- ConfigureDevice with one peer: the new state if the host accepts it.
  unfoldable pub configure : Manager → PeerConfig → Option Manager
  configure m c = if host.accepts m.sent c then some (record m { sent = c ∷ m.sent }) else none

  pub added : Manager → Pool → Text → Text → Option Manager → Reply Text
  added m pool key ip none = (record m { pool = free_ip pool ip }, err configure_failed)
  added m pool key ip (some m') =
      (persist (record m' { pool = pool; peer_ips = Dict.put m'.peer_ips key ip }), ok ip)

  pub add_network : Manager → Pool → Text → List ℕ → ℕ → Text → Option Network → Reply Text
  add_network m pool key raw keepalive ip none =
      (record m { pool = free_ip pool ip }, err invalid_allocated_ip)
  add_network m pool key raw keepalive ip (some net) = added m pool key ip (
      configure m (record {
        public_key = fit 32 raw;
        to_remove = false;
        update_only = false;
        replace_allowed_ips = false;
        allowed_ips = net ∷ [];
        keepalive = some (duration keepalive);
      }))

  pub add_allocated : Manager → Text → List ℕ → ℕ → Outcome PoolError (Pool × Text) → Reply Text
  add_allocated m key raw keepalive (ok (pool, ip)) =
      add_network m pool key raw keepalive ip (parse_cidr ip)
  add_allocated m key raw keepalive (err e) = (m, err (allocation e))
  add_allocated m key raw keepalive panic = (m, panic)
  add_allocated m key raw keepalive diverges = (m, diverges)

  pub add_decoded : Manager → Text → Option (List ℕ) → ℕ → Reply Text
  add_decoded m key none keepalive = (m, err invalid_public_key)
  add_decoded m key (some raw) keepalive = add_allocated m key raw keepalive (allocate m.pool)

  pub add_absent : Manager → Text → ℕ → Option Text → Reply Text
  add_absent m key keepalive (some ip) = (m, err peer_exists)
  add_absent m key keepalive none = add_decoded m key (decode key) keepalive

  -- AddPeer
  unfoldable pub add_peer : Manager → Text → ℕ → Reply Text
  unfolding add_absent add_decoded add_allocated add_network added configure persist
  add_peer m key keepalive = add_absent m key keepalive (Dict.get m.peer_ips key)

  pub forget : Manager → Text → Option Text → Manager
  forget m key none = m
  forget m key (some ip) = record m {
    pool = free_ip m.pool ip;
    peer_ips = Dict.remove m.peer_ips key;
  }

  pub removed : Manager → Text → Option Manager → Reply (Unit {0})
  removed m key none = (m, err configure_failed)
  removed m key (some m') = (persist (forget m' key (Dict.get m'.peer_ips key)), ok tt)

  pub remove_decoded : Manager → Text → Option (List ℕ) → Reply (Unit {0})
  remove_decoded m key none = (m, err invalid_public_key)
  remove_decoded m key (some raw) = removed m key (
      configure m (record {
        public_key = fit 32 raw;
        to_remove = true;
        update_only = false;
        replace_allowed_ips = false;
        allowed_ips = [];
        keepalive = none;
      }))

  -- RemovePeer
  unfoldable pub remove_peer : Manager → Text → Reply (Unit {0})
  unfolding remove_decoded removed forget configure persist
  remove_peer m key = remove_decoded m key (decode key)

  pub updated : Manager → Option Manager → Reply (Unit {0})
  updated m none = (m, err configure_failed)
  updated m (some m') = (persist m', ok tt)

  pub update_network : Manager → List ℕ → ℕ → Option Network → Reply (Unit {0})
  update_network m raw keepalive none = (m, err invalid_stored_ip)
  update_network m raw keepalive (some net) = updated m (
      configure m (record {
        public_key = fit 32 raw;
        to_remove = false;
        update_only = true;
        replace_allowed_ips = false;
        allowed_ips = net ∷ [];
        keepalive = some (duration keepalive);
      }))

  pub update_known : Manager → List ℕ → ℕ → Option Text → Reply (Unit {0})
  update_known m raw keepalive none = (m, err peer_not_found)
  update_known m raw keepalive (some ip) = update_network m raw keepalive (parse_cidr ip)

  pub update_decoded : Manager → Text → ℕ → Option (List ℕ) → Reply (Unit {0})
  update_decoded m key keepalive none = (m, err invalid_public_key)
  update_decoded m key keepalive (some raw) = update_known m raw keepalive (Dict.get m.peer_ips key)

  -- UpdatePeer
  unfoldable pub update_peer : Manager → Text → ℕ → Reply (Unit {0})
  unfolding update_decoded update_known update_network updated configure persist
  update_peer m key keepalive = update_decoded m key keepalive (decode key)

  -- 10.200.0.0/16
  abbrev pub mesh_net : Network
  mesh_net = record { address = 0x0AC80000; prefix_len = 16 }

  -- One allowed address of a peer that the device already has.
  pub load_ip : Manager → Text → Network → Manager
  load_ip m key n =
      let ip = print_ip n.address in
      if contains mesh_net n.address
      then record m { mesh_ips = Dict.put m.mesh_ips key ip }
      else record m {
        peer_ips = Dict.put m.peer_ips key (ip ++ codes "/32");
        pool = keep_ip m.pool ip;
      }

  pub load_ips : Manager → Text → List Network → Manager
  load_ips m key [] = m
  load_ips m key (n ∷ ns) = load_ips (load_ip m key n) key ns

  pub load_peers : Manager → List PeerConf → Manager
  load_peers m [] = m
  load_peers m (p ∷ ps) = load_peers (load_ips m (encode p.pubkey) p.allowed_ips) ps

  pub loaded : Manager → Option Device → Reply (Unit {0})
  loaded m none = (m, err device_failed)
  loaded m (some d) = (load_peers m d.peers, ok tt)

  -- loadExistingPeers
  unfoldable pub load_existing_peers : Manager → Reply (Unit {0})
  unfolding loaded load_peers load_ips load_ip
  load_existing_peers m = loaded m (host.device m.sent)
