-- ===== src/Wg/Mesh.antt =====
-- The mesh addresses of internal/wg/manager.go: AddMeshIP and RemoveMeshIP.
use midori_vpn_core.Prelude.{ℕ, true, false, List, [], ◌∷◌, Option, none, some, ok, err}
use midori_vpn_core.Prelude.Equality.{text_eq}
use midori_vpn_core.Prelude.Dict
use midori_vpn_core.Prelude.Dict.{Dict}
use midori_vpn_core.Net.{Text, Network, parse_cidr, parse_ip}
use midori_vpn_core.Base64.{decode}
use midori_vpn_core.Wg.Manager.{
  Manager, Host, Reply, invalid_public_key, configure_failed, peer_not_found, invalid_stored_ip,
  invalid_mesh_ip, fit, configure, persist,
}

module _ (host : Host) where
  unfoldable pub mesh_added : Manager → Text → Text → Option Manager → Reply (Unit {0})
  mesh_added m key ip none = (m, err configure_failed)
  mesh_added m key ip (some m') =
      (persist host (record m' { mesh_ips = Dict.put m'.mesh_ips key ip }), ok tt)

  -- The parsed mesh address, as a /32.
  unfoldable pub mesh_parsed :
      Manager → Text → List ℕ → Text → Network → Option ℕ → Reply (Unit {0})
  mesh_parsed m key raw ip vpn none = (m, err invalid_mesh_ip)
  mesh_parsed m key raw ip vpn (some a) = mesh_added m key ip (
      configure host m (record {
        public_key = fit 32 raw;
        to_remove = false;
        update_only = true;
        replace_allowed_ips = true;
        allowed_ips = vpn ∷ record { address = a; prefix_len = 32 } ∷ [];
        keepalive = none;
      }))

  unfoldable pub mesh_network : Manager → Text → List ℕ → Text → Option Network → Reply (Unit {0})
  mesh_network m key raw ip none = (m, err invalid_stored_ip)
  mesh_network m key raw ip (some vpn) = mesh_parsed m key raw ip vpn (parse_ip ip)

  unfoldable pub mesh_known : Manager → Text → List ℕ → Text → Option Text → Reply (Unit {0})
  mesh_known m key raw ip none = (m, err peer_not_found)
  mesh_known m key raw ip (some vpn_ip) = mesh_network m key raw ip (parse_cidr vpn_ip)

  unfoldable pub mesh_decoded : Manager → Text → Text → Option (List ℕ) → Reply (Unit {0})
  mesh_decoded m key ip none = (m, err invalid_public_key)
  mesh_decoded m key ip (some raw) = mesh_known m key raw ip (Dict.get m.peer_ips key)

  -- AddMeshIP
  unfoldable pub add_mesh_ip : Manager → Text → Text → Reply (Unit {0})
  unfolding mesh_decoded mesh_known mesh_network mesh_parsed mesh_added configure persist
  add_mesh_ip m key ip = mesh_decoded m key ip (decode key)

  unfoldable pub mesh_removed : Manager → Text → Option Manager → Reply (Unit {0})
  mesh_removed m key none = (m, err configure_failed)
  mesh_removed m key (some m') =
      (persist host (record m' { mesh_ips = Dict.remove m'.mesh_ips key }), ok tt)

  unfoldable pub unmesh_network : Manager → Text → List ℕ → Option Network → Reply (Unit {0})
  unmesh_network m key raw none = (m, err invalid_stored_ip)
  unmesh_network m key raw (some vpn) = mesh_removed m key (
      configure host m (record {
        public_key = fit 32 raw;
        to_remove = false;
        update_only = true;
        replace_allowed_ips = true;
        allowed_ips = vpn ∷ [];
        keepalive = none;
      }))

  unfoldable pub unmesh_known : Manager → Text → List ℕ → Option Text → Reply (Unit {0})
  unmesh_known m key raw none = (m, err peer_not_found)
  unmesh_known m key raw (some vpn_ip) = unmesh_network m key raw (parse_cidr vpn_ip)

  unfoldable pub unmesh_decoded : Manager → Text → Option (List ℕ) → Reply (Unit {0})
  unmesh_decoded m key none = (m, err invalid_public_key)
  unmesh_decoded m key (some raw) = unmesh_known m key raw (Dict.get m.peer_ips key)

  unfoldable pub unmesh : Manager → Text → Option Text → Reply (Unit {0})
  unmesh m key none = (m, ok tt)
  unmesh m key (some ip) = unmesh_decoded m key (decode key)

  -- RemoveMeshIP
  unfoldable pub remove_mesh_ip : Manager → Text → Reply (Unit {0})
  unfolding unmesh unmesh_decoded unmesh_known unmesh_network mesh_removed configure persist
  remove_mesh_ip m key = unmesh m key (Dict.get m.mesh_ips key)
