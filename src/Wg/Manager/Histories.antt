-- ===== src/Wg/Manager/Histories.antt =====
-- Every sequence of calls of the methods of the manager of internal/wg/manager.go keeps the
-- invariant of the manager.
use midori_vpn_core.Prelude.{ℕ, List, [], ◌∷◌}
use midori_vpn_core.Prelude.Equality.{text_eq}
use midori_vpn_core.Net.{Text}
use midori_vpn_core.Wg.Manager
use midori_vpn_core.Wg.Mesh
use midori_vpn_core.Wg.Manager.{Manager, Host, PeerConfig, Reply, configure, persist}
use midori_vpn_core.Wg.Manager.Consistency.{IsConsistent}
use midori_vpn_core.Wg.Manager.Steps.{
  add_peer-kept, update_peer-kept, remove_peer-kept, remove_mesh_ip-kept, add_mesh_ip-kept,
}

-- A call of a method.
pub data Call : Type 0 where
  add_peer update_peer : Text → ℕ → Call
  remove_peer remove_mesh_ip : Text → Call
  add_mesh_ip : Text → Text → Call

-- The manager after one call, whatever the call returns.
unfoldable pub step : Host → Manager → Call → Manager
step host m (add_peer key keepalive) = (Manager.add_peer host m key keepalive).0
step host m (update_peer key keepalive) = (Manager.update_peer host m key keepalive).0
step host m (remove_peer key) = (Manager.remove_peer host m key).0
step host m (remove_mesh_ip key) = (Mesh.remove_mesh_ip host m key).0
step host m (add_mesh_ip key ip) = (Mesh.add_mesh_ip host m key ip).0

-- The manager after a sequence of calls, each with the answers that the host then gives.
unfoldable pub run : Manager → List (Host × Call) → Manager
unfolding step
run m [] = m
run m ((host, c) ∷ cs) = run (step host m c) cs

step-IsConsistent :
    (host : Host) (m : Manager) → IsConsistent m → (k : Call) → IsConsistent (step host m k)
unfolding step
step-IsConsistent host m c (add_peer key keepalive) = add_peer-kept host m c key keepalive
step-IsConsistent host m c (update_peer key keepalive) = update_peer-kept host m c key keepalive
step-IsConsistent host m c (remove_peer key) = remove_peer-kept host m c key
step-IsConsistent host m c (remove_mesh_ip key) = remove_mesh_ip-kept host m c key
step-IsConsistent host m c (add_mesh_ip key ip) = add_mesh_ip-kept host m c key ip

-- In every history of calls from a consistent manager, whatever the host answers and whichever
-- calls fail, the pool stays valid, the address of every peer is assigned in it, and no two peers
-- hold one address.
pub run-IsConsistent :
    (m : Manager) (ks : List (Host × Call)) → IsConsistent m → IsConsistent (run m ks)
unfolding run
run-IsConsistent m [] c = c
run-IsConsistent m ((host, k) ∷ ks) c =
    run-IsConsistent (step host m k) ks (step-IsConsistent host m c k)
