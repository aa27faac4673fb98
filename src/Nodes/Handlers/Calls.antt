-- ===== src/Nodes/Handlers/Calls.antt =====
-- Histories of calls of the node handlers of internal/control/mesh_handler.go by many users, each of
-- which is one step.
use midori_vpn_core.Prelude.{ℕ, List, [], ◌∷◌, Option}
use midori_vpn_core.Net.{Text}
use midori_vpn_core.Connections.{Database}
use midori_vpn_core.Connections.Meshing.{Settings}
use midori_vpn_core.Nodes.{Queries}
use midori_vpn_core.Nodes.Handlers.{
  activate_node, auto_mesh, leave_mesh, delete_auto_mesh, deactivate_node,
}

pub data Request : Type 0 where
  activation automatic deletion deactivation : Request
  leaving : Option ℕ → Request

-- A request of a user, with what the database does for it.
pub record NodeCall : Type 0 where
  pub settings : Settings
  pub queries : Queries
  pub origin : Text
  pub user : ℕ
  pub request : Request

unfoldable pub answer : NodeCall → Request → Database → Database
answer c activation db = (activate_node c.settings c.queries c.origin c.user db).db
answer c automatic db = (auto_mesh c.settings c.queries c.origin c.user db).db
answer c (leaving i) db = (leave_mesh c.settings c.queries c.user db i).db
answer c deletion db = (delete_auto_mesh c.settings c.queries c.user db).db
answer c deactivation db = (deactivate_node c.settings c.queries c.user db).db

unfoldable pub run_calls : List NodeCall → Database → Database
unfolding answer
run_calls [] db = db
run_calls (c ∷ cs) db = run_calls cs (answer c c.request db)
