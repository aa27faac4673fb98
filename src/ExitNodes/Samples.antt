-- ===== src/ExitNodes/Samples.antt =====
-- The theorems on the exit nodes at a mesh of two users.
use midori_vpn_core.Prelude.{◌≡◌, refl, true, false, List, [], ◌∷◌, some, ok}
use midori_vpn_core.Prelude.Equality.{text_eq, nat_eq, text_beq}
use midori_vpn_core.Prelude.Dict
use midori_vpn_core.Prelude.Dict.{get-empty}
use midori_vpn_core.Net.{codes}
use midori_vpn_core.Strings.{is_empty, trim_space, map_text, lower}
use midori_vpn_core.ExitNodes.{
  Member, Selected, Database, SetRequest, list_exit_nodes, set_exit_node, normalize_proxy_scheme,
  socks5,
}
use midori_vpn_core.ExitNodes.Selection.{In, Selects, set_exit_node-Selects}
use midori_vpn_core.ExitNodes.Registration.{deregister, select, run, IsFullTunnel, run-IsFullTunnel}

abbrev node : Member
node = record {
  user_id = 1;
  mesh_id = 9;
  mesh_ip = codes "10.200.1.2";
  is_exit_node = true;
  proxy_scheme = socks5;
  proxy_port = 1080;
  supports_tcp = true;
  supports_udp = true;
}

abbrev guest : Member
guest = record node {
  user_id = 2;
  mesh_ip = codes "10.200.1.3";
  is_exit_node = false;
  proxy_port = 0;
}

abbrev db : Database
db = record { members = guest ∷ node ∷ []; selections = Dict.empty }

abbrev by_table : List Member → List Member
by_table l = l

permutes : (l : List Member) (m : Member) → In m (by_table l) → In m l
permutes l m i = i

abbrev wish : SetRequest
wish = record { mesh_ip = codes "10.200.1.2"; proxy_scheme = codes " SOCKS5"; proxy_port = 1080 }

abbrev chosen : Database
chosen = (set_exit_node by_table true true db (some 2) (some wish)).0

set : set_exit_node by_table true true db (some 2) (some wish) ≡ (chosen, ok tt)
unfolding set_exit_node list_exit_nodes normalize_proxy_scheme is_empty map_text lower trim_space
    text_beq
set = refl

set_exit_node-Selects_example : Selects by_table db 2 wish chosen
set_exit_node-Selects_example =
    set_exit_node-Selects by_table permutes true true db chosen 2 wish set

db-IsFullTunnel : IsFullTunnel db
unfolding IsFullTunnel
db-IsFullTunnel user s e = absurd (cc (get-empty {V = Selected} user))

run-IsFullTunnel_example : IsFullTunnel (
    run by_table db
      (select true true (some 2) (some wish) ∷ deregister true (some 1) (some 9) ∷ []))
run-IsFullTunnel_example =
    run-IsFullTunnel by_table permutes db
      (select true true (some 2) (some wish) ∷ deregister true (some 1) (some 9) ∷ [])
      db-IsFullTunnel
