-- ===== src/Nodes/Samples.antt =====
-- The theorems on the session networks at one network of user 5.
use midori_vpn_core.Prelude.{ℕ, ◌≡◌, refl, Bool, true, false, List, [], ◌∷◌, none, some, ok, arith}
use midori_vpn_core.Prelude.Equality.{text_beq}
use midori_vpn_core.Strings.{itoa}
use midori_vpn_core.Net.{Text, codes, parse_cidr, print_ip}
use midori_vpn_core.Meshes.{Mesh, MeshMember, is_member, next_available_subnet}
use midori_vpn_core.Meshes.Rows.{mesh_name_for_country, find_row, find_member, session_of}
use midori_vpn_core.Connections.{Database}
use midori_vpn_core.Connections.Meshing.{Settings}
use midori_vpn_core.Nodes.{
  Queries, Provisioned, Ensured, ensure_auto_mesh, create_session_row, new_mesh, join_mesh,
}
use midori_vpn_core.Nodes.Lost.{IsLost, ensure_auto_mesh-IsLost}
use midori_vpn_core.Nodes.Served.{IsServed, ensure_auto_mesh-IsServed}
use midori_vpn_core.Nodes.Repeated.{IsAgain, ensure_auto_mesh-ensure_auto_mesh}
use midori_vpn_core.Nodes.{provision_mesh}
use midori_vpn_core.Meshes.Rows.{meshes_of, is_valid_country_code}
use midori_vpn_core.Nodes.Races.{provision_both, provision_both-collides}
use midori_vpn_core.Nodes.Sound.{AreDistinct, IsSound}
use midori_vpn_core.Nodes.Handlers.Soundness.{run_calls-IsSound}
use midori_vpn_core.Meshes.Apart.{AreApart}
use midori_vpn_core.Meshes.{taken, ips_of, add_member, next_available_mesh_ip}
use midori_vpn_core.Nodes.Kept.{is_owned_by, IsKept}
use midori_vpn_core.Nodes.Handlers.{deactivate_node}
use midori_vpn_core.Nodes.Handlers.Leaving.{deactivate_node-inactive}
use midori_vpn_core.Nodes.Handlers.Calls.{
  NodeCall, activation, automatic, deletion, deactivation, leaving, run_calls,
}
use midori_vpn_core.Nodes.Handlers.Ownership.{are_strangers, run_calls-IsKept}
use midori_vpn_core.Nodes.Handlers.Status.{inactive, node_status_for_user}

abbrev own_mesh : Mesh
own_mesh = record {
  id = 1;
  name = codes "home";
  owner_id = 5;
  subnet = codes "10.200.0.0/24";
  is_session = true;
  is_active = true;
  country_code = codes "DE";
  public_ip = codes "198.51.100.7";
  updated_at = 10;
}

abbrev own_member : MeshMember
own_member = record { mesh_id = 1; user_id = 5; mesh_ip = codes "10.200.0.1"; peer_id = none }

abbrev tables : Database
tables = record { peers = []; servers = []; meshes = own_mesh ∷ []; members = own_member ∷ [] }

-- Every statement is executed, but the listing where the argument says so.
abbrev queries : Bool → Queries
queries listed = record {
  lists = listed;
  reads_mesh = true;
  reads_member = λ i. true;
  reads_members = λ i. true;
  reads_ids = true;
  reads_peer = λ i. true;
  begins = true;
  accepts = true;
  deletes = λ i. true;
  removes = λ i. true;
  touches = true;
  renames = true;
  reads_subnets = true;
  inserts = true;
  reads_session = true;
  lists_peers = true;
  links = true;
  now = 20;
  new_id = 2;
  country = λ t. some (codes "FR");
  wg_accepts = λ i. true;
}

abbrev settings : Settings
settings = record { max_devices = 3; has_wg = true; has_hub = true }

abbrev calls : List NodeCall
calls =
    record {
      settings = settings;
      queries = queries true;
      origin = codes "203.0.113.9";
      user = 7;
      request = activation;
    }
    ∷ record {
      settings = settings;
      queries = queries true;
      origin = [];
      user = 7;
      request = leaving (some 1);
    }
    ∷ record {
      settings = settings;
      queries = queries false;
      origin = [];
      user = 8;
      request = automatic;
    }
    ∷ record {
      settings = settings;
      queries = queries true;
      origin = [];
      user = 7;
      request = deletion;
    }
    ∷ record {
      settings = settings;
      queries = queries true;
      origin = [];
      user = 8;
      request = deactivation;
    }
    ∷ []

ensure_auto_mesh-IsLost_example :
    IsLost 1 (ensure_auto_mesh (queries false) (codes "203.0.113.9") 5 tables)
unfolding session_of is_member next_available_subnet text_beq itoa
ensure_auto_mesh-IsLost_example =
    ensure_auto_mesh-IsLost (queries false) (codes "203.0.113.9") 5 tables own_mesh (codes "FR")
      (codes "10.200.1.0/24") refl refl refl refl refl refl refl refl refl

ensure_auto_mesh-IsServed_example :
    IsServed 6 (ensure_auto_mesh (queries true) (codes "203.0.113.9") 6 tables)
ensure_auto_mesh-IsServed_example =
    ensure_auto_mesh-IsServed (queries true) (codes "203.0.113.9") 6 tables

deactivate_node-inactive_example :
    node_status_for_user (queries true) 5 (deactivate_node settings (queries true) 5 tables).db
    ≡ inactive
deactivate_node-inactive_example =
    deactivate_node-inactive settings (queries true) (queries true) 5 tables refl (λ i. refl)
      (λ i. refl) (λ i. refl)

run_calls-IsKept_example : IsKept 5 1 5 own_mesh (some own_member) (run_calls calls tables)
unfolding is_owned_by find_row find_member are_strangers
run_calls-IsKept_example =
    run_calls-IsKept 5 1 5 own_mesh (some own_member) calls tables refl
      (record { own = refl; row = refl; membership = refl })

tables-IsSound : IsSound tables
unfolding AreDistinct AreApart taken ips_of is_member
tables-IsSound = record { distinct = (refl, tt); apart = (refl, refl, tt) }

run_calls-IsSound_example : IsSound (run_calls calls tables)
run_calls-IsSound_example = run_calls-IsSound calls tables tables-IsSound

-- The queries of a second user, whose network gets another id.
abbrev later_queries : Queries
later_queries = record (queries true) { new_id = 3 }

abbrev network : ℕ → ℕ → Text → Text → Mesh
network i user country origin = record {
  id = i;
  name = mesh_name_for_country country;
  owner_id = user;
  subnet = codes "10.200.1.0/24";
  is_session = true;
  is_active = true;
  country_code = country;
  public_ip = origin;
  updated_at = 20;
}

abbrev provided : Mesh → Provisioned
provided n = record { mesh = n; mesh_ip = codes "10.200.1.2"; is_new = true }

abbrev network_six : Mesh
network_six = network 2 6 (codes "FR") (codes "203.0.113.9")

abbrev network_seven : Mesh
network_seven = network 3 7 (codes "ES") (codes "203.0.113.8")

abbrev both : Ensured × Ensured
both =
    provision_both (queries true) later_queries (codes "203.0.113.9") (codes "203.0.113.8") 6 7
      (codes "FR") (codes "ES") tables

first_answer : both.0.1 ≡ ok (provided network_six)
unfolding provision_both next_available_subnet text_beq itoa create_session_row session_of new_mesh
    find_row join_mesh add_member next_available_mesh_ip parse_cidr find_member is_member print_ip
first_answer = refl

second_answer : both.1.1 ≡ ok (provided network_seven)
unfolding provision_both next_available_subnet text_beq itoa create_session_row session_of new_mesh
    find_row join_mesh add_member next_available_mesh_ip parse_cidr find_member is_member print_ip
second_answer = refl

free_subnet : next_available_subnet tables.meshes ≡ some (codes "10.200.1.0/24")
unfolding next_available_subnet text_beq itoa
free_subnet = refl

provision_both-collides_example :
    (network_six.subnet ≡ codes "10.200.1.0/24")
    × (network_seven.subnet ≡ codes "10.200.1.0/24")
    × (both.1.0.meshes ≡ network_seven ∷ network_six ∷ own_mesh ∷ [])
unfolding session_of
provision_both-collides_example =
    provision_both-collides (queries true) later_queries (codes "203.0.113.9") (codes "203.0.113.8")
      6 7 (codes "FR") (codes "ES") (codes "10.200.1.0/24") tables (provided network_six)
      (provided network_seven) (omega arith) refl refl free_subnet first_answer second_answer

first_given :
    (ensure_auto_mesh (queries true) (codes "203.0.113.9") 6 tables).1 ≡ ok (provided network_six)
unfolding ensure_auto_mesh next_available_subnet text_beq itoa create_session_row session_of
    new_mesh find_row join_mesh add_member next_available_mesh_ip parse_cidr find_member is_member
    print_ip meshes_of provision_mesh
first_given = refl

ensure_auto_mesh-ensure_auto_mesh_example : IsAgain network_six (codes "10.200.1.2") (
    ensure_auto_mesh later_queries
      (codes "203.0.113.8")
      6
      (ensure_auto_mesh (queries true) (codes "203.0.113.9") 6 tables).0)
unfolding session_of is_valid_country_code text_beq
ensure_auto_mesh-ensure_auto_mesh_example =
    ensure_auto_mesh-ensure_auto_mesh (queries true) later_queries (codes "203.0.113.9")
      (codes "203.0.113.8") 6 tables (codes "FR") (provided network_six) refl refl refl first_given
      refl refl
