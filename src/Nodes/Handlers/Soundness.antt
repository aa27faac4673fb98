-- ===== src/Nodes/Handlers/Soundness.antt =====
-- What tells rows apart, in histories of calls of the node handlers of
-- internal/control/mesh_handler.go.
use midori_vpn_core.Prelude.{ℕ, List, [], ◌∷◌}
use midori_vpn_core.Meshes.Apart.{
  add_member-AreApart, without_member-AreApart, without_members_of-AreApart,
  update_member_peer-AreApart,
}
use midori_vpn_core.Connections.{Database}
use midori_vpn_core.Nodes.{deleted_mesh}
use midori_vpn_core.Nodes.Sound.{
  AreDistinct, IsSound, without_mesh-AreDistinct, on_session-AreDistinct, clash_any_new,
}
use midori_vpn_core.Nodes.Preserved.{Preserves}
use midori_vpn_core.Nodes.Handlers.Preserved.{answer-preserved}
use midori_vpn_core.Nodes.Handlers.Calls.{NodeCall, answer, run_calls}

-- The statements of any user.
IsSound-Preserves : (user : ℕ) → Preserves user IsSound (λ j. Unit {0}) (λ ns. Unit {0})
unfolding AreDistinct deleted_mesh
IsSound-Preserves user = record {
  lists = λ db s. tt;
  head = λ n ns l e. tt;
  tail = λ n ns l. tt;
  finds = λ j n db s f e. tt;
  sessions = λ n db s f. tt;
  deletes = λ j db o s. record {
    distinct = without_mesh-AreDistinct j db.meshes s.distinct;
    apart = without_members_of-AreApart j db.members s.apart;
  };
  updates = λ j f db o k s. record {
    distinct = on_session-AreDistinct j f k db.meshes s.distinct;
    apart = s.apart;
  };
  inserts = λ new db c s. (
    tt,
    record {
      distinct = (clash_any_new new db.meshes c.session c.id c.subnet c.first, s.distinct);
      apart = s.apart;
    },
  );
  joins = λ b a j db s. record {
    distinct = s.distinct;
    apart =
        add_member-AreApart b a (record { meshes = db.meshes; members = db.members }) j user
          s.apart;
  };
  leaves = λ j db s. record {
    distinct = s.distinct;
    apart = without_member-AreApart j user db.members s.apart;
  };
  links = λ j peer db s. record {
    distinct = s.distinct;
    apart = update_member_peer-AreApart j user peer db.members s.apart;
  };
}

-- Tables in which no two networks have one id or one subnet, no user owns two session networks, no
-- two members of one network have one address, and no user is in a network twice, stay so while
-- calls follow one another, whatever users ask for and the database refuses.
pub run_calls-IsSound :
    (cs : List NodeCall) (db : Database) → IsSound db → IsSound (run_calls cs db)
unfolding run_calls
run_calls-IsSound [] db s = s
run_calls-IsSound (c ∷ cs) db s =
    run_calls-IsSound cs (answer c c.request db)
      (answer-preserved c IsSound _ _ (IsSound-Preserves c.user) c.request db s)
