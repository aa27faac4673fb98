-- ===== src/Nodes/Handlers/Ownership.antt =====
-- What histories of calls of the node handlers of internal/control/mesh_handler.go leave of the
-- network of another user.
use midori_vpn_core.Prelude.{
  ℕ, ◌≡◌, ◌∙◌, Bool, true, false, ◌&&◌, not, List, [], ◌∷◌, Option, ◌==◌, arith,
}
use midori_vpn_core.Meshes.{Mesh, MeshMember}
use midori_vpn_core.Meshes.Joins.{add_member-cases}
use midori_vpn_core.Meshes.Rows.{find_row, find_member}
use midori_vpn_core.Connections.{Database}
use midori_vpn_core.Nodes.{deleted_mesh}
use midori_vpn_core.Nodes.Kept.{
  is_owned_by, IsKept, is_owned_by-without_mesh, is_owned_by-meshes_of, is_owned_by-on_session,
  find_row-without_mesh_other, find_row-on_session, find_row-other, find_member-without_members_of,
  find_member-without_member, find_member-update_member_peer, session_of-other, is_owned_by-new,
}
use midori_vpn_core.Nodes.Preserved.{Preserves}
use midori_vpn_core.Nodes.Handlers.Preserved.{answer-preserved}
use midori_vpn_core.Nodes.Handlers.Calls.{NodeCall, answer, run_calls}

-- No call is of one of the two users.
unfoldable pub are_strangers : ℕ → ℕ → List NodeCall → Bool
are_strangers o u [] = true
are_strangers o u (c ∷ cs) = not (c.user == o) && (not (c.user == u) && are_strangers o u cs)

-- The statements of a stranger.
IsKept-Preserves :
    (o i u : ℕ) (n : Mesh) (m : Option MeshMember) (v : ℕ)
    → (v == o) ≡ false
    → (v == u) ≡ false
    → Preserves v (IsKept o i u n m) (λ j. (j == i) ≡ false) (λ ns. is_owned_by o i ns ≡ true)
unfolding is_owned_by find_row find_member deleted_mesh
IsKept-Preserves o i u n m v stranger other = record {
  lists = λ db k. is_owned_by-meshes_of o i v db.members db.meshes k.own;
  head = λ r rs l e. ground (arith, l, e, stranger);
  tail = λ r rs l. ground (arith, l);
  finds = λ j r db k f e. find_row-other o i v j db.meshes r stranger k.own f e;
  sessions = λ r db k f. session_of-other o i v db.meshes r stranger k.own f;
  deletes = λ j db e k. record {
    own = is_owned_by-without_mesh o i j db.meshes k.own;
    row = find_row-without_mesh_other o i j db.meshes e ∙ k.row;
    membership = find_member-without_members_of o i u j db.members e ∙ k.membership;
  };
  updates = λ j f db e same k. record {
    own = is_owned_by-on_session o i j f db.meshes same.id e k.own;
    row = find_row-on_session o i j f db.meshes same.id e ∙ k.row;
    membership = k.membership;
  };
  inserts = λ new db c k.
      let free = is_owned_by-new o i new n db.meshes c.id k.row in
      (
        free,
        record {
          own = ground (arith, free, k.own);
          row = ground (arith, free, k.row);
          membership = k.membership;
        },
      );
  joins = λ b a j db k.
      add_member-cases (record { meshes = db.meshes; members = db.members }) j v
        (λ r. IsKept o i u n m (record db { members = r.0.members }))
        (λ ip out. record {
          own = k.own;
          row = k.row;
          membership = ground (arith, k.membership, other);
        })
        (λ _. k) b a;
  leaves = λ j db k. record {
    own = k.own;
    row = k.row;
    membership = find_member-without_member o i u v j db.members other ∙ k.membership;
  };
  links = λ j peer db k. record {
    own = k.own;
    row = k.row;
    membership = find_member-update_member_peer o i u v j peer db.members other ∙ k.membership;
  };
}

-- Calls of strangers that follow one another, whatever they ask for and whatever the database
-- refuses, keep the row of a network as it is, its owner, and a membership in it of any user who makes none of the calls.
pub run_calls-IsKept :
    (o i u : ℕ) (n : Mesh) (m : Option MeshMember) (cs : List NodeCall) (db : Database)
    → are_strangers o u cs ≡ true
    → IsKept o i u n m db
    → IsKept o i u n m (run_calls cs db)
unfolding run_calls are_strangers
run_calls-IsKept o i u n m [] db e k = k
run_calls-IsKept o i u n m (c ∷ cs) db e k =
    run_calls-IsKept o i u n m cs (answer c c.request db) (ground arith) (
      answer-preserved c (IsKept o i u n m) _ _
        (IsKept-Preserves o i u n m c.user (ground arith) (ground arith)) c.request db k)
