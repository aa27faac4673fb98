-- ===== src/Wg/Manager/Steps.antt =====
-- Each method of the manager of internal/wg/manager.go keeps the invariant of the manager, whatever
-- the host answers.
use midori_vpn_core.Prelude.{
  ℕ, ◌+◌, ◌≡◌, refl, List, ◌++◌, Option, none, some, Outcome, ok, err, panic, diverges, arith,
  Bool-cases, inl, inr, Option-cases,
}
use midori_vpn_core.Prelude.Dict
use midori_vpn_core.Prelude.Dict.{Dict}
use midori_vpn_core.Prelude.Equality.{text_eq}
use midori_vpn_core.Net.{Text, codes, Network, parse_cidr, parse_ip, print_ip}
use midori_vpn_core.Base64.{decode}
use midori_vpn_core.IpPool.{Pool, PoolError, take, allocate}
use midori_vpn_core.IpPool.Scan.{Picks}
use midori_vpn_core.IpPool.Returns.{allocate_inv}
use midori_vpn_core.Wg.Manager
use midori_vpn_core.Wg.Mesh
use midori_vpn_core.Wg.Manager.{Manager, Host, PeerConfig, Reply, configure, persist}
use midori_vpn_core.Wg.Manager.Consistency.{
  IsConsistent, Same, Same-IsConsistent, persist-IsConsistent, with_peer, with_peer-IsConsistent,
  refused, refused-IsConsistent, forgotten, forgotten-IsConsistent,
}

module _ (host : Host) (m : Manager) (c : IsConsistent m) where
  added-kept :
      (r : ℕ)
      → Picks m.pool r
      → (key : Text) → Dict.get m.peer_ips key ≡ none
      → (p : PeerConfig)
      → IsConsistent
          (Manager.added host m
            (take m.pool r)
            key
            (print_ip (m.pool.base_ip + r) ++ codes "/32")
            (configure host m p)).0
  unfolding configure Manager.added with_peer refused take
  added-kept r k key absent p = elim (Bool-cases (host.accepts m.sent p)) [
    | inl h ↦ rw h (
        persist-IsConsistent host _ (
          Same-IsConsistent (with_peer m c r k key absent) _ (refl, refl)
            (with_peer-IsConsistent m c r k key absent)))
    | inr h ↦ rw h (refused-IsConsistent m c r k key absent)
  ]

  network-kept :
      (r : ℕ)
      → Picks m.pool r
      → (key : Text) → Dict.get m.peer_ips key ≡ none
      → (raw : List ℕ) → (keepalive : ℕ) (n : Option Network)
      → IsConsistent
          (Manager.add_network host m
            (take m.pool r)
            key
            raw
            keepalive
            (print_ip (m.pool.base_ip + r) ++ codes "/32")
            n).0
  unfolding Manager.add_network refused
  network-kept r k key absent raw keepalive none = refused-IsConsistent m c r k key absent
  network-kept r k key absent raw keepalive (some n) = added-kept r k key absent _

  allocated-kept :
      (key : Text)
      → Dict.get m.peer_ips key ≡ none
      → (raw : List ℕ) (keepalive : ℕ) → (o : Outcome PoolError (Pool × Text)) → allocate m.pool ≡ o
      → IsConsistent (Manager.add_allocated host m key raw keepalive o).0
  unfolding Manager.add_allocated
  allocated-kept key absent raw keepalive (ok (pool, ip)) e =
      let (r, k, same, at, room) = allocate_inv m.pool pool ip c.valid e in
      rw (same, at) (network-kept r k key absent raw keepalive (parse_cidr _))
  allocated-kept key absent raw keepalive (err e) h = c
  allocated-kept key absent raw keepalive panic h = c
  allocated-kept key absent raw keepalive diverges h = c

  pub add_peer-kept :
      (key : Text) (keepalive : ℕ) → IsConsistent (Manager.add_peer host m key keepalive).0
  unfolding Manager.add_peer Manager.add_absent Manager.add_decoded
  add_peer-kept key keepalive = elim (Option-cases (Dict.get m.peer_ips key)) [
    | inr (ip, e) ↦ rw e c
    | inl e ↦ rw e (elim (Option-cases (decode key)) [
      | inl f ↦ rw f c
      | inr (raw, f) ↦ rw f (allocated-kept key e raw keepalive (allocate m.pool) refl)
    ])
  ]

  -- Every method but AddPeer leaves the pool and the addresses alone, or forgets one peer.
  configure-Same : (p : PeerConfig) (n : Manager) → configure host m p ≡ some n → Same m n
  unfolding configure
  configure-Same p n e = elim (Bool-cases (host.accepts m.sent p)) [
    | inl h ↦ (ground arith, ground arith)
    | inr h ↦ ground arith
  ]

  sent-IsConsistent : (p : PeerConfig) (n : Manager) → configure host m p ≡ some n → IsConsistent n
  sent-IsConsistent p n e = Same-IsConsistent m n (configure-Same p n e) c

  forget-kept :
      (n : Manager)
      → IsConsistent n
      → (key : Text) → IsConsistent (Manager.forget host n key (Dict.get n.peer_ips key))
  unfolding Manager.forget forgotten
  forget-kept n d key = elim (Option-cases (Dict.get n.peer_ips key)) [
    | inl e ↦ rw e d
    | inr (ip, e) ↦ rw e (forgotten-IsConsistent n d key ip e)
  ]

  removed-kept :
      (key : Text) (p : PeerConfig) (o : Option Manager)
      → configure host m p ≡ o
      → IsConsistent (Manager.removed host m key o).0
  unfolding Manager.removed
  removed-kept key p none e = c
  removed-kept key p (some n) e =
      persist-IsConsistent host _ (forget-kept n (sent-IsConsistent p n e) key)

  pub remove_peer-kept : (key : Text) → IsConsistent (Manager.remove_peer host m key).0
  unfolding Manager.remove_peer Manager.remove_decoded
  remove_peer-kept key = elim (Option-cases (decode key)) [
    | inl e ↦ rw e c
    | inr (raw, e) ↦ rw e (removed-kept key _ _ refl)
  ]

  updated-kept :
      (p : PeerConfig) (o : Option Manager)
      → configure host m p ≡ o
      → IsConsistent (Manager.updated host m o).0
  unfolding Manager.updated
  updated-kept p none e = c
  updated-kept p (some n) e = persist-IsConsistent host n (sent-IsConsistent p n e)

  update_known-kept :
      (raw : List ℕ) (keepalive : ℕ) (o : Option Text)
      → IsConsistent (Manager.update_known host m raw keepalive o).0
  unfolding Manager.update_known Manager.update_network
  update_known-kept raw keepalive none = c
  update_known-kept raw keepalive (some ip) = elim (Option-cases (parse_cidr ip)) [
    | inl e ↦ rw e c
    | inr (n, e) ↦ rw e (updated-kept _ _ refl)
  ]

  pub update_peer-kept :
      (key : Text) (keepalive : ℕ) → IsConsistent (Manager.update_peer host m key keepalive).0
  unfolding Manager.update_peer Manager.update_decoded
  update_peer-kept key keepalive = elim (Option-cases (decode key)) [
    | inl e ↦ rw e c
    | inr (raw, e) ↦ rw e (update_known-kept raw keepalive _)
  ]

  mesh_added-kept :
      (key ip : Text) (p : PeerConfig) (o : Option Manager)
      → configure host m p ≡ o
      → IsConsistent (Mesh.mesh_added host m key ip o).0
  unfolding Mesh.mesh_added
  mesh_added-kept key ip p none e = c
  mesh_added-kept key ip p (some n) e =
      persist-IsConsistent host _ (Same-IsConsistent n _ (refl, refl) (sent-IsConsistent p n e))

  mesh_known-kept :
      (key : Text) (raw : List ℕ) (ip : Text) (o : Option Text)
      → IsConsistent (Mesh.mesh_known host m key raw ip o).0
  unfolding Mesh.mesh_known Mesh.mesh_network Mesh.mesh_parsed
  mesh_known-kept key raw ip none = c
  mesh_known-kept key raw ip (some vpn) = elim (Option-cases (parse_cidr vpn)) [
    | inl e ↦ rw e c
    | inr (n, e) ↦ rw e (elim (Option-cases (parse_ip ip)) [
      | inl f ↦ rw f c
      | inr (a, f) ↦ rw f (mesh_added-kept key ip _ _ refl)
    ])
  ]

  pub add_mesh_ip-kept : (key ip : Text) → IsConsistent (Mesh.add_mesh_ip host m key ip).0
  unfolding Mesh.add_mesh_ip Mesh.mesh_decoded
  add_mesh_ip-kept key ip = elim (Option-cases (decode key)) [
    | inl e ↦ rw e c
    | inr (raw, e) ↦ rw e (mesh_known-kept key raw ip _)
  ]

  mesh_removed-kept :
      (key : Text) (p : PeerConfig) (o : Option Manager)
      → configure host m p ≡ o
      → IsConsistent (Mesh.mesh_removed host m key o).0
  unfolding Mesh.mesh_removed
  mesh_removed-kept key p none e = c
  mesh_removed-kept key p (some n) e =
      persist-IsConsistent host _ (Same-IsConsistent n _ (refl, refl) (sent-IsConsistent p n e))

  unmesh_known-kept :
      (key : Text) (raw : List ℕ) (o : Option Text)
      → IsConsistent (Mesh.unmesh_known host m key raw o).0
  unfolding Mesh.unmesh_known Mesh.unmesh_network
  unmesh_known-kept key raw none = c
  unmesh_known-kept key raw (some vpn) = elim (Option-cases (parse_cidr vpn)) [
    | inl e ↦ rw e c
    | inr (n, e) ↦ rw e (mesh_removed-kept key _ _ refl)
  ]

  pub remove_mesh_ip-kept : (key : Text) → IsConsistent (Mesh.remove_mesh_ip host m key).0
  unfolding Mesh.remove_mesh_ip Mesh.unmesh Mesh.unmesh_decoded
  remove_mesh_ip-kept key = elim (Option-cases (Dict.get m.mesh_ips key)) [
    | inl e ↦ rw e c
    | inr (ip, e) ↦ rw e (elim (Option-cases (decode key)) [
      | inl f ↦ rw f c
      | inr (raw, f) ↦ rw f (unmesh_known-kept key raw _)
    ])
  ]
