-- ===== src/Wg/Manager/MeshAddresses.antt =====
-- RemovePeer of internal/wg/manager.go: the address that it gives back, and the mesh address that
-- it leaves behind.
use midori_vpn_core.Prelude.{
  ℕ, ◌+◌, ◌≡◌, refl, Bool, true, false, [], ap, sym, ◌∙◌, List, ◌∷◌, ◌++◌, Option, none, some, ok,
  err, arith, Bool-cases, inl, inr, Option-cases, ok_not_err, if◌then◌else◌, subst,
}
use midori_vpn_core.Prelude.Equality.{text_eq, text_beq_iff, ◌=?◌, =?_refl}
use midori_vpn_core.Prelude.Dict
use midori_vpn_core.Prelude.Dict.{Dict, get-put, get-remove}
use midori_vpn_core.Net.{Text, codes, print_ip}
use midori_vpn_core.Base64.{decode}
use midori_vpn_core.IpPool.{Pool, used}
use midori_vpn_core.IpPool.Returns.{release-allocate}
use midori_vpn_core.IpPool.Validity.{IsValid}
use midori_vpn_core.Wg.Manager
use midori_vpn_core.Wg.Manager.Atomicity.{
  new_peer, Adds, add_peer-Adds, known, undecodable, exhausted, unconfigured, added,
}
use midori_vpn_core.Wg.Manager.{
  fit, Manager, Host, PeerConfig, Device, Reply, WgError, peer_not_found, add_peer, free_ip,
  persist, persisted, configure, remove_peer,
}

-- Whether a device has a peer with a key, after the configurations that it has accepted, newest
-- first, as the fields Remove and UpdateOnly are documented: one that removes the key, one that only
-- updates it, or one that adds it where it is not there. `start` is what it had before them.
unfoldable pub on_device : (List ℕ → Bool) → List PeerConfig → List ℕ → Bool
on_device start [] k = start k
on_device start (c ∷ cs) k =
    let rest = on_device start cs k in
    if c.public_key =? k
    then (if c.to_remove then false else if c.update_only then rest else true)
    else rest

-- The parts of a manager that saving the file leaves alone.
record Keeps (m n : Manager) : Type 0 where
  pool_kept : n.pool ≡ m.pool
  ips_kept : n.peer_ips ≡ m.peer_ips
  mesh_kept : n.mesh_ips ≡ m.mesh_ips
  sent_kept : n.sent ≡ m.sent

persist-Keeps : (host : Host) (m : Manager) → Keeps m (persist host m)
unfolding persist
persist-Keeps host m = go (host.device m.sent)
  where
    go : (d : Option Device) → Keeps m (persisted host m d)
    go none = record { pool_kept = refl; ips_kept = refl; mesh_kept = refl; sent_kept = refl }
    go (some d) = elim (Bool-cases (host.saves m.sent)) [
      | inl h ↦
          unfold persisted in
          rw h (record { pool_kept = refl; ips_kept = refl; mesh_kept = refl; sent_kept = refl })
      | inr h ↦
          unfold persisted in
          rw h (record { pool_kept = refl; ips_kept = refl; mesh_kept = refl; sent_kept = refl })
    ]

-- The manager after a successful RemovePeer.
pub record Removed (m : Manager) (key : Text) (n : Manager) : Type 0 where
  pub raw : List ℕ
  pub readable : decode key ≡ some raw
  pub taken_off :
      (on : List ℕ → Bool) (k : List ℕ)
      → on_device on n.sent k ≡ (if fit 32 raw =? k then false else on_device on m.sent k)
  pub mesh : n.mesh_ips ≡ m.mesh_ips
  pub others :
      (j : Text) → Dict.get n.peer_ips j ≡ (if key =? j then none else Dict.get m.peer_ips j)
  pub freed : (ip : Text) → Dict.get m.peer_ips key ≡ some ip → n.pool ≡ free_ip m.pool ip

Keeps-Removed : (m o n : Manager) (key : Text) → Keeps o n → Removed m key o → Removed m key n
Keeps-Removed m o n key k r = record {
  raw = r.raw;
  readable = r.readable;
  taken_off = λ on j. ap (λ l. on_device on l j) k.sent_kept ∙ r.taken_off on j;
  mesh = k.mesh_kept ∙ r.mesh;
  others = λ j. ap (λ (f : Dict Text Text). Dict.get f j) k.ips_kept ∙ r.others j;
  freed = λ ip e. k.pool_kept ∙ r.freed ip e;
}

module _ (host : Host) (m n : Manager) (key : Text) where
  forgotten-Removed :
      (raw : List ℕ)
      → decode key ≡ some raw
      → (c : PeerConfig) → c.public_key ≡ fit 32 raw
      → c.to_remove ≡ true
      → Removed m key
          (Manager.forget host (record m { sent = c ∷ m.sent }) key (Dict.get m.peer_ips key))
  unfolding Manager.forget on_device
  forgotten-Removed raw d c same off = elim (Option-cases (Dict.get m.peer_ips key)) [
    | inl e ↦ rw e (record {
      raw = raw;
      readable = d;
      taken_off = λ on j. ground arith;
      mesh = refl;
      others = λ j. ground (arith, text_beq_iff key j, ap (Dict.get m.peer_ips) {x = key} {y = j});
      freed = λ ip f. cc;
    })
    | inr (a, e) ↦ rw e (record {
      raw = raw;
      readable = d;
      taken_off = λ on j. ground arith;
      mesh = refl;
      others = λ j. get-remove m.peer_ips key j;
      freed = λ ip f. ap (free_ip m.pool) (ground arith);
    })
  ]

  removed-Removed :
      (raw : List ℕ)
      → decode key ≡ some raw
      → (c : PeerConfig) → c.public_key ≡ fit 32 raw
      → c.to_remove ≡ true
      → Manager.removed host m key (configure host m c) ≡ (n, ok tt)
      → Removed m key n
  unfolding Manager.removed configure
  removed-Removed raw d c same off = elim (Bool-cases (host.accepts m.sent c)) [
    | inl h ↦ rw h (λ e.
        Keeps-Removed m _ n key
          (subst (Keeps _) (ap (λ (x : Reply (Unit {0})). x.0) e) (persist-Keeps host _))
          (forgotten-Removed raw d c same off))
    | inr h ↦ rw h (λ e. cc (ap (λ (x : Reply (Unit {0})). x.1) e))
  ]

  pub remove_peer-Removed : remove_peer host m key ≡ (n, ok tt) → Removed m key n
  unfolding remove_peer Manager.remove_decoded
  remove_peer-Removed = elim (Option-cases (decode key)) [
    | inl d ↦ rw d (λ e. cc (ap (λ (x : Reply (Unit {0})). x.1) e))
    | inr (raw, d) ↦ rw d (λ e. removed-Removed raw d _ refl refl e)
  ]

-- After an AddPeer that succeeds on a manager with a valid pool and a RemovePeer of the same key that
-- succeeds, every key has the address in the VPN that it had, the pool has the assignments and the
-- count that it had and is valid, and the configurations that the device has accepted leave it
-- without the peer of this key, and with or without every other peer as it was.
pub remove_peer-add_peer :
    (host later : Host) (m n o : Manager) (key ip : Text) (keepalive : ℕ)
    → IsValid m.pool
    → add_peer host m key keepalive ≡ (n, ok ip)
    → remove_peer later n key ≡ (o, ok tt)
    → ((j : Text) → Dict.get o.peer_ips j ≡ Dict.get m.peer_ips j)
      × ((j : ℕ) → used o.pool.bitset j ≡ used m.pool.bitset j)
      × (o.pool.count ≡ m.pool.count)
      × IsValid o.pool
      × (raw : List ℕ) × (decode key ≡ some raw)
      × ((on : List ℕ → Bool) (k : List ℕ)
          → on_device on o.sent k ≡ (if fit 32 raw =? k then false else on_device on m.sent k))
remove_peer-add_peer host later m n o key ip keepalive v add rem =
    go (add_peer host m key keepalive) (add_peer-Adds host m key keepalive v) add
  where
    failed : {k : Manager} {e : WgError} → ◌≡◌ {A = Reply Text} (k, err e) (n, ok ip) → ⊥
    failed f = ok_not_err ip _ (sym (ap (λ (x : Reply Text). x.1) f))

    device :
        (r : ℕ) {s : List PeerConfig} {raw : List ℕ}
        → n.sent ≡ new_peer raw keepalive r ∷ s
        → decode key ≡ some raw
        → (gone : Removed n key o) (on : List ℕ → Bool) (k : List ℕ)
        → on_device on o.sent k ≡ (if fit 32 gone.raw =? k then false else on_device on s k)
    device r e d gone on k =
        let same : ◌≡◌ {A = Option (List ℕ)} (some _) (some gone.raw) = sym d ∙ gone.readable in
        gone.taken_off on k ∙ unfold on_device in unfold new_peer in rw e (ground arith)

    go :
        (x : Reply Text)
        → Adds host m key keepalive x
        → x ≡ (n, ok ip)
        → ((j : Text) → Dict.get o.peer_ips j ≡ Dict.get m.peer_ips j)
          × ((j : ℕ) → used o.pool.bitset j ≡ used m.pool.bitset j)
          × (o.pool.count ≡ m.pool.count)
          × IsValid o.pool
          × (raw : List ℕ) × (decode key ≡ some raw)
          × ((on : List ℕ → Bool) (k : List ℕ)
              → on_device on o.sent k ≡ (if fit 32 raw =? k then false else on_device on m.sent k))
    go _ (known a e) f = absurd (failed f)
    go _ (undecodable e d) f = absurd (failed f)
    go _ (exhausted e raw d h) f = absurd (failed f)
    go _ (unconfigured e raw d r k h q c b w) f = absurd (failed f)
    go _ (added absent raw d r k run h) f =
        let kept = subst (Keeps _) (ap (λ (x : Reply Text). x.0) f) (persist-Keeps host _) in
        let gone = remove_peer-Removed later n o key rem in
        let (s, back, same_count, bits, w) = release-allocate m.pool _ _ v run in
        let held : Dict.get n.peer_ips key ≡ some (print_ip (m.pool.base_ip + r) ++ codes "/32") =
          ap (λ (f : Dict Text Text). Dict.get f key) kept.ips_kept
          ∙ ground (
            arith,
            get-put m.peer_ips key key (print_ip (m.pool.base_ip + r) ++ codes "/32"),
            =?_refl key,
          ) in
        let pool : o.pool ≡ s =
          gone.freed _ held
          ∙ ap (λ (p : Pool). free_ip p (print_ip (m.pool.base_ip + r) ++ codes "/32"))
              kept.pool_kept
          ∙ unfold free_ip in ap (Manager.dropped _) back in
        (
          (λ j.
              gone.others j
              ∙ ground (
                arith,
                ap (λ (f : Dict Text Text). Dict.get f j) kept.ips_kept,
                get-put m.peer_ips key j (print_ip (m.pool.base_ip + r) ++ codes "/32"),
                text_beq_iff key j,
                ap (Dict.get m.peer_ips) {x = key} {y = j},
              )),
          rw pool bits,
          rw pool same_count,
          rw pool w,
          gone.raw,
          gone.readable,
          device _ kept.sent_kept d gone,
        )
