-- ===== src/Wg/Manager/Atomicity.antt =====
-- AddPeer of internal/wg/manager.go on every branch: what a failed call leaves behind.
use midori_vpn_core.Prelude.{
  ℕ, ◌+◌, ◌^◌, ◌≤◌, ◌<◌, ◌≡◌, refl, true, false, List, [], ◌∷◌, ◌++◌, none, some, ok, err, arith,
  Bool-cases, inl, inr, Option-cases, ltb, ltb→lt,
}
use midori_vpn_core.Prelude.Equality.{text_eq}
use midori_vpn_core.Prelude.Dict
use midori_vpn_core.Net.{Text, codes, print_ip}
use midori_vpn_core.Net.RoundTrip.{parse_cidr-print_ip}
use midori_vpn_core.Base64.{decode}
use midori_vpn_core.IpPool.{Pool, pool_exhausted, used, take, allocate}
use midori_vpn_core.IpPool.Scan.{Picks}
use midori_vpn_core.IpPool.Allocation.{allocate-Picks, allocate_exhausted_iff, Picks-below}
use midori_vpn_core.IpPool.Returns.{release-allocate}
use midori_vpn_core.IpPool.Validity.{IsValid}
use midori_vpn_core.Wg.Manager
use midori_vpn_core.Wg.Manager.{
  Manager, Host, PeerConfig, Reply, WgError, peer_exists, invalid_public_key, allocation,
  configure_failed, fit, duration, configure, persist, add_peer, free_ip,
}

-- The configuration that a new peer is sent with: its address, and nothing else.
unfoldable pub new_peer : List ℕ → ℕ → ℕ → PeerConfig
new_peer raw keepalive address = record {
  public_key = fit 32 raw;
  to_remove = false;
  update_only = false;
  replace_allowed_ips = false;
  allowed_ips = record { address = address; prefix_len = 32 } ∷ [];
  keepalive = some (duration keepalive);
}

-- What AddPeer may answer, and the manager that it leaves.
pub data Adds (host : Host) (m : Manager) (key : Text) (keepalive : ℕ) : Reply Text → Type 0 where
  known :
      (ip : Text)
      → Dict.get m.peer_ips key ≡ some ip
      → Adds host m key keepalive (m, err peer_exists)
  undecodable :
      Dict.get m.peer_ips key ≡ none
      → decode key ≡ none
      → Adds host m key keepalive (m, err invalid_public_key)
  exhausted :
      Dict.get m.peer_ips key ≡ none
      → (raw : List ℕ) → decode key ≡ some raw
      → m.pool.max_host ≤ m.pool.count
      → Adds host m key keepalive (m, err (allocation pool_exhausted))
  unconfigured :
      Dict.get m.peer_ips key ≡ none
      → (raw : List ℕ) → decode key ≡ some raw
      → (r : ℕ) → Picks m.pool r
      → host.accepts m.sent (new_peer raw keepalive (m.pool.base_ip + r)) ≡ false
      → (q : Pool) → q.count ≡ m.pool.count
      → ((j : ℕ) → used q.bitset j ≡ used m.pool.bitset j)
      → IsValid q
      → Adds host m key keepalive (record m { pool = q }, err configure_failed)
  added :
      Dict.get m.peer_ips key ≡ none
      → (raw : List ℕ) → decode key ≡ some raw
      → (r : ℕ) → Picks m.pool r
      → allocate m.pool ≡ ok (take m.pool r, print_ip (m.pool.base_ip + r) ++ codes "/32")
      → host.accepts m.sent (new_peer raw keepalive (m.pool.base_ip + r)) ≡ true
      → Adds host m key keepalive (
        persist host (record m {
          pool = take m.pool r;
          peer_ips = Dict.put m.peer_ips key (print_ip (m.pool.base_ip + r) ++ codes "/32");
          sent = new_peer raw keepalive (m.pool.base_ip + r) ∷ m.sent;
        }),
        ok (print_ip (m.pool.base_ip + r) ++ codes "/32"),
      )

module _ (host : Host) (m : Manager) (v : IsValid m.pool) (key : Text) (keepalive : ℕ)
    (absent : Dict.get m.peer_ips key ≡ none) (raw : List ℕ) (decoded : decode key ≡ some raw) where
  with_address :
      (r : ℕ)
      → Picks m.pool r
      → allocate m.pool ≡ ok (take m.pool r, print_ip (m.pool.base_ip + r) ++ codes "/32")
      → (s : Pool) → free_ip (take m.pool r) (print_ip (m.pool.base_ip + r) ++ codes "/32") ≡ s
      → s.count ≡ m.pool.count
      → ((j : ℕ) → used s.bitset j ≡ used m.pool.bitset j)
      → IsValid s
      → Adds host m key keepalive (
          Manager.added host m
            (take m.pool r)
            key
            (print_ip (m.pool.base_ip + r) ++ codes "/32")
            (configure host m (new_peer raw keepalive (m.pool.base_ip + r))))
  unfolding Manager.added configure
  with_address r k run s back same_count same w =
      elim (Bool-cases (host.accepts m.sent (new_peer raw keepalive (m.pool.base_ip + r)))) [
        | inl h ↦ rw h (added absent raw decoded r k run h)
        | inr h ↦ rw h (rw back (unconfigured absent raw decoded r k h s same_count same w))
      ]

  with_room :
      m.pool.count < m.pool.max_host
      → Adds host m key keepalive (Manager.add_allocated host m key raw keepalive (allocate m.pool))
  unfolding Manager.add_allocated Manager.add_network take new_peer
  with_room room =
      let (r, k, run, kept, same) = allocate-Picks m.pool v room in
      let (s, back, same_count, bits, w) = release-allocate m.pool _ _ v run in
      let small : m.pool.base_ip + r < 2 ^ 32 = omega (arith, v.fits, Picks-below v k) in
      rw run (
        rw (parse_cidr-print_ip (m.pool.base_ip + r) small)
          (with_address r k run s (unfold free_ip in rw back refl) same_count bits w))

  decoded-Adds :
      Adds host m key keepalive (Manager.add_allocated host m key raw keepalive (allocate m.pool))
  unfolding Manager.add_allocated
  decoded-Adds = elim (Bool-cases (ltb m.pool.count m.pool.max_host)) [
    | inl h ↦ with_room (ltb→lt _ _ h)
    | inr h ↦
        let full : m.pool.max_host ≤ m.pool.count = ground arith in
        rw ((allocate_exhausted_iff m.pool v).1 full) (exhausted absent raw decoded full)
  ]

-- With a valid pool, AddPeer fails as it finds the peer known, the key undecodable, the pool
-- exhausted or the host unwilling, and then leaves every map, the file, the device and the
-- assignments and count of the pool as they were; otherwise it hands out the address that the
-- pool picks, sends that address alone to the device, and records it. Its check of the address
-- that it has just allocated never fails.
pub add_peer-Adds :
    (host : Host) (m : Manager) (key : Text) (keepalive : ℕ)
    → IsValid m.pool
    → Adds host m key keepalive (add_peer host m key keepalive)
unfolding add_peer Manager.add_absent Manager.add_decoded
add_peer-Adds host m key keepalive v = elim (Option-cases (Dict.get m.peer_ips key)) [
  | inr (ip, e) ↦ rw e (known ip e)
  | inl e ↦ rw e (elim (Option-cases (decode key)) [
    | inl f ↦ rw f (undecodable e f)
    | inr (raw, f) ↦ rw f (decoded-Adds host m v key keepalive e raw f)
  ])
]
