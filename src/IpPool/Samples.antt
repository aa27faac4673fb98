-- ===== src/IpPool/Samples.antt =====
-- The theorems on internal/ippool/pool.go at the network 10.8.0.0/29.
use midori_vpn_core.Prelude.{
  ℕ, ◌+◌, ◌≡◌, refl, sym, ◌∙◌, subst, true, [], ◌∷◌, ◌++◌, ok, some, ok-injective, ◌==◌,
  if◌then◌else◌, arith,
}
use midori_vpn_core.Prelude.Bits.{has_bit}
use midori_vpn_core.Net.{codes, Network, parse_cidr, print_ip}
use midori_vpn_core.IpPool.{
  Pool, PoolError, new, take, allocate, release, used, reserve_low, test, mark,
}
use midori_vpn_core.IpPool.Validity.{IsValid}
use midori_vpn_core.IpPool.Scan.{Picks}
use midori_vpn_core.IpPool.Creation.{new-IsValid}
use midori_vpn_core.IpPool.Allocation.{allocate-Picks}
use midori_vpn_core.IpPool.Returns.{release-allocate}

abbrev small_net : Network
small_net = record { address = 0x0A080000; prefix_len = 29 }

abbrev pub small : Pool
small = record {
  network = small_net;
  base_ip = 0x0A080000;
  max_host = 7;
  bitset = 3 ∷ [];
  count = 2;
  next = 2;
}

small_parsed : parse_cidr (codes "10.8.0.0/29") ≡ some small_net
unfolding parse_cidr
small_parsed = refl

small_made : new (codes "10.8.0.0/29") ≡ ok small
unfolding new reserve_low mark parse_cidr
small_made = refl

pub small-IsValid : IsValid small
small-IsValid =
    let (p, made, v, count, bits) =
      new-IsValid (codes "10.8.0.0/29") small_net small_parsed (omega arith) (omega arith) in
    subst IsValid (ok-injective {E = PoolError} (sym made ∙ small_made)) v

allocate-Picks_example :
    (r : ℕ) × Picks small r
    × (allocate small ≡ ok (take small r, print_ip (0x0A080000 + r) ++ codes "/32"))
    × IsValid (take small r)
    × ((j : ℕ) → used (take small r).bitset j ≡ (if r == j then true else used small.bitset j))
allocate-Picks_example = allocate-Picks small small-IsValid (omega arith)

pub small_allocated : allocate small ≡ ok (take small 2, codes "10.8.0.2/32")
unfolding allocate take test mark print_ip has_bit
small_allocated = refl

release-allocate_example :
    (s : Pool) × (release (take small 2) (codes "10.8.0.2/32") ≡ ok s)
    × (s.count ≡ 2)
    × ((j : ℕ) → used s.bitset j ≡ used small.bitset j)
    × IsValid s
release-allocate_example =
    release-allocate small (take small 2) (codes "10.8.0.2/32") small-IsValid small_allocated
