-- ===== src/IpPool.antt =====
-- internal/ippool/pool.go: the allocator of VPN addresses. The mutex makes each call one step, so
-- a method is a function from the pool to its outcome. Offsets and counters are uint32, with the
-- wrap-around written out. The proofs are in the modules below.
mod Bitset
pub mod Validity
pub mod Scan
pub mod Allocation
pub mod Addresses
pub mod Returns
pub mod Creation
pub mod Limits
pub mod Samples
use midori_vpn_core.Prelude.{
  ℕ, zero, suc, ◌+◌, ◌-◌, ◌*◌, ◌/◌, ◌%◌, ◌^◌, Bool, true, false, ◌||◌, List, ◌++◌, Option, none,
  some, Outcome, ok, err, panic, diverges, ltb, leb, ◌==◌, if◌then◌else◌, ◌≡◌, refl,
}
use midori_vpn_core.Prelude.Int.{ℤ, pos, ◌-ℤ◌}
use midori_vpn_core.Net.{Text, codes, slash, u32_mod, cut, parse_ip, print_ip, parse_cidr, Network}
unfoldable pub use Bitset.{test, mark, unmark, popcount, zero_words, reserve_low, used}

pub data PoolError : Type 0 where
  invalid_cidr pool_exhausted ip_already_used ip_not_found not_in_network : PoolError

pub record Pool : Type 0 where
  pub network : Network
  pub base_ip : ℕ
  pub max_host : ℕ
  pub bitset : List ℕ
  pub count : ℕ
  pub next : ℕ

-- uint32(1<<(b-ones)) - 1, where the shift is one of uint32.
abbrev pub host_max : ℕ → ℕ
host_max ones = (2 ^ (32 - ones) % 2 ^ 32 + 2 ^ 32 - 1) % 2 ^ 32

-- (maxHost + 64) / 64
abbrev pub word_count : ℕ → ℕ
word_count max_host = (max_host + 64) % 2 ^ 32 / 64

-- An IPv6 CIDR is an error of New too, and not told apart here from one that does not parse.
pub new_from : Option Network → Outcome PoolError Pool
new_from none = err invalid_cidr
new_from (some n) = elim (reserve_low (zero_words (word_count (host_max n.prefix_len)))) [
  | none ↦ panic
  | some bs ↦ ok (record {
    network = n;
    base_ip = n.address;
    max_host = host_max n.prefix_len;
    bitset = bs;
    count = 2;
    next = 2;
  })
]

unfoldable pub new : Text → Outcome PoolError Pool
unfolding new_from
new cidr = new_from (parse_cidr cidr)

pub strip_mask : Text → Text
strip_mask ip = (cut slash ip).0

pub offset_to_ip : Pool → ℕ → Text
offset_to_ip p offset = print_ip ((p.base_ip + offset) % u32_mod)

pub in_range : Pool → ℕ → Option ℕ
in_range p ip =
    if ltb ip p.base_ip || ltb ((p.base_ip + p.max_host) % u32_mod) ip
    then none
    else some (ip - p.base_ip)

pub ip_to_offset : Pool → Text → Option ℕ
unfolding in_range
ip_to_offset p t = elim (parse_ip t) [ none ↦ none | some ip ↦ in_range p ip ]

-- The branch of Allocate's loop that found a free offset.
unfoldable pub take : Pool → ℕ → Pool
take p offset = record p {
  bitset = mark p.bitset offset;
  count = (p.count + 1) % u32_mod;
  next = (offset + 1) % u32_mod;
}

-- `if offset >= p.maxHost { offset = 2 }`
pub wrap : Pool → ℕ → ℕ
wrap p offset = if leb p.max_host offset then 2 else offset

pub grant : Pool → ℕ → Pool × Text
grant p offset = (take p offset, offset_to_ip p offset ++ codes "/32")

-- One round of the loop at a wrapped offset; `continue` is the rest of the loop.
pub visit : Pool → (ℕ → Outcome PoolError (Pool × Text)) → ℕ → Outcome PoolError (Pool × Text)
visit p continue at =
    let after = (at + 1) % u32_mod in
    let rest = continue after in
    elim (test p.bitset at) [
      | none ↦ panic
      | some false ↦ ok (grant p at)
      | some true ↦ if after == p.next then err pool_exhausted else rest
    ]

-- The loop of Allocate, one round for each unit of fuel.
pub scan : ℕ → Pool → ℕ → Outcome PoolError (Pool × Text)
unfolding visit
scan zero p offset = diverges
scan (suc fuel) p offset = visit p (scan fuel p) (wrap p offset)

-- p.maxHost - 1
pub usable : Pool → ℕ
usable p = (p.max_host + u32_mod - 1) % u32_mod

unfoldable pub allocate : Pool → Outcome PoolError (Pool × Text)
unfolding usable scan wrap grant take offset_to_ip
allocate p = if ltb (usable p) p.count then err pool_exhausted else scan (p.max_host + 2) p p.next

unfoldable pub give_back : Pool → ℕ → Pool
give_back p offset = record p {
  bitset = unmark p.bitset offset;
  count = (p.count + u32_mod - 1) % u32_mod;
  next = if ltb offset p.next then offset else p.next;
}

pub release_at : Pool → Option ℕ → Outcome PoolError Pool
release_at p none = err ip_not_found
release_at p (some offset) = elim (test p.bitset offset) [
  | none ↦ panic
  | some false ↦ err ip_not_found
  | some true ↦ ok (give_back p offset)
]

unfoldable pub release : Pool → Text → Outcome PoolError Pool
unfolding release_at give_back ip_to_offset strip_mask
release p ip = release_at p (ip_to_offset p (strip_mask ip))

unfoldable pub occupy : Pool → ℕ → Pool
occupy p offset = record p { bitset = mark p.bitset offset; count = (p.count + 1) % u32_mod }

pub reserve_at : Pool → Option ℕ → Outcome PoolError Pool
reserve_at p none = err not_in_network
reserve_at p (some offset) = elim (test p.bitset offset) [
  | none ↦ panic
  | some true ↦ err ip_already_used
  | some false ↦ ok (occupy p offset)
]

unfoldable pub reserve : Pool → Text → Outcome PoolError Pool
unfolding reserve_at occupy ip_to_offset strip_mask
reserve p ip = reserve_at p (ip_to_offset p (strip_mask ip))

pub gateway_ip : Pool → Text
gateway_ip p = offset_to_ip p 1 ++ codes "/16"

pub assigned_count : Pool → ℕ
assigned_count p = p.count

-- int(p.maxHost) - 1 - (assigned - 2)
pub free_count : Pool → ℤ
free_count p = pos p.max_host -ℤ pos 1 -ℤ (pos (popcount p.bitset) -ℤ pos 2)
