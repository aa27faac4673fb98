-- ===== src/IpPool/Creation.antt =====
-- New of internal/ippool/pool.go.
use midori_vpn_core.Prelude.{
  ℕ, zero, suc, ◌+◌, ◌-◌, ◌*◌, ◌/◌, ◌%◌, ◌^◌, ◌≤◌, ◌<◌, ◌≡◌, refl, ap, sym, ◌∙◌, List, some, ltb,
  arith, ok, Option-cases, inl, inr, length-replicate,
}
use midori_vpn_core.Prelude.Powers.{two_pow_add, two_pow_pos, two_pow_mono}
use midori_vpn_core.Prelude.Counting.{count_below, count_below-cong}
use midori_vpn_core.Net.{Text, Network, u32_mod, parse_cidr}
use midori_vpn_core.Net.Range.{parse_cidr_range}
use midori_vpn_core.IpPool.{
  Pool, new, new_from, used, reserve_low, zero_words, host_max, word_count,
}
use midori_vpn_core.IpPool.Bitset.{used-reserve_low, reserve_low-ne-none, length-reserve_low}
use midori_vpn_core.IpPool.Validity.{IsValid}

-- The last address of a network is below 2^32.
last_address : (ip k : ℕ) → ip < u32_mod → k ≤ 32 → ip - ip % 2 ^ (32 - k) + 2 ^ (32 - k) ≤ u32_mod
last_address ip k h le =
    let size = 2 ^ (32 - k) in
    let whole : 2 ^ (32 - k) * 2 ^ k ≡ u32_mod =
      two_pow_add (32 - k) k ∙ ap (λ (e : ℕ). 2 ^ e) {y = 32} (omega arith) in
    aligned ip size (2 ^ k) whole (two_pow_pos (32 - k)) h
  where
    aligned :
        (ip size nets : ℕ)
        → size * nets ≡ u32_mod
        → 1 ≤ size
        → ip < u32_mod
        → ip - ip % size + size ≤ u32_mod
    aligned ip size nets whole pos h = grind arith

max_of :
    (k : ℕ)
    → 1 ≤ k
    → k ≤ 30
    → (host_max k ≡ 2 ^ (32 - k) - 1) × (3 ≤ host_max k) × (host_max k < 2 ^ 31)
max_of k lo hi =
    let least = two_pow_mono 2 (32 - k) (omega arith) in
    let most = two_pow_mono (32 - k) 31 (omega arith) in omega (arith, least, most)

count_first_two : (n : ℕ) → count_below (λ o. ltb o 2) (suc (suc n)) ≡ 2
unfolding count_below
count_first_two zero = refl
count_first_two (suc n) = ground (arith, count_first_two n)

reserve_low-some : (n : ℕ) → (ws : List ℕ) × (reserve_low (zero_words (suc n)) ≡ some ws)
reserve_low-some n = elim (Option-cases (reserve_low (zero_words (suc n)))) [
  | inl e ↦ absurd (reserve_low-ne-none n e)
  | inr (ws, e) ↦ (ws, e)
]

-- New on the text of an IPv4 network with a prefix of 1 to 30 bits gives a valid pool, in which
-- offsets 0 and 1 are assigned and no others.
pub new-IsValid :
    (t : Text) (n : Network)
    → parse_cidr t ≡ some n
    → 1 ≤ n.prefix_len
    → n.prefix_len ≤ 30
    → (p : Pool) × (new t ≡ ok p)
      × IsValid p
      × (p.count ≡ 2)
      × ((j : ℕ) → used p.bitset j ≡ ltb j 2)
unfolding new
new-IsValid t n e lo hi =
    let (ip, small, base, le) = parse_cidr_range t n e in
    let mx = max_of n.prefix_len lo hi in
    let (ws, fresh) = reserve_low-some (host_max n.prefix_len / 64) in
    let words : word_count (host_max n.prefix_len) ≡ suc (host_max n.prefix_len / 64) =
      omega arith in
    let mem = λ (j : ℕ). used-reserve_low (host_max n.prefix_len / 64) j fresh in
    (
      record {
        network = n;
        base_ip = n.address;
        max_host = host_max n.prefix_len;
        bitset = ws;
        count = 2;
        next = 2;
      },
      rw (e, new_from) (rw (words, new_from) (rw (fresh, new_from))),
      record {
        wide = omega arith;
        fits = omega (arith, last_address ip n.prefix_len small le);
        narrow = omega arith;
        covered = omega (
          arith,
          length-reserve_low _ fresh,
          length-replicate {A = ℕ} (suc (host_max n.prefix_len / 64)) 0,
        );
        counted =
            sym (count_first_two (host_max n.prefix_len - 1))
            ∙ sym (count_below-cong (used ws) (λ o. ltb o 2) _ (λ o _. mem o))
            ∙ ap (count_below (used ws)) {y = host_max n.prefix_len + 1} (omega arith);
        hint = omega arith;
        hint_zero = λ z. cc (mem 0);
        hint_one = λ z. cc (mem 1);
        inside = λ o h. ground (arith, mem o);
      },
      refl,
      mem,
    )
