-- ===== src/IpPool/Validity.antt =====
-- The well-formedness of the pool of internal/ippool/pool.go, and the state changes that keep it.
use midori_vpn_core.Prelude.{
  ℕ, suc, ◌+◌, ◌*◌, ◌^◌, ◌≤◌, ◌<◌, ◌≡◌, sym, ◌∙◌, true, false, length, List, ◌==◌, if◌then◌else◌,
  arith,
}
use midori_vpn_core.Prelude.Counting.{
  count_below, count_below-cong, updated, updated_lem, count_below-updated, count_below-le,
}
use midori_vpn_core.IpPool.{Pool, used, mark, unmark, take, occupy, give_back}
use midori_vpn_core.IpPool.Bitset.{used-mark, used-unmark, length-mark, length-unmark}

-- The network has a prefix of 1 to 30 bits; the words cover every offset and no offset above
-- maxHost is assigned; count is the number of assigned offsets; the hint lies in the network, and
-- at or below each of offsets 0 and 1 that is free.
pub record IsValid (p : Pool) : Type 0 where
  pub wide : 2 ≤ p.max_host
  pub fits : p.base_ip + p.max_host < 2 ^ 32
  pub narrow : p.max_host < 2 ^ 31
  pub covered : p.max_host < length p.bitset * 64
  pub counted : p.count ≡ count_below (used p.bitset) (p.max_host + 1)
  pub hint : p.next ≤ p.max_host
  pub hint_zero : used p.bitset 0 ≡ false → p.next ≡ 0
  pub hint_one : used p.bitset 1 ≡ false → p.next ≤ 1
  pub inside : (o : ℕ) → p.max_host < o → used p.bitset o ≡ false

module _ (ws : List ℕ) (o n : ℕ) (covered : o < length ws * 64) (low : o < n) where
  pub count-mark :
      used ws o ≡ false → count_below (used (mark ws o)) n ≡ suc (count_below (used ws) n)
  count-mark e = ground (
    arith,
    count_below-cong (used (mark ws o)) (updated (used ws) o true) n
        (λ i _. used-mark ws o i covered ∙ sym (updated_lem (used ws) o true i)),
    count_below-updated (used ws) o true n low,
  )

  pub count-unmark :
      used ws o ≡ true → suc (count_below (used (unmark ws o)) n) ≡ count_below (used ws) n
  count-unmark e = ground (
    arith,
    count_below-cong (used (unmark ws o)) (updated (used ws) o false) n
        (λ i _. used-unmark ws o i covered ∙ sym (updated_lem (used ws) o false i)),
    count_below-updated (used ws) o false n low,
  )

module _ (p : Pool) (v : IsValid p) where
  pub count-le : p.count ≤ p.max_host + 1
  count-le = omega (arith, v.counted, count_below-le (used p.bitset) (p.max_host + 1))

  module _ (o : ℕ) (low : o ≤ p.max_host) where
    bits : o < length p.bitset * 64
    bits = omega (arith, v.covered)

    pub used-take : (j : ℕ) → used (take p o).bitset j ≡ (if o == j then true else used p.bitset j)
    unfolding take
    used-take j = used-mark p.bitset o j bits

    pub used-occupy :
        (j : ℕ) → used (occupy p o).bitset j ≡ (if o == j then true else used p.bitset j)
    unfolding occupy
    used-occupy j = used-mark p.bitset o j bits

    pub used-give_back :
        (j : ℕ) → used (give_back p o).bitset j ≡ (if o == j then false else used p.bitset j)
    unfolding give_back
    used-give_back j = used-unmark p.bitset o j bits

    -- Reserve's change of state.
    pub occupy-IsValid : used p.bitset o ≡ false → IsValid (occupy p o)
    unfolding occupy
    occupy-IsValid e = record {
      wide = v.wide;
      fits = v.fits;
      narrow = v.narrow;
      covered = omega (arith, v.covered, length-mark p.bitset o);
      counted = omega (
        arith,
        v.counted,
        count-mark p.bitset o (p.max_host + 1) bits (omega arith) e,
        count_below-le (used (mark p.bitset o)) (p.max_host + 1),
        v.narrow,
      );
      hint = v.hint;
      hint_zero = λ z. v.hint_zero (ground (arith, used-mark p.bitset o 0 bits));
      hint_one = λ z. v.hint_one (ground (arith, used-mark p.bitset o 1 bits));
      inside = λ j h. ground (arith, used-mark p.bitset o j bits, v.inside j h);
    }

    -- Release's change of state.
    pub give_back-IsValid : used p.bitset o ≡ true → IsValid (give_back p o)
    unfolding give_back
    give_back-IsValid e = record {
      wide = v.wide;
      fits = v.fits;
      narrow = v.narrow;
      covered = omega (arith, v.covered, length-unmark p.bitset o);
      counted = omega (
        arith,
        v.counted,
        count-unmark p.bitset o (p.max_host + 1) bits (omega arith) e,
        count_below-le (used p.bitset) (p.max_host + 1),
        v.narrow,
      );
      hint = ground (arith, v.hint);
      hint_zero = λ z. ground (arith, used-unmark p.bitset o 0 bits, v.hint_zero);
      hint_one = λ z. ground (arith, used-unmark p.bitset o 1 bits, v.hint_one);
      inside = λ j h. ground (arith, used-unmark p.bitset o j bits, v.inside j h);
    }
