-- ===== src/IpPool/Addresses.antt =====
-- The texts of internal/ippool/pool.go: offsetToIP, ipToOffset and stripMask.
use midori_vpn_core.Prelude.{ℕ, ◌+◌, ◌≤◌, ◌≡◌, ap, sym, ◌∙◌, arith, ◌++◌, ◌∷◌, Option, some}
use midori_vpn_core.Net.{Text, codes, slash, print_ip}
use midori_vpn_core.Net.RoundTrip.{
  parse_ip-print_ip, cut-print_ip_mask, cut-print_ip, print_ip-injective,
}
use midori_vpn_core.IpPool.{Pool, strip_mask, ip_to_offset}
use midori_vpn_core.IpPool.Validity.{IsValid}

pub strip_mask-print_ip_mask :
    (a : ℕ) (m : Text) → strip_mask (print_ip a ++ slash ∷ m) ≡ print_ip a
unfolding strip_mask
strip_mask-print_ip_mask a m = ap (λ (c : Text × Option Text). c.0) (cut-print_ip_mask a m)

pub strip_mask-print_ip : (a : ℕ) → strip_mask (print_ip a) ≡ print_ip a
unfolding strip_mask
strip_mask-print_ip a = ap (λ (c : Text × Option Text). c.0) (cut-print_ip a)

module _ (p : Pool) (v : IsValid p) where
  pub ip_to_offset-print_ip :
      (o : ℕ) → o ≤ p.max_host → ip_to_offset p (print_ip (p.base_ip + o)) ≡ some o
  unfolding ip_to_offset
  ip_to_offset-print_ip o h =
      ground (arith, parse_ip-print_ip (p.base_ip + o) (omega (arith, v.fits)), v.fits)

  -- Whatever text the caller gives, an offset that is found lies in the network.
  pub ip_to_offset-le : (t : Text) {o : ℕ} → ip_to_offset p t ≡ some o → o ≤ p.max_host
  unfolding ip_to_offset
  ip_to_offset-le t h = ground (arith, v.fits)

-- Two addresses of the pool with the same text are the same offset.
pub address-injective :
    (p : Pool) (o i : ℕ)
    → IsValid p
    → o ≤ p.max_host
    → i ≤ p.max_host
    → print_ip (p.base_ip + o) ++ codes "/32" ≡ print_ip (p.base_ip + i) ++ codes "/32"
    → o ≡ i
address-injective p o i v h k e =
    let same : print_ip (p.base_ip + o) ≡ print_ip (p.base_ip + i) =
      sym (strip_mask-print_ip_mask (p.base_ip + o) (codes "32"))
      ∙ ap strip_mask e
      ∙ strip_mask-print_ip_mask (p.base_ip + i) (codes "32") in
    omega (
      arith,
      print_ip-injective (p.base_ip + o) (p.base_ip + i) (omega (arith, v.fits))
          (omega (arith, v.fits)) same,
    )
