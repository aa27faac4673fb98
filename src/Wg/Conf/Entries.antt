-- ===== src/Wg/Conf/Entries.antt =====
-- How restoreFromConfig of internal/wg/manager.go reads back each part that persistConfig wrote.
use mathlib.Core.List.{append_assoc, append-nil}
use midori_vpn_core.Prelude.{
  ℕ, ◌/◌, ◌%◌, ◌^◌, ◌<◌, ◌≡◌, ◌≢◌, refl, ap, sym, subst, ◌∙◌, false, List, [], ◌∷◌, ◌++◌, ltb,
  arith, Option, some, Bool-cases, inl, inr,
}
use midori_vpn_core.Prelude.Int.{pos}
use midori_vpn_core.Prelude.Equality.{text_eq, text_beq}
use midori_vpn_core.Net.{Text, codes, slash, Network, print_ip, parse_cidr}
use midori_vpn_core.Net.RoundTrip.{cut-print_ip_mask, parse_ip-print_ip}
use midori_vpn_core.Net.Printable.{IsDotted, print_ip-IsDotted, print_ip-nonempty}
use midori_vpn_core.Base64.{encode, decode}
use midori_vpn_core.Base64.RoundTrip.{decode-encode, encode-IsSolid, encode-nonempty}
use midori_vpn_core.Strings.{trim_space, split, is_empty, has_prefix, itoa}
use midori_vpn_core.Strings.Laws.{
  Chars, Chars-append, Chars-map, IsSolid, trim_space-solid, split-one,
}
use midori_vpn_core.Strings.Decimal.{
  IsDigit, itoa-IsDigit, itoa-IsSolid, itoa-nonempty, atoi-itoa, decimal-itoa,
}
use midori_vpn_core.Wg.Conf.{
  PeerConf, Reading, second, newline, print_cidr, entry, write_allowed, write_keepalive, write_peer,
  write_peers, blank_peer, flush, key_bytes, read_networks, read_keepalive, read_pubkey, read_entry,
  read_line, read_lines,
}
use midori_vpn_core.Wg.Conf.Lines.{read_text, read_text-line, read_text-entry, IsName}
use midori_vpn_core.Wg.Conf.Validity.{IsKey, IsNetwork, AllNetworks, IsPeer, AllPeers}

parse_cidr-print_cidr : (n : Network) → IsNetwork n → parse_cidr (print_cidr n) ≡ some n
unfolding parse_cidr print_cidr
parse_cidr-print_cidr n h =
    rw (cut-print_ip_mask n.address (itoa n.prefix_len), parse_ip-print_ip n.address h.small)
      (rw (decimal-itoa n.prefix_len (omega (arith, h.bits))) (ground (arith, h.aligned, h.bits)))

print_cidr-dotted : (n : Network) → Chars IsDotted (print_cidr n)
unfolding print_cidr
print_cidr-dotted n = Chars-append IsDotted (print_ip n.address) _ (print_ip-IsDotted n.address) (
  omega arith,
  Chars-map IsDigit IsDotted (itoa n.prefix_len) (λ c h. omega arith) (itoa-IsDigit n.prefix_len),
)

pub decode_key : (s : List ℕ) → IsKey s → key_bytes (decode (encode s)) ≡ some s
unfolding key_bytes
decode_key s k = rw (decode-encode s k.bytes) (ground (arith, k.size))

pub key-nonempty : (s : List ℕ) → IsKey s → is_empty (encode s) ≡ false
key-nonempty [] k = absurd (omega (arith, k.size))
key-nonempty (a ∷ s) k = encode-nonempty a s

-- The state while a peer is being read.
abbrev within : Option (List ℕ) → List PeerConf → PeerConf → Reading
within k ps p = record { priv_key = k; peers = ps; cur = some p }

pub blank_line : (r : Reading) (t : Text) → read_text r (newline ∷ t) ≡ read_text r t
blank_line r t = read_text-line r [] t tt ∙ ap (λ q. read_text q t) (skip r)
  where
    skip : (r : Reading) → read_line r (trim_space []) ≡ r
    skip r = unfold read_line trim_space is_empty in refl

one_network : (n : Network) → IsNetwork n → read_networks (print_cidr n ∷ []) ≡ n ∷ []
unfolding read_networks
one_network n h =
    let trimmed : parse_cidr (trim_space (print_cidr n)) ≡ some n =
      ap parse_cidr (
        trim_space-solid (print_cidr n)
          (Chars-map IsDotted IsSolid (print_cidr n) (λ c g. omega arith) (print_cidr-dotted n)))
      ∙ parse_cidr-print_cidr n h in
    ground (arith, trimmed)

print_cidr-nonempty : (n : Network) → is_empty (print_cidr n) ≡ false
unfolding print_cidr
print_cidr-nonempty n = print_ip-nonempty n.address (slash ∷ itoa n.prefix_len)

print_cidr-IsSolid : (n : Network) → Chars IsSolid (print_cidr n)
print_cidr-IsSolid n =
    Chars-map IsDotted IsSolid (print_cidr n) (λ c g. omega arith) (print_cidr-dotted n)

keepalive_value :
    (ka : ℕ) → ka % second ≡ 0 → ka < 2 ^ 63 → read_keepalive 0 (some (pos (ka / second))) ≡ ka
unfolding read_keepalive
keepalive_value ka h f = ground arith

module _ (k : Option (List ℕ)) (ps : List PeerConf) where
  read_allowed_one :
      (p : PeerConf) (n : Network)
      → IsNetwork n
      → read_entry (within k ps p) (some p) (codes "AllowedIPs") (print_cidr n)
        ≡ within k ps (record p { allowed_ips = p.allowed_ips ++ n ∷ [] })
  unfolding read_entry text_beq
  read_allowed_one p n h =
      ap
        (λ (ts : List Text).
          within k ps (record p { allowed_ips = p.allowed_ips ++ read_networks ts }))
        (split-one b',' (print_cidr n) (
          Chars-map IsDotted (λ c. c ≢ b',') (print_cidr n) (λ c g. omega arith)
            (print_cidr-dotted n)))
      ∙ ap (λ (ns : List Network). within k ps (record p { allowed_ips = p.allowed_ips ++ ns }))
          (one_network n h)

  read_text-write_allowed :
      (p : PeerConf) (ns : List Network) (t : Text)
      → AllNetworks ns
      → read_text (within k ps p) (write_allowed ns ++ t)
        ≡ read_text (within k ps (record p { allowed_ips = p.allowed_ips ++ ns })) t
  unfolding write_allowed
  read_text-write_allowed p [] t h =
      ap (λ (ns : List Network). read_text (within k ps (record p { allowed_ips = ns })) t)
        (sym (append-nil p.allowed_ips))
  read_text-write_allowed p (n ∷ ns) t h =
      ap (read_text (within k ps p)) (append_assoc _ (write_allowed ns) t)
      ∙ read_text-entry (within k ps p) b'A' (codes "llowedIPs") (print_cidr n) allowed_name
          (print_cidr-IsSolid n) (print_cidr-nonempty n) (write_allowed ns ++ t)
      ∙ ap (λ q. read_text q (write_allowed ns ++ t)) (read_allowed_one p n h.0)
      ∙ read_text-write_allowed (record p { allowed_ips = p.allowed_ips ++ n ∷ [] }) ns t h.1
      ∙ ap (λ (l : List Network). read_text (within k ps (record p { allowed_ips = l })) t)
          (append_assoc p.allowed_ips (n ∷ []) ns)
    where
      allowed_name : IsName b'A' (codes "llowedIPs")
      allowed_name = record {
        solid = omega arith;
        no_eq = omega arith;
        no_hash = omega arith;
        no_bracket = omega arith;
      }

  read_text-write_keepalive :
      (p : PeerConf) (ka : ℕ) (t : Text)
      → p.keepalive ≡ 0
      → ka % second ≡ 0
      → ka < 2 ^ 63
      → read_text (within k ps p) (write_keepalive ka ++ t)
        ≡ read_text (within k ps (record p { keepalive = ka })) t
  unfolding write_keepalive
  read_text-write_keepalive p ka t z w f = elim (Bool-cases (ltb 0 ka)) [
    | inl e ↦ rw e (
        read_text-entry (within k ps p) b'P' (codes "ersistentKeepalive") (itoa (ka / second))
          keepalive_name (itoa-IsSolid _) (itoa-nonempty _) t
        ∙ ap (λ q. read_text q t) read_value)
    | inr e ↦ rw e (
        ap (λ (o : ℕ). read_text (within k ps (record p { keepalive = o })) t) {x = p.keepalive}
          {y = ka} (ground arith))
  ]
    where
      keepalive_name : IsName b'P' (codes "ersistentKeepalive")
      keepalive_name = record {
        solid = omega arith;
        no_eq = omega arith;
        no_hash = omega arith;
        no_bracket = omega arith;
      }

      read_value :
          read_entry (within k ps p) (some p) (codes "PersistentKeepalive") (itoa (ka / second))
          ≡ within k ps (record p { keepalive = ka })
      read_value =
          unfold read_entry text_beq in
          ap (λ o. within k ps (record p { keepalive = read_keepalive p.keepalive o }))
            (atoi-itoa (ka / second) (omega arith))
          ∙ ap
              (λ (o : ℕ).
                within k ps (record p { keepalive = read_keepalive o (some (pos (ka / second))) }))
              z
          ∙ ap (λ (o : ℕ). within k ps (record p { keepalive = o })) (keepalive_value ka w f)

-- A section header.
pub read_section :
    (r : Reading) (s t : Text)
    → Chars IsSolid s
    → read_text r (s ++ newline ∷ t) ≡ read_text (read_line r s) t
read_section r s t h =
    read_text-line r s t (Chars-map IsSolid (λ c. c ≢ newline) s (λ c g. omega arith) h)
    ∙ ap (λ l. read_text (read_line r l) t) (trim_space-solid s h)

read_text-write_peer :
    (r : Reading) (p : PeerConf) (t : Text)
    → IsPeer p
    → read_text r (write_peer p ++ t) ≡ read_text (within r.priv_key (flush r.peers r.cur) p) t
unfolding write_peer
read_text-write_peer r p t h =
    ap (read_text r) regroup
    ∙ read_section r (codes "[Peer]") _ (omega arith)
    ∙ opened
    ∙ read_text-entry (within k ps blank_peer) b'P' (codes "ublicKey") (encode p.pubkey) pubkey_name
        (encode-IsSolid p.pubkey h.key.bytes) (key-nonempty p.pubkey h.key) _
    ∙ ap (λ q. read_text q (allowed ++ (keep ++ newline ∷ t))) read_key
    ∙ read_text-write_allowed k ps keyed p.allowed_ips _ h.networks
    ∙ read_text-write_keepalive k ps _ p.keepalive (newline ∷ t) blank_keepalive h.whole h.fits
    ∙ blank_line (within k ps p) t
  where
    k : Option (List ℕ)
    k = r.priv_key

    ps : List PeerConf
    ps = flush r.peers r.cur

    keyed : PeerConf
    keyed = record { pubkey = p.pubkey; allowed_ips = []; keepalive = 0 }

    allowed : Text
    allowed = write_allowed p.allowed_ips

    keep : Text
    keep = write_keepalive p.keepalive

    blank_keepalive : 0 ≡ keyed.keepalive
    blank_keepalive = refl

    regroup :
        write_peer p ++ t
        ≡ codes "[Peer]"
          ++ newline
            ∷ (entry (codes "PublicKey") (encode p.pubkey) ++ (allowed ++ (keep ++ newline ∷ t)))
    regroup = simp append_assoc

    opened :
        read_text
          (read_line r (codes "[Peer]"))
          (entry (codes "PublicKey") (encode p.pubkey) ++ (allowed ++ (keep ++ newline ∷ t)))
        ≡ read_text
            (within k ps blank_peer)
            (entry (codes "PublicKey") (encode p.pubkey) ++ (allowed ++ (keep ++ newline ∷ t)))
    opened = unfold read_line is_empty text_beq has_prefix in refl

    pubkey_name : IsName b'P' (codes "ublicKey")
    pubkey_name = record {
      solid = omega arith;
      no_eq = omega arith;
      no_hash = omega arith;
      no_bracket = omega arith;
    }

    read_key :
        read_entry (within k ps blank_peer) (some blank_peer) (codes "PublicKey") (encode p.pubkey)
        ≡ within k ps keyed
    read_key =
        unfold read_entry read_pubkey text_beq blank_peer in
        ap (read_pubkey (within k ps blank_peer) blank_peer) (decode_key p.pubkey h.key)

read_text-nil : (r : Reading) → read_text r [] ≡ r
unfolding read_lines split read_line is_empty trim_space
read_text-nil r = refl

-- What restoreFromConfig has found at the end of the text.
abbrev pub Finds : Reading → Option (List ℕ) → List PeerConf → Type 0
Finds r k ps = (r.priv_key ≡ k) × (flush r.peers r.cur ≡ ps)

pub read_text-write_peers :
    (r : Reading) (ps : List PeerConf)
    → AllPeers ps
    → Finds (read_text r (write_peers ps)) r.priv_key (flush r.peers r.cur ++ ps)
unfolding write_peers flush
read_text-write_peers r [] h =
    subst (λ q. Finds q r.priv_key (flush r.peers r.cur ++ [])) (sym (read_text-nil r))
      (refl, sym (append-nil (flush r.peers r.cur)))
read_text-write_peers r (p ∷ ps) h =
    let before = flush r.peers r.cur in
    subst (λ q. Finds q r.priv_key (before ++ p ∷ ps))
      (sym (read_text-write_peer r p (write_peers ps) h.0))
      (subst (λ l. Finds (read_text (within r.priv_key before p) (write_peers ps)) r.priv_key l)
        (append_assoc before (p ∷ []) ps)
        (read_text-write_peers (within r.priv_key before p) ps h.1))
