-- ===== src/Wg/Conf/RoundTrip.antt =====
-- restoreFromConfig of internal/wg/manager.go reads back what persistConfig wrote.
use midori_vpn_core.Prelude.{
  ℕ, ◌≡◌, refl, ap, sym, subst, ◌∙◌, false, List, [], ◌∷◌, ◌++◌, arith, none, some,
}
use midori_vpn_core.Prelude.Equality.{text_eq, text_beq}
use midori_vpn_core.Net.{Text, codes}
use midori_vpn_core.Net.Printable.{IsDotted}
use midori_vpn_core.Base64.{encode}
use midori_vpn_core.Base64.RoundTrip.{encode-IsSolid}
use midori_vpn_core.Strings.{is_empty, has_prefix, itoa}
use midori_vpn_core.Strings.Laws.{Chars, Chars-map, IsSolid}
use midori_vpn_core.Strings.Decimal.{itoa-IsSolid, itoa-nonempty}
use midori_vpn_core.Wg.Conf.{
  PeerConf, Reading, newline, entry, write_peers, render, flush, read_private, read_entry,
  read_line, fresh, parse,
}
use midori_vpn_core.Wg.Conf.Lines.{read_text, read_text-entry, IsName}
use midori_vpn_core.Wg.Conf.Validity.{IsKey, AllPeers}
use midori_vpn_core.Wg.Conf.Entries.{
  Finds, read_text-write_peers, decode_key, key-nonempty, read_section, blank_line,
}

-- Restoring the file that was saved gives back the server's key and all its peers, with their
-- keys, allowed networks and keep-alives, in order; for valid keys, networks without host bits,
-- keep-alives of whole seconds, and any address line of digits, dots and slashes.
pub parse-render :
    (private_key : List ℕ) (port : ℕ) (gateway : Text) (peers : List PeerConf)
    → IsKey private_key
    → Chars IsDotted gateway
    → is_empty gateway ≡ false
    → AllPeers peers
    → ((parse (render private_key port gateway peers)).priv_key ≡ some private_key)
      × ((parse (render private_key port gateway peers)).peers ≡ peers)
unfolding parse render
parse-render private_key port gateway peers hk hg hn hp =
    subst (λ q. Finds q (some private_key) peers) (sym header)
      (read_text-write_peers keyed peers hp)
  where
    keyed : Reading
    keyed = record { priv_key = some private_key; peers = []; cur = none }

    after_key : Text
    after_key =
        entry (codes "ListenPort") (itoa port)
        ++ (entry (codes "Address") gateway ++ newline ∷ write_peers peers)

    private_name : IsName b'P' (codes "rivateKey")
    private_name = record {
      solid = omega arith;
      no_eq = omega arith;
      no_hash = omega arith;
      no_bracket = omega arith;
    }

    port_name : IsName b'L' (codes "istenPort")
    port_name = record {
      solid = omega arith;
      no_eq = omega arith;
      no_hash = omega arith;
      no_bracket = omega arith;
    }

    address_name : IsName b'A' (codes "ddress")
    address_name = record {
      solid = omega arith;
      no_eq = omega arith;
      no_hash = omega arith;
      no_bracket = omega arith;
    }

    gateway_solid : Chars IsSolid gateway
    gateway_solid = Chars-map IsDotted IsSolid gateway (λ c h. omega arith) hg

    read_key : read_entry fresh none (codes "PrivateKey") (encode private_key) ≡ keyed
    read_key =
        unfold read_entry read_private text_beq fresh in
        ap (read_private fresh) (decode_key private_key hk)

    skip_port : (v : Text) → read_entry keyed none (codes "ListenPort") v ≡ keyed
    skip_port v = unfold read_entry text_beq in refl

    skip_address : (v : Text) → read_entry keyed none (codes "Address") v ≡ keyed
    skip_address v = unfold read_entry text_beq in refl

    opened : read_line fresh (codes "[Interface]") ≡ fresh
    opened = unfold read_line is_empty text_beq has_prefix flush fresh in refl

    header :
        read_text fresh (render private_key port gateway peers)
        ≡ read_text keyed (write_peers peers)
    header =
        read_section fresh (codes "[Interface]") _ (omega arith)
        ∙ ap (λ q. read_text q (entry (codes "PrivateKey") (encode private_key) ++ after_key))
            opened
        ∙ read_text-entry fresh b'P' (codes "rivateKey") (encode private_key) private_name
            (encode-IsSolid private_key hk.bytes) (key-nonempty private_key hk) after_key
        ∙ ap (λ q. read_text q after_key) read_key
        ∙ read_text-entry keyed b'L' (codes "istenPort") (itoa port) port_name (itoa-IsSolid port)
            (itoa-nonempty port) _
        ∙ ap (λ q. read_text q (entry (codes "Address") gateway ++ newline ∷ write_peers peers))
            (skip_port (itoa port))
        ∙ read_text-entry keyed b'A' (codes "ddress") gateway address_name gateway_solid hn
            (newline ∷ write_peers peers)
        ∙ ap (λ q. read_text q (newline ∷ write_peers peers)) (skip_address gateway)
        ∙ blank_line keyed (write_peers peers)
