-- ===== src/Connections/Even.antt =====
-- The tables peers and vpn_servers agree: each count is that of the active peers and of the slots
-- that requests hold.
use midori_vpn_core.Prelude.{
  ℕ, suc, ◌+◌, ◌≡◌, refl, sym, true, false, List, ◌∷◌, none, some, ◌==◌, ◌⊎◌, inl, inr, arith,
}
use midori_vpn_core.Net.{Text}
use midori_vpn_core.Connections.{
  Peer, Server, find_peer, find_server, deactivate, without_peer, on_server, one_less, one_more,
  is_available,
}
use midori_vpn_core.Connections.Connect.Outcomes.{saved}
use midori_vpn_core.Connections.Counts.{
  IsKeyed, active_on, counted, active_on-deactivate, active_on-without_peer, IsKeyed-deactivate,
  IsKeyed-without_peer,
}
use midori_vpn_core.Connections.Slots.{
  AreKeyed, Counts, Counts-cong, Counts-one_less, Counts-one_more, Counts-saved, on_server-full,
  AreKeyed-on_server, one_more-id,
}

-- `held` is how many slots of each server requests hold.
pub record IsEven (held : ℕ → ℕ) (ps : List Peer) (ss : List Server) : Type 0 where
  pub peers_keyed : IsKeyed ps
  pub servers_keyed : AreKeyed ss
  pub counts : Counts (λ j. active_on j ps + held j) ss

-- The UPDATE that lowers a count keeps the key.
lowered-AreKeyed : (i : ℕ) (ss : List Server) → AreKeyed ss → AreKeyed (on_server i one_less ss)
lowered-AreKeyed i ss k = AreKeyed-on_server i one_less ss (λ s e. unfold one_less in refl) k

raised-AreKeyed : (i : ℕ) (ss : List Server) → AreKeyed ss → AreKeyed (on_server i one_more ss)
raised-AreKeyed i ss k = AreKeyed-on_server i one_more ss (λ s e. one_more-id s) k

module _ (held : ℕ → ℕ) where
  -- A table without one active peer goes with one slot less on its server.
  dropped-IsEven :
      (ps new : List Peer) (ss : List Server) (p : Peer)
      → p.is_active ≡ true
      → IsKeyed new
      → ((j : ℕ) → active_on j new + counted j p ≡ active_on j ps)
      → IsEven held ps ss
      → IsEven held new (on_server p.server_id one_less ss)
  dropped-IsEven ps new ss p active k fewer e = record {
    peers_keyed = k;
    servers_keyed = lowered-AreKeyed p.server_id ss e.servers_keyed;
    counts =
        Counts-one_less _ _ p.server_id ss (ground (arith, fewer p.server_id))
          (λ j d. ground (arith, fewer j)) e.counts;
  }

  pub deactivated-IsEven :
      (ps : List Peer) (ss : List Server) (p : Peer)
      → find_peer p.id ps ≡ some p
      → p.is_active ≡ true
      → IsEven held ps ss
      → IsEven held (deactivate p.id ps) (on_server p.server_id one_less ss)
  deactivated-IsEven ps ss p f active e =
      dropped-IsEven ps _ ss p active (IsKeyed-deactivate p.id ps e.peers_keyed)
        (λ j. active_on-deactivate j p.id ps p e.peers_keyed f) e

  pub deleted-IsEven :
      (ps : List Peer) (ss : List Server) (p : Peer)
      → find_peer p.id ps ≡ some p
      → p.is_active ≡ true
      → IsEven held ps ss
      → IsEven held (without_peer p.id ps) (on_server p.server_id one_less ss)
  deleted-IsEven ps ss p f active e =
      dropped-IsEven ps _ ss p active (IsKeyed-without_peer p.id ps e.peers_keyed)
        (λ j. active_on-without_peer j p.id ps p e.peers_keyed f) e

  -- Deleting the row of an inactive peer changes no count.
  pub inactive-IsEven :
      (ps : List Peer) (ss : List Server) (p : Peer)
      → find_peer p.id ps ≡ some p
      → p.is_active ≡ false
      → IsEven held ps ss
      → IsEven held (without_peer p.id ps) ss
  inactive-IsEven ps ss p f inactive e = record {
    peers_keyed = IsKeyed-without_peer p.id ps e.peers_keyed;
    servers_keyed = e.servers_keyed;
    counts =
        Counts-cong _ _ ss (λ j. ground (arith, active_on-without_peer j p.id ps p e.peers_keyed f))
          e.counts;
  }

-- A slot that is taken is held.
pub taken-IsEven :
    (held new : ℕ → ℕ) (ps : List Peer) (ss : List Server) (i : ℕ)
    → is_available (find_server i ss) ≡ true
    → new i ≡ suc (held i)
    → ((j : ℕ) → (j == i) ≡ false → new j ≡ held j)
    → IsEven held ps ss
    → IsEven new ps (on_server i one_more ss)
taken-IsEven held new ps ss i a one others e = record {
  peers_keyed = e.peers_keyed;
  servers_keyed = raised-AreKeyed i ss e.servers_keyed;
  counts =
      Counts-one_more _ _ i ss e.servers_keyed a (omega arith) (λ j d. omega (arith, others j d))
        e.counts;
}

pub full-IsEven :
    (held : ℕ → ℕ) (ps : List Peer) (ss : List Server) (i : ℕ)
    → is_available (find_server i ss) ≡ false
    → IsEven held ps ss
    → IsEven held ps (on_server i one_more ss)
full-IsEven held ps ss i a e = rw (on_server-full i ss e.servers_keyed a) e

-- A slot that was held is released.
pub released-IsEven :
    (held new : ℕ → ℕ) (ps : List Peer) (ss : List Server) (i : ℕ)
    → suc (new i) ≡ held i
    → ((j : ℕ) → (j == i) ≡ false → new j ≡ held j)
    → IsEven held ps ss
    → IsEven new ps (on_server i one_less ss)
released-IsEven held new ps ss i one others e = record {
  peers_keyed = e.peers_keyed;
  servers_keyed = lowered-AreKeyed i ss e.servers_keyed;
  counts = Counts-one_less _ _ i ss (omega arith) (λ j d. omega (arith, others j d)) e.counts;
}

-- A slot that was held is that of a new peer, and the row of the server may have been saved.
pub stored-IsEven :
    (held new : ℕ → ℕ) (p : Peer) (ps : List Peer) (s : Server) (ss ts : List Server)
    → find_peer p.id ps ≡ none
    → ((j : ℕ) → new j + counted j p ≡ held j)
    → (ts ≡ ss) ⊎ ((key : Text) × (ts ≡ saved s key ss))
    → IsEven held ps ss
    → IsEven new (p ∷ ps) ts
stored-IsEven held new p ps s ss ts unused moved same e = written same
  where
    keyed : IsKeyed (p ∷ ps)
    keyed = unfold IsKeyed in (unused, e.peers_keyed)

    counts : Counts (λ j. active_on j (p ∷ ps) + new j) ss
    counts = Counts-cong _ _ ss shifted e.counts
      where
        shifted : (j : ℕ) → active_on j (p ∷ ps) + new j ≡ active_on j ps + held j
        shifted j = unfold active_on in omega (arith, moved j)

    written : (ts ≡ ss) ⊎ ((key : Text) × (ts ≡ saved s key ss)) → IsEven new (p ∷ ps) ts
    written (inl q) =
        rw q (record { peers_keyed = keyed; servers_keyed = e.servers_keyed; counts = counts })
    written (inr (key, q)) = rw q (record {
      peers_keyed = keyed;
      servers_keyed = AreKeyed-on_server s.id _ ss (λ t d. sym d) e.servers_keyed;
      counts = Counts-saved _ s key ss counts;
    })
