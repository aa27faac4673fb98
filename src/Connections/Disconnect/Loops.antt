-- ===== src/Connections/Disconnect/Loops.antt =====
-- AdminBanUser of internal/control/handler.go, which ends several connections, keeps the counts.
use midori_vpn_core.Prelude.{
  ℕ, ◌≡◌, refl, Bool, true, false, List, [], ◌∷◌, ◌++◌, Option, if◌then◌else◌,
}
use midori_vpn_core.Connections.{Peer, Database, list_by_user}
use midori_vpn_core.Connections.Meshing.{Settings}
use midori_vpn_core.Connections.Counts.{
  IsKeyed, AreFound, AreFound-rows, AreFound-deactivate, IsKeyed-rows,
}
use midori_vpn_core.Connections.Even.{IsEven}
use midori_vpn_core.Connections.Histories.{IsComplete}
use midori_vpn_core.Connections.Disconnect
use midori_vpn_core.Connections.Disconnect.{
  User, Executed, Change, remove_from_server, drop_peer, disconnect, admin_force_disconnect_peer,
  delete_connection, drop_active, admin_ban_user,
}
use midori_vpn_core.Connections.Disconnect.Cases.{ban-cases}
use midori_vpn_core.Connections.Disconnect.Evenness.{drop_peer-peers, drop_peer-IsEven}

-- The loops take the peers as they were listed. The rows of those that are left stay.
module _ (h : Settings) (q : ℕ → Executed) (complete : (j : ℕ) → IsComplete (q j))
    (held : ℕ → ℕ) where
  -- What the loops keep for the peers that are left.
  abbrev pub KeepsEven : List Peer → Change → Type 0
  KeepsEven qs c = AreFound c.db.peers qs × IsEven held c.db.peers c.db.servers

  drop_if_active-KeepsEven :
      (p : Peer) (ps : List Peer) (c : Change)
      → IsKeyed (p ∷ ps)
      → KeepsEven (p ∷ ps) c
      → KeepsEven ps (Disconnect.drop_if_active h (q p.id) p c)
  unfolding Disconnect.drop_if_active IsKeyed AreFound
  drop_if_active-KeepsEven p ps c k e = go p.is_active refl
    where
      go :
          (b : Bool)
          → p.is_active ≡ b
          → KeepsEven ps (
              if b
              then record {
                db = (drop_peer h (q p.id) p c.db).db;
                effects = c.effects ++ (drop_peer h (q p.id) p c.db).effects;
              }
              else c)
      go true a = (
        rw (drop_peer-peers h (q p.id) (complete p.id) held p c.db)
            (AreFound-deactivate p.id c.db.peers ps k.0 e.0.1),
        drop_peer-IsEven h (q p.id) (complete p.id) held p c.db e.0.0 a e.1,
      )
      go false a = (e.0.1, e.1)

  drop_active-IsEven :
      (qs : List Peer) (c : Change)
      → IsKeyed qs
      → KeepsEven qs c
      → IsEven held (drop_active h q qs c).db.peers (drop_active h q qs c).db.servers
  unfolding drop_active IsKeyed
  drop_active-IsEven [] c k e = e.1
  drop_active-IsEven (p ∷ ps) c k e =
      drop_active-IsEven ps (Disconnect.drop_if_active h (q p.id) p c) k.1
        (drop_if_active-KeepsEven p ps c k e)

  pub admin_ban_user-IsEven :
      (bans lists : Bool) (db : Database) (admin : ℕ) (i : Option ℕ) (has_body : Bool)
      → IsEven held db.peers db.servers
      → IsEven held
          (admin_ban_user h bans lists q db admin i has_body).db.peers
          (admin_ban_user h bans lists q db admin i has_body).db.servers
  admin_ban_user-IsEven bans lists db admin i has_body e =
      ban-cases (λ d. IsEven held d.peers d.servers) h bans lists q db admin i has_body e dropped
    where
      listed : ℕ → Bool → List Peer
      listed user b = if b then list_by_user user db.peers else []

      keyed : (user : ℕ) (b : Bool) → IsKeyed (listed user b)
      keyed user true = unfold list_by_user in IsKeyed-rows _ db.peers e.peers_keyed
      keyed user false = unfold IsKeyed in tt

      found : (user : ℕ) (b : Bool) → AreFound db.peers (listed user b)
      found user true = unfold list_by_user in AreFound-rows _ db.peers e.peers_keyed
      found user false = unfold AreFound in tt

      dropped :
          (user : ℕ)
          → IsEven held
              (drop_active h q (listed user lists) (record { db = db; effects = [] })).db.peers
              (drop_active h q (listed user lists) (record { db = db; effects = [] })).db.servers
      dropped user =
          drop_active-IsEven (listed user lists) (record { db = db; effects = [] })
            (keyed user lists) (found user lists, e)
