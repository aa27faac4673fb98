-- ===== src/Connections/Refunds.antt =====
-- A Connect of internal/control/handler.go that fails.
use midori_vpn_core.Prelude.{
  ℕ, ◌≡◌, refl, ap, Bool, true, List, [], ◌∷◌, Option, none, some, err, ok_not_err, ◌⊎◌, inl, inr,
}
use midori_vpn_core.Prelude.Int.{ℤ}
use midori_vpn_core.Net.{Text}
use midori_vpn_core.Connections.{
  Server, Database, Effect, core_add, core_remove, ConnectError, Reply, find_server, release_slot,
  is_available,
}
use midori_vpn_core.Connections.Meshing.{Settings}
use midori_vpn_core.Connections.Connect.{
  ConnectRequest, Config, Looked, Answers, Begun, connect, continued,
}
use midori_vpn_core.Connections.Connect.Outcomes
use midori_vpn_core.Connections.Connect.Outcomes.{
  Begins, begin-Begins, Finishes, complete-Finishes, with_slot,
}
use midori_vpn_core.Connections.Slots.{AreKeyed, on_server-full, one_less-one_more}

-- No core was called, or the call to add the peer has failed, or it was answered and the core was
-- then told to remove the peer.
abbrev pub IsUndone : Option Text → List Effect → Type 0
IsUndone o fx =
    (fx ≡ [])
    ⊎ ((s : ℕ) × (k : Text) × (o ≡ none) × (fx ≡ core_add s k ∷ []))
    ⊎ ((s : ℕ) × (k : Text) × (ip : Text) × (o ≡ some ip)
        × (fx ≡ core_add s k ∷ core_remove s k ∷ []))

-- The tables are as they were, and the calls are those of IsUndone, with what the core answered to
-- the first.
abbrev pub IsRefunded : Database → Option Text → Reply Config → Type 0
IsRefunded db o r = (r.db ≡ db) × IsUndone o r.effects

module _ (db : Database) (keyed : AreKeyed db.servers) where
  released :
      (b : Bool) (s : Server)
      → b ≡ true
      → is_available (find_server s.id db.servers) ≡ true
      → release_slot b s.id (with_slot s db) ≡ db
  unfolding release_slot
  released b s e a =
      rw e (ap (λ ss. record db { servers = ss }) (one_less-one_more s.id db.servers keyed a))

  module _ (endpoint : Text → ℤ → Text) (h : Settings) (q : Looked) (w : Answers)
      (releases : w.releases ≡ true) where
    held-IsRefunded :
        (user : ℕ) (s : Server) (req : ConnectRequest) (r : Reply Config) (e : ConnectError)
        → is_available (find_server s.id db.servers) ≡ true
        → Finishes w user s req (with_slot s db) r
        → r.result ≡ err e
        → IsRefunded db w.core_address r
    held-IsRefunded user s req _ e a (Outcomes.unreached n) f =
        (released w.releases s releases a, inr (inl (s.id, req.public_key, n, refl)))
    held-IsRefunded user s req _ e a (Outcomes.undone ip n) f =
        (released w.releases s releases a, inr (inr (s.id, req.public_key, ip, n, refl)))
    held-IsRefunded user s req _ e a
          (Outcomes.stored ip new fx c unused free served p t named fresh same_ip) f =
        absurd (ok_not_err c e f)

    continued-IsRefunded :
        (user : ℕ) (body : Option ConnectRequest) (b : Database × Begun) (e : ConnectError)
        → Begins h user db body b
        → (continued endpoint h w user b).result ≡ err e
        → IsRefunded db w.core_address (continued endpoint h w user b)
    unfolding continued
    continued-IsRefunded user body _ e (Outcomes.refused r) f = (refl, inl refl)
    continued-IsRefunded user body _ e (Outcomes.existed j c n) f = absurd (ok_not_err c e f)
    continued-IsRefunded user body _ e (Outcomes.took s req g n a d) f =
        held-IsRefunded user s req _ e a
          (complete-Finishes endpoint h w user s req (with_slot s db)) f
    continued-IsRefunded user body _ e (Outcomes.full s a) f =
        (ap (λ ss. record db { servers = ss }) (on_server-full s.id db.servers keyed a), inl refl)

    -- Where the ids of servers are unique and the release of the slot is executed, a Connect that
    -- answers with an error, at whatever point, leaves every table as it was. It has called no core,
    -- or its one call, to add the peer, was not answered with an address, or the core has answered
    -- that call and was then told to remove the same peer. Whether the core had added the peer in
    -- the second case, and whether the removal is executed in the third, is not stated.
    pub connect-IsRefunded :
        (admits : Bool) (user : ℕ) (body : Option ConnectRequest) (e : ConnectError)
        → (connect endpoint h q w admits db user body).result ≡ err e
        → IsRefunded db w.core_address (connect endpoint h q w admits db user body)
    unfolding connect
    connect-IsRefunded admits user body e f =
        continued-IsRefunded user body _ e
          (begin-Begins h user db body endpoint q w.core_key admits) f
