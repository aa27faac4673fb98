-- ===== src/Connections/Devices.antt =====
-- The limit of devices in Connect of internal/control/handler.go, which counts the peers of the user
-- and inserts the new one in separate statements.
use midori_vpn_core.Prelude.{
  ℕ, suc, ◌≤◌, ◌<◌, ◌≡◌, refl, sym, ap, ◌∙◌, Bool, true, false, List, [], ◌∷◌, Option, ok,
  ok_not_err, ◌==◌, if◌then◌else◌, inl, inr, arith,
}
use midori_vpn_core.Prelude.Int.{ℤ}
use midori_vpn_core.Net.{Text}
use midori_vpn_core.Connections.{Peer, Server, Database, Reply, count_by_user, release_slot}
use midori_vpn_core.Connections.Meshing.{Settings}
use midori_vpn_core.Connections.Connect.{
  ConnectRequest, Config, Looked, Answers, Begun, held, begin, complete, connect, continued,
  new_peer, device_count_ok,
}
use midori_vpn_core.Connections.Connect.Outcomes
use midori_vpn_core.Connections.Connect.Outcomes.{
  Begins, begin-Begins, Finishes, complete-Finishes, with_slot, HasDevice,
}

release_slot-peers : (b : Bool) (i : ℕ) (db : Database) → (release_slot b i db).peers ≡ db.peers
unfolding release_slot
release_slot-peers true i db = refl
release_slot-peers false i db = refl

new_peer-count :
    (w : Answers) (user : ℕ) (s : Server) (req : ConnectRequest) (ip : Text) (ps : List Peer)
    (u : ℕ)
    → count_by_user u (new_peer w user s req ip ∷ ps)
      ≡ (if user == u then suc (count_by_user u ps) else count_by_user u ps)
unfolding new_peer count_by_user
new_peer-count w user s req ip ps u = ground arith

-- The second half adds one device of the user, or none.
module _ (w : Answers) (user : ℕ) (s : Server) (req : ConnectRequest) (db : Database) where
  finished-most :
      (u : ℕ) (r : Reply Config)
      → Finishes w user s req db r
      → count_by_user u r.db.peers
        ≤ (if user == u then suc (count_by_user u db.peers) else count_by_user u db.peers)
  finished-most u _ (Outcomes.unreached e) =
      rw (release_slot-peers w.releases s.id db) (ground arith)
  finished-most u _ (Outcomes.undone ip n) =
      rw (release_slot-peers w.releases s.id db) (ground arith)
  finished-most u _ (Outcomes.stored ip new fx c unused free served p t named fresh same_ip) =
      rw (p, new_peer-count w user s req ip db.peers u) (ground arith)

  finished-one :
      (r : Reply Config) (c : Config)
      → Finishes w user s req db r
      → r.result ≡ ok c
      → count_by_user user r.db.peers ≡ suc (count_by_user user db.peers)
  finished-one _ c (Outcomes.unreached e) f = absurd (ok_not_err c _ (sym f))
  finished-one _ c (Outcomes.undone ip n) f = absurd (ok_not_err c _ (sym f))
  finished-one _ c (Outcomes.stored ip new fx d unused free served p t named fresh same_ip) f =
      rw (p, new_peer-count w user s req ip db.peers user) (ground arith)

-- A Connect, with what is executed and what it is given.
pub record Call : Type 0 where
  pub looked : Looked
  pub answers : Answers
  pub admits : Bool
  pub user : ℕ
  pub body : Option ConnectRequest

module _ (endpoint : Text → ℤ → Text) (h : Settings) where
  continued-count :
      (w : Answers) (user u : ℕ) (db : Database) (body : Option ConnectRequest)
      (b : Database × Begun)
      → 0 < h.max_devices
      → Begins h user db body b
      → count_by_user u db.peers ≤ h.max_devices
      → count_by_user u (continued endpoint h w user b).db.peers ≤ h.max_devices
  unfolding continued
  continued-count w user u db body _ positive (Outcomes.refused e) m = m
  continued-count w user u db body _ positive (Outcomes.existed j c n) m = m
  continued-count w user u db body _ positive (Outcomes.full s a) m = m
  continued-count w user u db body _ positive (Outcomes.took s req g n a d) m = below _ d (
      finished-most w user s req (with_slot s db) u _
        (complete-Finishes endpoint h w user s req (with_slot s db)))
    where
      below :
          (k : ℕ)
          → HasDevice h user db
          → k ≤ (if user == u then suc (count_by_user u db.peers) else count_by_user u db.peers)
          → k ≤ h.max_devices
      below k (inl z) l = omega arith
      below k (inr c) l = unfold device_count_ok in ground arith

  connect-count :
      (db : Database) (c : Call) (u : ℕ)
      → 0 < h.max_devices
      → count_by_user u db.peers ≤ h.max_devices
      → count_by_user u (connect endpoint h c.looked c.answers c.admits db c.user c.body).db.peers
        ≤ h.max_devices
  unfolding connect
  connect-count db c u positive m =
      continued-count c.answers c.user u db c.body _ positive
        (begin-Begins h c.user db c.body endpoint c.looked c.answers.core_key c.admits) m

  unfoldable pub connect_all : Database → List Call → Database
  connect_all db [] = db
  connect_all db (c ∷ cs) =
      connect_all (connect endpoint h c.looked c.answers c.admits db c.user c.body).db cs

  -- Where there is a limit on devices (0 is none) and a user starts within it, any connects of any
  -- users that follow one another leave the user with no more active devices than the limit, whatever
  -- the database and the core answer.
  pub connect_all-count :
      (db : Database) (cs : List Call) (u : ℕ)
      → 0 < h.max_devices
      → count_by_user u db.peers ≤ h.max_devices
      → count_by_user u (connect_all db cs).peers ≤ h.max_devices
  unfolding connect_all
  connect_all-count db [] u positive m = m
  connect_all-count db (c ∷ cs) u positive m =
      connect_all-count (connect endpoint h c.looked c.answers c.admits db c.user c.body).db cs u
        positive (connect-count db c u positive m)

  held-peers :
      (q : Looked) (key : Option Text) (admits : Bool) (db new : Database) (user : ℕ)
      (body : Option ConnectRequest) (s : Server) (req : ConnectRequest)
      → begin endpoint h q key admits db user body ≡ (new, held s req)
      → new.peers ≡ db.peers
  held-peers q key admits db new user body s req e =
      ap (λ (b : Database × Begun). b.0.peers) (sym e)
      ∙ kept _ (begin-Begins h user db body endpoint q key admits)
    where
      kept : (b : Database × Begun) → Begins h user db body b → b.0.peers ≡ db.peers
      kept _ (Outcomes.refused e) = refl
      kept _ (Outcomes.existed j c n) = refl
      kept _ (Outcomes.took t rq g n a d) = refl
      kept _ (Outcomes.full t a) = refl

  -- Two connects of a user who is one device below the limit, that both pass the check before either
  -- stores its peer, and both succeed, leave the user with one device more than the limit.
  pub connect_both-exceeds :
      (q p : Looked) (v w : Answers) (admits : Bool) (db first second : Database) (user : ℕ)
      (body other : Option ConnectRequest) (s t : Server) (req_s req_t : ConnectRequest)
      (c d : Config)
      → suc (count_by_user user db.peers) ≡ h.max_devices
      → begin endpoint h q v.core_key admits db user body ≡ (first, held s req_s)
      → begin endpoint h p w.core_key admits first user other ≡ (second, held t req_t)
      → let one = complete endpoint h v user s req_s second in
        let two = complete endpoint h w user t req_t one.db in
        one.result ≡ ok c → two.result ≡ ok d → count_by_user user two.db.peers ≡ suc h.max_devices
  connect_both-exceeds q p v w admits db first second user body other s t req_s req_t c d m e f g
        k =
      let one = complete endpoint h v user s req_s second in
      finished-one w user t req_t one.db _ d (complete-Finishes endpoint h w user t req_t one.db) k
      ∙ ap suc (
          finished-one v user s req_s second _ c
            (complete-Finishes endpoint h v user s req_s second) g)
      ∙ ap (λ ps. suc (suc (count_by_user user ps)))
          (held-peers p w.core_key admits first second user other t req_t f
            ∙ held-peers q v.core_key admits db first user body s req_s e)
      ∙ ap suc m
