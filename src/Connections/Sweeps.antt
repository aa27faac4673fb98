-- ===== src/Connections/Sweeps.antt =====
-- The loops of internal/control/handler.go and internal/control/jobs.go that end many connections,
-- against one pass over the table.
use midori_vpn_core.Prelude.{
  ℕ, ◌≡◌, refl, ap, ◌∙◌, Bool, true, false, List, [], ◌∷◌, none, ◌==◌, if◌then◌else◌, arith,
  Bool-cases, inl, inr,
}
use midori_vpn_core.Connections.{Peer, Database, find_peer, rows, deactivate}
use midori_vpn_core.Connections.Meshing.{Settings}
use midori_vpn_core.Connections.Counts.{IsKeyed, find_peer-rows, deactivate-absent}
use midori_vpn_core.Connections.Histories.{IsComplete}
use midori_vpn_core.Connections.Disconnect.{Executed, Change, drop_if_active, drop_active}
use midori_vpn_core.Connections.Disconnect.Evenness.{drop_if_active-peers}
use midori_vpn_core.Connections.Jobs.{is_stale, list_stale, retire_all, peer_cleanup}
use midori_vpn_core.Connections.Jobs.Evenness.{retire-peers}

-- The table with the rows that satisfy a condition made inactive, and the others as they are.
unfoldable pub swept : (Peer → Bool) → List Peer → List Peer
swept f [] = []
swept f (p ∷ ps) = (if f p then record p { is_active = false } else p) ∷ swept f ps

-- One UPDATE for each peer of a list.
unfoldable pub deactivate_all : List Peer → List Peer → List Peer
deactivate_all [] ps = ps
deactivate_all (q ∷ qs) ps = deactivate_all qs (deactivate q.id ps)

deactivate_all-cons :
    (qs : List Peer) (p : Peer) (ps : List Peer)
    → find_peer p.id qs ≡ none
    → deactivate_all qs (p ∷ ps) ≡ p ∷ deactivate_all qs ps
unfolding deactivate_all find_peer deactivate
deactivate_all-cons [] p ps n = refl
deactivate_all-cons (q ∷ qs) p ps n =
    let other : (p.id == q.id) ≡ false = ground arith in
    rw other (deactivate_all-cons qs p (deactivate q.id ps) (ground arith))

deactivate-head :
    (p : Peer) (ps : List Peer)
    → find_peer p.id ps ≡ none
    → deactivate p.id (p ∷ ps) ≡ record p { is_active = false } ∷ ps
unfolding deactivate
deactivate-head p ps n =
    let self : (p.id == p.id) ≡ true = ground arith in
    rw self (ap (λ ts. record p { is_active = false } ∷ ts) (deactivate-absent p.id ps n))

deactivate_all-rows :
    (f : Peer → Bool) (ps : List Peer) → IsKeyed ps → deactivate_all (rows f ps) ps ≡ swept f ps
unfolding rows swept IsKeyed deactivate_all
deactivate_all-rows f [] k = refl
deactivate_all-rows f (p ∷ ps) k = elim (Bool-cases (f p)) [
  | inl e ↦ rw e (
      ap (deactivate_all (rows f ps)) (deactivate-head p ps k.0)
      ∙ deactivate_all-cons (rows f ps) (record p { is_active = false }) ps
          (find_peer-rows f p.id ps k.0)
      ∙ ap (λ ts. record p { is_active = false } ∷ ts) (deactivate_all-rows f ps k.1))
  | inr e ↦ rw e (
      deactivate_all-cons (rows f ps) p ps (find_peer-rows f p.id ps k.0)
      ∙ ap (λ ts. p ∷ ts) (deactivate_all-rows f ps k.1))
]

is_active_peer : Peer → Bool
is_active_peer p = p.is_active

list_stale-swept : (now : ℕ) (ps : List Peer) → list_stale now (swept (is_stale now) ps) ≡ []
unfolding list_stale rows swept
list_stale-swept now [] = refl
list_stale-swept now (p ∷ ps) = elim (Bool-cases (is_stale now p)) [
  | inl e ↦ rw e (rw (retired p) (list_stale-swept now ps))
  | inr e ↦ rw e (rw e (list_stale-swept now ps))
]
  where
    retired : (p : Peer) → is_stale now (record p { is_active = false }) ≡ false
    retired p = unfold is_stale in refl

module _ (h : Settings) (q : ℕ → Executed) (complete : (j : ℕ) → IsComplete (q j)) where
  drop_active-peers :
      (qs : List Peer) (c : Change)
      → (drop_active h q qs c).db.peers ≡ deactivate_all (rows is_active_peer qs) c.db.peers
  unfolding drop_active rows deactivate_all
  drop_active-peers [] c = refl
  drop_active-peers (p ∷ qs) c =
      drop_active-peers qs (drop_if_active h (q p.id) p c) ∙ after (is_active_peer p) refl
    where
      dropped :
          (b : Bool)
          → is_active_peer p ≡ b
          → (drop_if_active h (q p.id) p c).db.peers
            ≡ (if b then deactivate p.id c.db.peers else c.db.peers)
      dropped b e =
          drop_if_active-peers h (q p.id) (complete p.id) (λ j. 0) p c
          ∙ ap (λ d. if d then deactivate p.id c.db.peers else c.db.peers)
              (unfold is_active_peer in e)

      after :
          (b : Bool)
          → is_active_peer p ≡ b
          → deactivate_all (rows is_active_peer qs) (drop_if_active h (q p.id) p c).db.peers
            ≡ deactivate_all
                (if b then p ∷ rows is_active_peer qs else rows is_active_peer qs)
                c.db.peers
      after true e = ap (deactivate_all (rows is_active_peer qs)) (dropped true e)
      after false e = ap (deactivate_all (rows is_active_peer qs)) (dropped false e)

retire_all-peers :
    (q : ℕ → Executed)
    → ((j : ℕ) → IsComplete (q j))
    → (ps : List Peer) (c : Change) → (retire_all q ps c).db.peers ≡ deactivate_all ps c.db.peers
unfolding retire_all deactivate_all
retire_all-peers q complete [] c = refl
retire_all-peers q complete (p ∷ ps) c =
    retire_all-peers q complete ps _
    ∙ ap (deactivate_all ps) (retire-peers q complete (λ j. 0) p c.db)

-- Where all its statements are executed, a round of the cleanup makes every stale peer inactive and
-- leaves every other row of the table as it is; and a second listing at the same time is empty.
pub peer_cleanup-swept :
    (q : ℕ → Executed) (now : ℕ) (db : Database)
    → ((j : ℕ) → IsComplete (q j))
    → IsKeyed db.peers
    → let new = (peer_cleanup true q now db).db in
      (new.peers ≡ swept (is_stale now) db.peers) × (list_stale now new.peers ≡ [])
unfolding peer_cleanup
peer_cleanup-swept q now db complete k = (one_pass, rw one_pass (list_stale-swept now db.peers))
  where
    one_pass :
        (retire_all q (list_stale now db.peers) (record { db = db; effects = [] })).db.peers
        ≡ swept (is_stale now) db.peers
    one_pass =
        retire_all-peers q complete (list_stale now db.peers) (record { db = db; effects = [] })
        ∙ (unfold list_stale in deactivate_all-rows (is_stale now) db.peers k)
