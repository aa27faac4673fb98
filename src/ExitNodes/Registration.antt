-- ===== src/ExitNodes/Registration.antt =====
-- Histories of calls of internal/control/exit_node_handler.go.
use midori_vpn_core.Prelude.{
  ℕ, ◌<◌, ◌≡◌, refl, ap, sym, ◌∙◌, subst, Bool, true, false, ◌||◌, not, List, [], ◌∷◌, Option, none,
  some, ok, err, ltb, ◌==◌, if◌then◌else◌, arith, Bool-cases, inl, inr,
}
use midori_vpn_core.Prelude.Equality.{nat_eq, text_eq}
use midori_vpn_core.Prelude.Dict
use midori_vpn_core.Prelude.Dict.{Dict, get-put, get-remove}
use midori_vpn_core.Net.{Text}
use midori_vpn_core.Strings.{is_empty}
use midori_vpn_core.ExitNodes
use midori_vpn_core.ExitNodes.{
  Member, Selected, Database, RegisterRequest, SetRequest, Reply, HttpError, full_tunnel, belongs,
  listed, list_exit_nodes, set_exit_node, register_exit_node, deregister_exit_node, clear_exit_node,
  update, each, deregistered, socks5, normalize_proxy_scheme,
}
use midori_vpn_core.ExitNodes.Selection.{In, Selects, set_exit_node-Selects, selection}

-- A call of a handler. The Booleans are whether the database answers the query and executes the
-- statement; the user and the body are none where they are missing.
pub data Call : Type 0 where
  register : Bool → Option ℕ → Option RegisterRequest → Call
  deregister : Bool → Option ℕ → Option ℕ → Call
  select : Bool → Bool → Option ℕ → Option SetRequest → Call
  clear : Bool → Option ℕ → Call

-- Every stored row of a selection names a full tunnel.
unfoldable pub IsFullTunnel : Database → Type 0
IsFullTunnel db =
    (user : ℕ) (s : Selected)
    → Dict.get db.selections user ≡ some s
    → (s.proxy_scheme ≡ socks5)
      × (s.supports_tcp ≡ true)
      × (s.supports_udp ≡ true)
      × (0 < s.proxy_port)

module _ (order : List Member → List Member) where
  unfoldable pub step : Database → Call → Reply
  step db (register accepts user body) = register_exit_node accepts db user body
  step db (deregister accepts user mesh) = deregister_exit_node accepts db user mesh
  step db (select lists accepts user body) = set_exit_node order lists accepts db user body
  step db (clear accepts user) = clear_exit_node accepts db user

  unfoldable pub run : Database → List Call → Database
  unfolding step
  run db [] = db
  run db (c ∷ cs) = run (step db c).0 cs

  -- A call that fails leaves the database as it was; one that succeeds is told apart.
  pub data Answered (db : Database) : Reply → Type 0 where
    failed : (e : HttpError) → Answered db (db, err e)
    succeeded : (new : Database) → Answered db (new, ok tt)

  update-selections :
      (accepts : Bool) (db : Database) (f : Member → Member)
      → (update accepts db f).0.selections ≡ db.selections
  unfolding update
  update-selections true db f = refl
  update-selections false db f = refl

  register-selections :
      (accepts : Bool) (db : Database) (user : Option ℕ) (body : Option RegisterRequest)
      → (register_exit_node accepts db user body).0.selections ≡ db.selections
  unfolding register_exit_node
  register-selections accepts db none body = refl
  register-selections accepts db (some user) none = refl
  register-selections accepts db (some user) (some req) =
      ground (arith, update-selections accepts db)

  deregister-selections :
      (accepts : Bool) (db : Database) (user mesh : Option ℕ)
      → (deregister_exit_node accepts db user mesh).0.selections ≡ db.selections
  unfolding deregister_exit_node
  deregister-selections accepts db none body = refl
  deregister-selections accepts db (some user) none = refl
  deregister-selections accepts db (some user) (some mesh) =
      ground (arith, update-selections accepts db (deregistered user mesh))

  update-Answered :
      (accepts : Bool) (db : Database) (f : Member → Member) → Answered db (update accepts db f)
  unfolding update
  update-Answered true db f = succeeded _
  update-Answered false db f = failed _

  -- Under a test, a refusal keeps the database.
  refusing :
      (b : Bool) (db : Database) (e : HttpError) (r : Reply)
      → Answered db r
      → Answered db (if b then (db, err e) else r)
  refusing true db e r a = failed e
  refusing false db e r a = a

  store-Answered :
      (accepts : Bool) (db : Database) (user : ℕ) (req : SetRequest) (scheme : Text)
      (o : Option Member)
      → Answered db (ExitNodes.store accepts db user req scheme o)
  unfolding ExitNodes.store
  store-Answered accepts db user req scheme none = failed _
  store-Answered false db user req scheme (some m) = failed _
  store-Answered true db user req scheme (some m) = succeeded _

  -- A call of a handler that answers with an error leaves both tables as they were.
  pub step-Answered : (db : Database) (c : Call) → Answered db (step db c)
  unfolding step register_exit_node deregister_exit_node set_exit_node clear_exit_node
  step-Answered db (register accepts none body) = failed _
  step-Answered db (register accepts (some user) none) = failed _
  step-Answered db (register accepts (some user) (some req)) =
      refusing (req.proxy_port == 0 || ltb 65535 req.proxy_port) db ExitNodes.bad_port _ (
        refusing (req.mesh_id == 0) db ExitNodes.mesh_id_required _ (
          refusing (is_empty (normalize_proxy_scheme req.proxy_scheme)) db ExitNodes.bad_scheme _ (
            refusing (not req.supports_tcp) db ExitNodes.tcp_required _ (
              update-Answered accepts db
                (ExitNodes.registered user req (normalize_proxy_scheme req.proxy_scheme))))))
  step-Answered db (deregister accepts none mesh) = failed _
  step-Answered db (deregister accepts (some user) none) = failed _
  step-Answered db (deregister accepts (some user) (some mesh)) =
      refusing (mesh == 0) db ExitNodes.mesh_id_required _
        (update-Answered accepts db (deregistered user mesh))
  step-Answered db (select lists accepts none body) = failed _
  step-Answered db (select lists accepts (some user) none) = failed _
  step-Answered db (select lists accepts (some user) (some req)) =
      refusing (is_empty req.mesh_ip || req.proxy_port == 0) db ExitNodes.missing_node _ (
        refusing (is_empty (normalize_proxy_scheme req.proxy_scheme)) db ExitNodes.bad_scheme _ (
          refusing (not lists) db ExitNodes.server_error _ (
            store-Answered accepts db user req (normalize_proxy_scheme req.proxy_scheme) (
              ExitNodes.find_node req.mesh_ip (normalize_proxy_scheme req.proxy_scheme)
                req.proxy_port (list_exit_nodes order db user)))))
  step-Answered db (clear accepts none) = failed _
  step-Answered db (clear true (some user)) = succeeded _
  step-Answered db (clear false (some user)) = failed _

  module _ (permutes : (l : List Member) (m : Member) → In m (order l) → In m l) where
    selected-IsFullTunnel :
        (db new : Database) (user : ℕ) (req : SetRequest)
        → IsFullTunnel db
        → Selects order db user req new
        → IsFullTunnel new
    unfolding IsFullTunnel selection
    selected-IsFullTunnel db new user req f s =
        subst
          (λ (d : Database).
            (u : ℕ) (t : Selected)
            → Dict.get d.selections u ≡ some t
            → (t.proxy_scheme ≡ socks5)
              × (t.supports_tcp ≡ true)
              × (t.supports_udp ≡ true)
              × (0 < t.proxy_port))
          (sym s.stored)
          (λ u t e. elim (Bool-cases (user == u)) [
            | inl h ↦
                let same : selection req ≡ t =
                  ground (arith, get-put db.selections user u (selection req)) in
                rw (sym same) (refl, refl, refl, s.positive)
            | inr h ↦ f u t (ground (arith, get-put db.selections user u (selection req)))
          ])

    set_exit_node-IsFullTunnel :
        (lists accepts : Bool) (db : Database) (user : ℕ) (req : SetRequest) (r : Reply)
        → Answered db r
        → set_exit_node order lists accepts db (some user) (some req) ≡ r
        → IsFullTunnel db
        → IsFullTunnel r.0
    set_exit_node-IsFullTunnel lists accepts db user req _ (failed e) h f = f
    set_exit_node-IsFullTunnel lists accepts db user req _ (succeeded new) h f =
        selected-IsFullTunnel db new user req f
          (set_exit_node-Selects order permutes lists accepts db new user req h)

    same-IsFullTunnel :
        (db new : Database) → new.selections ≡ db.selections → IsFullTunnel db → IsFullTunnel new
    unfolding IsFullTunnel
    same-IsFullTunnel db new e f user s g =
        f user s (ap (λ (d : Dict ℕ Selected). Dict.get d user) (sym e) ∙ g)

    step-IsFullTunnel : (db : Database) (c : Call) → IsFullTunnel db → IsFullTunnel (step db c).0
    unfolding step set_exit_node clear_exit_node
    step-IsFullTunnel db (register accepts user body) f =
        same-IsFullTunnel db _ (register-selections accepts db user body) f
    step-IsFullTunnel db (deregister accepts user mesh) f =
        same-IsFullTunnel db _ (deregister-selections accepts db user mesh) f
    step-IsFullTunnel db (select lists accepts none body) f = f
    step-IsFullTunnel db (select lists accepts (some user) none) f = f
    step-IsFullTunnel db (select lists accepts (some user) (some req)) f =
        set_exit_node-IsFullTunnel lists accepts db user req _
          (step-Answered db (select lists accepts (some user) (some req))) refl f
    step-IsFullTunnel db (clear accepts none) f = f
    step-IsFullTunnel db (clear true (some user)) f =
        unfold IsFullTunnel in λ u s e. f u s (ground (arith, get-remove db.selections user u))
    step-IsFullTunnel db (clear false (some user)) f = f

    -- Where ORDER BY adds no row, every history of calls keeps the invariant that each stored row of a
    -- selection names a SOCKS5 proxy with TCP and UDP and a port that is not 0. The node that it was
    -- taken from may have changed or left since then.
    pub run-IsFullTunnel :
        (db : Database) (cs : List Call) → IsFullTunnel db → IsFullTunnel (run db cs)
    unfolding run
    run-IsFullTunnel db [] f = f
    run-IsFullTunnel db (c ∷ cs) f = run-IsFullTunnel (step db c).0 cs (step-IsFullTunnel db c f)
