-- ===== src/Servers/Histories.antt =====
-- Histories of the handlers on servers of internal/control/handler.go.
use mathlib.Core.Option.{some-injective}
use midori_vpn_core.Prelude.{
  ℕ, ◌≡◌, refl, subst, Bool, true, false, List, [], ◌∷◌, Option, none, some, Outcome, ok, err,
  ok-injective, ◌==◌, if◌then◌else◌, arith, Bool-cases, inl, inr,
}
use midori_vpn_core.Prelude
use midori_vpn_core.Net.{Text}
use midori_vpn_core.Inputs.Hosts.{Url}
use midori_vpn_core.Connections.{Server, Database, find_server, on_server, save_server}
use midori_vpn_core.Servers.{
  CreateServerRequest, UpdateServerRequest, ServerError, AdminSettings, create_row, without_server,
  delete_server,
}
use midori_vpn_core.Servers.Handlers.{
  stored_new, created_server, create_with, admin_create_server, stored_update, update_with,
  update_found, admin_update_server, described, admin_delete_server,
}
use midori_vpn_core.Servers.Usable.{
  IsUsable, AreUsable, stored_new-IsUsable, stored_update-IsUsable,
}

-- A request of an administrator, with the answers of the database.
pub data Call : Type 0 where
  create : ℕ → Option ℕ → Option CreateServerRequest → Call
  update : ℕ → Bool → Option ℕ → Option UpdateServerRequest → Call
  delete : ℕ → Bool → Option ℕ → Call

module _ (parse_url : Text → Option Url) (loopback_ip6 : Text → Bool) (h : AdminSettings) where
  unfoldable pub step : Database → Call → Database
  step db (create admin inserts req) =
      (admin_create_server parse_url loopback_ip6 h admin inserts db req).db
  step db (update admin saves i req) =
      (admin_update_server parse_url loopback_ip6 h admin saves db i req).db
  step db (delete admin deletes i) = (admin_delete_server admin deletes db i).db

  unfoldable pub run : Database → List Call → Database
  run db [] = db
  run db (c ∷ cs) = run (step db c) cs

  abbrev Usable : Server → Type 0
  Usable s = IsUsable parse_url loopback_ip6 h s

  abbrev pub Kept : Database → Type 0
  Kept db = AreUsable parse_url loopback_ip6 h db.servers

  recounted :
      (s : Server) (i n : ℕ) (b : Bool)
      → Usable s
      → Usable (record s { id = i; current_peers = n; is_active = b })
  recounted s i n b u = record {
    named = u.named;
    keyed = u.keyed;
    secret = u.secret;
    clean = u.clean;
    outside = u.outside;
    reached = u.reached;
    listens = u.listens;
    sized = u.sized;
  }

  found :
      (i : ℕ) (ss : List Server) (s : Server)
      → AreUsable parse_url loopback_ip6 h ss
      → find_server i ss ≡ some s
      → Usable s
  unfolding find_server AreUsable
  found i [] s a e = absurd cc
  found i (t ∷ ss) s (u, a) e = go (t.id == i) (λ x. found i ss s a x) e
    where
      go :
          (b : Bool)
          → (find_server i ss ≡ some s → Usable s)
          → (if b then some t else find_server i ss) ≡ some s
          → Usable s
      go true rest x = subst Usable (some-injective _ _ x) u
      go false rest x = rest x

  saved :
      (s : Server) (ss : List Server)
      → Usable s
      → AreUsable parse_url loopback_ip6 h ss
      → AreUsable parse_url loopback_ip6 h
          (on_server s.id (λ t. record s { current_peers = t.current_peers }) ss)
  unfolding on_server AreUsable
  saved s [] u a = tt
  saved s (t ∷ ss) u (v, a) = (one, saved s ss u a)
    where
      one :
          IsUsable parse_url loopback_ip6 h
            (if t.id == s.id then record s { current_peers = t.current_peers } else t)
      one = elim (Bool-cases (t.id == s.id)) [
        | inl b ↦ rw b (recounted s s.id t.current_peers s.is_active u)
        | inr b ↦ rw b v
      ]

  left :
      (i : ℕ) (ss : List Server)
      → AreUsable parse_url loopback_ip6 h ss
      → AreUsable parse_url loopback_ip6 h (without_server i ss)
  unfolding without_server AreUsable
  left i [] a = tt
  left i (s ∷ ss) (u, a) = elim (Bool-cases (s.id == i)) [
    | inl b ↦ rw b (left i ss a)
    | inr b ↦ rw b (u, left i ss a)
  ]

  create_with-Kept :
      (admin : ℕ) (inserts : Option ℕ) (db : Database) (o : Outcome ServerError Server)
      → Kept db
      → ((s : Server) → o ≡ ok s → Usable s)
      → Kept (create_with parse_url loopback_ip6 h admin inserts db o).db
  unfolding create_with created_server described create_row AreUsable
  create_with-Kept admin none db (ok s) k u = k
  create_with-Kept admin (some i) db (ok s) k u = (recounted s i 0 true (u s refl), k)
  create_with-Kept admin inserts db (err e) k u = k
  create_with-Kept admin inserts db Prelude.panic k u = k
  create_with-Kept admin inserts db Prelude.diverges k u = k

  update_with-Kept :
      (admin : ℕ) (saves : Bool) (db : Database) (o : Outcome ServerError Server)
      → Kept db
      → ((s : Server) → o ≡ ok s → Usable s)
      → Kept (update_with parse_url loopback_ip6 h admin saves db o).db
  unfolding update_with described save_server
  update_with-Kept admin true db (ok s) k u = saved s db.servers (u s refl) k
  update_with-Kept admin false db (ok s) k u = k
  update_with-Kept admin saves db (err e) k u = k
  update_with-Kept admin saves db Prelude.panic k u = k
  update_with-Kept admin saves db Prelude.diverges k u = k

  update_found-Kept :
      (admin : ℕ) (saves : Bool) (db : Database) (req : Option UpdateServerRequest)
      (o : Option Server)
      → Kept db
      → ((s : Server) → o ≡ some s → Usable s)
      → Kept (update_found parse_url loopback_ip6 h admin saves db req o).db
  unfolding update_found
  update_found-Kept admin saves db req none k u = k
  update_found-Kept admin saves db none (some s) k u = k
  update_found-Kept admin saves db (some req) (some s) k u =
      update_with-Kept admin saves db (stored_update parse_url loopback_ip6 h s req) k
        (λ t e. stored_update-IsUsable parse_url loopback_ip6 h s t req (u s refl) e)

  step-Kept : (db : Database) (c : Call) → Kept db → Kept (step db c)
  unfolding step admin_create_server admin_update_server admin_delete_server delete_server
  step-Kept db (create admin inserts none) k = k
  step-Kept db (create admin inserts (some req)) k =
      create_with-Kept admin inserts db (stored_new parse_url loopback_ip6 h req) k
        (λ s e. stored_new-IsUsable parse_url loopback_ip6 h req s e)
  step-Kept db (update admin saves none req) k = k
  step-Kept db (update admin saves (some i) req) k =
      update_found-Kept admin saves db req (find_server i db.servers) k
        (λ s e. found i db.servers s k e)
  step-Kept db (delete admin deletes none) k = k
  step-Kept db (delete admin true (some i)) k = left i db.servers k
  step-Kept db (delete admin false (some i)) k = k

  -- Whatever administrators send and the database answers, every row of a server keeps a name, a
  -- public key and a token, a clean host and port, which in production are not this machine's unless
  -- that is allowed, an endpoint that is empty or valid, and a WireGuard port and a limit of peers
  -- that are not 0.
  pub run-AreUsable :
      (db : Database) (cs : List Call)
      → AreUsable parse_url loopback_ip6 h db.servers
      → AreUsable parse_url loopback_ip6 h (run db cs).servers
  unfolding run
  run-AreUsable db [] k = k
  run-AreUsable db (c ∷ cs) k = run-AreUsable (step db c) cs (step-Kept db c k)
