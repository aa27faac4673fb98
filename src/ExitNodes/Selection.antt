-- ===== src/ExitNodes/Selection.antt =====
-- What SetExitNode of internal/control/exit_node_handler.go lets a user select.
use midori_vpn_core.Prelude.{
  ℕ, ◌<◌, ◌≡◌, refl, ap, sym, ◌∙◌, Bool, true, false, ◌&&◌, ◌||◌, List, [], ◌∷◌, Option, none, some,
  ok, ◌==◌, arith, Bool-cases, inl, inr, ◌⊎◌,
}
use midori_vpn_core.Prelude.Equality.{nat_eq, text_eq, text_beq_iff, ◌=?◌}
use midori_vpn_core.Prelude.Dict
use midori_vpn_core.Prelude.Dict.{Dict, get-put, get-remove}
use midori_vpn_core.Net.{Text}
use midori_vpn_core.Strings.{is_empty}
use midori_vpn_core.ExitNodes
use midori_vpn_core.ExitNodes.{
  Member, Selected, Database, SetRequest, Reply, full_tunnel, belongs, listed, find_node,
  list_exit_nodes, set_exit_node, normalize_proxy_scheme, socks5,
}

pub data In (m : Member) : List Member → Type 0 where
  here : (ms : List Member) → In m (m ∷ ms)
  there : (n : Member) (ms : List Member) → In m ms → In m (n ∷ ms)

-- A row that the user may select: an exit node of the table that carries a full tunnel, in a mesh
-- of the user.
pub record IsSelectable (user : ℕ) (all : List Member) (m : Member) : Type 0 where
  pub row : In m all
  pub carries : full_tunnel m ≡ true
  pub shared : belongs user m.mesh_id all ≡ true

pub In-cases : (m n : Member) (l : List Member) → In m (n ∷ l) → (m ≡ n) ⊎ In m l
In-cases m _ l (here _) = inl refl
In-cases m _ l (there n _ i) = inr i

pub listed-In :
    (user : ℕ) (all ms : List Member) (m : Member)
    → In m (listed user all ms)
    → In m ms × (full_tunnel m ≡ true) × (belongs user m.mesh_id all ≡ true)
unfolding listed
listed-In user all [] m = λ i. elim i [ ]
listed-In user all (n ∷ ms) m = elim (Bool-cases (full_tunnel n && belongs user n.mesh_id all)) [
  | inr h ↦ rw h (λ i. let (j, f, b) = listed-In user all ms m i in (there n ms j, f, b))
  | inl h ↦ rw h (λ i. elim (In-cases m n (listed user all ms) i) [
    | inl e ↦ rw e (here ms, ground arith, ground arith)
    | inr j ↦ let (k, f, b) = listed-In user all ms m j in (there n ms k, f, b)
  ])
]

find_node-In :
    (ip scheme : Text) (port : ℕ) (ms : List Member) (m : Member)
    → find_node ip scheme port ms ≡ some m
    → In m ms × (m.mesh_ip ≡ ip) × (m.proxy_port ≡ port) × (m.proxy_scheme ≡ scheme)
unfolding find_node
find_node-In ip scheme port [] m = λ e. cc
find_node-In ip scheme port (n ∷ ms) m =
    elim (Bool-cases ((n.mesh_ip =? ip) && (n.proxy_port == port && (n.proxy_scheme =? scheme)))) [
      | inr h ↦
          rw h
            (λ e. let (j, a, b, c) = find_node-In ip scheme port ms m e in (there n ms j, a, b, c))
      | inl h ↦ rw h (λ e.
          let same : n ≡ m = cc in
          rw (sym same) (
            here ms,
            (text_beq_iff n.mesh_ip ip).0 (ground arith),
            ground arith,
            (text_beq_iff n.proxy_scheme scheme).0 (ground arith),
          ))
    ]

-- The selection that is stored for a node that carries a full tunnel.
unfoldable pub selection : SetRequest → Selected
selection req = record {
  mesh_ip = req.mesh_ip;
  proxy_scheme = socks5;
  proxy_port = req.proxy_port;
  supports_tcp = true;
  supports_udp = true;
}

full_tunnel-parts :
    (m : Member)
    → full_tunnel m ≡ true
    → (m.proxy_scheme ≡ socks5)
      × (m.supports_tcp ≡ true)
      × (m.supports_udp ≡ true)
      × (0 < m.proxy_port)
unfolding full_tunnel
full_tunnel-parts m h = (
  (text_beq_iff m.proxy_scheme socks5).0 (ground arith),
  ground arith,
  ground arith,
  ground arith,
)

-- What a successful SetExitNode has done.
pub record Selects (order : List Member → List Member) (db : Database) (user : ℕ) (req : SetRequest)
    (new : Database) : Type 0 where
  pub node : Member
  pub selectable : IsSelectable user db.members node
  pub address : node.mesh_ip ≡ req.mesh_ip
  pub port : node.proxy_port ≡ req.proxy_port
  pub positive : 0 < req.proxy_port
  pub scheme : normalize_proxy_scheme req.proxy_scheme ≡ socks5
  pub stored : new ≡ record db { selections = Dict.put db.selections user (selection req) }

module _ (order : List Member → List Member)
    (permutes : (l : List Member) (m : Member) → In m (order l) → In m l) where
  stored-Selects :
      (accepts : Bool) (db new : Database) (user : ℕ) (req : SetRequest) (scheme : Text)
      (o : Option Member)
      → scheme ≡ normalize_proxy_scheme req.proxy_scheme
      → find_node req.mesh_ip scheme req.proxy_port (list_exit_nodes order db user) ≡ o
      → ExitNodes.store accepts db user req scheme o ≡ (new, ok tt)
      → Selects order db user req new
  unfolding ExitNodes.store list_exit_nodes selection
  stored-Selects accepts db new user req scheme none s f = λ e. cc (ap (λ (x : Reply). x.1) e)
  stored-Selects false db new user req scheme (some m) s f = λ e. cc (ap (λ (x : Reply). x.1) e)
  stored-Selects true db new user req scheme (some m) s f = λ e.
      let (i, at, port, same) = find_node-In req.mesh_ip scheme req.proxy_port _ m f in
      let (row, carries, shared) = listed-In user db.members db.members m (permutes _ m i) in
      let (socks, tcp, udp, positive) = full_tunnel-parts m carries in
      record {
        node = m;
        selectable = record { row = row; carries = carries; shared = shared };
        address = at;
        port = port;
        positive = omega (arith, port, positive);
        scheme = sym s ∙ sym same ∙ socks;
        stored = sym (ap (λ (x : Reply). x.0) e) ∙ rw (tcp, udp, sym same ∙ socks) refl;
      }

  -- Where ORDER BY adds no row, a successful SetExitNode selects a row of the table that is an exit
  -- node of a mesh of the user with SOCKS5, TCP and UDP, at the address and the port asked for,
  -- whose port is not 0, and stores it for the user alone.
  pub set_exit_node-Selects :
      (lists accepts : Bool) (db new : Database) (user : ℕ) (req : SetRequest)
      → set_exit_node order lists accepts db (some user) (some req) ≡ (new, ok tt)
      → Selects order db user req new
  unfolding set_exit_node
  set_exit_node-Selects lists accepts db new user req =
      elim (Bool-cases (is_empty req.mesh_ip || req.proxy_port == 0)) [
        | inl h ↦ rw h (λ e. cc (ap (λ (x : Reply). x.1) e))
        | inr h ↦ rw h (elim (Bool-cases (is_empty (normalize_proxy_scheme req.proxy_scheme))) [
          | inl g ↦ rw g (λ e. cc (ap (λ (x : Reply). x.1) e))
          | inr g ↦ rw g (elim (Bool-cases lists) [
            | inr l ↦ rw l (λ e. cc (ap (λ (x : Reply). x.1) e))
            | inl l ↦ rw l (stored-Selects accepts db new user req _ _ refl refl)
          ])
        ])
      ]
