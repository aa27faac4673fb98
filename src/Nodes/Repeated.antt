-- ===== src/Nodes/Repeated.antt =====
-- Two calls of ensureAutoMesh of internal/control/mesh_handler.go by one user.
use midori_vpn_core.Prelude.{
  ℕ, ◌≡◌, refl, sym, subst, ◌∙◌, ap, Bool, true, false, ◌||◌, not, List, [], ◌∷◌, Option, none,
  some, ok, ok_not_err, ok-injective, ◌==◌, if◌then◌else◌, arith,
}
use midori_vpn_core.Prelude.Equality.{text_eq}
use midori_vpn_core.Net.{Text}
use midori_vpn_core.Strings.{upper, map_text}
use midori_vpn_core.Meshes.{Mesh, MeshMember, next_available_subnet}
use midori_vpn_core.Meshes.Rows.{
  is_upper, is_valid_country_code, is_valid_public_mesh, normalize_public_mesh_name, find_member,
  meshes_of, session_of,
}
use midori_vpn_core.Meshes.Searches.{normalize-id, normalize-owner, normalize-session}
use midori_vpn_core.Connections.{Database}
use midori_vpn_core.Nodes.{
  Queries, NodeError, Provisioned, Ensured, touched, reused, with_member, scan_sessions, new_mesh,
  in_subnet, in_country, provision_mesh, ensure_auto_mesh,
}
use midori_vpn_core.Nodes.Served.{
  IsServed, served, refused, moved-IsSame, ensure_auto_mesh-IsServed,
}
use midori_vpn_core.Nodes.Races.{IsMade, opened_mesh-IsMade}

session_of-meshes_of :
    (user : ℕ) (ms : List MeshMember) (ns : List Mesh)
    → session_of user ns ≡ none
    → session_of user (meshes_of user ms ns) ≡ none
unfolding session_of meshes_of
session_of-meshes_of user ms [] e = refl
session_of-meshes_of user ms (n ∷ ns) e =
    ground (arith, e, normalize-owner n, normalize-session n, session_of-meshes_of user ms ns)

scan_sessions-none :
    (q : Queries) (origin : Text) (user : ℕ) (create : Database → Ensured) (ns : List Mesh)
    (db : Database)
    → session_of user ns ≡ none
    → scan_sessions q origin user create ns db ≡ create db
unfolding scan_sessions session_of
scan_sessions-none q origin user create [] db e = refl
scan_sessions-none q origin user create (n ∷ ns) db e =
    go _ _ n.is_session (n.owner_id == user) refl refl
      (scan_sessions-none q origin user create ns db (ground (arith, e)))
  where
    go :
        (x y : Ensured) (b w : Bool)
        → n.is_session ≡ b
        → (n.owner_id == user) ≡ w
        → x ≡ create db
        → (if not b || not w then x else y) ≡ create db
    go x y false w s o k = k
    go x y true false s o k = k
    go x y true true s o k = absurd (ground (arith, e, s, o))

ensure_auto_mesh-provision :
    (q : Queries) (origin : Text) (user : ℕ) (db : Database)
    → session_of user db.meshes ≡ none
    → ensure_auto_mesh q origin user db ≡ provision_mesh q origin user db
unfolding ensure_auto_mesh
ensure_auto_mesh-provision q origin user db e = go q.lists (
    scan_sessions-none q origin user (λ d. provision_mesh q origin user d)
      (meshes_of user db.members db.meshes) db (session_of-meshes_of user db.members db.meshes e))
  where
    go :
        {x : Ensured} (b : Bool)
        → x ≡ provision_mesh q origin user db
        → (if b then x else provision_mesh q origin user db) ≡ provision_mesh q origin user db
    go true k = k
    go false k = refl

provision_mesh-IsMade :
    (q : Queries) (origin : Text) (user : ℕ) (db : Database) (c : Text) (x : Provisioned)
    → session_of user db.meshes ≡ none
    → q.country origin ≡ some c
    → (provision_mesh q origin user db).1 ≡ ok x
    → (s : Text) × IsMade (new_mesh q origin user c s) db x (provision_mesh q origin user db)
unfolding provision_mesh in_country in_subnet new_mesh
provision_mesh-IsMade q origin user db c x e country =
    rw country (go (if q.reads_subnets then next_available_subnet db.meshes else none))
  where
    go :
        (o : Option Text)
        → (in_subnet q origin user db c o).1 ≡ ok x
        → (s : Text) × IsMade (new_mesh q origin user c s) db x (in_subnet q origin user db c o)
    go none f = absurd (ok_not_err _ _ (sym f))
    go (some s) f = (s, opened_mesh-IsMade q user (new_mesh q origin user c s) db x e f)

upper-kept : (a : ℕ) → is_upper a ≡ true → upper a ≡ a
unfolding is_upper upper
upper-kept a e = ground (arith, e)

upper-valid : (c : Text) → is_valid_country_code c ≡ true → map_text upper c ≡ c
unfolding is_valid_country_code map_text
upper-valid [] v = absurd (ground arith)
upper-valid (a ∷ []) v = absurd (ground arith)
upper-valid (a ∷ b ∷ []) v = rw (upper-kept a (ground arith), upper-kept b (ground arith)) refl
upper-valid (a ∷ b ∷ c ∷ cs) v = absurd (ground arith)

normalize-valid :
    (n : Mesh)
    → n.is_session ≡ true
    → n.is_active ≡ true
    → is_valid_country_code n.country_code ≡ true
    → is_valid_public_mesh (normalize_public_mesh_name n) ≡ true
unfolding is_valid_public_mesh normalize_public_mesh_name
normalize-valid n s a v =
    ground (arith, s, a, ap is_valid_country_code (upper-valid n.country_code v) ∙ v)

-- A later answer: the same network and address, which is not new.
pub record IsAgain (n : Mesh) (ip : Text) (r : Ensured) : Type 0 where
  pub answer : Provisioned
  pub ended : r.1 ≡ ok answer
  pub same : answer.mesh.id ≡ n.id
  pub address : answer.mesh_ip ≡ ip
  pub old : answer.is_new ≡ false

module _ (q : Queries) (origin : Text) (user : ℕ) (db : Database) (n : Mesh) (m : MeshMember)
    (own : n.owner_id ≡ user) (session : n.is_session ≡ true) (active : n.is_active ≡ true)
    (valid : is_valid_country_code n.country_code ≡ true)
    (found : find_member n.id user db.members ≡ some m) (reads : q.reads_member n.id ≡ true) where
  meshes_of-first :
      (ns : List Mesh)
      → meshes_of user db.members (n ∷ ns)
        ≡ normalize_public_mesh_name n ∷ meshes_of user db.members ns
  unfolding meshes_of
  meshes_of-first ns = ground (arith, own)

  scan_sessions-IsAgain :
      (create : Database → Ensured) (ns : List Mesh)
      → IsAgain n m.mesh_ip
          (scan_sessions q origin user create (normalize_public_mesh_name n ∷ ns) db)
  unfolding scan_sessions with_member reused
  scan_sessions-IsAgain create ns =
      go _ _ _ _ _ (normalize-session n ∙ session) (ground (arith, normalize-owner n, own))
        (normalize-valid n session active valid)
    where
      present :
          (if q.reads_member (normalize_public_mesh_name n).id
            then find_member (normalize_public_mesh_name n).id user db.members
            else none)
          ≡ some m
      present =
          subst (λ j. (if q.reads_member j then find_member j user db.members else none) ≡ some m)
            {x = n.id} {y = (normalize_public_mesh_name n).id} (sym (normalize-id n))
            (rw (reads, found) refl)

      go :
          (x y : Ensured) (b w v : Bool)
          → b ≡ true
          → w ≡ true
          → v ≡ true
          → IsAgain n m.mesh_ip (
              if not b || not w
              then x
              else if not v
              then y
              else with_member q origin user (normalize_public_mesh_name n) db (
                  if q.reads_member (normalize_public_mesh_name n).id
                  then find_member (normalize_public_mesh_name n).id user db.members
                  else none))
      go x y b w v e f g =
          rw (e, f, g, present)
            (record {
              answer = _;
              ended = refl;
              same =
                  (moved-IsSame q origin user (normalize_public_mesh_name n)
                    (touched q (normalize_public_mesh_name n).id db)).id
                  ∙ normalize-id n;
              address = refl;
              old = refl;
            })

  ensure_auto_mesh-IsAgain :
      (ns : List Mesh)
      → db.meshes ≡ n ∷ ns
      → q.lists ≡ true
      → IsAgain n m.mesh_ip (ensure_auto_mesh q origin user db)
  unfolding ensure_auto_mesh
  ensure_auto_mesh-IsAgain ns rows lists = go q.lists (provision_mesh q origin user db) lists (
      subst
        (λ l.
          IsAgain n m.mesh_ip
            (scan_sessions q origin user (λ d. provision_mesh q origin user d) l db))
        {x = normalize_public_mesh_name n ∷ meshes_of user db.members ns}
        {y = meshes_of user db.members db.meshes}
        (sym (ap (meshes_of user db.members) rows ∙ meshes_of-first ns))
        (scan_sessions-IsAgain _ (meshes_of user db.members ns)))
    where
      go :
          {x : Ensured} (b : Bool) (y : Ensured)
          → b ≡ true
          → IsAgain n m.mesh_ip x
          → IsAgain n m.mesh_ip (if b then x else y)
      go b y e k = rw e k

served-member :
    (user : ℕ) (r : Ensured) (x : Provisioned)
    → IsServed user r
    → r.1 ≡ ok x
    → (m : MeshMember) × (find_member x.mesh.id user r.0.members ≡ some m) × (m.mesh_ip ≡ x.mesh_ip)
served-member user _ x refused e = absurd (ok_not_err _ _ (sym e))
served-member user _ x (served {db = db} {p = p} {m = m} a b f g) e =
    subst
      (λ y.
        (m : MeshMember) × (find_member y.mesh.id user db.members ≡ some m)
        × (m.mesh_ip ≡ y.mesh_ip))
      {x = p} {y = x} (ok-injective {E = NodeError} e) (m, f, g)

-- A user without a session network, whose address has a country and who was given a network, is
-- given the same network and address by the next call, from whatever address it comes, and the
-- network is not new then. The next call lists the networks and reads the member.
pub ensure_auto_mesh-ensure_auto_mesh :
    (q r : Queries) (origin next : Text) (user : ℕ) (db : Database) (c : Text) (x : Provisioned)
    → session_of user db.meshes ≡ none
    → q.country origin ≡ some c
    → is_valid_country_code c ≡ true
    → (ensure_auto_mesh q origin user db).1 ≡ ok x
    → r.lists ≡ true
    → r.reads_member x.mesh.id ≡ true
    → IsAgain x.mesh x.mesh_ip (ensure_auto_mesh r next user (ensure_auto_mesh q origin user db).0)
unfolding new_mesh
ensure_auto_mesh-ensure_auto_mesh q r origin next user db c x none_yet country valid given lists
      reads =
    let made = provision_mesh-IsMade q origin user db c x none_yet country (
      sym (ap (λ (a : Ensured). a.1) (ensure_auto_mesh-provision q origin user db none_yet))
      ∙ given) in
    let (m, found, address) =
      served-member user (ensure_auto_mesh q origin user db) x
        (ensure_auto_mesh-IsServed q origin user db) given in
    let mesh = made.1.mesh in
    subst
      (λ ip. IsAgain x.mesh ip (ensure_auto_mesh r next user (ensure_auto_mesh q origin user db).0))
      {x = m.mesh_ip} {y = x.mesh_ip} address
      (ensure_auto_mesh-IsAgain r next user (ensure_auto_mesh q origin user db).0 x.mesh m
        (ap (λ (n : Mesh). n.owner_id) mesh) (ap (λ (n : Mesh). n.is_session) mesh)
        (ap (λ (n : Mesh). n.is_active) mesh)
        (ap (λ (n : Mesh). is_valid_country_code n.country_code) mesh ∙ valid) found reads db.meshes
        (ap (λ (a : Ensured). a.0.meshes) (ensure_auto_mesh-provision q origin user db none_yet)
          ∙ made.1.row
          ∙ ap (λ (n : Mesh). n ∷ db.meshes) (sym mesh))
        lists)
