-- ===== src/Nodes/Sound.antt =====
-- The networks of internal/repo/mesh.go distinct from each other, under its statements.
use midori_vpn_core.Prelude.{
  ℕ, ◌≡◌, refl, ◌∙◌, Bool, true, false, ◌&&◌, ◌||◌, List, [], ◌∷◌, none, ◌==◌, arith, Bool-cases,
  inl, inr,
}
use midori_vpn_core.Prelude.Equality.{text_eq, ◌=?◌}
use midori_vpn_core.Meshes.{Mesh, taken, subnets}
use midori_vpn_core.Meshes.Apart.{AreApart}
use midori_vpn_core.Meshes.Rows.{find_row, session_of, without_mesh, on_session}
use midori_vpn_core.Nodes.Preserved.{Keeps}
use midori_vpn_core.Connections.{Database}

-- Two networks have one id or one subnet, or are session networks of one owner.
pub clash : Mesh → Mesh → Bool
clash a b =
    a.id == b.id
    || (a.subnet =? b.subnet || (a.owner_id == b.owner_id && (a.is_session && b.is_session)))

pub clash_any : Mesh → List Mesh → Bool
clash_any a [] = false
clash_any a (n ∷ ns) = clash n a || clash_any a ns

unfoldable pub AreDistinct : List Mesh → Type 0
unfolding clash clash_any
AreDistinct [] = Unit {0}
AreDistinct (n ∷ ns) = (clash_any n ns ≡ false) × AreDistinct ns

-- No two networks clash, no two members of one network have one address, and no user is in a
-- network twice.
pub record IsSound (db : Database) : Type 0 where
  pub distinct : AreDistinct db.meshes
  pub apart : AreApart db.members

clash_any-without_mesh :
    (i : ℕ) (a : Mesh) (ns : List Mesh)
    → clash_any a ns ≡ false
    → clash_any a (without_mesh i ns) ≡ false
unfolding clash_any without_mesh
clash_any-without_mesh i a [] e = refl
clash_any-without_mesh i a (n ∷ ns) e = ground (arith, e, clash_any-without_mesh i a ns)

pub without_mesh-AreDistinct :
    (i : ℕ) (ns : List Mesh) → AreDistinct ns → AreDistinct (without_mesh i ns)
unfolding AreDistinct without_mesh
without_mesh-AreDistinct i [] d = d
without_mesh-AreDistinct i (n ∷ ns) (e, d) = elim (Bool-cases (n.id == i)) [
  | inl h ↦ rw h (without_mesh-AreDistinct i ns d)
  | inr h ↦ rw h (clash_any-without_mesh i n ns e, without_mesh-AreDistinct i ns d)
]

module _ (j : ℕ) (f : Mesh → Mesh) (k : Keeps f) where
  clash-kept : (a n : Mesh) → clash (f n) a ≡ clash n a
  unfolding clash
  clash-kept a n = rw (k.id n, k.subnet n, k.owner n, k.session n) refl

  clash-kept_right : (a n : Mesh) → clash a (f n) ≡ clash a n
  unfolding clash
  clash-kept_right a n = rw (k.id n, k.subnet n, k.owner n, k.session n) refl

  clash_any-kept : (a : Mesh) (ns : List Mesh) → clash_any (f a) ns ≡ clash_any a ns
  unfolding clash_any
  clash_any-kept a [] = refl
  clash_any-kept a (n ∷ ns) = rw (clash-kept_right n a, clash_any-kept a ns) refl

  clash_any-on_session :
      (a : Mesh) (ns : List Mesh) → clash_any a (on_session j f ns) ≡ clash_any a ns
  unfolding clash_any on_session
  clash_any-on_session a [] = refl
  clash_any-on_session a (n ∷ ns) = elim (Bool-cases (n.id == j && n.is_session)) [
    | inl h ↦ rw (h, clash-kept a n, clash_any-on_session a ns) refl
    | inr h ↦ rw (h, clash_any-on_session a ns) refl
  ]

  pub on_session-AreDistinct : (ns : List Mesh) → AreDistinct ns → AreDistinct (on_session j f ns)
  unfolding AreDistinct on_session
  on_session-AreDistinct [] d = d
  on_session-AreDistinct (n ∷ ns) (e, d) = elim (Bool-cases (n.id == j && n.is_session)) [
    | inl h ↦
        rw h (clash_any-on_session (f n) ns ∙ clash_any-kept n ns ∙ e, on_session-AreDistinct ns d)
    | inr h ↦ rw h (clash_any-on_session n ns ∙ e, on_session-AreDistinct ns d)
  ]

pub clash_any_new :
    (new : Mesh) (ns : List Mesh)
    → new.is_session ≡ true
    → find_row new.id ns ≡ none
    → taken (subnets ns) new.subnet ≡ false
    → session_of new.owner_id ns ≡ none
    → clash_any new ns ≡ false
unfolding clash_any clash find_row taken subnets session_of
clash_any_new new [] s a b c = refl
clash_any_new new (n ∷ ns) s a b c = ground (arith, s, a, b, c, clash_any_new new ns s)
