-- ===== src/Meshes/Apart.antt =====
-- The members of networks apart from each other, under the statements of internal/repo/mesh.go.
use midori_vpn_core.Prelude.{
  ℕ, ◌≡◌, refl, Bool, true, false, ◌&&◌, not, List, [], ◌∷◌, Outcome, ok, err, panic, diverges,
  ◌==◌, arith, Bool-cases, inl, inr, Option-cases,
}
use midori_vpn_core.Prelude.Equality.{text_eq}
use midori_vpn_core.Net.{Text}
use midori_vpn_core.Meshes.{
  MeshMember, Tables, MeshError, taken, ips_of, is_member, inserted, locked, find_subnet,
  add_member, without_member,
}
use midori_vpn_core.Meshes.Rows.{without_members_of, update_member_peer}
use midori_vpn_core.Meshes.Lowest.{Picked-free, next_available_mesh_ip-Picked}

-- No two members of one network have one address, and no user is in a network twice.
unfoldable pub AreApart : List MeshMember → Type 0
AreApart [] = Unit {0}
AreApart (m ∷ ms) =
    (taken (ips_of m.mesh_id ms) m.mesh_ip ≡ false)
    × (is_member m.mesh_id m.user_id ms ≡ false)
    × AreApart ms

inserted-AreApart :
    (accepts : Bool) (t : Tables) (mesh user : ℕ) (o : Outcome MeshError Text)
    → ((ip : Text) → o ≡ ok ip → taken (ips_of mesh t.members) ip ≡ false)
    → AreApart t.members
    → AreApart (inserted accepts t mesh user o).0.members
unfolding inserted AreApart
inserted-AreApart accepts t mesh user (ok ip) free a =
    elim (Bool-cases (accepts && not (is_member mesh user t.members))) [
      | inl h ↦ rw h (free ip refl, ground arith, a)
      | inr h ↦ rw h a
    ]
inserted-AreApart accepts t mesh user (err e) free a = a
inserted-AreApart accepts t mesh user panic free a = a
inserted-AreApart accepts t mesh user diverges free a = a

pub add_member-AreApart :
    (begins accepts : Bool) (t : Tables) (mesh user : ℕ)
    → AreApart t.members
    → AreApart (add_member begins accepts t mesh user).0.members
unfolding add_member locked
add_member-AreApart false accepts t mesh user a = a
add_member-AreApart true accepts t mesh user a = elim (Option-cases (find_subnet mesh t.meshes)) [
  | inl e ↦ rw e a
  | inr (subnet, e) ↦ rw e (
      inserted-AreApart accepts t mesh user _
        (λ ip h.
          Picked-free mesh subnet t.members ip _
            (next_available_mesh_ip-Picked mesh subnet t.members) h)
        a)
]

-- Deleting rows takes no address and makes no member.
taken-without :
    (mesh user at : ℕ) (ip : Text) (ms : List MeshMember)
    → taken (ips_of at ms) ip ≡ false
    → taken (ips_of at (without_member mesh user ms)) ip ≡ false
unfolding taken ips_of without_member
taken-without mesh user at ip [] h = refl
taken-without mesh user at ip (m ∷ ms) h = ground (arith, taken-without mesh user at ip ms)

is_member-without :
    (mesh user at who : ℕ) (ms : List MeshMember)
    → is_member at who ms ≡ false
    → is_member at who (without_member mesh user ms) ≡ false
unfolding is_member without_member
is_member-without mesh user at who [] h = refl
is_member-without mesh user at who (m ∷ ms) h =
    ground (arith, is_member-without mesh user at who ms)

pub without_member-AreApart :
    (mesh user : ℕ) (ms : List MeshMember) → AreApart ms → AreApart (without_member mesh user ms)
unfolding AreApart without_member
without_member-AreApart mesh user [] a = a
without_member-AreApart mesh user (m ∷ ms) (free, new, a) =
    elim (Bool-cases (m.mesh_id == mesh && m.user_id == user)) [
      | inl h ↦ rw h (without_member-AreApart mesh user ms a)
      | inr h ↦ rw h (
        taken-without mesh user m.mesh_id m.mesh_ip ms free,
        is_member-without mesh user m.mesh_id m.user_id ms new,
        without_member-AreApart mesh user ms a,
      )
    ]

taken-without_members_of :
    (i at : ℕ) (ip : Text) (ms : List MeshMember)
    → taken (ips_of at ms) ip ≡ false
    → taken (ips_of at (without_members_of i ms)) ip ≡ false
unfolding taken ips_of without_members_of
taken-without_members_of i at ip [] h = refl
taken-without_members_of i at ip (m ∷ ms) h = ground (arith, taken-without_members_of i at ip ms)

is_member-without_members_of :
    (i at who : ℕ) (ms : List MeshMember)
    → is_member at who ms ≡ false
    → is_member at who (without_members_of i ms) ≡ false
unfolding is_member without_members_of
is_member-without_members_of i at who [] h = refl
is_member-without_members_of i at who (m ∷ ms) h =
    ground (arith, is_member-without_members_of i at who ms)

pub without_members_of-AreApart :
    (i : ℕ) (ms : List MeshMember) → AreApart ms → AreApart (without_members_of i ms)
unfolding AreApart without_members_of
without_members_of-AreApart i [] a = a
without_members_of-AreApart i (m ∷ ms) (free, new, a) = elim (Bool-cases (m.mesh_id == i)) [
  | inl h ↦ rw h (without_members_of-AreApart i ms a)
  | inr h ↦ rw h (
    taken-without_members_of i m.mesh_id m.mesh_ip ms free,
    is_member-without_members_of i m.mesh_id m.user_id ms new,
    without_members_of-AreApart i ms a,
  )
]

ips_of-update_member_peer :
    (mesh user peer at : ℕ) (ms : List MeshMember)
    → ips_of at (update_member_peer mesh user peer ms) ≡ ips_of at ms
unfolding ips_of update_member_peer
ips_of-update_member_peer mesh user peer at [] = refl
ips_of-update_member_peer mesh user peer at (m ∷ ms) =
    elim (Bool-cases (m.mesh_id == mesh && m.user_id == user)) [
      | inl h ↦ rw (h, ips_of-update_member_peer mesh user peer at ms) refl
      | inr h ↦ rw (h, ips_of-update_member_peer mesh user peer at ms) refl
    ]

is_member-update_member_peer :
    (mesh user peer at who : ℕ) (ms : List MeshMember)
    → is_member at who (update_member_peer mesh user peer ms) ≡ is_member at who ms
unfolding is_member update_member_peer
is_member-update_member_peer mesh user peer at who [] = refl
is_member-update_member_peer mesh user peer at who (m ∷ ms) =
    ground (arith, is_member-update_member_peer mesh user peer at who ms)

pub update_member_peer-AreApart :
    (mesh user peer : ℕ) (ms : List MeshMember)
    → AreApart ms
    → AreApart (update_member_peer mesh user peer ms)
unfolding AreApart update_member_peer
update_member_peer-AreApart mesh user peer [] a = a
update_member_peer-AreApart mesh user peer (m ∷ ms) (free, new, a) =
    elim (Bool-cases (m.mesh_id == mesh && m.user_id == user)) [
      | inl h ↦
          rw
            (
              h,
              ips_of-update_member_peer mesh user peer m.mesh_id ms,
              is_member-update_member_peer mesh user peer m.mesh_id m.user_id ms,
            )
            (free, new, update_member_peer-AreApart mesh user peer ms a)
      | inr h ↦
          rw
            (
              h,
              ips_of-update_member_peer mesh user peer m.mesh_id ms,
              is_member-update_member_peer mesh user peer m.mesh_id m.user_id ms,
            )
            (free, new, update_member_peer-AreApart mesh user peer ms a)
    ]
