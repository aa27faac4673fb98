-- ===== src/Meshes/Lowest.antt =====
-- Which subnet and which address internal/repo/mesh.go hands out.
use midori_vpn_core.Prelude.{
  ℕ, zero, suc, ◌+◌, ◌<◌, ◌≤◌, ◌≡◌, refl, ap, true, false, List, Option, none, some, Outcome, ok,
  err, arith, Bool-cases, inl, inr, ◌⊎◌, ltb, ltb→lt, subst, ok-injective,
}
use midori_vpn_core.Net.{Text, Network, parse_cidr}
use midori_vpn_core.Meshes.{
  Mesh, MeshMember, MeshError, taken, first_free, subnets, ips_of, subnet_candidate,
  next_available_subnet, host_candidate, next_available_mesh_ip, mesh_ip_in, chosen_ip, bad_subnet,
  subnet_full,
}

-- The result of the search among the candidates below the end: the first that is not taken, or none
-- where all are.
pub data Searched (candidate : ℕ → Text) (used : List Text) (start end : ℕ)
    : Option Text → Type 0 where
  lowest :
      (i : ℕ)
      → start ≤ i
      → i < end
      → taken used (candidate i) ≡ false
      → ((j : ℕ) → (taken used (candidate j) ≡ true) ⊎ (j < start) ⊎ (i ≤ j))
      → Searched candidate used start end (some (candidate i))
  all_taken :
      ((j : ℕ) → (taken used (candidate j) ≡ true) ⊎ (j < start) ⊎ (end ≤ j))
      → Searched candidate used start end none

pub first_free-Searched :
    (candidate : ℕ → Text) (used : List Text) (n i : ℕ)
    → Searched candidate used i (i + n) (first_free candidate used n i)
unfolding first_free
first_free-Searched candidate used zero i = all_taken (λ j. elim (Bool-cases (ltb j i)) [
  | inl h ↦ inr (inl (ltb→lt _ _ h))
  | inr h ↦ inr (inr (ground arith))
])
first_free-Searched candidate used (suc n) i = elim (Bool-cases (taken used (candidate i))) [
  | inr h ↦ rw h (
      lowest i (omega arith) (omega arith) h (λ j. elim (Bool-cases (ltb j i)) [
        | inl l ↦ inr (inl (ltb→lt _ _ l))
        | inr l ↦ inr (inr (ground arith))
      ]))
  | inl h ↦ rw h (go _ (first_free-Searched candidate used n (i + 1)) h)
]
  where
    earlier :
        (k : ℕ)
        → taken used (candidate i) ≡ true
        → (j : ℕ) → (taken used (candidate j) ≡ true) ⊎ (j < i + 1) ⊎ (k ≤ j)
        → (taken used (candidate j) ≡ true) ⊎ (j < i) ⊎ (k ≤ j)
    earlier k h j (inl t) = inl t
    earlier k h j (inr (inr l)) = inr (inr l)
    earlier k h j (inr (inl l)) = elim (Bool-cases (ltb j i)) [
      | inl m ↦ inr (inl (ltb→lt _ _ m))
      | inr m ↦
          let same : i ≡ j = ground arith in
          inl (subst (λ (x : ℕ). taken used (candidate x) ≡ true) same h)
    ]

    go :
        (o : Option Text)
        → Searched candidate used (i + 1) (i + 1 + n) o
        → taken used (candidate i) ≡ true
        → Searched candidate used i (i + suc n) o
    go _ (lowest k a b c d) h = lowest k (omega arith) (omega arith) c (λ j. earlier k h j (d j))
    go _ (all_taken d) h =
        subst (λ (e : ℕ). Searched candidate used i e none) (omega arith)
          (all_taken (λ j. earlier (i + 1 + n) h j (d j)))

-- NextAvailableSubnet gives the first of 10.200.1.0/24 to 10.200.254.0/24 that no network has, and
-- fails exactly where all of them are taken.
pub next_available_subnet-Searched :
    (ms : List Mesh) → Searched subnet_candidate (subnets ms) 1 255 (next_available_subnet ms)
unfolding next_available_subnet
next_available_subnet-Searched ms = first_free-Searched subnet_candidate (subnets ms) 254 1

-- What the choice of an address in a subnet may give.
pub data Picked (mesh : ℕ) (subnet : Text) (ms : List MeshMember)
    : Outcome MeshError Text → Type 0 where
  unreadable : parse_cidr subnet ≡ none → Picked mesh subnet ms (err bad_subnet)
  full :
      (n : Network)
      → parse_cidr subnet ≡ some n
      → Searched (host_candidate n.address) (ips_of mesh ms) 2 255 none
      → Picked mesh subnet ms (err subnet_full)
  address :
      (n : Network) (ip : Text)
      → parse_cidr subnet ≡ some n
      → Searched (host_candidate n.address) (ips_of mesh ms) 2 255 (some ip)
      → Picked mesh subnet ms (ok ip)

-- The address that a new member of a network gets is the first of .2 to .254 that no member of the
-- network has; the choice fails exactly where the subnet does not parse or all of them are taken.
pub next_available_mesh_ip-Picked :
    (mesh : ℕ) (subnet : Text) (ms : List MeshMember)
    → Picked mesh subnet ms (next_available_mesh_ip mesh subnet ms)
unfolding next_available_mesh_ip chosen_ip
next_available_mesh_ip-Picked mesh subnet ms = go (parse_cidr subnet) refl
  where
    chosen :
        (n : Network) (o : Option Text)
        → parse_cidr subnet ≡ some n
        → Searched (host_candidate n.address) (ips_of mesh ms) 2 255 o
        → Picked mesh subnet ms (chosen_ip o)
    chosen n none e s = full n e s
    chosen n (some ip) e s = address n ip e s

    go :
        (o : Option Network)
        → parse_cidr subnet ≡ o
        → Picked mesh subnet ms (mesh_ip_in (ips_of mesh ms) o)
    go none e = unfold mesh_ip_in in unreadable e
    go (some n) e =
        unfold mesh_ip_in in
        chosen n _ e (first_free-Searched (host_candidate n.address) (ips_of mesh ms) 253 2)

pub Searched-free :
    (candidate : ℕ → Text) (used : List Text) (start end : ℕ) (ip : Text) {o : Option Text}
    → Searched candidate used start end o
    → o ≡ some ip
    → taken used ip ≡ false
Searched-free candidate used start end ip (lowest i a b c d) h =
    let same : candidate i ≡ ip = cc in subst (λ (t : Text). taken used t ≡ false) same c
Searched-free candidate used start end ip (all_taken d) h = cc

pub Picked-free :
    (mesh : ℕ) (subnet : Text) (ms : List MeshMember) (ip : Text) (o : Outcome MeshError Text)
    → Picked mesh subnet ms o
    → o ≡ ok ip
    → taken (ips_of mesh ms) ip ≡ false
Picked-free mesh subnet ms ip _ (unreadable e) h = cc
Picked-free mesh subnet ms ip _ (full n e s) h = cc
Picked-free mesh subnet ms ip _ (address n _ e s) h =
    Searched-free _ _ _ _ ip s (ap some (ok-injective {E = MeshError} h))
