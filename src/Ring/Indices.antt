-- ===== src/Ring/Indices.antt =====
-- Positions in the sorted list of members.
use hydfs.Prelude.{
  ℕ, zero, suc, ◌<◌, text_eq_iff, text_eq_refl, ◌≡◌, refl, Option, none, some, List, [], ◌∷◌, Bool,
  true, false, length, get_elem?, All, Bool-cases, inl, inr, arith,
}
use hydfs.Member.{Member, member_id, is_alive}
use hydfs.Membership.{contains}
use hydfs.Membership.Identity.{HasUniqueIds}
use hydfs.Ring.{find_index, next_index, get_node_index, alive_at, hash_at}

-- Sorted by hash, and no hash twice.
abbrev pub IsRing : List Member → Type 0
IsRing [] = Unit
IsRing (m ∷ members) = All (λ n. m.hash < n.hash) members × IsRing members

hash_above :
    (h : ℕ) (members : List Member) (j : ℕ)
    → All (λ n. h < n.hash) members
    → j < length members
    → h < hash_at members j
hash_above h [] j a l = absurd (omega arith)
hash_above h (m ∷ members) zero a l = a.0
hash_above h (m ∷ members) (suc j) a l = hash_above h members j a.1 (omega arith)

pub hash_at_mono :
    (members : List Member) (i j : ℕ)
    → IsRing members
    → i < j
    → j < length members
    → hash_at members i < hash_at members j
hash_at_mono [] i j r l b = absurd (omega arith)
hash_at_mono (m ∷ members) zero zero r l b = absurd (omega arith)
hash_at_mono (m ∷ members) zero (suc j) r l b = hash_above m.hash members j r.0 (omega arith)
hash_at_mono (m ∷ members) (suc i) zero r l b = absurd (omega arith)
hash_at_mono (m ∷ members) (suc i) (suc j) r l b =
    hash_at_mono members i j r.1 (omega arith) (omega arith)

pub alive_at-lt : (members : List Member) (i : ℕ) → alive_at members i ≡ true → i < length members
alive_at-lt [] i h = cc
alive_at-lt (m ∷ members) zero h = omega arith
alive_at-lt (m ∷ members) (suc i) h = omega (arith, alive_at-lt members i h)

pub alive_at-get :
    (members : List Member) (i : ℕ) {m : Member}
    → get_elem? members i ≡ some m
    → is_alive m ≡ true
    → alive_at members i ≡ true
alive_at-get members i e a = ground arith

pub get_elem?_alive :
    (members : List Member) (i : ℕ)
    → alive_at members i ≡ true
    → (m : Member) × (get_elem? members i ≡ some m) × (is_alive m ≡ true)
get_elem?_alive [] i h = cc
get_elem?_alive (m ∷ members) zero h = (m, refl, h)
get_elem?_alive (m ∷ members) (suc i) h = get_elem?_alive members i h

pub get_elem?-lt :
    (members : List Member) (i : ℕ)
    → i < length members
    → (m : Member) × (get_elem? members i ≡ some m)
get_elem?-lt [] i h = absurd (omega arith)
get_elem?-lt (m ∷ members) zero h = (m, refl)
get_elem?-lt (m ∷ members) (suc i) h = get_elem?-lt members i (omega arith)

-- what a test says of the member at an index
abbrev pub test_at : (Member → Bool) → List Member → ℕ → Bool
test_at test members i = elim (get_elem? members i) [ none ↦ false | some m ↦ test m ]

abbrev pub Finds : (Member → Bool) → List Member → Option ℕ → Type 0
Finds test members none = (i : ℕ) → test_at test members i ≡ false
Finds test members (some p) =
    (test_at test members p ≡ true) × ((i : ℕ) → i < p → test_at test members i ≡ false)

Finds-next :
    (test : Member → Bool) (m : Member) (members : List Member) (o : Option ℕ)
    → test m ≡ false
    → Finds test members o
    → Finds test (m ∷ members) (next_index o)
Finds-next test m members none h f = nowhere
  where
    nowhere : (i : ℕ) → test_at test (m ∷ members) i ≡ false
    nowhere zero = h
    nowhere (suc i) = f i
Finds-next test m members (some p) h f = (f.0, before)
  where
    before : (i : ℕ) → i < suc p → test_at test (m ∷ members) i ≡ false
    before zero l = h
    before (suc i) l = f.1 i (omega arith)

pub find_index-Finds :
    (test : Member → Bool) (members : List Member) → Finds test members (find_index test members)
unfolding find_index
find_index-Finds test [] = λ i. refl
find_index-Finds test (m ∷ members) = elim (Bool-cases (test m)) [
  | inl e ↦ rw e (e, (λ i l. absurd (omega arith)))
  | inr e ↦
      rw e (Finds-next test m members (find_index test members) e (find_index-Finds test members))
]

pub contains-at :
    (members : List Member) (p : ℕ) {m : Member}
    → get_elem? members p ≡ some m
    → contains (member_id m) members ≡ true
contains-at [] p e = cc
contains-at (n ∷ members) zero {m} e = ground (arith, text_eq_refl (member_id n))
contains-at (n ∷ members) (suc p) {m} e = ground (arith, contains-at members p {m = m} e)

-- a node is found at its own index
pub get_node_index-at :
    (members : List Member) (p : ℕ) {m : Member}
    → HasUniqueIds members
    → get_elem? members p ≡ some m
    → get_node_index members (member_id m) ≡ some p
unfolding get_node_index find_index
get_node_index-at [] p u e = cc
get_node_index-at (n ∷ members) zero u e = ground (arith, text_eq_refl (member_id n))
get_node_index-at (n ∷ members) (suc p) {m} u e = ground (
  arith,
  get_node_index-at members p {m = m} u.1 e,
  text_eq_iff (member_id n) (member_id m),
  contains-at members p {m = m} e,
)
