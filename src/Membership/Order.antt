-- ===== src/Membership/Order.antt =====
-- The list of members stays sorted, and sorting loses and adds nobody.
use mathlib.Core.List.{Perm}
use mathlib.Core.List.Perm
use hydfs.Prelude.{◌≡◌, refl, List, [], ◌∷◌, ◌++◌, All, leb, ◌≤◌, arith, Bool-cases, inl, inr, Text}
use hydfs.Member.{Member, member_id}
use hydfs.Membership.{
  insert_by_hash, sort_by_hash, sort_nodes, add_or_update, replace_member, remove_member, contains,
  has_id,
}

-- Nobody stands before a member of a smaller hash.
abbrev pub IsSorted : List Member → Type 0
IsSorted [] = Unit
IsSorted (m ∷ nodes) = All (λ n. m.hash ≤ n.hash) nodes × IsSorted nodes

module _ (P : Member → Type 0) where
  pub insert_by_hash-All :
      (m : Member) (nodes : List Member) → P m → All P nodes → All P (insert_by_hash m nodes)
  unfolding insert_by_hash
  insert_by_hash-All m [] p h = (p, tt)
  insert_by_hash-All m (n ∷ nodes) p h = elim (Bool-cases (leb m.hash n.hash)) [
    | inl e ↦ rw e (p, h)
    | inr e ↦ rw e (h.0, insert_by_hash-All m nodes p h.1)
  ]

above-All :
    (m n : Member) (nodes : List Member)
    → m.hash ≤ n.hash
    → All (λ k. n.hash ≤ k.hash) nodes
    → All (λ k. m.hash ≤ k.hash) nodes
above-All m n [] h q = tt
above-All m n (k ∷ nodes) h q = (omega arith, above-All m n nodes h q.1)

insert_by_hash-IsSorted :
    (m : Member) (nodes : List Member) → IsSorted nodes → IsSorted (insert_by_hash m nodes)
unfolding insert_by_hash
insert_by_hash-IsSorted m [] h = (tt, tt)
insert_by_hash-IsSorted m (n ∷ nodes) h = elim (Bool-cases (leb m.hash n.hash)) [
  | inl e ↦ rw e ((ground arith, above-All m n nodes (ground arith) h.0), h)
  | inr e ↦ rw e (
    insert_by_hash-All (λ k. n.hash ≤ k.hash) m nodes (ground arith) h.0,
    insert_by_hash-IsSorted m nodes h.1,
  )
]

pub sort_by_hash-IsSorted : (nodes : List Member) → IsSorted (sort_by_hash nodes)
unfolding sort_by_hash
sort_by_hash-IsSorted [] = tt
sort_by_hash-IsSorted (m ∷ nodes) =
    insert_by_hash-IsSorted m (sort_by_hash nodes) (sort_by_hash-IsSorted nodes)

insert_by_hash-perm : (m : Member) (nodes : List Member) → Perm (insert_by_hash m nodes) (m ∷ nodes)
unfolding insert_by_hash
insert_by_hash-perm m [] = Perm.refl (m ∷ [])
insert_by_hash-perm m (n ∷ nodes) = elim (Bool-cases (leb m.hash n.hash)) [
  | inl e ↦ rw e (Perm.refl (m ∷ n ∷ nodes))
  | inr e ↦ rw e (Perm.trans (Perm.cons n (insert_by_hash-perm m nodes)) (Perm.swap m n nodes))
]

pub sort_by_hash-perm : (nodes : List Member) → Perm (sort_by_hash nodes) nodes
unfolding sort_by_hash
sort_by_hash-perm [] = Perm.refl []
sort_by_hash-perm (m ∷ nodes) =
    Perm.trans (insert_by_hash-perm m (sort_by_hash nodes)) (Perm.cons m (sort_by_hash-perm nodes))

-- The shortcut for short lists changes nothing.
pub sort_nodes_lem : (nodes : List Member) → sort_nodes nodes ≡ sort_by_hash nodes
unfolding sort_nodes sort_by_hash insert_by_hash
sort_nodes_lem [] = refl
sort_nodes_lem (m ∷ []) = refl
sort_nodes_lem (m ∷ n ∷ nodes) = refl

pub add_or_update-IsSorted : (m : Member) (nodes : List Member) → IsSorted (add_or_update m nodes)
unfolding add_or_update
add_or_update-IsSorted m nodes = elim (Bool-cases (contains (member_id m) nodes)) [
  | inl e ↦ rw (e, sort_nodes_lem) (sort_by_hash-IsSorted (replace_member m nodes))
  | inr e ↦ rw (e, sort_nodes_lem) (sort_by_hash-IsSorted (nodes ++ m ∷ []))
]

remove_member-All :
    (P : Member → Type 0) (id : Text) (nodes : List Member)
    → All P nodes
    → All P (remove_member id nodes)
unfolding remove_member
remove_member-All P id [] h = tt
remove_member-All P id (m ∷ nodes) h = elim (Bool-cases (has_id id m)) [
  | inl e ↦ rw e h.1
  | inr e ↦ rw e (h.0, remove_member-All P id nodes h.1)
]

pub remove_member-IsSorted :
    (id : Text) (nodes : List Member) → IsSorted nodes → IsSorted (remove_member id nodes)
unfolding remove_member
remove_member-IsSorted id [] h = tt
remove_member-IsSorted id (m ∷ nodes) h = elim (Bool-cases (has_id id m)) [
  | inl e ↦ rw e h.1
  | inr e ↦
      rw e
        (remove_member-All (λ n. m.hash ≤ n.hash) id nodes h.0, remove_member-IsSorted id nodes h.1)
]
