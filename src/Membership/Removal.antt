-- ===== src/Membership/Removal.antt =====
-- What a removal leaves of the list.
use hydfs.Prelude.{
  Text, text_eq, text_eq_iff, ◌≡◌, refl, List, [], ◌∷◌, false, none, arith, if◌then◌else◌,
  Bool-cases, inl, inr,
}
use hydfs.Member.{Member, member_id}
use hydfs.Membership.{remove_member, contains, has_id}
use hydfs.Membership.Order.{IsSorted, remove_member-IsSorted}
use hydfs.Membership.Identity.{HasUniqueIds, find_member, find_of_not_contains}

remove_member-contains :
    (id j : Text) (nodes : List Member)
    → contains j nodes ≡ false
    → contains j (remove_member id nodes) ≡ false
unfolding remove_member
remove_member-contains id j [] h = refl
remove_member-contains id j (m ∷ nodes) h = ground (arith, remove_member-contains id j nodes)

remove_member-HasUniqueIds :
    (id : Text) (nodes : List Member) → HasUniqueIds nodes → HasUniqueIds (remove_member id nodes)
unfolding remove_member
remove_member-HasUniqueIds id [] u = tt
remove_member-HasUniqueIds id (m ∷ nodes) u = elim (Bool-cases (has_id id m)) [
  | inl e ↦ rw e u.1
  | inr e ↦
      rw e
        (remove_member-contains id (member_id m) nodes u.0, remove_member-HasUniqueIds id nodes u.1)
]

find_member-remove_member :
    (id j : Text) (nodes : List Member)
    → HasUniqueIds nodes
    → find_member j (remove_member id nodes) ≡ (if text_eq id j then none else find_member j nodes)
unfolding remove_member
find_member-remove_member id j [] u = ground arith
find_member-remove_member id j (m ∷ nodes) u = ground (
  arith,
  text_eq_iff id j,
  text_eq_iff (member_id m) id,
  text_eq_iff (member_id m) j,
  find_of_not_contains (member_id m) nodes u.0,
  find_member-remove_member id j nodes u.1,
)

-- After a removal nobody is found under the removed ID and all others are found as before; a list
-- that was sorted and without repeated IDs stays so.
remove_member_lem :
    (id j : Text) (nodes : List Member)
    → HasUniqueIds nodes
    → IsSorted nodes
    → (find_member j (remove_member id nodes)
        ≡ (if text_eq id j then none else find_member j nodes))
      × HasUniqueIds (remove_member id nodes)
      × IsSorted (remove_member id nodes)
remove_member_lem id j nodes u h = (
  find_member-remove_member id j nodes u,
  remove_member-HasUniqueIds id nodes u,
  remove_member-IsSorted id nodes h,
)
