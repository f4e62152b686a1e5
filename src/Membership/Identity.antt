-- ===== src/Membership/Identity.antt =====
-- Members are found by their IDs, and no ID stands twice in the list.
use hydfs.Prelude.{
  Text, text_eq_iff, ◌≡◌, refl, List, [], ◌∷◌, ◌++◌, true, false, ◌||◌, Option, none, some, lookup,
  lookup-insert, insert, Dict, arith, if◌then◌else◌, Bool-cases, inl, inr, leb,
}
use hydfs.Member.{Member, member_id}
use hydfs.Membership.{
  insert_by_hash, sort_by_hash, add_or_update, replace_member, contains, has_id, snapshot,
  snapshot_from,
}
use hydfs.Membership.Order.{sort_nodes_lem, IsSorted, add_or_update-IsSorted}

-- the first member of an ID
abbrev pub find_member : Text → List Member → Option Member
find_member id [] = none
find_member id (m ∷ nodes) = if has_id id m then some m else find_member id nodes

abbrev pub HasUniqueIds : List Member → Type 0
HasUniqueIds [] = Unit
HasUniqueIds (m ∷ nodes) = (contains (member_id m) nodes ≡ false) × HasUniqueIds nodes

pub find_member-id :
    (id : Text) (nodes : List Member) {m : Member}
    → find_member id nodes ≡ some m
    → member_id m ≡ id
find_member-id id [] e = cc
find_member-id id (n ∷ nodes) {m} e =
    ground (arith, text_eq_iff (member_id n) id, find_member-id id nodes {m = m})

contains-insert_by_hash :
    (id : Text) (m : Member) (nodes : List Member)
    → contains id (insert_by_hash m nodes) ≡ (has_id id m || contains id nodes)
unfolding insert_by_hash
contains-insert_by_hash id m [] = ground arith
contains-insert_by_hash id m (n ∷ nodes) = ground (arith, contains-insert_by_hash id m nodes)

pub contains-sort_by_hash :
    (id : Text) (nodes : List Member) → contains id (sort_by_hash nodes) ≡ contains id nodes
unfolding sort_by_hash
contains-sort_by_hash id [] = refl
contains-sort_by_hash id (m ∷ nodes) =
    ground
      (arith, contains-insert_by_hash id m (sort_by_hash nodes), contains-sort_by_hash id nodes)

find_member-insert_by_hash :
    (id : Text) (m : Member) (nodes : List Member)
    → contains (member_id m) nodes ≡ false
    → find_member id (insert_by_hash m nodes)
      ≡ (if has_id id m then some m else find_member id nodes)
unfolding insert_by_hash
find_member-insert_by_hash id m [] h = refl
find_member-insert_by_hash id m (n ∷ nodes) h = ground (
  arith,
  find_member-insert_by_hash id m nodes,
  text_eq_iff (member_id m) id,
  text_eq_iff (member_id n) id,
  text_eq_iff (member_id n) (member_id m),
)

pub find_member-sort_by_hash :
    (id : Text) (nodes : List Member)
    → HasUniqueIds nodes
    → find_member id (sort_by_hash nodes) ≡ find_member id nodes
unfolding sort_by_hash
find_member-sort_by_hash id [] h = refl
find_member-sort_by_hash id (m ∷ nodes) h = ground (
  arith,
  find_member-insert_by_hash id m (sort_by_hash nodes),
  contains-sort_by_hash (member_id m) nodes,
  find_member-sort_by_hash id nodes,
)

insert_by_hash-HasUniqueIds :
    (m : Member) (nodes : List Member)
    → contains (member_id m) nodes ≡ false
    → HasUniqueIds nodes
    → HasUniqueIds (insert_by_hash m nodes)
unfolding insert_by_hash
insert_by_hash-HasUniqueIds m [] h u = (refl, tt)
insert_by_hash-HasUniqueIds m (n ∷ nodes) h u = elim (Bool-cases (leb m.hash n.hash)) [
  | inl e ↦ rw e (h, u)
  | inr e ↦ rw e (
    ground (
      arith,
      contains-insert_by_hash (member_id n) m nodes,
      text_eq_iff (member_id m) (member_id n),
      text_eq_iff (member_id n) (member_id m),
    ),
    insert_by_hash-HasUniqueIds m nodes (ground arith) u.1,
  )
]

pub sort_by_hash-HasUniqueIds :
    (nodes : List Member) → HasUniqueIds nodes → HasUniqueIds (sort_by_hash nodes)
unfolding sort_by_hash
sort_by_hash-HasUniqueIds [] u = tt
sort_by_hash-HasUniqueIds (m ∷ nodes) u =
    insert_by_hash-HasUniqueIds m (sort_by_hash nodes)
      (ground (arith, contains-sort_by_hash (member_id m) nodes))
      (sort_by_hash-HasUniqueIds nodes u.1)

contains-replace_member :
    (id : Text) (m : Member) (nodes : List Member)
    → contains id (replace_member m nodes) ≡ contains id nodes
unfolding replace_member
contains-replace_member id m [] = refl
contains-replace_member id m (n ∷ nodes) = ground (
  arith,
  contains-replace_member id m nodes,
  text_eq_iff (member_id m) id,
  text_eq_iff (member_id n) id,
  text_eq_iff (member_id n) (member_id m),
)

find_member-replace_member :
    (id : Text) (m : Member) (nodes : List Member)
    → contains (member_id m) nodes ≡ true
    → find_member id (replace_member m nodes)
      ≡ (if has_id id m then some m else find_member id nodes)
unfolding replace_member
find_member-replace_member id m [] h = cc
find_member-replace_member id m (n ∷ nodes) h = ground (
  arith,
  find_member-replace_member id m nodes,
  text_eq_iff (member_id m) id,
  text_eq_iff (member_id n) id,
  text_eq_iff (member_id n) (member_id m),
)

replace_member-HasUniqueIds :
    (m : Member) (nodes : List Member) → HasUniqueIds nodes → HasUniqueIds (replace_member m nodes)
unfolding replace_member
replace_member-HasUniqueIds m [] u = tt
replace_member-HasUniqueIds m (n ∷ nodes) u = elim (Bool-cases (has_id (member_id m) n)) [
  | inl e ↦ rw e (rw (← (text_eq_iff (member_id n) (member_id m)).0 e) u.0, u.1)
  | inr e ↦ rw e (
    ground (arith, contains-replace_member (member_id n) m nodes),
    replace_member-HasUniqueIds m nodes u.1,
  )
]

contains-append :
    (id : Text) (nodes : List Member) (m : Member)
    → contains id (nodes ++ m ∷ []) ≡ (contains id nodes || has_id id m)
contains-append id [] m = ground arith
contains-append id (n ∷ nodes) m = ground (arith, contains-append id nodes m)

find_member-append :
    (id : Text) (nodes : List Member) (m : Member)
    → contains (member_id m) nodes ≡ false
    → find_member id (nodes ++ m ∷ []) ≡ (if has_id id m then some m else find_member id nodes)
find_member-append id [] m h = refl
find_member-append id (n ∷ nodes) m h = ground (
  arith,
  find_member-append id nodes m,
  text_eq_iff (member_id m) id,
  text_eq_iff (member_id n) id,
  text_eq_iff (member_id n) (member_id m),
)

append-HasUniqueIds :
    (nodes : List Member) (m : Member)
    → contains (member_id m) nodes ≡ false
    → HasUniqueIds nodes
    → HasUniqueIds (nodes ++ m ∷ [])
append-HasUniqueIds [] m h u = (refl, tt)
append-HasUniqueIds (n ∷ nodes) m h u = (
  ground (
    arith,
    contains-append (member_id n) nodes m,
    text_eq_iff (member_id m) (member_id n),
    text_eq_iff (member_id n) (member_id m),
  ),
  append-HasUniqueIds nodes m (ground arith) u.1,
)

pub add_or_update-HasUniqueIds :
    (m : Member) (nodes : List Member) → HasUniqueIds nodes → HasUniqueIds (add_or_update m nodes)
unfolding add_or_update
add_or_update-HasUniqueIds m nodes u = elim (Bool-cases (contains (member_id m) nodes)) [
  | inl e ↦
      rw (e, sort_nodes_lem)
        (sort_by_hash-HasUniqueIds (replace_member m nodes) (replace_member-HasUniqueIds m nodes u))
  | inr e ↦
      rw (e, sort_nodes_lem)
        (sort_by_hash-HasUniqueIds (nodes ++ m ∷ []) (append-HasUniqueIds nodes m e u))
]

pub find_member-add_or_update :
    (id : Text) (m : Member) (nodes : List Member)
    → HasUniqueIds nodes
    → find_member id (add_or_update m nodes)
      ≡ (if has_id id m then some m else find_member id nodes)
unfolding add_or_update
find_member-add_or_update id m nodes u = elim (Bool-cases (contains (member_id m) nodes)) [
  | inl e ↦
      rw
        (
          e,
          sort_nodes_lem,
          find_member-sort_by_hash id (replace_member m nodes)
              (replace_member-HasUniqueIds m nodes u),
        )
        (find_member-replace_member id m nodes e)
  | inr e ↦
      rw
        (
          e,
          sort_nodes_lem,
          find_member-sort_by_hash id (nodes ++ m ∷ []) (append-HasUniqueIds nodes m e u),
        )
        (find_member-append id nodes m e)
]

pub find_of_not_contains :
    (id : Text) (nodes : List Member) → contains id nodes ≡ false → find_member id nodes ≡ none
find_of_not_contains id [] h = refl
find_of_not_contains id (n ∷ nodes) h = ground (arith, find_of_not_contains id nodes)

lookup-snapshot_from :
    (id : Text) (cp : Dict Member) (nodes : List Member)
    → HasUniqueIds nodes
    → lookup id (snapshot_from cp nodes)
      ≡ (if contains id nodes then find_member id nodes else lookup id cp)
unfolding snapshot_from
lookup-snapshot_from id cp [] u = refl
lookup-snapshot_from id cp (m ∷ nodes) u = ground (
  arith,
  lookup-snapshot_from id (insert (member_id m) m cp) nodes u.1,
  lookup-insert (member_id m) id m cp,
  text_eq_iff (member_id m) id,
)

-- In a list without repeated IDs the snapshot holds each member under its ID, and nobody else.
pub lookup-snapshot :
    (id : Text) (nodes : List Member)
    → HasUniqueIds nodes
    → lookup id (snapshot nodes) ≡ find_member id nodes
unfolding snapshot lookup
lookup-snapshot id nodes u =
    ground (arith, lookup-snapshot_from id [] nodes u, find_of_not_contains id nodes)

pub contains-add_or_update :
    (id : Text) (m : Member) (nodes : List Member)
    → contains id (add_or_update m nodes) ≡ (has_id id m || contains id nodes)
unfolding add_or_update
contains-add_or_update id m nodes = ground (
  arith,
  sort_nodes_lem (replace_member m nodes),
  sort_nodes_lem (nodes ++ m ∷ []),
  contains-sort_by_hash id (replace_member m nodes),
  contains-sort_by_hash id (nodes ++ m ∷ []),
  contains-replace_member id m nodes,
  contains-append id nodes m,
  text_eq_iff (member_id m) id,
)

-- After a node is added or updated, it is the one found under its ID, and all others are found as
-- before; the list is sorted by hash and has no ID twice, if it had none before.
pub add_or_update_lem :
    (id : Text) (m : Member) (nodes : List Member)
    → HasUniqueIds nodes
    → (find_member id (add_or_update m nodes)
        ≡ (if has_id id m then some m else find_member id nodes))
      × HasUniqueIds (add_or_update m nodes)
      × IsSorted (add_or_update m nodes)
add_or_update_lem id m nodes u = (
  find_member-add_or_update id m nodes u,
  add_or_update-HasUniqueIds m nodes u,
  add_or_update-IsSorted m nodes,
)
