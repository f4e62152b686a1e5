-- ===== src/Membership.antt =====
-- membership_list.go: the members that a node knows, in ascending order of their hashes.
pub mod Order
pub mod Identity
pub mod Removal
use hydfs.Prelude.{
  ℕ, Text, text_eq, List, [], ◌∷◌, ◌++◌, Bool, true, false, Dict, insert, select, leb, ltb,
  if◌then◌else◌,
}
use hydfs.Member.{Member, member_id, status_eq, suspect}

-- `sort.Slice` by hash. Go sorts up to twelve elements by this insertion sort; of longer slices
-- only the order of equal hashes may differ.
unfoldable pub insert_by_hash : Member → List Member → List Member
insert_by_hash m [] = m ∷ []
insert_by_hash m (n ∷ nodes) =
    if leb m.hash n.hash then m ∷ n ∷ nodes else n ∷ insert_by_hash m nodes

unfoldable pub sort_by_hash : List Member → List Member
unfolding insert_by_hash
sort_by_hash [] = []
sort_by_hash (m ∷ nodes) = insert_by_hash m (sort_by_hash nodes)

-- no need to sort an empty list or a single element
unfoldable pub sort_nodes : List Member → List Member
unfolding sort_by_hash
sort_nodes [] = []
sort_nodes (m ∷ []) = m ∷ []
sort_nodes (m ∷ n ∷ nodes) = sort_by_hash (m ∷ n ∷ nodes)

abbrev pub has_id : Text → Member → Bool
has_id id m = text_eq (member_id m) id

abbrev pub contains : Text → List Member → Bool
contains id nodes = elim nodes [
  | [] ↦ false
  | m ∷ (rest → found) ↦ if has_id id m then true else found
]

-- `ml.nodes[i] = member` for the first member of that ID
unfoldable pub replace_member : Member → List Member → List Member
replace_member member [] = []
replace_member member (m ∷ nodes) =
    if has_id (member_id member) m then member ∷ nodes else m ∷ replace_member member nodes

unfoldable pub add_or_update : Member → List Member → List Member
unfolding replace_member sort_nodes
add_or_update member nodes =
    if contains (member_id member) nodes
    then sort_nodes (replace_member member nodes)
    else sort_nodes (nodes ++ member ∷ [])

unfoldable pub remove_member : Text → List Member → List Member
remove_member id [] = []
remove_member id (m ∷ nodes) = if has_id id m then nodes else m ∷ remove_member id nodes

snapshot_from : Dict Member → List Member → Dict Member
unfolding insert
snapshot_from cp [] = cp
snapshot_from cp (m ∷ nodes) = snapshot_from (insert (member_id m) m cp) nodes

unfoldable pub snapshot : List Member → Dict Member
unfolding snapshot_from
snapshot nodes = snapshot_from [] nodes

unfoldable pub get_suspected_nodes : List Member → List Member
unfolding status_eq
get_suspected_nodes nodes = select (λ m. status_eq m.status suspect) nodes

-- a copy of the list
abbrev pub get_all : List Member → List Member
get_all nodes = nodes
