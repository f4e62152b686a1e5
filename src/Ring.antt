-- ===== src/Ring.antt =====
-- ring.go and `findTargetNodes` of hydfs_operations.go: which node is responsible for which hashes.
pub mod Indices
pub mod Predecessor
pub mod Primary
pub mod Replicas
pub mod Collection
pub mod Agreement
use hydfs.Prelude.{
  ℕ, zero, suc, ◌+◌, ◌-◌, ◌%◌, Text, text_eq, Option, none, some, List, [], ◌∷◌, Bool, true, false,
  ◌&&◌, ◌||◌, not, Dict, length, get_elem?, ltb, leb, ◌==◌, if◌then◌else◌,
}
use hydfs.Member.{Member, member_id, is_alive}
use hydfs.Membership.{has_id}
use hydfs.Metadata.{FileMetadata}

-- a value, or a panic of the Go runtime
pub data Outcome {ℓ} (A : Type ℓ) : Type ℓ where
  returns : A → Outcome A
  panics : Outcome A

abbrev pub next_index : Option ℕ → Option ℕ
next_index none = none
next_index (some i) = some (suc i)

-- the first index at which a `range` loop stops
unfoldable pub find_index : (Member → Bool) → List Member → Option ℕ
find_index test [] = none
find_index test (m ∷ members) = if test m then some 0 else next_index (find_index test members)

-- -1 is `none`
unfoldable pub get_node_index : List Member → Text → Option ℕ
unfolding find_index
get_node_index members node_id = find_index (has_id node_id) members

unfoldable pub get_ring_successor_idx : ℕ → ℕ → ℕ → ℕ
get_ring_successor_idx idx step n = (idx + step) % n

-- `(idx - 1 + n) % n`, for a ring of `n` > 0 nodes
unfoldable pub get_ring_predecessor_idx : ℕ → ℕ → ℕ
get_ring_predecessor_idx idx n = (idx + n - 1) % n

abbrev pub alive_at : List Member → ℕ → Bool
alive_at members i = elim (get_elem? members i) [ none ↦ false | some m ↦ is_alive m ]

abbrev pub hash_at : List Member → ℕ → ℕ
hash_at members i = elim (get_elem? members i) [ none ↦ 0 | some m ↦ m.hash ]

-- the loop that looks for the nearest alive predecessor, with the rounds that are left
pub alive_predecessor : List Member → ℕ → ℕ → Option ℕ
unfolding get_ring_predecessor_idx
alive_predecessor members zero pred_idx = none
alive_predecessor members (suc rounds) pred_idx =
    let next = get_ring_predecessor_idx pred_idx (length members) in
    let further = alive_predecessor members rounds next in
    if alive_at members next then some next else further

abbrev range_from : List Member → ℕ → Option ℕ → Option (ℕ × ℕ)
range_from members my_idx none = none
range_from members my_idx (some pred_idx) = some (hash_at members pred_idx, hash_at members my_idx)

abbrev primary_range_at : List Member → Option ℕ → Option (ℕ × ℕ)
primary_range_at members none = none
primary_range_at members (some my_idx) =
    range_from members my_idx (alive_predecessor members (length members) my_idx)

-- The hash of the nearest alive predecessor and the own hash. An index is found only in a list
-- that is not empty, which makes the test `N == 0` of the source idle.
unfoldable pub get_primary_key_range : List Member → Text → Option (ℕ × ℕ)
unfolding get_node_index alive_predecessor
get_primary_key_range members node_id = primary_range_at members (get_node_index members node_id)

-- `members[i]` for the signed index `(my_idx - rf + n) % n`: Go's remainder of a negative number is
-- not positive, and a negative index panics.
back_by : List Member → ℕ → ℕ → Outcome ℕ
back_by members my_idx rf =
    let n = length members in
    if leb rf (my_idx + n)
    then returns ((my_idx + n - rf) % n)
    else if (rf - (my_idx + n)) % n == 0
    then returns 0
    else panics

abbrev all_range_from : List Member → ℕ → Outcome ℕ → Outcome (Option (ℕ × ℕ))
all_range_from members my_idx panics = panics
all_range_from members my_idx (returns pred_idx) =
    returns (some (hash_at members pred_idx, hash_at members my_idx))

abbrev all_range_at : List Member → ℕ → Option ℕ → Outcome (Option (ℕ × ℕ))
all_range_at members rf none = returns none
all_range_at members rf (some my_idx) = all_range_from members my_idx (back_by members my_idx rf)

unfoldable pub get_all_key_range : List Member → Text → ℕ → Outcome (Option (ℕ × ℕ))
unfolding get_node_index back_by
get_all_key_range members node_id replication_factor =
    all_range_at members replication_factor (get_node_index members node_id)

-- Is a hash in (start, end]? The range wraps around if its start is not below its end.
unfoldable pub is_hash_in_range : ℕ → ℕ → ℕ → Bool
is_hash_in_range file_hash start_range end_range =
    if ltb start_range end_range
    then ltb start_range file_hash && leb file_hash end_range
    else ltb start_range file_hash || leb file_hash end_range

unfoldable pub get_files_within_range : Dict FileMetadata → ℕ → ℕ → List Text
get_files_within_range [] start_range end_range = []
get_files_within_range ((name, meta) ∷ files) start_range end_range =
    let rest = get_files_within_range files start_range end_range in
    if ltb start_range end_range
    then (if ltb start_range meta.file_name_hash && leb meta.file_name_hash end_range
        then name ∷ rest
        else rest)
    else if ltb start_range meta.file_name_hash || leb meta.file_name_hash end_range
    then name ∷ rest
    else rest

abbrev pub when_alive : Option Member → List Member → List Member
when_alive none rest = rest
when_alive (some m) rest = if is_alive m then m ∷ rest else rest

-- the loop of `GetSuccessors`: `count` successors are found, `i` is the next step
pub successor_loop : List Member → ℕ → ℕ → ℕ → ℕ → ℕ → List Member
unfolding get_ring_successor_idx
successor_loop members my_idx n zero i count = []
successor_loop members my_idx n (suc rounds) i count =
    let idx = get_ring_successor_idx my_idx i (length members) in
    let found = alive_at members idx in
    let rest =
      successor_loop members my_idx n rounds (suc i) (if found then suc count else count) in
    if ltb count (n - 1) then when_alive (get_elem? members idx) rest else []

abbrev successors_at : List Member → ℕ → Option ℕ → List Member
successors_at members n none = []
successors_at members n (some my_idx) = successor_loop members my_idx n (length members - 1) 1 0

unfoldable pub get_successors : List Member → Text → ℕ → List Member
unfolding get_node_index successor_loop
get_successors members node_id n = successors_at members n (get_node_index members node_id)

-- `findTargetNodes`: the index of the primary node
unfoldable pub primary_index : List Member → ℕ → Option ℕ
unfolding find_index
primary_index members file_hash =
    elim (find_index (λ m. is_alive m && leb file_hash m.hash) members) [
      | some i ↦ some i
      | none ↦ find_index is_alive members
    ]

-- the loop over the primary and the positions after it
pub target_loop : List Member → ℕ → ℕ → ℕ → List Member
target_loop members primary zero i = []
target_loop members primary (suc rounds) i =
    when_alive (get_elem? members ((primary + i) % length members))
      (target_loop members primary rounds (suc i))

abbrev targets_from : List Member → ℕ → Option ℕ → List Member
targets_from members replication_factor none = []
targets_from members replication_factor (some primary) =
    target_loop members primary replication_factor 0

unfoldable pub find_target_nodes : List Member → ℕ → ℕ → List Member
unfolding primary_index target_loop
find_target_nodes members file_hash replication_factor =
    targets_from members replication_factor (primary_index members file_hash)

-- the loop of `handleReplicationWindowChange`, from step `i` on
pub window_loop : ℕ → ℕ → ℕ → ℕ → ℕ → Bool
unfolding get_ring_successor_idx get_ring_predecessor_idx
window_loop changed_idx my_idx n zero i = false
window_loop changed_idx my_idx n (suc rounds) i =
    (get_ring_successor_idx my_idx i n == changed_idx
      || get_ring_predecessor_idx my_idx n == changed_idx)
    || window_loop changed_idx my_idx n rounds (suc i)

abbrev in_window : ℕ → ℕ → Option ℕ → Option ℕ → Bool
in_window n rf none my = false
in_window n rf (some changed) none = false
in_window n rf (some changed) (some my) = window_loop changed my n (rf - 1) 1

-- Whether `handleReplicationWindowChange` goes on to stabilise the ring.
unfoldable pub needs_stabilization : List Member → ℕ → Text → Text → Bool
unfolding get_node_index window_loop
needs_stabilization members replication_factor own_id node_id =
    in_window (length members) replication_factor (get_node_index members node_id)
      (get_node_index members own_id)
