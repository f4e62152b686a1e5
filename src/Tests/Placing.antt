-- ===== src/Tests/Placing.antt =====
-- Key ranges and target nodes at concrete inputs.
use mathlib.Core.List.{head?}
use mathlib.Core.List.Perm
use hydfs.Prelude.{
  List, map, ℕ, zero, suc, ◌≡◌, ◌≢◌, ◌<◌, ◌≤◌, refl, some, [], ◌∷◌, true, arith, All, length, ◌↔◌,
}
use hydfs.Prelude.Decimal.{pos}
use hydfs.Member
use hydfs.Member.{Member, is_alive, member_id}
use hydfs.Ring.{
  get_primary_key_range, is_hash_in_range, find_target_nodes, get_successors, get_all_key_range,
  primary_index, returns, alive_at,
}
use hydfs.Ring.Indices.{IsRing}
use hydfs.Ring.Primary.{is_hash_in_range_primary}
use hydfs.Ring.Replicas.{Extends, find_target_nodes-Extends, get_successors_lem}
use hydfs.Ring.Agreement.{HasDistinctHashes, place, find_target_nodes_agree}
use hydfs.Ring.Collection.{get_all_key_range_targets}
use hydfs.Tests.Data.{first, second_one, third, ring, ring_unique, ring-IsSorted}

ring-IsRing : IsRing ring
ring-IsRing = ((omega arith, (omega arith, tt)), ((omega arith, tt), (tt, tt)))

ring_all_alive : (j : ℕ) → j < length ring → alive_at ring j ≡ true
ring_all_alive zero l = refl
ring_all_alive (suc zero) l = refl
ring_all_alive (suc (suc zero)) l = refl
ring_all_alive (suc (suc (suc j))) l = absurd (omega arith)

is_hash_in_range_primary_example :
    (start end : ℕ) × (get_primary_key_range ring (member_id second_one) ≡ some (start, end))
    × ((is_hash_in_range 50 start end ≡ true)
        ↔ (head? (find_target_nodes ring 50 3) ≡ some second_one))
is_hash_in_range_primary_example =
    is_hash_in_range_primary ring 50 2 1 {m = second_one} ring-IsRing ring_unique refl refl

find_target_nodes-Extends_example :
    Extends
      (second_one ∷ get_successors ring (member_id second_one) 3)
      (find_target_nodes ring 50 3)
unfolding primary_index
find_target_nodes-Extends_example =
    find_target_nodes-Extends ring 50 2 1 {m = second_one} ring_unique (omega arith) refl refl refl

get_successors_lem_example :
    All
      (λ x. (is_alive x ≡ true) × (member_id x ≢ member_id second_one))
      (get_successors ring (member_id second_one) 3)
    × (length (get_successors ring (member_id second_one) 3) ≤ 2)
get_successors_lem_example =
    get_successors_lem ring 3 1 {m = second_one} ring_unique refl (omega arith)

get_all_key_range_targets_example :
    (start end : ℕ) × (get_all_key_range ring (member_id first) 3 ≡ returns (some (start, end)))
    × (is_hash_in_range 50 start end ≡ true)
unfolding primary_index
get_all_key_range_targets_example =
    get_all_key_range_targets ring 50 3 1 2 0 {m = first} ring-IsRing ring_unique ring_all_alive
      (omega arith) refl (omega arith) refl refl

-- The same three members, as another node may know them.
abbrev told : List Member
told = record first { heartbeat = 5 } ∷ second_one ∷ record third { incarnation = 3 } ∷ []

find_target_nodes_agree_example :
    map (λ m. m.address) (find_target_nodes ring 50 2)
    ≡ map (λ m. m.address) (find_target_nodes told 50 2)
find_target_nodes_agree_example =
    find_target_nodes_agree ring told 50 2 ring-IsSorted ring-IsSorted distinct distinct
      (Perm.refl (map place ring))
  where
    distinct : HasDistinctHashes ring
    distinct =
        (((λ e. omega arith), ((λ e. omega arith), tt)), (((λ e. omega arith), tt), (tt, tt)))

-- A node that came back with a new ID has the hash of its old entry. Which of the two stands first
-- decides how many targets a write has.
abbrev gone : Member
gone = record first { status = Member.dead; node_creation_timestamp = pos 3 }

order_of_equal_hashes :
    (find_target_nodes (gone ∷ first ∷ second_one ∷ []) 5 2 ≡ first ∷ second_one ∷ [])
    × (find_target_nodes (first ∷ gone ∷ second_one ∷ []) 5 2 ≡ first ∷ [])
unfolding find_target_nodes primary_index
order_of_equal_hashes = (refl, refl)
