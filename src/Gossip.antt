-- ===== src/Gossip.antt =====
-- protocols.go: whom a node gossips with or pings, in turn, and what it tells them.
pub mod Turns
pub mod Rounds
pub mod Switching
pub mod Schedule
pub mod Members
pub mod Requests
pub mod Reachable
use hydfs.Prelude.{
  ℕ, zero, suc, ◌+◌, ◌%◌, ◌<◌, Text, text_eq, Option, none, some, List, [], ◌∷◌, Bool, true, false,
  ◌&&◌, ◌||◌, not, Dict, length, get_elem?, ltb, ◌==◌, if◌then◌else◌, map,
}
use hydfs.Member.{Member, member_id, status_eq, dead, zero_member}

-- The global variables of the round robin.
pub record Selection : Type 0 where
  pub node_order : List Text
  pub current_pointer : ℕ
  pub last_member_count : ℕ

abbrev pub no_selection : Selection
no_selection = record { node_order = []; current_pointer = 0; last_member_count = 0 }

-- The other nodes of the snapshot that are not dead. Go ranges over a map in any order, and the
-- order is shuffled before it is used.
unfoldable pub candidates : Text → Dict Member → List Text
unfolding text_eq member_id status_eq
candidates self [] = []
candidates self ((node_id, m) ∷ snapshot) =
    let rest = candidates self snapshot in
    if not (text_eq node_id self) && not (status_eq m.status dead) then member_id m ∷ rest else rest

abbrev in_front : Text → Option (List Text × ℕ) → Option (List Text × ℕ)
in_front node none = none
in_front node (some (nodes, pointer)) = some (node ∷ nodes, pointer)

-- The loop over `k` picks, with the pointer that it leaves; `none` is an index out of range.
unfoldable pub picks : List Text → ℕ → ℕ → Option (List Text × ℕ)
picks node_order zero pointer = some ([], pointer)
picks node_order (suc k) pointer =
    let rest = picks node_order k ((pointer + 1) % length node_order) in
    elim (get_elem? node_order pointer) [ none ↦ none | some node ↦ in_front node rest ]

abbrev with_pointer : Selection → Option (List Text × ℕ) → Option (List Text × Selection)
with_pointer st none = none
with_pointer st (some (nodes, pointer)) = some (nodes, record st { current_pointer = pointer })

abbrev pick_from : ℕ → Selection → Option (List Text × Selection)
pick_from k st =
    let n = length st.node_order in
    with_pointer st (picks st.node_order (if ltb n k then n else k) st.current_pointer)

-- the order is made anew if the number of candidates changed
refresh : (List Text → List Text) → List Text → Selection → Selection
refresh shuffle found st =
    if not (length found == st.last_member_count) || length st.node_order == 0
    then record {
      node_order = shuffle found;
      current_pointer = 0;
      last_member_count = length found;
    }
    else st

select_among : (List Text → List Text) → ℕ → List Text → Selection → Option (List Text × Selection)
unfolding refresh picks
select_among shuffle k [] st = some ([], st)
select_among shuffle k (node ∷ nodes) st = pick_from k (refresh shuffle (node ∷ nodes) st)

-- `rand.Shuffle` is the parameter `shuffle`.
unfoldable pub select_next_k_nodes :
    (List Text → List Text) → ℕ → Text → Dict Member → Selection → Option (List Text × Selection)
unfolding select_among candidates
select_next_k_nodes shuffle k self snapshot st =
    select_among shuffle k (candidates self snapshot) st

-- What a node says of a member, to gossip with and to ping with.
abbrev optimized_gossip : Member → Member
optimized_gossip m = record m { last_updated = 0 }

abbrev optimized_ping : Member → Member
optimized_ping m = record m { heartbeat = 0; last_updated = 0 }

unfoldable pub gossip_list : Dict Member → List Member
gossip_list snapshot = map (λ e. optimized_gossip (e.1)) snapshot

unfoldable pub ping_list : Dict Member → List Member
ping_list snapshot = map (λ e. optimized_ping (e.1)) snapshot
