-- ===== src/Tests/Merging.antt =====
-- Merges, the list of members and the round robin at concrete inputs.
use mathlib.Core.List.{Perm}
use mathlib.Core.List.Perm
use hydfs.Prelude.{◌+◌, ◌≡◌, refl, codes, text_eq, some, List, [], ◌∷◌, inl, inr, arith}
use hydfs.Member.{Member, alive, member_id, voluntary_leave}
use hydfs.Member
use hydfs.Membership.{snapshot}
use hydfs.Membership.Identity.{find_member}
use hydfs.Server.{server_id, leave_group, increase_heartbeat}
use hydfs.Server.Lifecycle.{leave_reverted}
use hydfs.Merge.{merge_membership}
use hydfs.Merge.Told.{told_by}
use hydfs.Merge.Reports.{find_member-merge_membership}
use hydfs.Merge.Self.{IsAliveHere, merge_membership-own_alive}
use hydfs.Merge.Refutation.{merge_membership-refutes}
use hydfs.Gossip.{Selection, candidates}
use hydfs.Gossip.Turns.{selections, select_next_k_nodes-round}
use hydfs.Tests.Data.{
  ring_unique, suspecting, pinging, member, first, second_one, third, ring, second_suspect, server,
  third_server,
}

find_member-merge_membership_example :
    find_member
      (codes "b-7")
      (merge_membership suspecting 5 (second_suspect ∷ []) (codes "c-7") server).members
    ≡ told_by suspecting 5 (codes "c-7") (some second_suspect) (some second_one)
unfolding member_id server_id text_eq
find_member-merge_membership_example =
    find_member-merge_membership suspecting 5 (second_suspect ∷ []) (codes "c-7") server
      (codes "b-7") (inl refl) ring_unique (refl, tt) refl

merge_membership-own_alive_example :
    IsAliveHere
      (merge_membership suspecting 5
        (member (codes "a") 10 Member.dead 9 ∷ second_suspect ∷ [])
        (codes "c-7")
        server)
      (codes "a-7")
unfolding member_id server_id text_eq
merge_membership-own_alive_example =
    merge_membership-own_alive suspecting 5
      (member (codes "a") 10 Member.dead 9 ∷ second_suspect ∷ []) (codes "c-7") server {l = first}
      refl ring_unique refl refl ((λ e. inr (inr refl)), ((λ e. inr (inl refl)), tt))

abbrev accusation : List Member
accusation = second_one ∷ member (codes "a") 10 Member.suspect 1 ∷ third ∷ []

abbrev answer : List Member
answer = member (codes "a") 10 alive 2 ∷ second_one ∷ third ∷ []

merge_membership-refutes_example :
    let s' = merge_membership pinging 5 accusation (codes "c-7") server in
    let peer' = merge_membership suspecting 6 answer (codes "a-7") third_server in
    (s'.incarnation_number ≡ 1 + 1)
    × (l' : Member) × (find_member (codes "a-7") s'.members ≡ some l')
    × (l'.status ≡ alive)
    × (l'.incarnation ≡ s'.incarnation_number)
    × (k : Member) × (find_member (codes "a-7") peer'.members ≡ some k)
    × (k.status ≡ alive)
    × (k.incarnation ≡ s'.incarnation_number)
unfolding member_id server_id text_eq
merge_membership-refutes_example =
    merge_membership-refutes pinging 5 accusation (codes "c-7") server {l = first}
      {r = member (codes "a") 10 Member.suspect 1} suspecting 6 answer (codes "a-7") third_server
      {x = first} {h = member (codes "a") 10 alive 2} (inl refl) ring_unique
      (refl, (refl, (refl, tt))) refl refl refl refl (omega arith) (omega arith) refl ring_unique
      (refl, (refl, (refl, tt))) refl refl (inl refl) (omega arith) refl refl refl

leave_reverted_example :
    (left back : Member) × (find_member (codes "a-7") (leave_group 5 server).members ≡ some left)
    × (left.status ≡ voluntary_leave)
    × (find_member (codes "a-7") (increase_heartbeat suspecting 6 (leave_group 5 server)).members
        ≡ some back)
    × (back.status ≡ alive)
unfolding member_id server_id text_eq
leave_reverted_example = leave_reverted suspecting 5 6 server {l = first} (λ e. cc) ring_unique refl

abbrev half_way : Selection
half_way = record {
  node_order = codes "c-7" ∷ codes "b-7" ∷ [];
  current_pointer = 1;
  last_member_count = 2;
}

select_next_k_nodes-round_example :
    (selections (λ l. l) 1 (codes "a-7") (snapshot ring ∷ snapshot ring ∷ []) half_way
      ≡ some (codes "b-7" ∷ codes "c-7" ∷ [], half_way))
    × Perm (codes "b-7" ∷ codes "c-7" ∷ []) (codes "c-7" ∷ codes "b-7" ∷ [])
unfolding member_id text_eq snapshot candidates
select_next_k_nodes-round_example =
    select_next_k_nodes-round (λ l. l) (codes "a-7") (snapshot ring ∷ snapshot ring ∷ []) half_way
      refl ((omega arith, refl), ((omega arith, refl), tt)) (omega arith)
