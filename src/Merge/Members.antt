-- ===== src/Merge/Members.antt =====
-- What a merge may do to the list of members, whatever message arrives.
use hydfs.Prelude.{
  ℕ, Text, text_eq, ◌≡◌, refl, List, [], ◌∷◌, true, ◌&&◌, Dict, lookup, leb, Bool-cases,
  Option-cases, inl, inr, arith,
}
use hydfs.Config.{Config, SuspicionType, suspect, no_suspect, other_suspicion}
use hydfs.Member.{Member, alive, dead, status_eq, member_id, zero_member}
use hydfs.Member
use hydfs.Membership.{add_or_update, snapshot, contains}
use hydfs.Membership.Order.{IsSorted, add_or_update-IsSorted}
use hydfs.Membership.Identity.{HasUniqueIds, add_or_update-HasUniqueIds, contains-add_or_update}
use hydfs.Server.{Server, server_id, handle_dead_node, handle_newly_joined_node}
use hydfs.Merge.{
  touch, is_gossip, store, refute, resolve, merge_known, merge_new, notice_failure, by_snapshot,
  merge_one, merge_each, merge_membership, handle_suspicion_merge,
}

pub members-handle_dead_node :
    (m : Member) (s : Server) → (handle_dead_node m s).members ≡ s.members
unfolding handle_dead_node
members-handle_dead_node m s = ground arith

pub members-handle_newly_joined_node :
    (m : Member) (s : Server) → (handle_newly_joined_node m s).members ≡ s.members
unfolding handle_newly_joined_node
members-handle_newly_joined_node m s = ground arith

pub members-notice_failure :
    (l r : Member) (s : Server) → (notice_failure l r s).members ≡ s.members
unfolding notice_failure
members-notice_failure l r s = ground (arith, members-handle_dead_node r s)

pub members-resolve :
    (t : SuspicionType) (c : Config) (now : ℕ) (sender : Text) (l r : Member) (s : Server)
    → (resolve t c now sender l r s).1.members ≡ s.members
unfolding resolve handle_suspicion_merge
members-resolve suspect c now sender l r s = ground (arith, members-handle_dead_node r s)
members-resolve no_suspect c now sender l r s = refl
members-resolve (other_suspicion t) c now sender l r s = refl

-- A merge changes the list by `AddOrUpdate` alone, so it keeps what that keeps.
module _ (P : List Member → Type 0)
    (keep : (m : Member) (nodes : List Member) → P nodes → P (add_or_update m nodes)) (c : Config)
    (now : ℕ) (sender : Text) where
  store_keeps :
      (l r : Member) (s : Server)
      → P s.members
      → P (store (resolve c.suspicion c now sender l r s)).members
  store_keeps l r s h = keep _ _ (rw (members-resolve c.suspicion c now sender l r s) h)

  refute_keeps : (l : Member) (s : Server) → P s.members → P (refute now l s).members
  unfolding refute
  refute_keeps l s h = keep _ _ h

  merge_known_keeps :
      (l r : Member) (s : Server) → P s.members → P (merge_known c now sender l r s).members
  unfolding merge_known
  merge_known_keeps l r s h = elim (Bool-cases (text_eq (member_id r) (server_id s))) [
    | inr other ↦ rw other (store_keeps l r s h)
    | inl own ↦
        elim (Bool-cases (
          status_eq r.status Member.suspect
          && status_eq l.status alive
          && leb l.incarnation r.incarnation)) [
            | inl accused ↦ rw (own, accused) (refute_keeps l s h)
            | inr fine ↦ elim (Bool-cases (status_eq r.status dead)) [
              | inl gone ↦ rw (own, fine, gone) h
              | inr live ↦ rw (own, fine, live) (store_keeps l r s h)
            ]
          ]
  ]

  merge_new_keeps : (r : Member) (s : Server) → P s.members → P (merge_new now r s).members
  unfolding merge_new
  merge_new_keeps r s h = elim (Bool-cases (status_eq r.status dead)) [
    | inl e ↦ rw e h
    | inr e ↦ rw (e, members-handle_newly_joined_node) (keep (touch now r) s.members h)
  ]

  pub merge_one_keeps :
      (local_snapshot : Dict Member) (r : Member) (s : Server)
      → P s.members
      → P (merge_one c now sender local_snapshot r s).members
  unfolding merge_one by_snapshot
  merge_one_keeps local_snapshot r s h =
      elim (Bool-cases (is_gossip c.protocol && status_eq r.status dead)) [
        | inl e ↦ rw e h
        | inr e ↦ elim (Option-cases (lookup (member_id r) local_snapshot)) [
          | inl n ↦ rw (e, n, by_snapshot) (merge_new_keeps r s h)
          | inr (l, q) ↦
              rw (e, q, by_snapshot)
                (merge_known_keeps l r (notice_failure l r s) (rw (members-notice_failure l r s) h))
        ]
      ]

  merge_each_keeps :
      (local_snapshot : Dict Member) (rs : List Member) (s : Server)
      → P s.members
      → P (merge_each c now sender local_snapshot rs s).members
  unfolding merge_each
  merge_each_keeps local_snapshot [] s h = h
  merge_each_keeps local_snapshot (r ∷ rs) s h =
      merge_each_keeps local_snapshot rs _ (merge_one_keeps local_snapshot r s h)

  pub merge_membership_keeps :
      (rs : List Member) (s : Server) → P s.members → P (merge_membership c now rs sender s).members
  unfolding merge_membership
  merge_membership_keeps rs s h = merge_each_keeps (snapshot s.members) rs s h

-- A list in which a node can be found: sorted by hash, and no ID twice.
pub record IsWellFormed (nodes : List Member) : Type 0 where
  pub sorted : IsSorted nodes
  pub unique : HasUniqueIds nodes

abbrev pub KeepsAll : List Member → List Member → Type 0
KeepsAll before nodes =
    IsWellFormed nodes × ((id : Text) → contains id before ≡ true → contains id nodes ≡ true)

-- Whatever list of members arrives, under every protocol and suspicion mode, a merge leaves the
-- node's own list sorted by hash and without repeated IDs, if it was so before, and forgets nobody.
pub merge_membership-IsWellFormed :
    (c : Config) (now : ℕ) (received : List Member) (sender : Text) (s : Server)
    → IsWellFormed s.members
    → KeepsAll s.members (merge_membership c now received sender s).members
merge_membership-IsWellFormed c now received sender s h =
    merge_membership_keeps (KeepsAll s.members)
      (λ m nodes k. (
        record {
          sorted = add_or_update-IsSorted m nodes;
          unique = add_or_update-HasUniqueIds m nodes k.0.unique;
        },
        (λ id e. ground (arith, contains-add_or_update id m nodes, k.1 id)),
      ))
      c now sender received s (h, (λ id e. e))
