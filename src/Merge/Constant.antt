-- ===== src/Merge/Constant.antt =====
-- A merge never changes who the node is.
use hydfs.Prelude.{
  ℕ, Text, ◌≡◌, refl, ◌∙◌, List, [], ◌∷◌, Dict, lookup, Option-cases, inl, inr, arith,
}
use hydfs.Config.{Config, SuspicionType, suspect, no_suspect, other_suspicion}
use hydfs.Member.{Member, member_id}
use hydfs.Membership.{add_or_update, snapshot}
use hydfs.Server.{Server, server_id, handle_dead_node, handle_newly_joined_node}
use hydfs.Merge.{
  touch, store, resolve, merge_known, merge_new, notice_failure, by_snapshot, merge_one, merge_each,
  merge_membership, handle_suspicion_merge, refute,
}

id-handle_dead_node : (m : Member) (s : Server) → server_id (handle_dead_node m s) ≡ server_id s
unfolding handle_dead_node server_id
id-handle_dead_node m s = ground arith

id-handle_newly_joined_node :
    (m : Member) (s : Server) → server_id (handle_newly_joined_node m s) ≡ server_id s
unfolding handle_newly_joined_node server_id
id-handle_newly_joined_node m s = ground arith

pub id-notice_failure : (l r : Member) (s : Server) → server_id (notice_failure l r s) ≡ server_id s
unfolding notice_failure
id-notice_failure l r s = ground (arith, id-handle_dead_node r s)

id-resolve :
    (t : SuspicionType) (c : Config) (now : ℕ) (sender : Text) (l r : Member) (s : Server)
    → server_id (store (resolve t c now sender l r s)) ≡ server_id s
unfolding resolve handle_suspicion_merge server_id
id-resolve suspect c now sender l r s = ground (arith, id-handle_dead_node r s)
id-resolve no_suspect c now sender l r s = refl
id-resolve (other_suspicion t) c now sender l r s = refl

id-refute : (now : ℕ) (l : Member) (s : Server) → server_id (refute now l s) ≡ server_id s
unfolding refute server_id
id-refute now l s = refl

module _ (c : Config) (now : ℕ) (sender : Text) where
  id-merge_known :
      (l r : Member) (s : Server) → server_id (merge_known c now sender l r s) ≡ server_id s
  unfolding merge_known
  id-merge_known l r s =
      ground (arith, id-resolve c.suspicion c now sender l r s, id-refute now l s)

  id-merge_new : (r : Member) (s : Server) → server_id (merge_new now r s) ≡ server_id s
  unfolding merge_new server_id
  id-merge_new r s = ground (
    arith,
    id-handle_newly_joined_node (touch now r)
        (record s { members = add_or_update (touch now r) s.members }),
  )

  pub id-merge_one :
      (snap : Dict Member) (r : Member) (s : Server)
      → server_id (merge_one c now sender snap r s) ≡ server_id s
  unfolding merge_one
  id-merge_one snap r s = elim (Option-cases (lookup (member_id r) snap)) [
    | inl n ↦ rw (n, merge_one, by_snapshot) (ground (arith, id-merge_new r s))
    | inr (l, q) ↦
        rw (q, merge_one, by_snapshot)
          (ground (arith, id-merge_known l r (notice_failure l r s), id-notice_failure l r s))
  ]

  id-merge_each :
      (snap : Dict Member) (rs : List Member) (s : Server)
      → server_id (merge_each c now sender snap rs s) ≡ server_id s
  unfolding merge_each
  id-merge_each snap [] s = refl
  id-merge_each snap (r ∷ rs) s = id-merge_each snap rs _ ∙ id-merge_one snap r s

  pub id-merge_membership :
      (rs : List Member) (s : Server) → server_id (merge_membership c now rs sender s) ≡ server_id s
  unfolding merge_membership
  id-merge_membership rs s = id-merge_each (snapshot s.members) rs s
