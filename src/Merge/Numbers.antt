-- ===== src/Merge/Numbers.antt =====
-- A merge changes the incarnation number of a node only where the node refutes.
use hydfs.Prelude.{ℕ, Text, ◌≡◌, refl, arith}
use hydfs.Config.{Config, SuspicionType, suspect, no_suspect, other_suspicion}
use hydfs.Member.{Member}
use hydfs.Membership.{add_or_update}
use hydfs.Server.{Server, handle_dead_node, handle_newly_joined_node}
use hydfs.Merge.{touch, store, resolve, merge_new, notice_failure, handle_suspicion_merge}

number-handle_dead_node :
    (m : Member) (s : Server) → (handle_dead_node m s).incarnation_number ≡ s.incarnation_number
unfolding handle_dead_node
number-handle_dead_node m s = ground arith

number-handle_newly_joined_node :
    (m : Member) (s : Server)
    → (handle_newly_joined_node m s).incarnation_number ≡ s.incarnation_number
unfolding handle_newly_joined_node
number-handle_newly_joined_node m s = ground arith

pub number-notice_failure :
    (l r : Member) (s : Server) → (notice_failure l r s).incarnation_number ≡ s.incarnation_number
unfolding notice_failure
number-notice_failure l r s = ground (arith, number-handle_dead_node r s)

pub number-resolve :
    (t : SuspicionType) (c : Config) (now : ℕ) (sender : Text) (l r : Member) (s : Server)
    → (store (resolve t c now sender l r s)).incarnation_number ≡ s.incarnation_number
unfolding resolve handle_suspicion_merge
number-resolve suspect c now sender l r s = ground (arith, number-handle_dead_node r s)
number-resolve no_suspect c now sender l r s = refl
number-resolve (other_suspicion t) c now sender l r s = refl

pub number-merge_new :
    (now : ℕ) (r : Member) (s : Server)
    → (merge_new now r s).incarnation_number ≡ s.incarnation_number
unfolding merge_new
number-merge_new now r s = ground (
  arith,
  number-handle_newly_joined_node (touch now r)
      (record s { members = add_or_update (touch now r) s.members }),
)
