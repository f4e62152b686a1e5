-- ===== src/Merge/Self.antt =====
-- What a merge makes of the node's own entry.
use hydfs.Prelude.{
  ℕ, Text, text_eq_iff, text_eq_refl, ◌≡◌, refl, sym, subst, ap, ◌∙◌, Option, none, some, List, [],
  ◌∷◌, true, false, ◌&&◌, Dict, lookup, leb, if◌then◌else◌, Bool-cases, inl, inr, ◌⊎◌, arith, All,
}
use hydfs.Config.{Config, suspect}
use hydfs.Member.{Member, Status, alive, dead, status_eq, member_id}
use hydfs.Member
use hydfs.Membership.{snapshot, has_id}
use hydfs.Membership.Identity.{
  HasUniqueIds, find_member, find_member-add_or_update, lookup-snapshot, add_or_update-HasUniqueIds,
}
use hydfs.Server.{Server, server_id}
use hydfs.Merge.{
  is_gossip, store, resolve, merge_known, notice_failure, by_snapshot, merge_one, merge_each,
  merge_membership, live_suspicion_merge, same_incarnation, same_status, prefer_status,
  compare_status,
}
use hydfs.Merge.Constant.{id-notice_failure, id-merge_one}
use hydfs.Merge.Members.{members-notice_failure, members-resolve, merge_one_keeps}
use hydfs.Merge.Told.{chosen, merge_one_lem, resolve-chosen, chosen-id}
use hydfs.Membership.Identity.{find_member-id}
use hydfs.Merge.Reports.{find-merge_new, members-refute, refuted, refuted-id, find-refute}

-- what a failure detector reports; a node says of itself when it leaves
abbrev pub IsDetected : Status → Type 0
IsDetected s = (s ≡ alive) ⊎ ((s ≡ Member.suspect) ⊎ (s ≡ dead))

abbrev pub IsAliveHere : Server → Text → Type 0
IsAliveHere s id = (l : Member) × (find_member id s.members ≡ some l) × (l.status ≡ alive)

-- the choice for an own entry that is not refuted
chosen_alive :
    (c : Config) (now : ℕ) (sender : Text) (l r : Member)
    → c.suspicion ≡ suspect
    → l.status ≡ alive
    → IsDetected r.status
    → status_eq r.status dead ≡ false
    → (status_eq r.status Member.suspect
        && status_eq l.status alive
        && leb l.incarnation r.incarnation)
      ≡ false
    → (chosen c.suspicion c now sender l r).status ≡ alive
unfolding live_suspicion_merge same_incarnation same_status prefer_status status_eq compare_status
chosen_alive c now sender l r mode h d live fine = ground arith

module _ (c : Config) (now : ℕ) (sender : Text) (mode : c.suspicion ≡ suspect) where
  find-store :
      (id : Text) (l r : Member) (s : Server)
      → HasUniqueIds s.members
      → member_id l ≡ member_id r
      → find_member id (store (resolve c.suspicion c now sender l r s)).members ≡ (
          if has_id id r
          then some (chosen c.suspicion c now sender l r)
          else find_member id s.members)
  find-store id l r s u e = ground (
    arith,
    members-resolve c.suspicion c now sender l r s,
    resolve-chosen c.suspicion c now sender l r s,
    chosen-id c now sender l r (inl mode) e,
    find_member-add_or_update id (chosen c.suspicion c now sender l r) s.members u,
  )

  known_alive :
      (l r : Member) (s : Server)
      → HasUniqueIds s.members
      → l.status ≡ alive
      → member_id l ≡ server_id s
      → member_id r ≡ server_id s
      → IsDetected r.status
      → IsAliveHere s (server_id s)
      → IsAliveHere (merge_known c now sender l r s) (server_id s)
  unfolding merge_known
  known_alive l r s u h el er d k =
      elim (Bool-cases (
        status_eq r.status Member.suspect
        && status_eq l.status alive
        && leb l.incarnation r.incarnation)) [
          | inl accused ↦
              rw (er, text_eq_refl (server_id s), accused)
                (
                  refuted now l s,
                  rw
                      (
                        members-refute,
                        find_member-add_or_update (server_id s) (refuted now l s) s.members u,
                        refuted-id,
                        el,
                        text_eq_refl (server_id s),
                      )
                      refl,
                  h,
                )
          | inr fine ↦ elim (Bool-cases (status_eq r.status dead)) [
            | inl gone ↦ rw (er, text_eq_refl (server_id s), fine, gone) k
            | inr live ↦
                rw (er, text_eq_refl (server_id s), fine, live)
                  (
                    chosen c.suspicion c now sender l r,
                    find-store (server_id s) l r s u (el ∙ sym er)
                        ∙ rw (er, text_eq_refl (server_id s)) refl,
                    chosen_alive c now sender l r mode h d live fine,
                  )
          ]
        ]

  known_other :
      (id : Text) (l r : Member) (s : Server)
      → HasUniqueIds s.members
      → member_id l ≡ member_id r
      → has_id id r ≡ false
      → find_member id (merge_known c now sender l r s).members ≡ find_member id s.members
  unfolding merge_known
  known_other id l r s u e other = ground (arith, find-store id l r s u e, find-refute id now l s u)

  by_own :
      (l r : Member) (s : Server)
      → HasUniqueIds s.members
      → l.status ≡ alive
      → member_id l ≡ server_id s
      → member_id r ≡ server_id s
      → IsDetected r.status
      → IsAliveHere s (server_id s)
      → IsAliveHere (by_snapshot (some l) c now sender r s) (server_id s)
  unfolding by_snapshot
  by_own l r s u h el er d k =
      let s' = notice_failure l r s in
      let same = sym (id-notice_failure l r s) in
      subst (λ j. IsAliveHere (merge_known c now sender l r s') j) (sym same)
        (known_alive l r s' (rw (members-notice_failure l r s) u) h (el ∙ same) (er ∙ same) d
          (subst (λ j. IsAliveHere s' j) same (rw (members-notice_failure l r s) k)))

  by_other :
      (id : Text) (o : Option Member) (r : Member) (s : Server)
      → HasUniqueIds s.members
      → ((l : Member) → o ≡ some l → member_id l ≡ member_id r)
      → has_id id r ≡ false
      → find_member id (by_snapshot o c now sender r s).members ≡ find_member id s.members
  unfolding by_snapshot
  by_other id none r s u keyed other = ground (arith, find-merge_new now id r s u)
  by_other id (some l) r s u keyed other =
      known_other id l r (notice_failure l r s) (rw (members-notice_failure l r s) u) (keyed l refl)
        other
      ∙ ap (find_member id) (members-notice_failure l r s)

  -- the own entry after one round, for a report of the node itself and for any other
  own_after_one :
      (snap : Dict Member) (r : Member) (s : Server) {l : Member}
      → HasUniqueIds s.members
      → ((j : Text) (m : Member) → lookup j snap ≡ some m → member_id m ≡ j)
      → lookup (server_id s) snap ≡ some l
      → l.status ≡ alive
      → (has_id (server_id s) r ≡ true → IsDetected r.status)
      → IsAliveHere s (server_id s)
      → IsAliveHere (merge_one c now sender snap r s) (server_id s)
  own_after_one snap r s {l} u keyed e h d k =
      rw (merge_one_lem c now sender snap r s)
        (elim (Bool-cases (is_gossip c.protocol && status_eq r.status dead)) [
          | inl skip ↦ rw skip k
          | inr no_skip ↦ rw no_skip (elim (Bool-cases (has_id (server_id s) r)) [
            | inl own ↦
                let er = (text_eq_iff (member_id r) (server_id s)).0 own in
                rw (er, e) (by_own l r s u h (keyed (server_id s) l e) er (d own) k)
            | inr other ↦
                rw
                  (by_other (server_id s) (lookup (member_id r) snap) r s u (keyed (member_id r))
                    other)
                  k
          ])
        ])

  own_after_each :
      (id : Text) (snap : Dict Member) (rs : List Member) (s : Server) {l : Member}
      → id ≡ server_id s
      → HasUniqueIds s.members
      → ((j : Text) (m : Member) → lookup j snap ≡ some m → member_id m ≡ j)
      → lookup id snap ≡ some l
      → l.status ≡ alive
      → All (λ r. has_id id r ≡ true → IsDetected r.status) rs
      → IsAliveHere s id
      → IsAliveHere (merge_each c now sender snap rs s) id
  unfolding merge_each
  own_after_each id snap [] s own u keyed e h d k = k
  own_after_each id snap (r ∷ rs) s {l} own u keyed e h d k =
      own_after_each id snap rs (merge_one c now sender snap r s) {l = l}
        (own ∙ sym (id-merge_one c now sender snap r s))
        (merge_one_keeps HasUniqueIds add_or_update-HasUniqueIds c now sender snap r s u) keyed e h
        d.1
        (rw own
          (own_after_one snap r s {l = l} u keyed (rw own at e) h (rw own at (d.0)) (rw own at k)))

snapshot-keyed :
    (nodes : List Member)
    → HasUniqueIds nodes
    → (j : Text) (m : Member) → lookup j (snapshot nodes) ≡ some m
    → member_id m ≡ j
snapshot-keyed nodes u j m e = find_member-id j nodes (sym (lookup-snapshot j nodes u) ∙ e)

-- With suspicion on, a node that is alive in its own list is alive there after any merge, whatever
-- suspicions and deaths of it are reported and however often, if its list repeats no ID and no
-- message says that it left or gives it an unknown status.
pub merge_membership-own_alive :
    (c : Config) (now : ℕ) (received : List Member) (sender : Text) (s : Server) {l : Member}
    → c.suspicion ≡ suspect
    → HasUniqueIds s.members
    → find_member (server_id s) s.members ≡ some l
    → l.status ≡ alive
    → All (λ r. has_id (server_id s) r ≡ true → IsDetected r.status) received
    → IsAliveHere (merge_membership c now received sender s) (server_id s)
unfolding merge_membership
merge_membership-own_alive c now received sender s {l} mode u e h d =
    own_after_each c now sender mode (server_id s) (snapshot s.members) received s {l = l} refl u
      (snapshot-keyed s.members u) (lookup-snapshot (server_id s) s.members u ∙ e) h d (l, e, h)
