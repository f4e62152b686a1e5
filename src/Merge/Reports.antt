-- ===== src/Merge/Reports.antt =====
-- What a merge makes of each member other than the node itself: the outcome for one ID depends on
-- the entry of that ID in the message and in the list, and on nothing else.
use hydfs.Prelude.{
  ℕ, Text, text_eq, text_eq_iff, ◌≡◌, refl, sym, ap, ◌∙◌, Option, none, some, List, ◌+◌, ◌%◌, ◌^◌,
  [], ◌∷◌, true, false, ◌&&◌, Dict, lookup, if◌then◌else◌, Bool-cases, inl, inr, arith,
}
use hydfs.Config.{Config}
use hydfs.Member.{Member, dead, status_eq, member_id}
use hydfs.Membership.{add_or_update, snapshot, has_id, contains}
use hydfs.Membership.Identity.{
  HasUniqueIds, find_member, find_member-add_or_update, lookup-snapshot, add_or_update-HasUniqueIds,
  find_of_not_contains,
}
use hydfs.Server.{Server, server_id}
use hydfs.Merge.{
  touch, is_gossip, merge_known, merge_new, notice_failure, by_snapshot, merge_one, merge_each,
  merge_membership, refute,
}
use hydfs.Merge.Constant.{id-notice_failure, id-merge_one}
use hydfs.Merge.Members.{
  members-notice_failure, members-resolve, members-handle_newly_joined_node, merge_one_keeps,
}
use hydfs.Merge.Told.{
  chosen, known_told, told, told_by, merge_one_lem, if_same, IsMode, resolve-chosen, chosen-id,
}
use hydfs.Membership.Identity.{find_member-id}

pub find-merge_new :
    (now : ℕ) (id : Text) (r : Member) (s : Server)
    → HasUniqueIds s.members
    → find_member id (merge_new now r s).members ≡ (
        if status_eq r.status dead
        then find_member id s.members
        else if has_id id r
        then some (touch now r)
        else find_member id s.members)
unfolding merge_new
find-merge_new now id r s u = ground (
  arith,
  members-handle_newly_joined_node (touch now r)
      (record s { members = add_or_update (touch now r) s.members }),
  find_member-add_or_update id (touch now r) s.members u,
)

abbrev pub refuted : ℕ → Member → Server → Member
refuted now l s = record l { incarnation = (s.incarnation_number + 1) % 2 ^ 64; last_updated = now }

pub members-refute :
    (now : ℕ) (l : Member) (s : Server)
    → (refute now l s).members ≡ add_or_update (refuted now l s) s.members
unfolding refute
members-refute now l s = refl

pub refuted-id : (now : ℕ) (l : Member) (s : Server) → member_id (refuted now l s) ≡ member_id l
unfolding member_id
refuted-id now l s = refl

pub find-refute :
    (id : Text) (now : ℕ) (l : Member) (s : Server)
    → HasUniqueIds s.members
    → has_id id l ≡ false
    → find_member id (refute now l s).members ≡ find_member id s.members
find-refute id now l s u h =
    rw (members-refute, find_member-add_or_update id (refuted now l s) s.members u, refuted-id, h)
      refl

module _ (c : Config) (now : ℕ) (sender : Text) (mode : IsMode c.suspicion) where
  find-merge_known :
      (id : Text) (l r : Member) (s : Server)
      → HasUniqueIds s.members
      → text_eq id (server_id s) ≡ false
      → member_id l ≡ member_id r
      → find_member id (merge_known c now sender l r s).members ≡ (
          if has_id id r
          then some (chosen c.suspicion c now sender l r)
          else find_member id s.members)
  unfolding merge_known
  find-merge_known id l r s u other e = ground (
    arith,
    text_eq_iff (member_id r) id,
    text_eq_iff (member_id r) (server_id s),
    text_eq_iff id (server_id s),
    find-refute id now l s u,
    members-resolve c.suspicion c now sender l r s,
    resolve-chosen c.suspicion c now sender l r s,
    chosen-id c now sender l r mode e,
    find_member-add_or_update id (chosen c.suspicion c now sender l r) s.members u,
  )

  find-by_snapshot :
      (id : Text) (o : Option Member) (r : Member) (s : Server)
      → HasUniqueIds s.members
      → text_eq id (server_id s) ≡ false
      → ((l : Member) → o ≡ some l → member_id l ≡ member_id r)
      → (has_id id r ≡ true → o ≡ find_member id s.members)
      → find_member id (by_snapshot o c now sender r s).members ≡ (
          if has_id id r
          then known_told c now sender r (find_member id s.members)
          else find_member id s.members)
  unfolding by_snapshot
  find-by_snapshot id none r s u other keyed fresh =
      ground (arith, find-merge_new now id r s u, text_eq_iff (member_id r) id)
  find-by_snapshot id (some l) r s u other keyed fresh = ground (
    arith,
    members-notice_failure l r s,
    id-notice_failure l r s,
    keyed l refl,
    find-merge_known id l r (notice_failure l r s),
  )

  -- the entries of the snapshot stand under their own IDs
  abbrev IsKeyed : Dict Member → Type 0
  IsKeyed snap = (j : Text) (l : Member) → lookup j snap ≡ some l → member_id l ≡ j

  find-merge_one :
      (id : Text) (snap : Dict Member) (r : Member) (s : Server)
      → HasUniqueIds s.members
      → text_eq id (server_id s) ≡ false
      → IsKeyed snap
      → (has_id id r ≡ true → lookup id snap ≡ find_member id s.members)
      → find_member id (merge_one c now sender snap r s).members ≡ (
          if has_id id r
          then told c now sender r (find_member id s.members)
          else find_member id s.members)
  find-merge_one id snap r s u other keyed fresh =
      rw (merge_one_lem c now sender snap r s)
        (elim (Bool-cases (is_gossip c.protocol && status_eq r.status dead)) [
          | inl skip ↦ rw skip (if_same (has_id id r) (find_member id s.members))
          | inr no_skip ↦ rw no_skip (
              find-by_snapshot id (lookup (member_id r) snap) r s u other
                (λ l e. keyed (member_id r) l e)
                (λ h. ap (λ j. lookup j snap) ((text_eq_iff (member_id r) id).0 h) ∙ fresh h))
        ])

  unique_after :
      (snap : Dict Member) (r : Member) (s : Server)
      → HasUniqueIds s.members
      → HasUniqueIds (merge_one c now sender snap r s).members
  unique_after = merge_one_keeps HasUniqueIds add_or_update-HasUniqueIds c now sender

  find-merge_each :
      (id : Text) (snap : Dict Member) (rs : List Member) (s : Server)
      → HasUniqueIds s.members
      → HasUniqueIds rs
      → text_eq id (server_id s) ≡ false
      → IsKeyed snap
      → (contains id rs ≡ true → lookup id snap ≡ find_member id s.members)
      → find_member id (merge_each c now sender snap rs s).members
        ≡ told_by c now sender (find_member id rs) (find_member id s.members)
  unfolding merge_each
  find-merge_each id snap [] s u v other keyed fresh = refl
  find-merge_each id snap (r ∷ rs) s u v other keyed fresh =
      let s' = merge_one c now sender snap r s in
      elim (Bool-cases (has_id id r)) [
        | inl h ↦
            let absent = absent_after h in
            find-merge_each id snap rs s' (unique_after snap r s u) v.1
              (rw (id-merge_one c now sender snap r s) other) keyed (λ p. cc)
            ∙ rw (h, find_of_not_contains id rs absent)
                (find-merge_one id snap r s u other keyed (λ p. fresh (ground arith)) ∙ rw h refl)
        | inr h ↦
            let same : find_member id s'.members ≡ find_member id s.members =
              find-merge_one id snap r s u other keyed (λ p. cc) ∙ rw h refl in
            find-merge_each id snap rs s' (unique_after snap r s u) v.1
              (rw (id-merge_one c now sender snap r s) other) keyed
              (λ p. fresh (ground arith) ∙ sym same)
            ∙ rw (h, same) refl
      ]
    where
      absent_after : has_id id r ≡ true → contains id rs ≡ false
      absent_after h = ap (λ j. contains j rs) (sym ((text_eq_iff (member_id r) id).0 h)) ∙ v.0

snapshot-IsKeyed :
    (nodes : List Member)
    → HasUniqueIds nodes
    → (j : Text) (l : Member) → lookup j (snapshot nodes) ≡ some l
    → member_id l ≡ j
snapshot-IsKeyed nodes u j l e = find_member-id j nodes (sym (lookup-snapshot j nodes u) ∙ e)

-- In either suspicion mode, a merge of a list without repeated IDs into one without repeated IDs
-- tells the node, under every ID but its own, what the list holds under that ID, once, and changes
-- nothing else: IDs that the list does not hold are found as before.
pub find_member-merge_membership :
    (c : Config) (now : ℕ) (received : List Member) (sender : Text) (s : Server) (id : Text)
    → IsMode c.suspicion
    → HasUniqueIds s.members
    → HasUniqueIds received
    → text_eq id (server_id s) ≡ false
    → find_member id (merge_membership c now received sender s).members
      ≡ told_by c now sender (find_member id received) (find_member id s.members)
unfolding merge_membership
find_member-merge_membership c now received sender s id mode u v other =
    find-merge_each c now sender mode id (snapshot s.members) received s u v other
      (snapshot-IsKeyed s.members u) (λ p. lookup-snapshot id s.members u)
