-- ===== src/Merge/Refutation.antt =====
-- How a node answers a suspicion of itself, and how the others hear of it.
use hydfs.Prelude.{
  ℕ, ◌+◌, ◌%◌, ◌^◌, ◌<◌, ◌≤◌, Text, text_eq, text_eq_iff, text_eq_refl, ◌≡◌, refl, sym, ap, ◌∙◌,
  Option, none, some, List, [], ◌∷◌, true, false, ◌&&◌, Dict, lookup, leb, arith, Bool-cases, inl,
  inr, ◌⊎◌,
}
use native.Mathlib.Nat.{mod-eq_of_lt}
use hydfs.Config.{Config, suspect}
use hydfs.Member.{Member, Status, alive, dead, status_eq, member_id}
use hydfs.Member
use hydfs.Membership.{snapshot, has_id, contains}
use hydfs.Membership.Identity.{
  HasUniqueIds, find_member, find_member-add_or_update, lookup-snapshot, add_or_update-HasUniqueIds,
  find_member-id,
}
use hydfs.Server.{Server, server_id}
use hydfs.Merge.{
  touch, is_gossip, refute, merge_known, notice_failure, by_snapshot, merge_one, merge_each,
  merge_membership, live_suspicion_merge,
}
use hydfs.Merge.Constant.{id-notice_failure, id-merge_one}
use hydfs.Merge.Numbers.{number-notice_failure, number-resolve, number-merge_new}
use hydfs.Merge.Members.{members-notice_failure, members-resolve, merge_one_keeps}
use hydfs.Merge.Told.{IsMode, chosen, chosen-id, resolve-chosen, told_by, merge_one_lem}
use hydfs.Merge.Reports.{refuted, refuted-id, find-merge_new, find_member-merge_membership}

by_refute :
    (c : Config) (now : ℕ) (sender : Text) (l r : Member) (s : Server)
    → text_eq (member_id r) (server_id s) ≡ true
    → r.status ≡ Member.suspect
    → l.status ≡ alive
    → leb l.incarnation r.incarnation ≡ true
    → by_snapshot (some l) c now sender r s ≡ refute now l s
unfolding by_snapshot merge_known notice_failure status_eq
by_refute c now sender l r s own q h le = rw (q, h, own, le) refl

not_skipped :
    (c : Config) (r : Member)
    → r.status ≡ Member.suspect
    → (is_gossip c.protocol && status_eq r.status dead) ≡ false
unfolding status_eq
not_skipped c r q = ground arith

-- the own entry under the ID, and the incarnation number
abbrev own_state : Text → Server → Option Member × ℕ
own_state id s = (find_member id s.members, s.incarnation_number)

-- the own entry after a refutation
abbrev answered : ℕ → Member → ℕ → Member
answered now l n = record l { incarnation = (n + 1) % 2 ^ 64; last_updated = now }

module _ (c : Config) (now : ℕ) (sender : Text) (mode : IsMode c.suspicion) where
  known_other :
      (l r : Member) (s : Server)
      → HasUniqueIds s.members
      → member_id l ≡ member_id r
      → has_id (server_id s) r ≡ false
      → own_state (server_id s) (merge_known c now sender l r s) ≡ own_state (server_id s) s
  unfolding merge_known
  known_other l r s u e other =
      let id = server_id s in
      rw (other, number-resolve c.suspicion c now sender l r s)
        (ap (λ o. (o, s.incarnation_number))
          (ground (
            arith,
            members-resolve c.suspicion c now sender l r s,
            resolve-chosen c.suspicion c now sender l r s,
            chosen-id c now sender l r mode e,
            find_member-add_or_update id (chosen c.suspicion c now sender l r) s.members u,
          )))

  by_other :
      (id : Text) (o : Option Member) (r : Member) (s : Server)
      → id ≡ server_id s
      → HasUniqueIds s.members
      → ((l : Member) → o ≡ some l → member_id l ≡ member_id r)
      → has_id id r ≡ false
      → own_state id (by_snapshot o c now sender r s) ≡ own_state id s
  unfolding by_snapshot
  by_other id none r s own u keyed other =
      rw (number-merge_new now r s)
        (ap (λ o. (o, s.incarnation_number)) (ground (arith, find-merge_new now id r s u)))
  by_other id (some l) r s own u keyed other =
      let s' = notice_failure l r s in
      let same = own ∙ sym (id-notice_failure l r s) in
      ap (λ j. own_state j (merge_known c now sender l r s')) same
      ∙ known_other l r s' (rw (members-notice_failure l r s) u) (keyed l refl) (rw same at other)
      ∙ ap (λ j. own_state j s') (sym same)
      ∙ rw (members-notice_failure l r s, number-notice_failure l r s) refl

  one_other :
      (id : Text) (snap : Dict Member) (r : Member) (s : Server)
      → id ≡ server_id s
      → HasUniqueIds s.members
      → ((j : Text) (m : Member) → lookup j snap ≡ some m → member_id m ≡ j)
      → has_id id r ≡ false
      → own_state id (merge_one c now sender snap r s) ≡ own_state id s
  one_other id snap r s own u keyed other =
      rw (merge_one_lem c now sender snap r s)
        (elim (Bool-cases (is_gossip c.protocol && status_eq r.status dead)) [
          | inl skip ↦ rw skip refl
          | inr told ↦
              rw told
                (by_other id (lookup (member_id r) snap) r s own u (keyed (member_id r)) other)
        ])

  unique_after :
      (snap : Dict Member) (r : Member) (s : Server)
      → HasUniqueIds s.members
      → HasUniqueIds (merge_one c now sender snap r s).members
  unique_after = merge_one_keeps HasUniqueIds add_or_update-HasUniqueIds c now sender

  others_each :
      (id : Text) (snap : Dict Member) (rs : List Member) (s : Server)
      → id ≡ server_id s
      → HasUniqueIds s.members
      → ((j : Text) (m : Member) → lookup j snap ≡ some m → member_id m ≡ j)
      → contains id rs ≡ false
      → own_state id (merge_each c now sender snap rs s) ≡ own_state id s
  unfolding merge_each
  others_each id snap [] s own u keyed absent = refl
  others_each id snap (r ∷ rs) s own u keyed absent =
      others_each id snap rs (merge_one c now sender snap r s)
        (own ∙ sym (id-merge_one c now sender snap r s)) (unique_after snap r s u) keyed
        (ground arith)
      ∙ one_other id snap r s own u keyed (ground arith)

  one_own :
      (id : Text) (snap : Dict Member) (r : Member) (s : Server) {l : Member}
      → id ≡ server_id s
      → HasUniqueIds s.members
      → lookup id snap ≡ some l
      → member_id l ≡ id
      → member_id r ≡ id
      → r.status ≡ Member.suspect
      → l.status ≡ alive
      → l.incarnation ≤ r.incarnation
      → own_state id (merge_one c now sender snap r s)
        ≡ (some (answered now l s.incarnation_number), (s.incarnation_number + 1) % 2 ^ 64)
  unfolding refute
  one_own id snap r s {l} own u e el er q h le =
      ap (own_state id) (
        merge_one_lem c now sender snap r s
        ∙ rw (not_skipped c r q, er, e) refl
        ∙ by_refute c now sender l r s (rw (er, own) (text_eq_refl (server_id s))) q h
            (ground arith))
      ∙ ap (λ o. (o, (s.incarnation_number + 1) % 2 ^ 64))
          (find_member-add_or_update id (refuted now l s) s.members u
            ∙ rw (refuted-id, el, text_eq_refl id) refl)

  refutes_each :
      (id : Text) (snap : Dict Member) (rs : List Member) (s : Server) {l r : Member}
      → id ≡ server_id s
      → HasUniqueIds s.members
      → HasUniqueIds rs
      → ((j : Text) (m : Member) → lookup j snap ≡ some m → member_id m ≡ j)
      → lookup id snap ≡ some l
      → find_member id rs ≡ some r
      → r.status ≡ Member.suspect
      → l.status ≡ alive
      → l.incarnation ≤ r.incarnation
      → own_state id (merge_each c now sender snap rs s)
        ≡ (some (answered now l s.incarnation_number), (s.incarnation_number + 1) % 2 ^ 64)
  unfolding merge_each
  refutes_each id snap [] s own u v keyed e f q h le = cc
  refutes_each id snap (x ∷ rs) s {l} {r} own u v keyed e f q h le =
      let s' = merge_one c now sender snap x s in
      let own' = own ∙ sym (id-merge_one c now sender snap x s) in
      elim (Bool-cases (has_id id x)) [
        | inl mine ↦
            let ex = (text_eq_iff (member_id x) id).0 mine in
            let same = this (rw mine at f) in
            others_each id snap rs s' own' (unique_after snap x s u) keyed
              (ap (λ j. contains j rs) (sym ex) ∙ v.0)
            ∙ one_own id snap x s {l = l} own u e (keyed id l e) ex (ap (λ m. m.status) same ∙ q) h
                (rw same le)
        | inr other ↦
            refutes_each id snap rs s' {l = l} {r = r} own' (unique_after snap x s u) v.1 keyed e
              (rw other at f) q h le
            ∙ ap (λ n. (some (answered now l n), (n + 1) % 2 ^ 64))
                (ap (λ o. o.1) (one_other id snap x s own u keyed other))
      ]
    where
      this : some x ≡ some r → x ≡ r
      this k = cc

heard_anew :
    (c : Config) (now : ℕ) (sender : Text) (x h : Member)
    → c.suspicion ≡ suspect
    → (x.status ≡ alive) ⊎ (x.status ≡ Member.suspect)
    → h.status ≡ alive
    → x.incarnation < h.incarnation
    → told_by c now sender (some h) (some x) ≡ some (touch now h)
unfolding live_suspicion_merge status_eq
heard_anew c now sender x h mode y a l = rw mode (ground arith)

-- A node whose entry in its own list is alive, and that is told, in a list of members without
-- repeated IDs, that it is suspected in an incarnation that is no older than that of its entry,
-- raises its incarnation number by one and puts it into its entry, which stays alive, if the number
-- does not wrap. Whenever another node with suspicion on, which has it as alive or suspected in an
-- incarnation up to the old number, then merges a list without repeated IDs in which it is alive in
-- the new one, that node too has it as alive in the new incarnation.
pub merge_membership-refutes :
    (c : Config) (now : ℕ) (received : List Member) (sender : Text) (s : Server) {l r : Member}
    (c' : Config) (now' : ℕ) (heard : List Member) (sender' : Text) (peer : Server) {x h : Member}
    → IsMode c.suspicion
    → HasUniqueIds s.members
    → HasUniqueIds received
    → find_member (server_id s) s.members ≡ some l
    → find_member (server_id s) received ≡ some r
    → r.status ≡ Member.suspect
    → l.status ≡ alive
    → l.incarnation ≤ r.incarnation
    → s.incarnation_number + 1 < 2 ^ 64
    → c'.suspicion ≡ suspect
    → HasUniqueIds peer.members
    → HasUniqueIds heard
    → text_eq (server_id s) (server_id peer) ≡ false
    → find_member (server_id s) peer.members ≡ some x
    → (x.status ≡ alive) ⊎ (x.status ≡ Member.suspect)
    → x.incarnation ≤ s.incarnation_number
    → find_member (server_id s) heard ≡ some h
    → h.status ≡ alive
    → h.incarnation ≡ s.incarnation_number + 1
    → let s' = merge_membership c now received sender s in
      let peer' = merge_membership c' now' heard sender' peer in
      (s'.incarnation_number ≡ s.incarnation_number + 1)
      × (l' : Member) × (find_member (server_id s) s'.members ≡ some l')
      × (l'.status ≡ alive)
      × (l'.incarnation ≡ s'.incarnation_number)
      × (k : Member) × (find_member (server_id s) peer'.members ≡ some k)
      × (k.status ≡ alive)
      × (k.incarnation ≡ s'.incarnation_number)
unfolding merge_membership
merge_membership-refutes c now received sender s {l} {r} c' now' heard sender' peer {x} {h} mode u v
      e f q a le small mode' u' v' other e' y old f' a' new =
    let id = server_id s in
    let both =
      refutes_each c now sender mode id (snapshot s.members) received s {l = l} {r = r} refl u v
        (λ j m k. find_member-id j s.members (sym (lookup-snapshot j s.members u) ∙ k))
        (lookup-snapshot id s.members u ∙ e) f q a le in
    let number = ap (λ o. o.1) both ∙ mod-eq_of_lt small in
    (
      number,
      answered now l s.incarnation_number,
      ap (λ o. o.0) both,
      a,
      sym (ap (λ o. o.1) both),
      touch now' h,
      find_member-merge_membership c' now' heard sender' peer id (inl mode') u' v' other
          ∙ rw (f', e') (heard_anew c' now' sender' x h mode' y a' (omega (arith, old, new))),
      a',
      new ∙ sym number,
    )
