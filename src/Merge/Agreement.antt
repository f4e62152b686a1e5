-- ===== src/Merge/Agreement.antt =====
-- When two nodes agree about a member that is alive, suspected or dead: by status and incarnation, and
-- by what they believe of it.
use hydfs.Prelude.{
  ℕ, Text, ◌≡◌, refl, sym, ap, subst, ◌∙◌, Option, none, some, List, [], ◌∷◌, true, false, ◌&&◌,
  All, Option-cases, Bool-cases, inl, inr, arith,
}
use hydfs.Config.{Config, suspect}
use hydfs.Member.{Member, alive, dead, status_eq}
use hydfs.Member
use hydfs.Membership.{has_id}
use hydfs.Membership.Identity.{find_member}
use hydfs.Merge.{
  is_gossip, get_status_priority, live_suspicion_merge, same_incarnation, same_status,
  prefer_status,
}
use hydfs.Merge.Self.{IsDetected}
use hydfs.Merge.Join.{final, live, belief}
use hydfs.Merge.Told.{chosen, told_by}

reported :
    (id : Text) (list : List Member) {r : Member}
    → All (λ r. has_id id r ≡ true → IsDetected r.status) list
    → find_member id list ≡ some r
    → IsDetected r.status
reported id [] d e = cc
reported id (m ∷ list) {r} d e = elim (Bool-cases (has_id id m)) [
  | inl own ↦ subst (λ x. IsDetected x.status) (this (rw own at e)) (d.0 own)
  | inr other ↦ reported id list d.1 (rw other at e)
]
  where
    this : some m ≡ some r → m ≡ r
    this q = cc

chosen-IsDetected :
    (c : Config) (now : ℕ) (sender : Text) (l r : Member)
    → IsDetected l.status
    → IsDetected r.status
    → IsDetected (chosen suspect c now sender l r).status
unfolding live_suspicion_merge same_incarnation same_status prefer_status
chosen-IsDetected c now sender l r dl dr = ground arith

-- what is found, and is alive, suspected or dead
abbrev pub AllDetected : Option Member → Type 0
AllDetected none = Unit
AllDetected (some m) = IsDetected m.status

-- A report leaves a known member known, and alive, suspected or dead.
pub told_by-IsDetected :
    (c : Config) (now : ℕ) (sender : Text) (o : Option Member) (l : Member)
    → c.suspicion ≡ suspect
    → IsDetected l.status
    → AllDetected o
    → (k : Member) × (told_by c now sender o (some l) ≡ some k) × IsDetected k.status
told_by-IsDetected c now sender none l mode dl d = (l, refl, dl)
told_by-IsDetected c now sender (some r) l mode dl d =
    elim (Bool-cases (is_gossip c.protocol && status_eq r.status dead)) [
      | inl skip ↦ rw skip (l, refl, dl)
      | inr told ↦
          rw (told, mode)
            (chosen suspect c now sender l r, refl, chosen-IsDetected c now sender l r dl d)
    ]

pub find_member-AllDetected :
    (id : Text) (list : List Member)
    → All (λ r. has_id id r ≡ true → IsDetected r.status) list
    → AllDetected (find_member id list)
find_member-AllDetected id list d = elim (Option-cases (find_member id list)) [
  | inl e ↦ rw e tt
  | inr (r, e) ↦ rw e (reported id list d e)
]

-- The same status, and the same incarnation unless that is dead.
abbrev pub Agree : Member → Member → Type 0
Agree k k' =
    (k.status ≡ k'.status) × (status_eq k.status dead ≡ false → k.incarnation ≡ k'.incarnation)

belief-alive : (k : Member) → k.status ≡ alive → belief k ≡ live k.incarnation 1
unfolding belief get_status_priority status_eq
belief-alive k e = rw (belief, e) refl

belief-suspect : (k : Member) → k.status ≡ Member.suspect → belief k ≡ live k.incarnation 2
unfolding belief get_status_priority status_eq
belief-suspect k e = rw (belief, e) refl

belief-dead : (k : Member) → k.status ≡ dead → belief k ≡ final
unfolding belief status_eq
belief-dead k e = rw (belief, e) refl

ranks : {i j : ℕ} → live i 1 ≡ live j 2 → ⊥
ranks e = cc

apart : {i p : ℕ} → live i p ≡ final → ⊥
apart e = cc

live_same : {i j p q : ℕ} → live i p ≡ live j q → i ≡ j
live_same e = cc

pub belief-Agree :
    (k k' : Member) → IsDetected k.status → IsDetected k'.status → belief k ≡ belief k' → Agree k k'
unfolding status_eq
belief-Agree k k' (inl a) (inl b) e =
    (a ∙ sym b, λ q. live_same (sym (belief-alive k a) ∙ e ∙ belief-alive k' b))
belief-Agree k k' (inl a) (inr (inl b)) e =
    absurd (ranks (sym (belief-alive k a) ∙ e ∙ belief-suspect k' b))
belief-Agree k k' (inl a) (inr (inr b)) e =
    absurd (apart (sym (belief-alive k a) ∙ e ∙ belief-dead k' b))
belief-Agree k k' (inr (inl a)) (inl b) e =
    absurd (ranks (sym (sym (belief-suspect k a) ∙ e ∙ belief-alive k' b)))
belief-Agree k k' (inr (inl a)) (inr (inl b)) e =
    (a ∙ sym b, λ q. live_same (sym (belief-suspect k a) ∙ e ∙ belief-suspect k' b))
belief-Agree k k' (inr (inl a)) (inr (inr b)) e =
    absurd (apart (sym (belief-suspect k a) ∙ e ∙ belief-dead k' b))
belief-Agree k k' (inr (inr a)) (inl b) e =
    absurd (apart (sym (sym (belief-dead k a) ∙ e ∙ belief-alive k' b)))
belief-Agree k k' (inr (inr a)) (inr (inl b)) e =
    absurd (apart (sym (sym (belief-dead k a) ∙ e ∙ belief-suspect k' b)))
belief-Agree k k' (inr (inr a)) (inr (inr b)) e = (a ∙ sym b, λ q. absurd (dead_not a q))
  where
    dead_not : k.status ≡ dead → status_eq k.status dead ≡ false → ⊥
    dead_not a q = ground arith

pub Agree-belief : (k k' : Member) → IsDetected k.status → Agree k k' → belief k ≡ belief k'
unfolding status_eq
Agree-belief k k' (inl a) e =
    belief-alive k a ∙ ap (λ i. live i 1) (e.1 (rw a refl)) ∙ sym (belief-alive k' (sym (e.0) ∙ a))
Agree-belief k k' (inr (inl a)) e =
    belief-suspect k a
    ∙ ap (λ i. live i 2) (e.1 (rw a refl))
    ∙ sym (belief-suspect k' (sym (e.0) ∙ a))
Agree-belief k k' (inr (inr a)) e = belief-dead k a ∙ sym (belief-dead k' (sym (e.0) ∙ a))
