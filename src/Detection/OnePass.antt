-- ===== src/Detection/OnePass.antt =====
-- The pass collects its changes and applies them afterwards, by ID and by index; its result is that
-- of changing each member in place.
use hydfs.Prelude.{
  ℕ, zero, suc, Text, text_eq_iff, ◌≡◌, refl, List, [], ◌∷◌, map, true, false, All, arith,
  if◌then◌else◌, ◌⊎◌,
}
use hydfs.Config.{Config}
use hydfs.Member.{Member, member_id}
use hydfs.Membership.{replace_member, sort_nodes, contains, has_id}
use hydfs.Membership.Identity.{HasUniqueIds}
use hydfs.Server.{Server}
use hydfs.Detection.{
  Verdict, keeps, suspects, fails, removes, Timeouts, inspect, collect, apply_updates, remove_at,
  remove_indices, after_verdict, mark_suspect_if_needed,
}

-- what becomes of one member, in front of the others
abbrev pub settle : Verdict → Member → List Member → List Member
settle keeps m rest = m ∷ rest
settle (suspects m') m rest = m' ∷ rest
settle (fails m') m rest = m' ∷ rest
settle removes m rest = rest

-- The pass done in place.
unfoldable pub outcome : (Member → Verdict) → List Member → List Member
outcome look [] = []
outcome look (m ∷ nodes) = settle (look m) m (outcome look nodes)

abbrev pub updated : Verdict → Member → Member
updated keeps m = m
updated (suspects m') m = m'
updated (fails m') m = m'
updated removes m = m

abbrev pub KeepsIds : (Member → Verdict) → Type 0
KeepsIds look = (m : Member) → member_id (updated (look m) m) ≡ member_id m

pub inspect-KeepsIds :
    (c : Config) (own : Text) (now : ℕ) (t : Timeouts) → KeepsIds (inspect c own now t)
unfolding inspect member_id
inspect-KeepsIds c own now t m = ground arith

module _ (look : Member → Verdict) where
  -- neither the server nor the first index changes what is collected, but for the shift
  indices_shift :
      (i : ℕ) (nodes : List Member) (s s' : Server)
      → (collect look (suc i) nodes s).to_remove_indices
        ≡ map suc (collect look i nodes s').to_remove_indices
  unfolding collect
  indices_shift i [] s s' = refl
  indices_shift i (m ∷ nodes) s s' =
      ground
        (arith, indices_shift (suc i) nodes (after_verdict (look m) s) (after_verdict (look m) s'))

  updates_same :
      (i j : ℕ) (nodes : List Member) (s s' : Server)
      → (collect look i nodes s).to_update ≡ (collect look j nodes s').to_update
  unfolding collect
  updates_same i j [] s s' = refl
  updates_same i j (m ∷ nodes) s s' = ground (
    arith,
    updates_same (suc i) (suc j) nodes (after_verdict (look m) s) (after_verdict (look m) s'),
  )

  abbrev updates : List Member → Server → List Member
  updates nodes s = (collect look zero nodes s).to_update

  -- an ID that is not in the list is not updated
  updates-ids :
      (id : Text) (i : ℕ) (nodes : List Member) (s : Server)
      → KeepsIds look
      → contains id nodes ≡ false
      → All (λ u. has_id id u ≡ false) (collect look i nodes s).to_update
  unfolding collect
  updates-ids id i [] s k h = tt
  updates-ids id i (m ∷ nodes) s k h =
      ground (arith, k m, updates-ids id (suc i) nodes (after_verdict (look m) s) k)

  changed_false :
      (i : ℕ) (nodes : List Member) (s : Server)
      → (collect look i nodes s).changed ≡ false
      → (outcome look nodes ≡ nodes)
        × ((collect look i nodes s).to_update ≡ [])
        × ((collect look i nodes s).to_remove_indices ≡ [])
  unfolding collect outcome
  changed_false i [] s h = (refl, refl, refl)
  changed_false i (m ∷ nodes) s h =
      ground (arith, changed_false (suc i) nodes (after_verdict (look m) s))

apply_updates_past :
    (us : List Member) (x : Member) (l : List Member)
    → All (λ u. has_id (member_id x) u ≡ false) us
    → apply_updates us (x ∷ l) ≡ x ∷ apply_updates us l
unfolding apply_updates replace_member
apply_updates_past [] x l h = refl
apply_updates_past (u ∷ us) x l h = ground (
  arith,
  text_eq_iff (member_id x) (member_id u),
  text_eq_iff (member_id u) (member_id x),
  apply_updates_past us x (replace_member u l) h.1,
)

remove_indices_past :
    (is : List ℕ) (x : Member) (l : List Member)
    → remove_indices (map suc is) (x ∷ l) ≡ x ∷ remove_indices is l
unfolding remove_indices remove_at
remove_indices_past [] x l = refl
remove_indices_past (i ∷ is) x l = ground (arith, remove_indices_past is x l)

module _ (look : Member → Verdict) (k : KeepsIds look) where
  after_updates :
      (i : ℕ) (nodes : List Member) (s : Server)
      → HasUniqueIds nodes
      → apply_updates (collect look i nodes s).to_update nodes ≡ map (λ m. updated (look m) m) nodes
  unfolding collect apply_updates replace_member
  after_updates i [] s u = refl
  after_updates i (m ∷ nodes) s u =
      let us = (collect look (suc i) nodes (after_verdict (look m) s)).to_update in
      ground (
        arith,
        k m,
        text_eq_iff (member_id m) (member_id (updated (look m) m)),
        updates-ids look (member_id (updated (look m) m)) (suc i) nodes (after_verdict (look m) s)
            k,
        apply_updates_past us (updated (look m) m) nodes,
        after_updates (suc i) nodes (after_verdict (look m) s) u.1,
      )

  after_removals :
      (nodes : List Member) (s : Server)
      → remove_indices
          (collect look zero nodes s).to_remove_indices
          (map (λ m. updated (look m) m) nodes)
        ≡ outcome look nodes
  unfolding collect remove_indices remove_at outcome
  after_removals [] s = refl
  after_removals (m ∷ nodes) s = ground (
    arith,
    indices_shift look zero nodes (after_verdict (look m) s) s,
    remove_indices_past (collect look zero nodes s).to_remove_indices (updated (look m) m)
        (map (λ m. updated (look m) m) nodes),
    after_removals nodes s,
  )

-- In a list without repeated IDs the pass leaves the members that the change of each one in its
-- place leaves: those that were removed are gone, those that were suspected or failed stand
-- changed, the others unchanged. The list is sorted again if anything changed, and is the old list
-- if nothing did.
pub mark_suspect_if_needed-outcome :
    (c : Config) (now : ℕ) (t : Timeouts) (s : Server)
    → HasUniqueIds s.members
    → let r = mark_suspect_if_needed c now t s in
      let after = outcome (inspect c s.addr now t) s.members in
      (r.0.members ≡ (if r.1 then sort_nodes after else s.members))
      × ((r.1 ≡ true) ⊎ (after ≡ s.members))
unfolding mark_suspect_if_needed
mark_suspect_if_needed-outcome c now t s u =
    let look = inspect c s.addr now t in
    let keep = inspect-KeepsIds c s.addr now t in
    ground (
      arith,
      after_updates look keep zero s.members s u,
      after_removals look keep s.members s,
      changed_false look zero s.members s,
    )
