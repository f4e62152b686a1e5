-- ===== src/Detection/Fate.antt =====
-- What one pass makes of the member of one ID, and that it keeps the list sorted and its IDs
-- unique.
use hydfs.Prelude.{
  ℕ, Text, text_eq_iff, ◌≡◌, refl, List, [], ◌∷◌, false, arith, inl, inr, Option, none, some,
  Bool-cases,
}
use hydfs.Config.{Config}
use hydfs.Member.{Member, member_id}
use hydfs.Membership.{contains}
use hydfs.Membership.Identity.{
  HasUniqueIds, find_member, find_member-sort_by_hash, sort_by_hash-HasUniqueIds,
  find_of_not_contains,
}
use hydfs.Membership.Order.{IsSorted, sort_nodes_lem, sort_by_hash-IsSorted}
use hydfs.Server.{Server}
use hydfs.Detection.{
  Verdict, keeps, suspects, fails, removes, Timeouts, inspect, mark_suspect_if_needed,
}
use hydfs.Detection.OnePass.{outcome, mark_suspect_if_needed-outcome, KeepsIds, inspect-KeepsIds}

abbrev pub survivor : Verdict → Member → Option Member
survivor keeps m = some m
survivor (suspects m') m = some m'
survivor (fails m') m = some m'
survivor removes m = none

abbrev pub fate : (Member → Verdict) → Option Member → Option Member
fate look none = none
fate look (some m) = survivor (look m) m

module _ (look : Member → Verdict) (k : KeepsIds look) where
  contains-outcome :
      (id : Text) (nodes : List Member)
      → contains id nodes ≡ false
      → contains id (outcome look nodes) ≡ false
  unfolding outcome
  contains-outcome id [] h = refl
  contains-outcome id (m ∷ nodes) h = ground (arith, k m, contains-outcome id nodes)

  outcome-HasUniqueIds :
      (nodes : List Member) → HasUniqueIds nodes → HasUniqueIds (outcome look nodes)
  unfolding outcome
  outcome-HasUniqueIds [] u = tt
  outcome-HasUniqueIds (m ∷ nodes) u =
      ground (arith, k m, contains-outcome (member_id m) nodes, outcome-HasUniqueIds nodes u.1)

  find_member-outcome :
      (id : Text) (nodes : List Member)
      → HasUniqueIds nodes
      → find_member id (outcome look nodes) ≡ fate look (find_member id nodes)
  unfolding outcome
  find_member-outcome id [] u = refl
  find_member-outcome id (m ∷ nodes) u = ground (
    arith,
    k m,
    text_eq_iff (member_id m) id,
    contains-outcome (member_id m) nodes u.0,
    find_of_not_contains (member_id m) (outcome look nodes),
    find_member-outcome id nodes u.1,
  )

module _ (c : Config) (now : ℕ) (t : Timeouts) (s : Server) (u : HasUniqueIds s.members) where
  abbrev look : Member → Verdict
  look = inspect c s.addr now t

  pub mark_suspect_if_needed-HasUniqueIds :
      HasUniqueIds (mark_suspect_if_needed c now t s).0.members
  mark_suspect_if_needed-HasUniqueIds = elim (Bool-cases (mark_suspect_if_needed c now t s).1) [
    | inl e ↦
        rw ((mark_suspect_if_needed-outcome c now t s u).0, e, sort_nodes_lem)
          (sort_by_hash-HasUniqueIds _
            (outcome-HasUniqueIds look (inspect-KeepsIds c s.addr now t) s.members u))
    | inr e ↦ rw ((mark_suspect_if_needed-outcome c now t s u).0, e) u
  ]

  pub mark_suspect_if_needed-IsSorted :
      IsSorted s.members → IsSorted (mark_suspect_if_needed c now t s).0.members
  mark_suspect_if_needed-IsSorted h = elim (Bool-cases (mark_suspect_if_needed c now t s).1) [
    | inl e ↦
        rw ((mark_suspect_if_needed-outcome c now t s u).0, e, sort_nodes_lem)
          (sort_by_hash-IsSorted _)
    | inr e ↦ rw ((mark_suspect_if_needed-outcome c now t s u).0, e) h
  ]

  pub find_member-mark_suspect_if_needed :
      (id : Text)
      → find_member id (mark_suspect_if_needed c now t s).0.members
        ≡ fate look (find_member id s.members)
  find_member-mark_suspect_if_needed id =
      let keep = inspect-KeepsIds c s.addr now t in
      let after = outcome look s.members in
      ground (
        arith,
        mark_suspect_if_needed-outcome c now t s u,
        sort_nodes_lem after,
        find_member-sort_by_hash id after (outcome-HasUniqueIds look keep s.members u),
        find_member-outcome look keep id s.members u,
      )
