-- ===== src/Merge/Join.antt =====
-- The rules of the merge with suspicion as a join: what a node believes of a member is the latest
-- of the reports, in the order that the rules set up.
use hydfs.Prelude.{ℕ, Text, ◌≡◌, refl, true, ltb, if◌then◌else◌, arith}
use hydfs.Config.{Config}
use hydfs.Member.{Member, Status, status_eq}
use hydfs.Server.{Server}
use hydfs.Merge.{is_final, get_status_priority, compare_status, handle_suspicion_merge}

-- Dead or gone for good, or live with an incarnation and the priority of a status.
pub data Belief : Type 0 where
  final : Belief
  live : ℕ → ℕ → Belief

unfoldable pub belief : Member → Belief
unfolding get_status_priority status_eq
belief m = if is_final m.status then final else live m.incarnation (get_status_priority m.status)

-- A final report wins; then the higher incarnation; then the higher priority.
unfoldable pub join : Belief → Belief → Belief
join final b = final
join (live i p) final = final
join (live i p) (live j q) =
    if ltb i j
    then live j q
    else if ltb j i
    then live i p
    else if ltb p q
    then live j q
    else live i p

pub join_comm : (a b : Belief) → join a b ≡ join b a
unfolding join
join_comm final final = refl
join_comm final (live j q) = refl
join_comm (live i p) final = refl
join_comm (live i p) (live j q) = ground arith

pub join_assoc : (a b c : Belief) → join (join a b) c ≡ join a (join b c)
unfolding join
join_assoc final b c = refl
join_assoc (live i p) final c = refl
join_assoc (live i p) (live j q) final = ground arith
join_assoc (live i p) (live j q) (live k r) = ground arith

pub join_idem : (a : Belief) → join a a ≡ a
unfolding join
join_idem final = refl
join_idem (live i p) = ground arith

same_priority :
    (s t : Status) → status_eq s t ≡ true → get_status_priority s ≡ get_status_priority t
unfolding status_eq get_status_priority
same_priority s t h = ground arith

-- Under either protocol, `handleSuspicionMerge` computes the join of what the node believes and of
-- what it is told: neither the sender, nor the clock, nor the heartbeats change the belief.
pub belief-handle_suspicion_merge :
    (c : Config) (now : ℕ) (sender : Text) (local received : Member) (s : Server)
    → belief (handle_suspicion_merge c now sender local received s).0
      ≡ join (belief local) (belief received)
unfolding handle_suspicion_merge belief join compare_status
belief-handle_suspicion_merge c now sender l r s = ground (arith, same_priority r.status l.status)
