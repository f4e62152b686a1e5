-- ===== src/Detection/Transitions.antt =====
-- The life of a member as the pass sees it: alive, suspected, dead, forgotten.
use hydfs.Prelude.{
  ℕ, zero, suc, ◌+◌, ◌<◌, Text, text_eq, ◌≡◌, refl, List, [], ◌∷◌, false, ◌&&◌, arith, ◌⊎◌, Option,
  none, some,
}
use hydfs.Config.{Config, suspect, no_suspect, SuspicionType}
use hydfs.Member.{Member, Status, member_id, mark_suspect, mark_dead, voluntary_leave, status_eq}
use hydfs.Member
use hydfs.Membership.Identity.{HasUniqueIds, find_member}
use hydfs.Membership.Order.{IsSorted}
use hydfs.Server.{Server, handle_dead_node}
use hydfs.Detection.{
  Verdict, Timeouts, inspect, mark_suspect_if_needed, is_ping_ack, collect, after_verdict,
}
use hydfs.Detection.Fate.{
  survivor, find_member-mark_suspect_if_needed, mark_suspect_if_needed-HasUniqueIds,
  mark_suspect_if_needed-IsSorted,
}

-- What a pass at `now` may make of a member: nothing new, a suspect, a dead member, or nothing at
-- all, each after the silence that it needs. A change touches the status and the time alone.
abbrev pub Allowed : SuspicionType → Timeouts → ℕ → Member → Option Member → Type 0
Allowed mode t now m none = (m.status ≡ Member.dead) × (m.last_updated + t.clean_up_timeout < now)
Allowed mode t now m (some m') =
    (m' ≡ m)
    ⊎ ((mode ≡ suspect)
        × (m.status ≡ Member.alive)
        × (m' ≡ record m { status = Member.suspect; last_updated = now })
        × (m.last_updated + t.suspicion_timeout < now))
    ⊎ ((mode ≡ no_suspect)
        × (m.status ≡ Member.alive)
        × (m' ≡ record m { status = Member.dead; last_updated = now })
        × (m.last_updated + t.suspicion_timeout < now)
        × (m.last_updated + t.dead_timeout < now))
    ⊎ ((m.status ≡ Member.suspect)
        × (m' ≡ record m { status = Member.dead; last_updated = now })
        × (m.last_updated + t.dead_timeout < now))

inspect-Allowed :
    (c : Config) (own : Text) (now : ℕ) (t : Timeouts) (m : Member)
    → Allowed c.suspicion t now m (survivor (inspect c own now t m) m)
unfolding inspect
inspect-Allowed c own now t m = ground arith

-- In a list without repeated IDs, a pass makes of each member only what its status and its silence
-- allow: an alive member becomes suspect where suspicion is on, or dead where it is off, after the
-- timeouts of the mode; a suspect becomes dead after the dead timeout; only a dead member is
-- removed, and only after the clean-up timeout. No other field of a member changes but the time of
-- its last update, and the list stays sorted and keeps its unique IDs.
pub mark_suspect_if_needed-Allowed :
    (c : Config) (now : ℕ) (t : Timeouts) (s : Server) (id : Text) {m : Member}
    → HasUniqueIds s.members
    → IsSorted s.members
    → find_member id s.members ≡ some m
    → let after = (mark_suspect_if_needed c now t s).0.members in
      Allowed c.suspicion t now m (find_member id after) × HasUniqueIds after × IsSorted after
mark_suspect_if_needed-Allowed c now t s id {m} u h e = (
  rw (find_member-mark_suspect_if_needed c now t s u id, e) (inspect-Allowed c s.addr now t m),
  mark_suspect_if_needed-HasUniqueIds c now t s u,
  mark_suspect_if_needed-IsSorted c now t s u h,
)

collect-addr :
    (look : Member → Verdict) (i : ℕ) (nodes : List Member) (s : Server)
    → (collect look i nodes s).server.addr ≡ s.addr
unfolding collect handle_dead_node
collect-addr look i [] s = refl
collect-addr look i (m ∷ nodes) s =
    ground (arith, collect-addr look (suc i) nodes (after_verdict (look m) s))

abbrev pub pass : Config → Timeouts → ℕ → Server → Server
pass c t now s = (mark_suspect_if_needed c now t s).0

pass-addr : (c : Config) (t : Timeouts) (now : ℕ) (s : Server) → (pass c t now s).addr ≡ s.addr
unfolding mark_suspect_if_needed
pass-addr c t now s = collect-addr (inspect c s.addr now t) zero s.members s

-- one pass over a member that was silent for too long
module _ (c : Config) (t : Timeouts) (now : ℕ) (s : Server) (id : Text) {m : Member}
    (u : HasUniqueIds s.members) (e : find_member id s.members ≡ some m)
    (other : (is_ping_ack c.protocol && text_eq m.address s.addr) ≡ false) where
  pass_alive :
      c.suspicion ≡ suspect
      → m.status ≡ Member.alive
      → m.last_updated + t.suspicion_timeout < now
      → find_member id (pass c t now s).members ≡ some (mark_suspect now m)
  unfolding inspect
  pass_alive mode h late = ground (arith, find_member-mark_suspect_if_needed c now t s u id)

  pass_suspect :
      m.status ≡ Member.suspect
      → m.last_updated + t.dead_timeout < now
      → find_member id (pass c t now s).members ≡ some (mark_dead now m)
  unfolding inspect
  pass_suspect h late = ground (arith, find_member-mark_suspect_if_needed c now t s u id)

  pass_dead :
      m.status ≡ Member.dead
      → m.last_updated + t.clean_up_timeout < now
      → find_member id (pass c t now s).members ≡ none
  unfolding inspect
  pass_dead h late = ground (arith, find_member-mark_suspect_if_needed c now t s u id)

-- With suspicion on, a member that nothing refreshes is forgotten by three passes: the first finds
-- it silent for longer than the suspicion timeout, the second comes more than the dead timeout
-- after that, the third more than the clean-up timeout after that. It holds for any alive member
-- of a list without repeated IDs, except for the node itself under the ping protocol.
pub silent_member_forgotten :
    (c : Config) (t : Timeouts) (s : Server) (id : Text) {m : Member} (n₁ n₂ n₃ : ℕ)
    → HasUniqueIds s.members
    → find_member id s.members ≡ some m
    → (is_ping_ack c.protocol && text_eq m.address s.addr) ≡ false
    → c.suspicion ≡ suspect
    → m.status ≡ Member.alive
    → m.last_updated + t.suspicion_timeout < n₁
    → n₁ + t.dead_timeout < n₂
    → n₂ + t.clean_up_timeout < n₃
    → find_member id (pass c t n₃ (pass c t n₂ (pass c t n₁ s))).members ≡ none
unfolding mark_suspect mark_dead
silent_member_forgotten c t s id {m} n₁ n₂ n₃ u e other mode h late later latest =
    pass_dead c t n₃ s₂ id u₂ (pass_suspect c t n₂ s₁ id u₁ e₁ other₁ refl later) other₂ refl latest
  where
    s₁ : Server
    s₁ = pass c t n₁ s

    u₁ : HasUniqueIds s₁.members
    u₁ = mark_suspect_if_needed-HasUniqueIds c n₁ t s u

    e₁ : find_member id s₁.members ≡ some (mark_suspect n₁ m)
    e₁ = pass_alive c t n₁ s id u e other mode h late

    other₁ : (is_ping_ack c.protocol && text_eq m.address s₁.addr) ≡ false
    other₁ = rw (pass-addr c t n₁ s) other

    s₂ : Server
    s₂ = pass c t n₂ s₁

    u₂ : HasUniqueIds s₂.members
    u₂ = mark_suspect_if_needed-HasUniqueIds c n₂ t s₁ u₁

    other₂ : (is_ping_ack c.protocol && text_eq m.address s₂.addr) ≡ false
    other₂ = rw (pass-addr c t n₂ s₁) other₁
