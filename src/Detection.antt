-- ===== src/Detection.antt =====
-- membership_list.go, `MarkSuspectIfNeeded`: the periodic pass over the members that suspects,
-- fails and forgets those that were silent for too long.
pub mod OnePass
pub mod Fate
pub mod Transitions
use hydfs.Prelude.{
  ℕ, zero, suc, ◌-◌, Text, text_eq, List, [], ◌∷◌, Bool, true, false, ◌&&◌, ltb, if◌then◌else◌,
}
use hydfs.Config.{
  Config, ProtocolType, ping_ack_protocol, SuspicionType, suspect, no_suspect, other_suspicion,
}
use hydfs.Member.{Member, status_eq, mark_suspect, mark_dead}
use hydfs.Member
use hydfs.Membership.{replace_member, sort_nodes}
use hydfs.Server.{Server, handle_dead_node}

pub record Timeouts : Type 0 where
  pub suspicion_timeout : ℕ
  pub dead_timeout : ℕ
  pub clean_up_timeout : ℕ

abbrev pub is_ping_ack : ProtocolType → Bool
is_ping_ack p = elim p [ ping_ack_protocol ↦ true | _ ↦ false ]

-- What the loop does with one member: nothing, an update, an update after `handleDeadNode`, or a
-- removal.
pub data Verdict : Type 0 where
  keeps : Verdict
  suspects : Member → Verdict
  fails : Member → Verdict
  removes : Verdict

-- a silent member that was alive
by_suspicion : SuspicionType → ℕ → ℕ → ℕ → Member → Verdict
unfolding mark_suspect mark_dead
by_suspicion suspect now elapsed dead_timeout m = suspects (mark_suspect now m)
by_suspicion no_suspect now elapsed dead_timeout m =
    if ltb dead_timeout elapsed then fails (mark_dead now m) else keeps
by_suspicion (other_suspicion s) now elapsed dead_timeout m = keeps

-- An `elapsed` below 0 passes no test, and neither does 0.
unfoldable pub inspect : Config → Text → ℕ → Timeouts → Member → Verdict
unfolding by_suspicion status_eq
inspect c own_addr now t m =
    let elapsed = now - m.last_updated in
    if is_ping_ack c.protocol && text_eq m.address own_addr
    then keeps
    else if status_eq m.status Member.alive && ltb t.suspicion_timeout elapsed
    then by_suspicion c.suspicion now elapsed t.dead_timeout m
    else if status_eq m.status Member.suspect && ltb t.dead_timeout elapsed
    then fails (mark_dead now m)
    else if status_eq m.status Member.dead && ltb t.clean_up_timeout elapsed
    then removes
    else keeps

-- The changes that the loop collects, and the server that `handleDeadNode` leaves.
pub record Collected : Type 0 where
  pub to_update : List Member
  pub to_remove_indices : List ℕ
  pub changed : Bool
  pub server : Server

abbrev after_verdict : Verdict → Server → Server
after_verdict (fails m) s = handle_dead_node m s
after_verdict (suspects m) s = s
after_verdict keeps s = s
after_verdict removes s = s

note : ℕ → Verdict → Collected → Collected
note i keeps r = r
note i (suspects m) r = record r { to_update = m ∷ r.to_update; changed = true }
note i (fails m) r = record r { to_update = m ∷ r.to_update; changed = true }
note i removes r = record r { to_remove_indices = i ∷ r.to_remove_indices; changed = true }

-- the loop over the members, from index `i`
collect : (Member → Verdict) → ℕ → List Member → Server → Collected
unfolding note
collect look i [] s = record { to_update = []; to_remove_indices = []; changed = false; server = s }
collect look i (m ∷ nodes) s =
    note i (look m) (collect look (suc i) nodes (after_verdict (look m) s))

apply_updates : List Member → List Member → List Member
unfolding replace_member
apply_updates [] nodes = nodes
apply_updates (m ∷ to_update) nodes = apply_updates to_update (replace_member m nodes)

remove_at : ℕ → List Member → List Member
remove_at i [] = []
remove_at zero (m ∷ nodes) = nodes
remove_at (suc i) (m ∷ nodes) = m ∷ remove_at i nodes

-- the last index is removed first
remove_indices : List ℕ → List Member → List Member
unfolding remove_at
remove_indices [] nodes = nodes
remove_indices (i ∷ indices) nodes = remove_at i (remove_indices indices nodes)

abbrev finish : List Member → Collected → Server × Bool
finish nodes r =
    let applied = remove_indices r.to_remove_indices (apply_updates r.to_update nodes) in
    (record (r.server) { members = if r.changed then sort_nodes applied else applied }, r.changed)

-- The server after the pass, and whether the list changed. The clock is read once.
unfoldable pub mark_suspect_if_needed : Config → ℕ → Timeouts → Server → Server × Bool
unfolding collect apply_updates remove_indices sort_nodes handle_dead_node inspect
mark_suspect_if_needed c now t s =
    finish s.members (collect (inspect c s.addr now t) zero s.members s)
