-- ===== src/Merge.antt =====
-- membership_merge.go: how a node merges the member list of a message into its own.
pub mod Members
pub mod Constant
pub mod Join
pub mod Told
pub mod Reports
pub mod Agreement
pub mod Convergence
pub mod Self
pub mod Numbers
pub mod Refutation
use hydfs.Prelude.{
  ℕ, ◌+◌, ◌%◌, ◌^◌, Text, text_eq, Option, none, some, List, [], ◌∷◌, Bool, true, false, ◌&&◌, ◌||◌,
  Dict, lookup, ltb, leb, ◌==◌, if◌then◌else◌,
}
use hydfs.Config.{
  Config, ProtocolType, gossip_protocol, ping_ack_protocol, other_protocol, suspect, no_suspect,
  other_suspicion, SuspicionType,
}
use hydfs.Member.{
  Member, Status, alive, dead, voluntary_leave, other_status, status_eq, member_id, zero_member,
}
use hydfs.Member
use hydfs.Membership.{add_or_update, snapshot}
use hydfs.Server.{Server, server_id, handle_dead_node, handle_newly_joined_node}

unfoldable pub get_status_priority : Status → ℕ
get_status_priority dead = 3
get_status_priority voluntary_leave = 3
get_status_priority Member.suspect = 2
get_status_priority alive = 1
get_status_priority (other_status s) = 0

unfoldable pub compare_status : Status → Status → Bool
unfolding get_status_priority
compare_status received local = ltb (get_status_priority local) (get_status_priority received)

-- `s == StatusDead || s == StatusVoluntaryLeave`
abbrev pub is_final : Status → Bool
is_final s = status_eq s dead || status_eq s voluntary_leave

abbrev pub touch : ℕ → Member → Member
touch now m = record m { last_updated = now }

-- the case of the same status and incarnation
pub same_status : ProtocolType → ℕ → Text → Member → Member → Member
unfolding member_id
same_status gossip_protocol now sender local received =
    if ltb local.heartbeat received.heartbeat then touch now received else local
same_status ping_ack_protocol now sender local received =
    if text_eq (member_id received) sender then touch now received else local
same_status (other_protocol p) now sender local received = local

-- different statuses: suspect over alive
pub prefer_status : ℕ → Member → Member → Member
unfolding compare_status
prefer_status now local received =
    if compare_status received.status local.status then touch now received else local

pub same_incarnation : ProtocolType → ℕ → Text → Member → Member → Member
unfolding same_status prefer_status status_eq
same_incarnation p now sender local received =
    if status_eq received.status local.status
    then same_status p now sender local received
    else prefer_status now local received

-- The rules of `handleSuspicionMerge` below the first one, which are about values alone.
pub live_suspicion_merge : ProtocolType → ℕ → Text → Member → Member → Member
unfolding same_incarnation status_eq
live_suspicion_merge p now sender local received =
    if is_final local.status
    then local
    else if ltb local.incarnation received.incarnation
    then touch now received
    else if ltb received.incarnation local.incarnation
    then local
    else same_incarnation p now sender local received

unfoldable pub handle_suspicion_merge :
    Config → ℕ → Text → Member → Member → Server → Member × Server
unfolding handle_dead_node live_suspicion_merge status_eq
handle_suspicion_merge c now sender local received s =
    if is_final received.status
    then (received, handle_dead_node received s)
    else (live_suspicion_merge c.protocol now sender local received, s)

unfoldable pub handle_no_suspicion_merge : Config → ℕ → Text → Member → Member → Member
unfolding same_incarnation status_eq
handle_no_suspicion_merge c now sender local received =
    if is_final received.status
    then received
    else if is_final local.status
    then local
    else same_incarnation c.protocol now sender local received

-- `switch Config.Suspicion`; without a case the updated member is the zero value.
pub resolve : SuspicionType → Config → ℕ → Text → Member → Member → Server → Member × Server
unfolding handle_suspicion_merge handle_no_suspicion_merge
resolve suspect c now sender local received s = handle_suspicion_merge c now sender local received s
resolve no_suspect c now sender local received s =
    (handle_no_suspicion_merge c now sender local received, s)
resolve (other_suspicion t) c now sender local received s = (zero_member, s)

abbrev pub store : Member × Server → Server
store r = record (r.1) { members = add_or_update (r.0) (r.1).members }

-- "we are alive but others think we are suspect"
pub refute : ℕ → Member → Server → Server
unfolding add_or_update
refute now local s =
    let n = (s.incarnation_number + 1) % 2 ^ 64 in
    record s {
      incarnation_number = n;
      members = add_or_update (record local { incarnation = n; last_updated = now }) s.members;
    }

-- The tests on the node's own entry: refute, ignore, or go on.
pub merge_known : Config → ℕ → Text → Member → Member → Server → Server
unfolding refute resolve add_or_update server_id member_id status_eq
merge_known c now sender local received s =
    if text_eq (member_id received) (server_id s)
    then (if status_eq received.status Member.suspect
          && status_eq local.status alive
          && leb local.incarnation received.incarnation
        then refute now local s
        else if status_eq received.status dead
        then s
        else store (resolve c.suspicion c now sender local received s))
    else store (resolve c.suspicion c now sender local received s)

pub merge_new : ℕ → Member → Server → Server
unfolding add_or_update handle_newly_joined_node status_eq
merge_new now received s =
    if status_eq received.status dead
    then s
    else handle_newly_joined_node (touch now received)
        (record s { members = add_or_update (touch now received) s.members })

-- a live member of ours that the message says is dead or has left
pub notice_failure : Member → Member → Server → Server
unfolding handle_dead_node status_eq
notice_failure local received s =
    if (status_eq local.status alive || status_eq local.status Member.suspect)
      && is_final received.status
    then handle_dead_node received s
    else s

pub by_snapshot : Option Member → Config → ℕ → Text → Member → Server → Server
unfolding merge_new merge_known notice_failure
by_snapshot none c now sender received s = merge_new now received s
by_snapshot (some local) c now sender received s =
    merge_known c now sender local received (notice_failure local received s)

abbrev is_gossip : ProtocolType → Bool
is_gossip p = elim p [ gossip_protocol ↦ true | _ ↦ false ]

-- one round of the loop
unfoldable pub merge_one : Config → ℕ → Text → Dict Member → Member → Server → Server
unfolding by_snapshot lookup member_id status_eq
merge_one c now sender local_snapshot received s =
    if is_gossip c.protocol && status_eq received.status dead
    then s
    else by_snapshot (lookup (member_id received) local_snapshot) c now sender received s

pub merge_each : Config → ℕ → Text → Dict Member → List Member → Server → Server
unfolding merge_one
merge_each c now sender local_snapshot [] s = s
merge_each c now sender local_snapshot (received ∷ rest) s =
    merge_each c now sender local_snapshot rest (merge_one c now sender local_snapshot received s)

-- The clock is read once.
unfoldable pub merge_membership : Config → ℕ → List Member → Text → Server → Server
unfolding merge_each snapshot
merge_membership c now received_members sender s =
    merge_each c now sender (snapshot s.members) received_members s
