-- ===== src/Gossip/Reachable.antt =====
-- Every list of members is well formed at all times.
use hydfs.Prelude.{
  ℕ, Text, ◌≡◌, subst, Option, none, some, [], lookup, AllValues, AllValues-insert,
  AllValues-remove,
}
use hydfs.Config.{Config}
use hydfs.Server.{Server}
use hydfs.Server.Members.{new_server_keeps, increase_heartbeat_keeps, leave_group_keeps}
use hydfs.Detection.Fate.{mark_suspect_if_needed-HasUniqueIds, mark_suspect_if_needed-IsSorted}
use hydfs.Merge.Members.{IsWellFormed}
use hydfs.Rpc.{JoinResponse, notify_introducer}
use hydfs.Rpc.Dispatch.{Process}
use hydfs.Gossip.Rounds.{Group}
use hydfs.Gossip.Members.{Fine, AfterRound, added, merged, send_timely-Fine}
use hydfs.Gossip.Requests.{listen_for_messages-Fine, AfterSwitch, switch_command-Fine}
use hydfs.Gossip.Schedule.{
  GroupStep, starts, joins, beats, checks, sends, hears, switches, leaves, stops, GroupReach, here,
  next,
}

none_yet : IsWellFormed []
none_yet = record { sorted = tt; unique = tt }

AfterJoin : Option (Config × Server) → Type 0
AfterJoin none = Unit
AfterJoin (some (c, s)) = IsWellFormed s.members

notify_introducer-Fine :
    (now : ℕ) (resp : Option JoinResponse) (c : Config) (s : Server)
    → IsWellFormed s.members
    → AfterJoin (notify_introducer now resp c s)
unfolding notify_introducer AfterJoin
notify_introducer-Fine now none c s h = tt
notify_introducer-Fine now (some resp) c s h =
    merged _ now resp.membership_list resp.introducer_id s h

GroupStep-Fine : {g g' : Group} → GroupStep g g' → AllValues Fine g → AllValues Fine g'
unfolding AfterJoin AfterSwitch
GroupStep-Fine {g} (starts own c hash_of seconds now introducer is_introducer) h =
    AllValues-insert Fine own _ g h (
      new_server_keeps IsWellFormed added hash_of seconds now own introducer is_introducer none_yet)
GroupStep-Fine {g} (joins own p now resp e j) h =
    AllValues-insert Fine own _ g h
      (subst AfterJoin j (notify_introducer-Fine now resp p.config p.server (h own p e)))
GroupStep-Fine {g} (beats own p now e) h =
    AllValues-insert Fine own _ g h
      (increase_heartbeat_keeps IsWellFormed added p.config now p.server (h own p e))
GroupStep-Fine {g} (checks own p now t e) h = AllValues-insert Fine own _ g h (record {
  sorted =
      mark_suspect_if_needed-IsSorted p.config now t p.server (h own p e).unique (h own p e).sorted;
  unique = mark_suspect_if_needed-HasUniqueIds p.config now t p.server (h own p e).unique;
})
GroupStep-Fine {g} (sends reaches acks now shuffle own st e) h =
    subst (AfterRound reaches acks now) e (send_timely-Fine reaches acks now shuffle own st g h)
GroupStep-Fine {g} (hears unmarshal convert marshal hash_of now own p dropped bytes e) h =
    AllValues-insert Fine own _ g h (
      listen_for_messages-Fine unmarshal convert marshal hash_of now dropped bytes p own
        (h own p e))
GroupStep-Fine {g} (switches reaches p ps ss e s) h =
    subst AfterSwitch s (switch_command-Fine reaches ps ss p g e h)
GroupStep-Fine {g} (leaves own p now e) h =
    AllValues-insert Fine own _ g h (leave_group_keeps IsWellFormed added now p.server (h own p e))
GroupStep-Fine {g} (stops own) h = AllValues-remove Fine own g h

GroupReach-Fine : {g : Group} → GroupReach [] g → AllValues Fine g
unfolding lookup
GroupReach-Fine here = λ a p e. cc
GroupReach-Fine (next r st) = GroupStep-Fine st (GroupReach-Fine r)

-- In every group that comes from no processes at all by starts, joins, heartbeats, checks, rounds
-- of messages, requests, switches, departures and crashes, in any order, whatever arrives, is lost
-- or is undecodable and whatever the clocks say, the list of members of every process is sorted by
-- hash and holds no ID twice.
pub GroupReach-IsWellFormed :
    (g : Group) (a : Text) (p : Process)
    → GroupReach [] g
    → lookup a g ≡ some p
    → IsWellFormed p.server.members
GroupReach-IsWellFormed g a p r e = GroupReach-Fine r a p e
