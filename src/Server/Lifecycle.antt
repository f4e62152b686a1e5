-- ===== src/Server/Lifecycle.antt =====
-- How a node starts, beats and leaves.
use hydfs.Prelude.{ℕ, ◌+◌, ◌%◌, ◌^◌, text_eq_refl, ◌≡◌, ◌≢◌, refl, some}
use hydfs.Config.{Config, ping_ack_protocol, gossip_protocol, other_protocol, ProtocolType}
use hydfs.Member.{Member, member_id, node_id, alive, voluntary_leave, mark_voluntary_leave}
use hydfs.Membership.{add_or_update}
use hydfs.Membership.Identity.{
  HasUniqueIds, find_member, find_member-add_or_update, lookup-snapshot, add_or_update-HasUniqueIds,
}
use hydfs.Membership.Identity.{find_member-id}
use hydfs.Server.{Server, server_id, self_member, beat, increase_heartbeat, leave_as, leave_group}

id-self_member : (now : ℕ) (s : Server) → member_id (self_member now s) ≡ server_id s
unfolding member_id server_id node_id
id-self_member now s = refl

members-beat :
    (now : ℕ) (s : Server)
    → (beat now s).members
      ≡ add_or_update
          (self_member now (record s { heartbeat_counter = (s.heartbeat_counter + 1) % 2 ^ 64 }))
          s.members
unfolding beat
members-beat now s = refl

increase_heartbeat-beat :
    (c : Config) (now : ℕ) (s : Server)
    → c.protocol ≢ ping_ack_protocol
    → increase_heartbeat c now s ≡ beat now s
unfolding increase_heartbeat
increase_heartbeat-beat c now s h = by_protocol c.protocol refl
  where
    by_protocol : (p : ProtocolType) → c.protocol ≡ p → increase_heartbeat c now s ≡ beat now s
    by_protocol gossip_protocol e = rw (e, increase_heartbeat) refl
    by_protocol ping_ack_protocol e = absurd (h e)
    by_protocol (other_protocol t) e = rw (e, increase_heartbeat) refl

id-faster :
    (s : Server)
    → server_id (record s { heartbeat_counter = (s.heartbeat_counter + 1) % 2 ^ 64 }) ≡ server_id s
unfolding server_id
id-faster s = refl

beat_own :
    (now : ℕ) (s : Server)
    → HasUniqueIds s.members
    → find_member (server_id s) (beat now s).members
      ≡ some (self_member now (record s { heartbeat_counter = (s.heartbeat_counter + 1) % 2 ^ 64 }))
beat_own now s u =
    let self =
      self_member now (record s { heartbeat_counter = (s.heartbeat_counter + 1) % 2 ^ 64 }) in
    rw (members-beat, find_member-add_or_update (server_id s) self s.members u)
      (rw (id-self_member now (record s { heartbeat_counter = (s.heartbeat_counter + 1) % 2 ^ 64 }))
        (rw (id-faster s, text_eq_refl (server_id s)) refl))

leave_found :
    (now : ℕ) (s : Server) {l : Member}
    → HasUniqueIds s.members
    → find_member (server_id s) s.members ≡ some l
    → leave_group now s ≡ leave_as (some l) now s
unfolding leave_group
leave_found now s u e = rw (lookup-snapshot (server_id s) s.members u, e) refl

abbrev departed : ℕ → Member → Server → Member
departed now l s = record l {
  status = voluntary_leave;
  last_updated = now;
  incarnation = s.incarnation_number;
}

members-leave_as :
    (now : ℕ) (l : Member) (s : Server)
    → (leave_as (some l) now s).members ≡ add_or_update (departed now l s) s.members
unfolding leave_as mark_voluntary_leave
members-leave_as now l s = refl

id-leave_as :
    (now : ℕ) (l : Member) (s : Server) → server_id (leave_as (some l) now s) ≡ server_id s
unfolding leave_as server_id
id-leave_as now l s = refl

id-departed : (now : ℕ) (l : Member) (s : Server) → member_id (departed now l s) ≡ member_id l
unfolding member_id
id-departed now l s = refl

leave_own :
    (now : ℕ) (l : Member) (s : Server)
    → HasUniqueIds s.members
    → find_member (server_id s) s.members ≡ some l
    → find_member (server_id s) (leave_as (some l) now s).members ≡ some (departed now l s)
leave_own now l s u e =
    rw
      (
        members-leave_as,
        find_member-add_or_update (server_id s) (departed now l s) s.members u,
        id-departed,
        find_member-id (server_id s) s.members e,
        text_eq_refl (server_id s),
      )
      refl

-- A `leave` command marks the node's own entry as having left, and the next heartbeat of any
-- protocol but ping makes it alive again: the departure lasts for one heartbeat interval. The
-- node's list repeats no ID and holds the node.
pub leave_reverted :
    (c : Config) (now later : ℕ) (s : Server) {l : Member}
    → c.protocol ≢ ping_ack_protocol
    → HasUniqueIds s.members
    → find_member (server_id s) s.members ≡ some l
    → (left back : Member) × (find_member (server_id s) (leave_group now s).members ≡ some left)
      × (left.status ≡ voluntary_leave)
      × (find_member (server_id s) (increase_heartbeat c later (leave_group now s)).members
          ≡ some back)
      × (back.status ≡ alive)
leave_reverted c now later s {l} p u e =
    let s' = leave_as (some l) now s in
    let u' : HasUniqueIds s'.members =
      rw (members-leave_as now l s) (add_or_update-HasUniqueIds (departed now l s) s.members u) in
    rw (leave_found now s u e, increase_heartbeat-beat c later s' p)
      (
        departed now l s,
        self_member later (record s' { heartbeat_counter = (s'.heartbeat_counter + 1) % 2 ^ 64 }),
        leave_own now l s u e,
        refl,
        rw (← id-leave_as now l s) (beat_own later s' u'),
        refl,
      )
