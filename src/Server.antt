-- ===== src/Server.antt =====
-- server.go: the state of one node and how it starts; and the notices of membership_merge.go that
-- a node has failed or joined.
pub mod Lifecycle
pub mod Members
use hydfs.Prelude.{
  ℕ, ◌+◌, ◌%◌, ◌^◌, Text, codes, text_eq, Option, none, some, List, [], ◌∷◌, ◌++◌, Bool, true,
  false, Dict, lookup, insert, if◌then◌else◌,
}
use hydfs.Prelude.Decimal.{ℤ}
use hydfs.Config.{
  Config, address_to_vm_name, gossip_protocol, ping_ack_protocol, other_protocol, ProtocolType,
}
use hydfs.Member.{Member, Status, alive, node_id, member_id, mark_voluntary_leave}
use hydfs.Metadata.{Metadata, empty_metadata}
use hydfs.Membership.{add_or_update, snapshot}
use hydfs.Bandwidth.{BandwidthStats, zero_stats}

pub data StabilizationStatus : Type 0 where
  newly_joined failed_node processed_node in_progress_node : StabilizationStatus

-- The server and its group, with `started` added: the IDs for which a goroutine that calls
-- `handleReplicationWindowChange` was started, oldest first.
pub record Server : Type 0 where
  pub addr : Text
  pub node_creation_timestamp : ℤ
  pub introducer_addr : Text
  pub incarnation_number : ℕ
  pub heartbeat_counter : ℕ
  pub is_introducer : Bool
  pub members : List Member
  pub bandwidth_stats : BandwidthStats
  pub hash : ℕ
  pub metadata : Metadata
  pub file_directory : Text
  pub local_directory : Text
  pub failed_pending_stabilization : Dict StabilizationStatus
  pub newly_joined_pending_stabilization : Dict StabilizationStatus
  pub started : List Text

unfoldable pub server_id : Server → Text
unfolding node_id
server_id s = node_id s.addr s.node_creation_timestamp

abbrev pub vm_name_of : Option Text → Text
vm_name_of none = []
vm_name_of (some name) = name

-- `time.Now()` is read as seconds for the ID and as nanoseconds for `LastUpdated`; `hash` is
-- `HashToMbits(addr)`.
unfoldable pub new_server : (Text → ℕ) → ℤ → ℕ → Text → Text → Bool → Server
unfolding add_or_update lookup address_to_vm_name
new_server hash_of seconds now addr introducer_addr is_introducer =
    let vm_name = vm_name_of (lookup addr address_to_vm_name) in
    record {
      addr = addr;
      node_creation_timestamp = seconds;
      introducer_addr = introducer_addr;
      incarnation_number = 1;
      heartbeat_counter = 1;
      is_introducer = is_introducer;
      members =
          add_or_update
            (record {
              address = addr;
              node_creation_timestamp = seconds;
              status = alive;
              heartbeat = 1;
              incarnation = 1;
              last_updated = now;
              hash = hash_of addr;
            })
            [];
      bandwidth_stats = zero_stats;
      hash = hash_of addr;
      metadata = empty_metadata;
      file_directory = codes "../hydfs/" ++ vm_name;
      local_directory = codes "../../localdirectory/" ++ vm_name;
      failed_pending_stabilization = [];
      newly_joined_pending_stabilization = [];
      started = [];
    }

-- the member that a server describes as itself
abbrev pub self_member : ℕ → Server → Member
self_member now s = record {
  address = s.addr;
  node_creation_timestamp = s.node_creation_timestamp;
  status = alive;
  heartbeat = s.heartbeat_counter;
  incarnation = s.incarnation_number;
  last_updated = now;
  hash = s.hash;
}

beat : ℕ → Server → Server
unfolding add_or_update
beat now s =
    let s' = record s { heartbeat_counter = (s.heartbeat_counter + 1) % 2 ^ 64 } in
    record s' { members = add_or_update (self_member now s') s'.members }

-- One tick of `increaseHeartbeat`.
unfoldable pub increase_heartbeat : Config → ℕ → Server → Server
unfolding beat
increase_heartbeat c now s = elim c.protocol [ ping_ack_protocol ↦ s | _ ↦ beat now s ]

leave_as : Option Member → ℕ → Server → Server
unfolding add_or_update mark_voluntary_leave
leave_as none now s = s
leave_as (some self) now s = record s {
  members =
      add_or_update (record (mark_voluntary_leave now self) { incarnation = s.incarnation_number })
        s.members;
}

-- `leaveGroup` of cli.go
unfoldable pub leave_group : ℕ → Server → Server
unfolding leave_as lookup snapshot server_id
leave_group now s = leave_as (lookup (server_id s) (snapshot s.members)) now s

abbrev is_failed_node : Option StabilizationStatus → Bool
is_failed_node o = elim o [
  | none ↦ false
  | some status ↦ elim status [ failed_node ↦ true | _ ↦ false ]
]

abbrev is_newly_joined : Option StabilizationStatus → Bool
is_newly_joined o = elim o [
  | none ↦ false
  | some status ↦ elim status [ newly_joined ↦ true | _ ↦ false ]
]

unfoldable pub handle_dead_node : Member → Server → Server
unfolding lookup insert member_id
handle_dead_node m s =
    if is_failed_node (lookup (member_id m) s.failed_pending_stabilization) then s else record s {
      failed_pending_stabilization =
          insert (member_id m) failed_node s.failed_pending_stabilization;
      started = s.started ++ member_id m ∷ [];
    }

unfoldable pub handle_newly_joined_node : Member → Server → Server
unfolding lookup insert member_id
handle_newly_joined_node m s =
    if is_newly_joined (lookup (member_id m) s.newly_joined_pending_stabilization)
    then s
    else record s {
      newly_joined_pending_stabilization =
          insert (member_id m) newly_joined s.newly_joined_pending_stabilization;
      started = s.started ++ member_id m ∷ [];
    }
