-- ===== src/Rpc.antt =====
-- rpc_server.go and rpc_types.go: the requests that a node serves; and `notifyIntroducer` with the
-- calls of rpc_client.go. `Join`, `Gossip`, `Ping` and the others that read or write the state of a
-- node are here; `MultiAppend` and `Merge`, which call other nodes, stand with the commands.
pub mod Joining
pub mod Dispatch
pub mod Answers
pub mod Starting
pub mod Client
use hydfs.Prelude.{
  ℕ, Text, codes, Option, none, some, List, [], ◌∷◌, ◌++◌, Bool, true, false, Dict, lookup, insert,
  keys, remove, length, if◌then◌else◌,
}
use hydfs.Config.{
  Config, ProtocolType, SuspicionType, other_protocol, other_suspicion, switch_protocol,
}
use hydfs.Member.{Member}
use hydfs.Membership.{add_or_update}
use hydfs.Metadata.{AppendInfo, FileMetadata, Metadata, get_file_metadata, update_append_order}
use hydfs.Bandwidth.{add_sent, add_received}
use hydfs.Server.{Server, server_id, self_member}
use hydfs.Merge.{merge_membership}
use hydfs.Stabilization.{get_files_metadata}

pub record JoinResponse : Type 0 where
  pub success : Bool
  pub membership_list : List Member
  pub protocol : ProtocolType
  pub suspicion : SuspicionType
  pub introducer_id : Text

-- The answer of a node that is no introducer, with the zero values of its fields.
abbrev pub not_an_introducer : JoinResponse
not_an_introducer = record {
  success = false;
  membership_list = [];
  protocol = other_protocol [];
  suspicion = other_suspicion [];
  introducer_id = [];
}

-- the member that the introducer takes in
abbrev pub accepted : (Text → ℕ) → ℕ → Member → Member
accepted hash_of now m = record m { hash = hash_of m.address; last_updated = now }

-- `Join`; `hash_of` is `HashToMbits`.
unfoldable pub join_request : Config → (Text → ℕ) → ℕ → Member → Server → Server × JoinResponse
unfolding add_or_update server_id
join_request c hash_of now m s =
    if s.is_introducer
    then (
      record s { members = add_or_update (accepted hash_of now m) s.members },
      record {
        success = true;
        membership_list = add_or_update (accepted hash_of now m) s.members;
        protocol = c.protocol;
        suspicion = c.suspicion;
        introducer_id = server_id s;
      },
    )
    else (s, not_an_introducer)

-- `Gossip`, in a process whose server runs
unfoldable pub gossip_request : Config → ℕ → Text → List Member → Server → Server
unfolding merge_membership
gossip_request c now sender received s = merge_membership c now received sender s

-- `Ping`: the merged list goes back.
unfoldable pub ping_request : Config → ℕ → Text → List Member → Server → Server × Text × List Member
unfolding merge_membership server_id
ping_request c now sender received s =
    let s' = merge_membership c now received sender s in (s', server_id s', s'.members)

-- `ProtocolSwitch`
unfoldable pub protocol_switch_request : ProtocolType → SuspicionType → Config → Config
unfolding switch_protocol
protocol_switch_request protocol suspicion c = switch_protocol protocol suspicion c

-- The end of `notifyIntroducer`, with the answer to `CallJoin`; `none` is an error. The new protocol
-- and mode are set before the merge reads them.
unfoldable pub notify_introducer :
    ℕ → Option JoinResponse → Config → Server → Option (Config × Server)
unfolding merge_membership
notify_introducer now none c s = none
notify_introducer now (some resp) c s =
    let c' = record c { protocol = resp.protocol; suspicion = resp.suspicion } in
    some (c', merge_membership c' now resp.membership_list resp.introducer_id s)
