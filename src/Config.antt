-- ===== src/Config.antt =====
-- config.go: the protocol and suspicion types, the timeouts and the global configuration; the
-- `switch` command of cli.go and the `ProtocolSwitch` request of rpc_server.go that change it.
pub mod Switching
pub mod DropRate
use hydfs.Prelude.{
  ℕ, ◌*◌, ◌^◌, Text, codes, text_eq, Option, none, some, List, [], ◌∷◌, Bool, true, false, Dict,
  lookup, insert, if◌then◌else◌,
}
use hydfs.Prelude.Decimal.{to_lower}

-- A Go string type with named constants: what arrives from a peer may be any other string.
pub data ProtocolType : Type 0 where
  gossip_protocol ping_ack_protocol : ProtocolType
  other_protocol : Text → ProtocolType

pub data SuspicionType : Type 0 where
  suspect no_suspect : SuspicionType
  other_suspicion : Text → SuspicionType

-- durations in nanoseconds
abbrev pub second : ℕ
second = 1_000_000_000

abbrev pub suspicion_timeout : ℕ
suspicion_timeout = 2 * second

abbrev pub dead_timeout : ℕ
dead_timeout = 2 * second

abbrev pub clean_up_timeout : ℕ
clean_up_timeout = 10 * second

abbrev pub ping_fanout : ℕ
ping_fanout = 1

abbrev pub gossip_fanout : ℕ
gossip_fanout = 1

-- The fields of the global `Config` that the modelled code reads or writes.
pub record Config : Type 0 where
  pub introducer_addr : Text
  pub protocol : ProtocolType
  pub fanout : ℕ
  pub suspicion : SuspicionType
  pub hash_bits : ℕ
  pub replication_factor : ℕ

abbrev pub initial_config : Config
initial_config = record {
  introducer_addr = codes "127.0.0.1:5000";
  protocol = gossip_protocol;
  fanout = ping_fanout;
  suspicion = no_suspect;
  hash_bits = 8;
  replication_factor = 3;
}

abbrev pub protocol_map : Dict ProtocolType
protocol_map = (codes "gossip", gossip_protocol) ∷ (codes "ping", ping_ack_protocol) ∷ []

abbrev pub suspicion_map : Dict SuspicionType
suspicion_map = (codes "suspect", suspect) ∷ (codes "nosuspect", no_suspect) ∷ []

abbrev pub node_map : Dict Text
node_map =
    (codes "vm1", codes "127.0.0.1:5000")
    ∷ (codes "vm2", codes "127.0.0.1:5001")
    ∷ (codes "vm3", codes "127.0.0.1:5002")
    ∷ (codes "vm4", codes "127.0.0.1:5003")
    ∷ (codes "vm5", codes "127.0.0.1:5004")
    ∷ (codes "vm6", codes "127.0.0.1:5005")
    ∷ (codes "vm7", codes "127.0.0.1:5006")
    ∷ (codes "vm8", codes "127.0.0.1:5007")
    ∷ (codes "vm9", codes "127.0.0.1:5008")
    ∷ (codes "vm10", codes "127.0.0.1:5009")
    ∷ []

-- The loop of `AddressToVMName`: the map with keys and values exchanged.
unfoldable pub reverse_map : Dict Text → Dict Text → Dict Text
unfolding insert
reverse_map acc [] = acc
reverse_map acc ((vm_name, address) ∷ m) = reverse_map (insert address vm_name acc) m

unfoldable pub address_to_vm_name : Dict Text
unfolding reverse_map
address_to_vm_name = reverse_map [] node_map

unfoldable pub fanout_of : ProtocolType → ℕ
fanout_of ping_ack_protocol = ping_fanout
fanout_of gossip_protocol = gossip_fanout
fanout_of (other_protocol s) = gossip_fanout

unfoldable pub switch_protocol : ProtocolType → SuspicionType → Config → Config
unfolding fanout_of
switch_protocol new_protocol new_suspicion c = record c {
  protocol = new_protocol;
  suspicion = new_suspicion;
  fanout = fanout_of new_protocol;
}

-- What `handleSwitch` does before the broadcast: both words are looked up in lower case, and
-- nothing changes unless both are known.
switch_found : Option ProtocolType → Option SuspicionType → Config → Option Config
unfolding switch_protocol
switch_found none s c = none
switch_found (some p) none c = none
switch_found (some p) (some s) c = some (switch_protocol p s c)

unfoldable pub handle_switch : Text → Text → Config → Option Config
unfolding lookup switch_found to_lower
handle_switch protocol_str suspicion_str c =
    switch_found (lookup (to_lower protocol_str) protocol_map)
      (lookup (to_lower suspicion_str) suspicion_map) c
