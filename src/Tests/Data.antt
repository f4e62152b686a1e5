-- ===== src/Tests/Data.antt =====
-- Members, servers, messages and appends for the tests.
use hydfs.Prelude.{Dict, ℕ, Text, codes, text_eq, List, [], ◌∷◌, true, refl, arith}
use hydfs.Prelude.Decimal.{pos}
use hydfs.Config.{Config, initial_config, suspect, ping_ack_protocol}
use hydfs.Member.{Member, Status, alive, member_id}
use hydfs.Membership.Identity.{HasUniqueIds}
use hydfs.Membership.Order.{IsSorted}
use hydfs.Member
use hydfs.Metadata.{AppendInfo, FileMetadata, zero_file, empty_metadata}
use hydfs.Transfer.{Node, FileSystem}
use hydfs.Cluster.{Network, Client}
use hydfs.Bandwidth.{zero_stats}
use hydfs.Detection.{Timeouts}
use hydfs.Server.{Server}
use hydfs.Merge.Convergence.{Message}

abbrev pub suspecting : Config
suspecting = record initial_config { suspicion = suspect }

abbrev pub pinging : Config
pinging = record initial_config { protocol = ping_ack_protocol; suspicion = suspect }

abbrev pub member : Text → ℕ → Status → ℕ → Member
member address hash status incarnation = record {
  address = address;
  node_creation_timestamp = pos 7;
  status = status;
  heartbeat = 1;
  incarnation = incarnation;
  last_updated = 0;
  hash = hash;
}

abbrev pub first : Member
first = member (codes "a") 10 alive 1

abbrev pub second_one : Member
second_one = member (codes "b") 100 alive 1

abbrev pub third : Member
third = member (codes "c") 200 alive 1

abbrev pub ring : List Member
ring = first ∷ second_one ∷ third ∷ []

abbrev pub second_suspect : Member
second_suspect = member (codes "b") 100 Member.suspect 1

abbrev pub second_again : Member
second_again = member (codes "b") 100 alive 2

abbrev pub server : Server
server = record {
  addr = codes "a";
  node_creation_timestamp = pos 7;
  introducer_addr = codes "a";
  incarnation_number = 1;
  heartbeat_counter = 1;
  is_introducer = true;
  members = ring;
  bandwidth_stats = zero_stats;
  hash = 10;
  metadata = empty_metadata;
  file_directory = codes "../hydfs/vm1";
  local_directory = codes "../../localdirectory/vm1";
  failed_pending_stabilization = [];
  newly_joined_pending_stabilization = [];
  started = [];
}

abbrev pub third_server : Server
third_server = record server { addr = codes "c"; hash = 200 }

abbrev pub suspicion_message : Message
suspicion_message = record { time = 5; sender = codes "c-7"; list = second_suspect ∷ [] }

abbrev pub refutation_message : Message
refutation_message = record { time = 6; sender = codes "b-7"; list = second_again ∷ first ∷ [] }

abbrev pub short_timeouts : Timeouts
short_timeouts = record { suspicion_timeout = 2; dead_timeout = 2; clean_up_timeout = 10 }

abbrev pub append_of : Text → Text → Text → AppendInfo
append_of id client time = record {
  file_name = codes "f";
  append_id = id;
  client_id = client;
  client_timestamp = time;
  append_hash = [];
  size = 3;
}

abbrev pub early : AppendInfo
early = append_of (codes "x") (codes "x") (codes "1")

abbrev pub late : AppendInfo
late = append_of (codes "x2") (codes "x") (codes "12")

pub ring_unique : HasUniqueIds ring
unfolding member_id text_eq
ring_unique = (refl, (refl, (refl, tt)))

pub ring-IsSorted : IsSorted ring
ring-IsSorted = ((omega arith, (omega arith, tt)), ((omega arith, tt), (tt, tt)))

abbrev pub sent_file : FileMetadata
sent_file = record zero_file {
  file_name = codes "f";
  file_content_hash = codes "h";
  file_name_hash = 9;
}

abbrev pub empty_node : Node
empty_node = record { metadata = empty_metadata; disk = []; bandwidth_stats = zero_stats }

abbrev pub works : FileSystem
works = record { makes_directory = true; writes = λ name. true }

abbrev pub all_reached : Network
all_reached = record { reaches = λ t. true; file_system = λ t. works }

abbrev pub client : Client
client = record {
  own = codes "a";
  own_id = codes "a-7";
  members = ring;
  replication_factor = 2;
  file_hash = λ name. 50;
  content_hash = λ content. codes "h";
}

abbrev pub local : Dict Text
local = (codes "l", codes "abc") ∷ []
