-- ===== src/Cluster.antt =====
-- hydfs_operations.go: the commands that create, append to and read a file on several nodes, over
-- the calls of grpc_client.go.
pub mod Stores
pub mod Sending
pub mod Reading
pub mod ReadYourWrite
pub mod Appends
pub mod ReadYourAppend
pub mod Refused
pub mod Commands
pub mod Listing
use hydfs.Prelude.{
  ℕ, suc, ◌+◌, Text, codes, Option, none, some, List, [], ◌∷◌, ◌++◌, Bool, true, false, Dict,
  lookup, insert, remove, length, if◌then◌else◌,
}
use hydfs.Prelude.Decimal.{ℤ, show_int}
use hydfs.Config.{address_to_vm_name}
use hydfs.Member.{Member}
use hydfs.Metadata.{AppendInfo, FileMetadata}
use hydfs.Server.{vm_name_of}
use hydfs.Ring.{Outcome, returns, panics, find_target_nodes}
use hydfs.Bandwidth.{BandwidthStats, zero_stats}
use hydfs.Transfer.{Node, FileSystem, pieces, count_sent, file_chunks, file_transfer}
use hydfs.Transfer.Appending.{append_chunks, append_transfer}
use hydfs.Transfer.Download.{get_file_stream, save_stream, base}

-- The nodes that run, by their addresses.
abbrev pub Cluster : Type 0
Cluster = Dict Node

-- What the network and the operating systems do during one command: does a call to an address get
-- through, in time, and what can the node at an address write?
pub record Network : Type 0 where
  pub reaches : Text → Bool
  pub file_system : Text → FileSystem

-- `s.BandwidthStats.AddSent` for each chunk
unfoldable pub counted : Text → Text → Cluster → Cluster
unfolding lookup insert count_sent pieces
counted own content cl = elim (lookup own cl) [
  | none ↦ cl
  | some node ↦
      insert own
        (record node {
          bandwidth_stats = count_sent (pieces (length content) content) node.bandwidth_stats;
        })
        cl
]

-- A panic in a handler ends the process of its node.
abbrev pub deliver : Text → Outcome (Node × Bool) → Cluster → Cluster × Bool
deliver target panics cl = (remove target cl, false)
deliver target (returns (node, ok)) cl = (insert target node cl, ok)

-- `SendFileToNode` from the node at `own`; false is an error.
unfoldable pub send_file_to_node :
    Network → Text → Text → Text → FileMetadata → Cluster → Cluster × Bool
unfolding counted lookup insert remove file_transfer file_chunks
send_file_to_node net own target content meta cl =
    if net.reaches target
    then elim (lookup target (counted own content cl)) [
      | none ↦ (cl, false)
      | some node ↦
          deliver target
            (file_transfer (net.file_system target) true (file_chunks meta content) node)
            (counted own content cl)
    ]
    else (cl, false)

-- `SendAppendToNode`
unfoldable pub send_append_to_node :
    Network → Text → Text → Text → AppendInfo → Cluster → Cluster × Bool
unfolding counted lookup insert append_transfer append_chunks
send_append_to_node net own target content info cl =
    if net.reaches target
    then elim (lookup target (counted own content cl)) [
      | none ↦ (cl, false)
      | some node ↦
          let r = append_transfer (net.file_system target) true (append_chunks info content) node in
          (insert target (r.0) (counted own content cl), r.1)
    ]
    else (cl, false)

-- One goroutine for each target, and the number of successes. They work on different nodes, so
-- they stand here in the order of the targets.
unfoldable pub send_all : (Text → Cluster → Cluster × Bool) → List Member → Cluster → Cluster × ℕ
send_all send [] cl = (cl, 0)
send_all send (m ∷ targets) cl =
    let r = send m.address cl in
    let rest = send_all send targets (r.0) in (rest.0, if r.1 then suc (rest.1) else rest.1)

-- What a node that runs a command is and sees. `file_hash` is `HashToMbits`, `content_hash` the
-- hexadecimal SHA-256.
pub record Client : Type 0 where
  pub own : Text
  pub own_id : Text
  pub members : List Member
  pub replication_factor : ℕ
  pub file_hash : Text → ℕ
  pub content_hash : Text → Text

abbrev pub targets_of : Client → Text → List Member
targets_of c name = find_target_nodes c.members (c.file_hash name) c.replication_factor

abbrev pub new_file : Client → ℤ → Text → Text → FileMetadata
new_file c now name content = record {
  file_name = name;
  file_content_hash = c.content_hash content;
  file_name_hash = c.file_hash name;
  creation_time = show_int now;
  appends = [];
}

-- `handleCreate`, after the local file was looked up; without targets nothing is read.
unfoldable pub handle_create :
    Network → Client → ℤ → Dict Text → Text → Text → Cluster → Cluster × ℕ
unfolding send_all send_file_to_node lookup base show_int
handle_create net c now local local_name name cl = elim (targets_of c name) [
  | [] ↦ (cl, 0)
  | m ∷ targets ↦ elim (lookup (base local_name) local) [
    | none ↦ (cl, 0)
    | some content ↦
        send_all
          (λ target. send_file_to_node net c.own target content (new_file c now name content))
          (m ∷ targets) cl
  ]
]

-- `"%s_%s_%s"`
abbrev pub append_id_of : Client → ℤ → Text → Text
append_id_of c now name =
    name ++ b'_' ∷ (show_int now ++ b'_' ∷ vm_name_of (lookup c.own address_to_vm_name))

abbrev pub new_append : Client → ℤ → Text → Text → AppendInfo
new_append c now name content = record {
  file_name = name;
  append_id = append_id_of c now name;
  client_id = c.own_id;
  client_timestamp = show_int now;
  append_hash = c.content_hash content;
  size = length content;
}

-- `handleAppend`
unfoldable pub handle_append :
    Network → Client → ℤ → Dict Text → Text → Text → Cluster → Cluster × ℕ
unfolding send_all send_append_to_node lookup base show_int address_to_vm_name
handle_append net c now local local_name name cl = elim (targets_of c name) [
  | [] ↦ (cl, 0)
  | m ∷ targets ↦ elim (lookup (base local_name) local) [
    | none ↦ (cl, 0)
    | some content ↦
        send_all
          (λ target. send_append_to_node net c.own target content (new_append c now name content))
          (m ∷ targets) cl
  ]
]

-- The state that a download changes: the cluster, for the counters, and the local directory.
pub record Fetched : Type 0 where
  pub cluster : Cluster
  pub local : Dict Text
  pub ok : Bool

abbrev pub stats_at : Text → Cluster → BandwidthStats
stats_at own cl = elim (lookup own cl) [ none ↦ zero_stats | some node ↦ node.bandwidth_stats ]

unfoldable pub set_stats : Text → BandwidthStats → Cluster → Cluster
unfolding lookup insert
set_stats own stats cl = elim (lookup own cl) [
  | none ↦ cl
  | some node ↦ insert own (record node { bandwidth_stats = stats }) cl
]

-- the local side of `ReceiveFileFromNode`, once the stream is open
abbrev pub fetch : FileSystem → Text → Text → Option (List Text) → Dict Text → Cluster → Fetched
fetch fs own path stream directory cl =
    let r = save_stream fs path stream directory (stats_at own cl) in
    record { cluster = set_stats own (r.0.1) cl; local = r.0.0; ok = r.1 }

-- `ReceiveFileFromNode` into a directory. The sender counts the whole stream, also where the local
-- side stops early.
unfoldable pub receive_file_from_node :
    Network → Text → Text → Text → Text → Dict Text → Cluster → Fetched
unfolding lookup insert get_file_stream save_stream set_stats base
receive_file_from_node net own target name path directory cl =
    if net.reaches target
    then elim (lookup target cl) [
      | none ↦ record { cluster = cl; local = directory; ok = false }
      | some node ↦
          let r = get_file_stream name node in
          fetch (net.file_system own) own (base path) (r.0) directory (insert target (r.1) cl)
    ]
    else record { cluster = cl; local = directory; ok = false }

-- the primary first, then the replicas, until one serves the file
unfoldable pub get_loop : Network → Text → Text → Text → List Member → Dict Text → Cluster → Fetched
unfolding receive_file_from_node
get_loop net own name path [] local cl = record { cluster = cl; local = local; ok = false }
get_loop net own name path (m ∷ targets) local cl =
    let r = receive_file_from_node net own m.address name path local cl in
    let rest = get_loop net own name path targets r.local r.cluster in if r.ok then r else rest

-- `handleGet`
unfoldable pub handle_get : Network → Client → Text → Text → Dict Text → Cluster → Fetched
unfolding get_loop
handle_get net c name path local cl = get_loop net c.own name path (targets_of c name) local cl
