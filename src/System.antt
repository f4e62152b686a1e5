-- ===== src/System.antt =====
-- The cluster over time: what can happen to the metadata of the nodes between two moments, in any
-- order. The commands of hydfs_operations.go, the exchange of ring.go after the ring changed and the
-- loops of server.go are one step each; a node that runs a command may believe anything about the
-- members, and the network and the operating systems may do anything.
pub mod Nodes
pub mod Calls
pub mod Exchanges
pub mod Commands
pub mod Merges
pub mod Collecting
pub mod Reachable
use hydfs.Prelude.{All, ℕ, Text, ◌≡◌, some, List, [], Bool, Dict, lookup, insert, remove}
use hydfs.Prelude.Decimal.{ℤ}
use hydfs.Member.{Member}
use hydfs.Metadata.{AppendInfo, Metadata, empty_metadata}
use hydfs.Metadata.Consistency.{Operation}
use hydfs.Metadata.Interleaving.{append_to_file_among}
use hydfs.Metadata.Undeleted.{Spares}
use hydfs.Bandwidth.{BandwidthStats, zero_stats}
use hydfs.Ring.{returns, panics}
use hydfs.Transfer.{Node}
use hydfs.Cluster.{Cluster, Network, Client, handle_create, handle_append, handle_get, set_stats}
use hydfs.Cluster.Commands.{Views, handle_get_from_replica, handle_multi_append}
use hydfs.Stabilization.{stabilize_ring, handle_replication_window_change}
use hydfs.FileMerge.{execute_merge, execute_merge_for_all_files, handle_merge_command}
use hydfs.Garbage.{delete_files_outside_my_range}

-- A command, an exchange between nodes, or a change of the counters.
pub data Run (cl : Cluster) : Cluster → Type 0 where
  creates :
      (net : Network) (c : Client) (now : ℤ) (local : Dict Text) (local_name name : Text)
      → Run cl (handle_create net c now local local_name name cl).0
  appends :
      (net : Network) (c : Client) (now : ℤ) (local : Dict Text) (local_name name : Text)
      → Run cl (handle_append net c now local local_name name cl).0
  gets :
      (net : Network) (c : Client) (name path : Text) (local : Dict Text)
      → Run cl (handle_get net c name path local cl).cluster
  gets_from_replica :
      (net : Network) (c : Client) (vm_id name path : Text) (local : Dict Text)
      → Run cl (handle_get_from_replica net c vm_id name path local cl).cluster
  multi_appends :
      (net : Network) (views : Views) (now : ℤ) (name : Text) (vm_names local_files : List Text)
      → Run cl (handle_multi_append net views now name vm_names local_files cl).0
  merges :
      (net : Network) (views : Views) (c : Client) (name : Text)
      → Run cl (handle_merge_command net views c name cl).0
  executes_merge : (net : Network) (c : Client) (name : Text) → Run cl (execute_merge net c name cl)
  merges_all :
      (net : Network) (c : Client) {cl' : Cluster}
      → execute_merge_for_all_files net c cl ≡ returns cl'
      → Run cl cl'
  stabilizes :
      (net : Network) (replication_factor : ℕ) (own own_id : Text) (members : List Member)
      (filename : Text)
      → Run cl (stabilize_ring net replication_factor own own_id members filename cl)
  changes_window :
      (net : Network) (replication_factor : ℕ) (own own_id : Text) (members : List Member)
      (node_id : Text)
      → Run cl
          (handle_replication_window_change net replication_factor own own_id members node_id cl)
  counts : (own : Text) (stats : BandwidthStats) → Run cl (set_stats own stats cl)

-- Also the garbage collector, and nodes that start, with no metadata, and that stop.
pub data Step (cl : Cluster) : Cluster → Type 0 where
  runs : {cl' : Cluster} → Run cl cl' → Step cl cl'
  collects :
      (removes : Text → Bool) (replication_factor : ℕ) (members : List Member) (own own_id : Text)
      (node : Node) {node' : Node}
      → lookup own cl ≡ some node
      → delete_files_outside_my_range removes replication_factor members own_id node ≡ returns node'
      → Step cl (insert own node' cl)
  -- `AppendToFile`, with operations of other goroutines on that node's metadata between its steps,
  -- none of which deletes the file
  interleaves :
      (before after : List Operation) (filename : Text) (append_info : AppendInfo) (own : Text)
      (node : Node) {m : Metadata}
      → lookup own cl ≡ some node
      → All (Spares filename) before
      → All (Spares filename) after
      → append_to_file_among before after filename append_info node.metadata ≡ some m
      → Step cl (insert own (record node { metadata = m }) cl)
  starts :
      (own : Text) (disk : Dict Text)
      → Step cl (
          insert own
            (record { metadata = empty_metadata; disk = disk; bandwidth_stats = zero_stats })
            cl)
  stops : (own : Text) → Step cl (remove own cl)

pub data Runs (cl : Cluster) : Cluster → Type 0 where
  none_yet : Runs cl cl
  run : {t u : Cluster} → Runs cl t → Run t u → Runs cl u

pub data Reach (cl : Cluster) : Cluster → Type 0 where
  here : Reach cl cl
  next : {t u : Cluster} → Reach cl t → Step t u → Reach cl u
