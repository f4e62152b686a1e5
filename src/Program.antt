-- ===== src/Program.antt =====
-- main.go, and the loops of server.go: how a process starts, and what one tick of a loop does.
pub mod Launch
use hydfs.Prelude.{
  ℕ, ◌+◌, Text, codes, text_eq, Option, none, some, List, [], ◌∷◌, ◌++◌, Bool, true, false, ◌||◌,
  lookup, ltb, if◌then◌else◌,
}
use hydfs.Prelude.Decimal.{ℤ}
use hydfs.Config.{Config, node_map}
use hydfs.Member.{Member}
use hydfs.Bandwidth.{BandwidthStats, get_and_reset}
use hydfs.Server.{Server, new_server}
use hydfs.Detection.{Timeouts, mark_suspect_if_needed}
use hydfs.Ring.{Outcome}
use hydfs.Transfer.{Node}
use hydfs.Garbage.{delete_files_outside_my_range}
use hydfs.Cluster.{Cluster, Network, Client}
use hydfs.FileMerge.{execute_merge_for_all_files}
use hydfs.Console.{Console, initialize_logger, console_printf, log_info}
use hydfs.Console.Printing.{print}

-- How `main` goes on: without an argument it reads out of range, and without a log it exits.
pub data Program : Type 0 where
  index_out_of_range exits : Program
  starts : Server → Console → Program

-- `NodeMap[nodeName]`, the empty text for a missing key
abbrev pub node_address : Option Text → Text
node_address none = []
node_address (some address) = address

-- `main`, up to `Start`; `args` are the arguments after the program's name.
unfoldable pub main :
    (Text → ℕ) → ℤ → ℕ → Bool → Option (List Text) → Config → List Text → Console → Program
unfolding initialize_logger new_server console_printf lookup
main hash_of seconds now makes_directory entries config [] console = index_out_of_range
main hash_of seconds now makes_directory entries config (node_name ∷ args) console =
    let address = node_address (lookup node_name node_map) in
    let r = initialize_logger makes_directory entries console in
    if r.1
    then starts
        (new_server hash_of seconds now address config.introducer_addr
          (text_eq address config.introducer_addr))
        (console_printf (codes "Current node address: " ++ address ++ 10 ∷ [])
          (console_printf (codes "Current node name: " ++ node_name ++ 10 ∷ []) (r.0)))
    else exits

-- One tick of `backgroundCheckerRPC`.
unfoldable pub background_checker_rpc : Config → ℕ → Timeouts → Server → Console → Server × Console
unfolding mark_suspect_if_needed print
background_checker_rpc config now t s console =
    let r = mark_suspect_if_needed config now t s in
    (r.0, if r.1 then print config false (r.0).members console else console)

-- One tick of `monitorBandwidth`; `report` is the line that `fmt` makes of the two numbers.
unfoldable pub monitor_bandwidth :
    (ℕ → ℕ → Text) → BandwidthStats → Console → BandwidthStats × Console
unfolding get_and_reset log_info
monitor_bandwidth report stats console =
    let (sent, received, reset) = get_and_reset stats in
    (
      reset,
      if ltb 0 sent || ltb 0 received
          then log_info true (report sent received) console
          else console,
    )

-- One tick of `garbageCollectorProcess`, and one of `mergeMetadataProcess`.
unfoldable pub garbage_collector_process :
    (Text → Bool) → ℕ → List Member → Text → Node → Outcome Node
unfolding delete_files_outside_my_range
garbage_collector_process removes replication_factor members own_id node =
    delete_files_outside_my_range removes replication_factor members own_id node

unfoldable pub merge_metadata_process : Network → Client → Cluster → Outcome Cluster
unfolding execute_merge_for_all_files
merge_metadata_process net c cl = execute_merge_for_all_files net c cl
