-- ===== src/FileMerge.antt =====
-- hydfs_operations.go: the `merge` of a file over its primary's successors; and `Merge` of
-- rpc_server.go.
pub mod Orders
use hydfs.Prelude.{
  ℕ, Text, Option, none, some, List, [], ◌∷◌, Bool, true, false, Dict, lookup, insert,
  if◌then◌else◌,
}
use hydfs.Member.{Member}
use hydfs.Metadata.{FileMetadata, Metadata, get_file}
use hydfs.Ring.{
  Outcome, returns, panics, get_successors, get_primary_key_range, get_files_within_range,
  is_hash_in_range,
}
use hydfs.Sync.{append_ids, files_and_appends_match, sync_remote_append_order}
use hydfs.Cluster.{Cluster, Network, Client, targets_of}
use hydfs.Cluster.Commands.{Views, fetch_file_metadata}
use hydfs.Stabilization.{stabilize_ring, own_file, own_files, change_own}

abbrev pub stabilize : Network → Client → Text → Cluster → Cluster
stabilize net c filename cl =
    stabilize_ring net c.replication_factor c.own c.own_id c.members filename cl

unfoldable pub in_sync :
    Network → Client → Text → FileMetadata → Option FileMetadata → Cluster → Cluster × Bool
unfolding stabilize_ring files_and_appends_match
in_sync net c filename local none cl = (stabilize net c filename cl, false)
in_sync net c filename local (some remote) cl =
    (if files_and_appends_match local remote then cl else stabilize net c filename cl, true)

unfoldable pub reply_in_sync :
    Network → Client → Text → FileMetadata → Option (Dict FileMetadata) → Cluster → Cluster × Bool
unfolding in_sync lookup
reply_in_sync net c filename local none cl = (cl, false)
reply_in_sync net c filename local (some files) cl =
    in_sync net c filename local (lookup filename files) cl

-- `ensureRemoteFileInSync`, for the successor's address
unfoldable pub ensure_remote_file_in_sync :
    Network → Client → Text → Text → FileMetadata → Cluster → Cluster × Bool
unfolding reply_in_sync fetch_file_metadata
ensure_remote_file_in_sync net c successor filename local cl =
    reply_in_sync net c filename local (fetch_file_metadata net successor filename cl) cl

-- `syncRemoteAppendOrder` over the network: nothing happens if its calls do not get through.
unfoldable pub sync_successor_order :
    Network → Text → Text → FileMetadata → List Text → Cluster → Cluster
unfolding change_own sync_remote_append_order
sync_successor_order net successor filename local ids cl =
    if net.reaches successor
    then change_own successor
        (λ node. record node {
          metadata = sync_remote_append_order filename local ids node.metadata;
        })
        cl
    else cl

-- the loop of `executeMerge`
unfoldable pub merge_successors :
    Network → Client → Text → FileMetadata → List Text → List Member → Cluster → Cluster
unfolding ensure_remote_file_in_sync sync_successor_order
merge_successors net c filename local ids [] cl = cl
merge_successors net c filename local ids (m ∷ successors) cl =
    let r = ensure_remote_file_in_sync net c m.address filename local cl in
    merge_successors net c filename local ids successors
      (if r.1 then sync_successor_order net m.address filename local ids (r.0) else r.0)

-- `executeMerge`. Without successors the loop does nothing, which makes the test of the source for
-- that case idle.
unfoldable pub execute_merge : Network → Client → Text → Cluster → Cluster
unfolding merge_successors own_file get_successors
execute_merge net c filename cl = elim (own_file c.own filename cl) [
  | none ↦ cl
  | some local ↦
      merge_successors net c filename local (append_ids local.appends)
        (get_successors c.members c.own_id c.replication_factor) cl
]

unfoldable pub merge_names : Network → Client → List Text → Cluster → Cluster
unfolding execute_merge
merge_names net c [] cl = cl
merge_names net c (filename ∷ names) cl = merge_names net c names (execute_merge net c filename cl)

-- Without a key range the hashes of the files are compared with a nil pointer.
unfoldable pub merge_range :
    Network → Client → Option (ℕ × ℕ) → Dict FileMetadata → Cluster → Outcome Cluster
unfolding merge_names get_files_within_range
merge_range net c none [] cl = returns cl
merge_range net c none (file ∷ files) cl = panics
merge_range net c (some (start_range, end_range)) files cl =
    returns (merge_names net c (get_files_within_range files start_range end_range) cl)

-- `executeMergeForAllFiles`
unfoldable pub execute_merge_for_all_files : Network → Client → Cluster → Outcome Cluster
unfolding merge_range get_primary_key_range own_files
execute_merge_for_all_files net c cl =
    merge_range net c (get_primary_key_range c.members c.own_id) (own_files c.own cl) cl

-- The `Merge` request, at the node that receives it; false is an error of the call.
unfoldable pub merge_request : Network → Views → Text → Text → Cluster → Cluster × Bool
unfolding execute_merge lookup
merge_request net views target filename cl =
    if net.reaches target
    then elim (lookup target cl) [
      | none ↦ (cl, false)
      | some _ ↦ (execute_merge net (views.client target) filename cl, true)
    ]
    else (cl, false)

unfoldable pub request_first : Network → Views → List Member → Text → Cluster → Cluster × Bool
unfolding merge_request
request_first net views [] filename cl = (cl, false)
request_first net views (m ∷ targets) filename cl = merge_request net views m.address filename cl

-- `handleMergeCommand`: here if the file is in the own primary range, and at its primary otherwise
unfoldable pub handle_merge_command : Network → Views → Client → Text → Cluster → Cluster × Bool
unfolding execute_merge request_first get_primary_key_range is_hash_in_range
handle_merge_command net views c filename cl = elim (get_primary_key_range c.members c.own_id) [
  | none ↦ (cl, false)
  | some (start_range, end_range) ↦
      if is_hash_in_range (c.file_hash filename) start_range end_range
      then (execute_merge net c filename cl, true)
      else request_first net views (targets_of c filename) filename cl
]
