-- ===== src/Cluster/Commands.antt =====
-- hydfs_operations.go: the commands that append on several nodes, list where a file is, and read it
-- from one replica; and `MultiAppend` of rpc_server.go.
use hydfs.Prelude.{
  ℕ, suc, Text, Option, none, some, List, [], ◌∷◌, Bool, true, false, Dict, lookup, if◌then◌else◌,
}
use hydfs.Prelude.Decimal.{ℤ}
use hydfs.Config.{node_map}
use hydfs.Member.{Member}
use hydfs.Metadata.{FileMetadata, Metadata, get_file, get_file_metadata, list_files}
use hydfs.Cluster.{
  Cluster, Network, Client, Fetched, targets_of, handle_append, receive_file_from_node,
}

-- `GetFileMetadata` over the network; `none` is an error of the call.
unfoldable pub fetch_file_metadata : Network → Text → Text → Cluster → Option (Dict FileMetadata)
unfolding lookup get_file_metadata
fetch_file_metadata net target filename cl =
    if net.reaches target
    then elim (lookup target cl) [
      | none ↦ none
      | some node ↦ some ((get_file_metadata filename node.metadata).1)
    ]
    else none

-- Does the reply hold the file? An unsuccessful reply has no files.
abbrev pub replies_with : Text → Option (Dict FileMetadata) → Bool
replies_with filename none = false
replies_with filename (some files) = elim (lookup filename files) [ none ↦ false | some _ ↦ true ]

unfoldable pub ls_loop : Network → Text → List Member → Cluster → List Member
unfolding fetch_file_metadata lookup
ls_loop net filename [] cl = []
ls_loop net filename (m ∷ members) cl =
    let rest = ls_loop net filename members cl in
    if replies_with filename (fetch_file_metadata net m.address filename cl) then m ∷ rest else rest

-- `handleLS`: the nodes that it prints
unfoldable pub handle_ls : Network → Client → Text → Cluster → List Member
unfolding ls_loop
handle_ls net c filename cl = ls_loop net filename (targets_of c filename) cl

list_store_loop : Metadata → List Text → List (Text × ℕ)
unfolding get_file
list_store_loop m [] = []
list_store_loop m (filename ∷ names) =
    let rest = list_store_loop m names in
    elim (get_file filename m) [ none ↦ rest | some file ↦ (filename, file.file_name_hash) ∷ rest ]

-- `handleListStore`: the files that it prints, and their IDs
unfoldable pub handle_list_store : Metadata → List (Text × ℕ)
unfolding list_store_loop list_files
handle_list_store m = list_store_loop m (list_files m)

-- `handleGetFromReplica`
unfoldable pub handle_get_from_replica :
    Network → Client → Text → Text → Text → Dict Text → Cluster → Fetched
unfolding receive_file_from_node lookup
handle_get_from_replica net c vm_id name path local cl = elim (lookup vm_id node_map) [
  | none ↦ record { cluster = cl; local = local; ok = false }
  | some vm_address ↦ receive_file_from_node net c.own vm_address name path local cl
]

-- What the nodes are and see, and their local directories, by their addresses.
pub record Views : Type 0 where
  pub client : Text → Client
  pub local_directory : Text → Dict Text

-- The `MultiAppend` request: the node that receives it appends, and replies with success whatever
-- came of that.
unfoldable pub multi_append : Network → Views → ℤ → Text → Text → Text → Cluster → Cluster × Bool
unfolding handle_append lookup
multi_append net views now target name local_name cl =
    if net.reaches target
    then elim (lookup target cl) [
      | none ↦ (cl, false)
      | some _ ↦ (
        (handle_append net (views.client target) now (views.local_directory target) local_name name
            cl).0,
        true,
      )
    ]
    else (cl, false)

unfoldable pub multi_append_one :
    Network → Views → ℤ → Text → Option Text → Text → Cluster → Cluster × Bool
unfolding multi_append
multi_append_one net views now name none local_name cl = (cl, false)
multi_append_one net views now name (some address) local_name cl =
    multi_append net views now address name local_name cl

-- `handleMultiAppend`, and the successes that it counts. The calls run at the same time; here they
-- are answered in the order of the VM names. There are as many local files as VM names.
unfoldable pub handle_multi_append :
    Network → Views → ℤ → Text → List Text → List Text → Cluster → Cluster × ℕ
unfolding multi_append_one lookup
handle_multi_append net views now name (vm_name ∷ vm_names) (local_file ∷ local_files) cl =
    let r = multi_append_one net views now name (lookup vm_name node_map) local_file cl in
    let rest = handle_multi_append net views now name vm_names local_files (r.0) in
    (rest.0, if r.1 then suc (rest.1) else rest.1)
handle_multi_append net views now name _ _ cl = (cl, 0)
