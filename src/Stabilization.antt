-- ===== src/Stabilization.antt =====
-- ring.go: how a node exchanges files and appends with its successors after the ring changed; and
-- `GetFilesMetadata` of rpc_server.go with `fetchMetadataFromNode` of rpc_client.go.
pub mod Pushing
pub mod Copies
pub mod Pulling
use hydfs.Prelude.{
  ℕ, Text, text_eq, Option, none, some, List, [], ◌∷◌, Bool, true, false, not, ◌&&◌, any, Dict,
  lookup, insert, if◌then◌else◌,
}
use hydfs.Member.{Member}
use hydfs.Metadata.{
  AppendInfo, FileMetadata, Metadata, zero_file, file_or_zero, get_file, add_file, append_to_file,
  has_append,
}
use hydfs.Ring.{get_files_within_range, get_primary_key_range, get_successors, needs_stabilization}
use hydfs.Transfer.{Node}
use hydfs.Cluster.{
  Cluster, Network, Fetched, send_file_to_node, send_append_to_node, receive_file_from_node,
}

-- `result[name] = ds.server.Metadata.Files[name]` for the names in the range
unfoldable pub pick_files : Dict FileMetadata → List Text → Dict FileMetadata → Dict FileMetadata
unfolding lookup insert
pick_files files [] result = result
pick_files files (name ∷ names) result =
    pick_files files names (insert name (file_or_zero (lookup name files)) result)

-- The files that `GetFilesMetadata` replies with.
unfoldable pub get_files_metadata : ℕ → ℕ → Metadata → Dict FileMetadata
unfolding pick_files get_files_within_range
get_files_metadata start_range end_range m =
    pick_files m.files (get_files_within_range m.files start_range end_range) []

-- `fetchMetadataFromNode`; no files if the call fails
unfoldable pub fetch_metadata_from_node : Network → Text → ℕ → ℕ → Cluster → Dict FileMetadata
unfolding lookup get_files_metadata
fetch_metadata_from_node net target start_range end_range cl =
    if net.reaches target
    then elim (lookup target cl) [
      | none ↦ []
      | some node ↦ get_files_metadata start_range end_range node.metadata
    ]
    else []

-- `os.ReadFile` in the node's own directory
pub read_own : Text → Text → Cluster → Option Text
unfolding lookup
read_own own path cl = elim (lookup own cl) [ none ↦ none | some node ↦ lookup path node.disk ]

-- `s.Metadata.GetFile`
unfoldable pub own_file : Text → Text → Cluster → Option FileMetadata
unfolding lookup get_file
own_file own name cl = elim (lookup own cl) [
  | none ↦ none
  | some node ↦ get_file name node.metadata
]

unfoldable pub push_content : Network → Text → Text → FileMetadata → Option Text → Cluster → Cluster
unfolding send_file_to_node
push_content net own target meta none cl = cl
push_content net own target meta (some content) cl =
    (send_file_to_node net own target content meta cl).0

unfoldable pub push_append : Network → Text → Text → AppendInfo → Option Text → Cluster → Cluster
unfolding send_append_to_node
push_append net own target info none cl = cl
push_append net own target info (some content) cl =
    (send_append_to_node net own target content info cl).0

-- the local appends that the remote file does not list
unfoldable pub push_appends :
    Network → Text → Text → List AppendInfo → List AppendInfo → Cluster → Cluster
unfolding push_append read_own
push_appends net own target remote [] cl = cl
push_appends net own target remote (a ∷ appends) cl = push_appends net own target remote appends (
    if has_append a.append_id remote
    then cl
    else push_append net own target a (read_own own a.append_id cl) cl)

-- `!exists || localMeta.FileContentHash != remoteMeta.FileContentHash`
abbrev pub needs_content : FileMetadata → Option FileMetadata → Bool
needs_content meta none = true
needs_content meta (some remote) = not (text_eq meta.file_content_hash remote.file_content_hash)

-- one file to one successor
unfoldable pub push_known :
    Network → Text → Text → Text → FileMetadata → Option FileMetadata → Cluster → Cluster
unfolding push_content push_appends read_own
push_known net own target name meta remote cl =
    push_appends net own target (file_or_zero remote).appends meta.appends (
      if needs_content meta remote
      then push_content net own target meta (read_own own name cl) cl
      else cl)

unfoldable pub push_each : Network → Text → Text → Dict FileMetadata → List Text → Cluster → Cluster
unfolding push_known own_file lookup
push_each net own target remote [] cl = cl
push_each net own target remote (name ∷ names) cl =
    push_each net own target remote names (elim (own_file own name cl) [
      | none ↦ cl
      | some meta ↦ push_known net own target name meta (lookup name remote) cl
    ])

unfoldable pub push_files_to_successors :
    Network → Text → List Text → List Member → ℕ → ℕ → Cluster → Cluster
unfolding push_each fetch_metadata_from_node
push_files_to_successors net own my_files [] start_range end_range cl = cl
push_files_to_successors net own my_files (m ∷ successors) start_range end_range cl =
    push_files_to_successors net own my_files successors start_range end_range (
      push_each net own m.address (fetch_metadata_from_node net m.address start_range end_range cl)
        my_files cl)

-- a change of the node's own metadata or directory
unfoldable pub change_own : Text → (Node → Node) → Cluster → Cluster
unfolding lookup insert
change_own own f cl = elim (lookup own cl) [ none ↦ cl | some node ↦ insert own (f node) cl ]

pub own_disk : Text → Cluster → Dict Text
unfolding lookup
own_disk own cl = elim (lookup own cl) [ none ↦ [] | some node ↦ node.disk ]

-- `ReceiveFileFromNode` into the node's own directory
unfoldable pub download : Network → Text → Text → Text → Cluster → Cluster × Bool
unfolding receive_file_from_node change_own own_disk
download net own target name cl =
    let r = receive_file_from_node net own target name name (own_disk own cl) cl in
    (change_own own (λ node. record node { disk = r.local }) r.cluster, r.ok)

-- A failed download of an append is logged; so is an append to a file that is gone.
abbrev pub kept_or : Metadata → Option Metadata → Metadata
kept_or m none = m
kept_or m (some m') = m'

unfoldable pub add_own_append : Text → Text → AppendInfo → Cluster → Cluster
unfolding change_own append_to_file
add_own_append own name a cl =
    change_own own
      (λ node. record node {
        metadata = kept_or node.metadata (append_to_file name a node.metadata);
      })
      cl

unfoldable pub get_append : Network → Text → Text → Text → AppendInfo → Cluster → Cluster
unfolding download add_own_append
get_append net own target name a cl =
    let r = download net own target a.append_id cl in
    if r.1 then add_own_append own name a (r.0) else r.0

-- the remote appends that the local file does not list
unfoldable pub get_appends :
    Network → Text → Text → Text → List AppendInfo → List AppendInfo → Cluster → Cluster
unfolding get_append
get_appends net own target name local [] cl = cl
get_appends net own target name local (a ∷ appends) cl =
    get_appends net own target name local appends
      (if has_append a.append_id local then cl else get_append net own target name a cl)

-- a file that is not there yet: the metadata without its appends follow the content
unfoldable pub get_missing : Network → Text → Text → Text → FileMetadata → Cluster → Cluster
unfolding download change_own add_file get_appends
get_missing net own target name remote cl =
    let r = download net own target name cl in
    if r.1
    then get_appends net own target name [] remote.appends (
        change_own own
          (λ node. record node {
            metadata = add_file (record remote { appends = [] }) node.metadata;
          })
          (r.0))
    else r.0

unfoldable pub get_each : Network → Text → Text → Dict FileMetadata → Cluster → Cluster
unfolding get_missing get_appends own_file
get_each net own target [] cl = cl
get_each net own target ((name, remote) ∷ files) cl =
    get_each net own target files (elim (own_file own name cl) [
      | none ↦ get_missing net own target name remote cl
      | some local ↦ get_appends net own target name local.appends remote.appends cl
    ])

unfoldable pub get_files_from_successors : Network → Text → List Member → ℕ → ℕ → Cluster → Cluster
unfolding get_each fetch_metadata_from_node
get_files_from_successors net own [] start_range end_range cl = cl
get_files_from_successors net own (m ∷ successors) start_range end_range cl =
    get_files_from_successors net own successors start_range end_range (
      get_each net own m.address (fetch_metadata_from_node net m.address start_range end_range cl)
        cl)

-- `myFiles`: the named file alone, if it is one of them, and all of them otherwise
abbrev pub my_files : Text → List Text → List Text
my_files filename all_files =
    if not (text_eq filename []) && any (λ f. text_eq f filename) all_files
    then filename ∷ []
    else all_files

unfoldable pub own_files : Text → Cluster → Dict FileMetadata
unfolding lookup
own_files own cl = elim (lookup own cl) [ none ↦ [] | some node ↦ node.metadata.files ]

unfoldable pub exchange : Network → Text → Text → List Member → Option (ℕ × ℕ) → Cluster → Cluster
unfolding push_files_to_successors get_files_from_successors own_files get_files_within_range
exchange net own filename successors none cl = cl
exchange net own filename successors (some (start_range, end_range)) cl =
    let files =
      my_files filename (get_files_within_range (own_files own cl) start_range end_range) in
    get_files_from_successors net own successors start_range end_range
      (push_files_to_successors net own files successors start_range end_range cl)

-- `stabilizeRing` of the node at `own` with the ID `own_id`. Without successors both loops do
-- nothing, which makes the test of the source for that case idle.
unfoldable pub stabilize_ring : Network → ℕ → Text → Text → List Member → Text → Cluster → Cluster
unfolding exchange get_primary_key_range get_successors
stabilize_ring net replication_factor own own_id members filename cl =
    exchange net own filename (get_successors members own_id replication_factor)
      (get_primary_key_range members own_id) cl

-- `handleReplicationWindowChange` for the node with the ID `node_id`
unfoldable pub handle_replication_window_change :
    Network → ℕ → Text → Text → List Member → Text → Cluster → Cluster
unfolding needs_stabilization stabilize_ring
handle_replication_window_change net replication_factor own own_id members node_id cl =
    if needs_stabilization members replication_factor own_id node_id
    then stabilize_ring net replication_factor own own_id members [] cl
    else cl
