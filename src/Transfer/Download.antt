-- ===== src/Transfer/Download.antt =====
-- grpc_server.go, `GetFile`, and grpc_client.go, `ReceiveFileFromNode`: how a file and its appends
-- come from another node, one after the other, into a local file.
use hydfs.Prelude.{
  Text, Option, none, some, List, [], ◌∷◌, ◌++◌, Bool, true, false, Dict, lookup, insert, remove,
  length, if◌then◌else◌, ◌==◌,
}
use hydfs.Metadata.{FileMetadata, get_file}
use hydfs.Sync.{append_ids}
use hydfs.Bandwidth.{BandwidthStats, add_received}
use hydfs.Transfer.{Node, FileSystem, pieces, count_sent}

-- a newline between two files, none after the last one
abbrev pub separated : List Text → List Text → List Text
separated [] chunks = chunks
separated (path ∷ paths) chunks = (10 ∷ []) ∷ chunks

-- The chunks that are read from the paths in order; a path that cannot be opened is skipped.
unfoldable pub path_chunks : Dict Text → List Text → List Text
unfolding lookup pieces
path_chunks disk [] = []
path_chunks disk (path ∷ paths) =
    let rest = path_chunks disk paths in
    elim (lookup path disk) [
      | none ↦ rest
      | some content ↦ pieces (length content) content ++ separated paths rest
    ]

-- The paths of a file: its own, and one for each append.
abbrev pub file_paths : FileMetadata → List Text
file_paths meta = meta.file_name ∷ append_ids meta.appends

unfoldable pub stream_found : Option FileMetadata → Node → Option (List Text) × Node
unfolding path_chunks count_sent
stream_found none node = (none, node)
stream_found (some meta) node =
    let chunks = path_chunks node.disk (file_paths meta) in
    (some chunks, record node { bandwidth_stats = count_sent chunks node.bandwidth_stats })

-- `GetFile`: the contents of the chunks, or `none` for the error of an unknown file.
unfoldable pub get_file_stream : Text → Node → Option (List Text) × Node
unfolding stream_found get_file
get_file_stream filename node = stream_found (get_file filename node.metadata) node

-- What the loop over the stream writes, and the counter that it leaves.
unfoldable pub write_chunks : List Text → Text → BandwidthStats → Text × BandwidthStats
unfolding add_received
write_chunks [] written stats = (written, stats)
write_chunks (chunk ∷ chunks) written stats =
    write_chunks chunks (written ++ chunk) (add_received (length chunk) stats)

-- The local side, for a stream that was opened. The local file is created before the first chunk
-- arrives, and removed again after an error.
unfoldable pub save_stream :
    FileSystem
    → Text
    → Option (List Text)
    → Dict Text
    → BandwidthStats
    → (Dict Text × BandwidthStats) × Bool
unfolding insert remove write_chunks add_received
save_stream fs path stream directory stats =
    if fs.makes_directory
    then (if fs.writes path
        then elim stream [
          | none ↦ ((remove path directory, add_received 0 stats), false)
          | some chunks ↦
              let r = write_chunks chunks [] stats in ((insert path (r.0) directory, r.1), true)
        ]
        else ((directory, stats), false))
    else ((directory, stats), false)

-- `filepath.Base` of a path without a slash at its end
unfoldable pub base_from : Text → Text → Text
base_from part [] = part
base_from part (c ∷ path) =
    let next = base_from [] path in
    let longer = base_from (part ++ c ∷ []) path in if c == b'/' then next else longer

unfoldable pub base : Text → Text
unfolding base_from
base path = base_from [] path
