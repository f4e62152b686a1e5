-- ===== src/Transfer.antt =====
-- grpc_client.go and grpc_server.go: how a file and an append travel to another node in chunks, and
-- what the receiver stores.
pub mod Appending
pub mod Chunks
pub mod Stored
pub mod Appended
pub mod Download
pub mod Downloaded
pub mod Listening
use hydfs.Prelude.{
  ℕ, zero, suc, ◌*◌, ◌%◌, ◌^◌, Text, text_eq, Option, none, some, List, [], ◌∷◌, ◌++◌, Bool, true,
  false, Dict, insert, length, take, drop, if◌then◌else◌, map, any, ◌==◌, ◌&&◌, ◌||◌, not, ltb,
}
use hydfs.Metadata.{AppendInfo, FileMetadata, Metadata, get_file, add_file, append_to_file}
use hydfs.Bandwidth.{BandwidthStats, add_sent, add_received}
use hydfs.Ring.{Outcome, returns, panics}

-- Does a name have no slash, and is it neither empty nor "." nor ".."? Then
-- `filepath.Join(hydfsDir, name)` is the entry of that name in the directory; other names, which
-- are cleaned, as "./a" to "a", are not modelled.
abbrev pub is_entry_name : Text → Bool
is_entry_name name =
    not (any (λ b. b == 47) name) && (any (λ b. not (b == 46)) name || ltb 2 (length name))

-- What a node keeps of the transfers: the metadata, the entries of its directory with their
-- contents, and the counters.
pub record Node : Type 0 where
  pub metadata : Metadata
  pub disk : Dict Text
  pub bandwidth_stats : BandwidthStats

-- The operating system: does `os.MkdirAll` succeed, and `os.WriteFile` for a name? A write that
-- fails is taken to leave nothing.
pub record FileSystem : Type 0 where
  pub makes_directory : Bool
  pub writes : Text → Bool

pub record FileChunk : Type 0 where
  pub filename : Text
  pub content : Text
  pub file_content_hash : Text
  pub file_name_hash : ℕ
  pub creation_time : Text

unfoldable pub chunk_size : ℕ
chunk_size = 64 * 1024

-- `for i := 0; i < len(data); i += chunkSize`, with rounds to spare
unfoldable pub pieces : ℕ → Text → List Text
pieces zero content = []
pieces (suc rounds) [] = []
pieces (suc rounds) (c ∷ content) =
    take chunk_size (c ∷ content) ∷ pieces rounds (drop chunk_size (c ∷ content))

-- `int32(hash)`, as its 32 bits. Go reads a number from 2^31 on as a negative one; the hashes of the
-- program are below 2^8 (`HashBits`), and the theorems ask for hashes below 2^31.
abbrev int32 : ℕ → ℕ
int32 n = n % 2 ^ 32

abbrev pub plain_chunk : Text → FileChunk
plain_chunk content = record {
  filename = [];
  content = content;
  file_content_hash = [];
  file_name_hash = 0;
  creation_time = [];
}

abbrev pub first_chunk : FileMetadata → Text → FileChunk
first_chunk meta content = record {
  filename = meta.file_name;
  content = content;
  file_content_hash = meta.file_content_hash;
  file_name_hash = int32 meta.file_name_hash;
  creation_time = meta.creation_time;
}

-- the metadata goes with the first chunk only
abbrev pub with_metadata : FileMetadata → List Text → List FileChunk
with_metadata meta [] = []
with_metadata meta (content ∷ rest) = first_chunk meta content ∷ map plain_chunk rest

-- The chunks that `SendFileToNode` sends.
unfoldable pub file_chunks : FileMetadata → Text → List FileChunk
unfolding pieces
file_chunks meta content = with_metadata meta (pieces (length content) content)

-- The sender's counter after all chunks are sent.
unfoldable pub count_sent : List Text → BandwidthStats → BandwidthStats
unfolding add_sent
count_sent [] stats = stats
count_sent (content ∷ sent) stats = count_sent sent (add_sent (length content) stats)

-- The local variables of the loop in `FileTransfer`; a nil pointer is `none`.
pub record Filing : Type 0 where
  pub name : Text
  pub meta : Option FileMetadata
  pub collected : Text
  pub stats : BandwidthStats

abbrev name_after : Text → FileChunk → Text
name_after name chunk = if text_eq name [] then chunk.filename else name

abbrev meta_after : Option FileMetadata → Text → FileChunk → Option FileMetadata
meta_after (some meta) name chunk = some meta
meta_after none name chunk =
    if text_eq chunk.file_content_hash []
    then none
    else some (record {
      file_name = name;
      file_content_hash = chunk.file_content_hash;
      file_name_hash = chunk.file_name_hash;
      creation_time = chunk.creation_time;
      appends = [];
    })

unfoldable pub file_chunk : FileChunk → Filing → Filing
unfolding text_eq add_received
file_chunk chunk r = record {
  name = name_after r.name chunk;
  meta = meta_after r.meta (name_after r.name chunk) chunk;
  collected = r.collected ++ chunk.content;
  stats = add_received (length chunk.content) r.stats;
}

unfoldable pub receive_file : List FileChunk → Filing → Filing
unfolding file_chunk
receive_file [] r = r
receive_file (chunk ∷ chunks) r = receive_file chunks (file_chunk chunk r)

unfoldable pub write_file : FileSystem → Text → FileMetadata → Node → Node × Bool
unfolding insert add_file
write_file fs content meta node =
    if fs.writes meta.file_name
    then (
      record node {
        metadata = add_file meta node.metadata;
        disk = insert meta.file_name content node.disk;
      },
      true,
    )
    else (node, false)

-- `saveFile`, which reads the file's name through the pointer before it asks whether it is nil.
unfoldable pub save_file : FileSystem → Text → Option FileMetadata → Node → Outcome (Node × Bool)
unfolding write_file
save_file fs content none node = if fs.makes_directory then panics else returns (node, false)
save_file fs content (some meta) node =
    if fs.makes_directory then returns (write_file fs content meta node) else returns (node, false)

unfoldable pub finish_file :
    FileSystem → Filing → Option FileMetadata → Node → Outcome (Node × Bool)
unfolding save_file
finish_file fs r (some old) node = returns (node, false)
finish_file fs r none node = save_file fs r.collected r.meta node

-- `FileTransfer`, and the success that it reports. `complete` says that the stream ended with
-- `io.EOF` and not with another error.
unfoldable pub file_transfer : FileSystem → Bool → List FileChunk → Node → Outcome (Node × Bool)
unfolding receive_file finish_file get_file
file_transfer fs complete chunks node =
    let r =
      receive_file chunks
        (record { name = []; meta = none; collected = []; stats = node.bandwidth_stats }) in
    let counted = record node { bandwidth_stats = r.stats } in
    if complete
    then finish_file fs r (get_file r.name node.metadata) counted
    else returns (counted, false)
