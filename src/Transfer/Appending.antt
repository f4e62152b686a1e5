-- ===== src/Transfer/Appending.antt =====
-- grpc_client.go and grpc_server.go: how an append travels to another node, and is stored there.
use hydfs.Prelude.{
  Text, Option, none, some, List, [], ◌∷◌, ◌++◌, Bool, true, false, ◌||◌, not, insert, length,
  if◌then◌else◌, map,
}
use hydfs.Metadata.{AppendInfo, FileMetadata, Metadata, get_file, append_to_file}
use hydfs.Bandwidth.{BandwidthStats, add_received}
use hydfs.Transfer.{Node, FileSystem, pieces}

pub record AppendChunk : Type 0 where
  pub filename : Text
  pub content : Text
  pub append_content_hash : Text
  pub client_id : Text
  pub client_timestamp : Text
  pub append_id : Text

abbrev pub plain_append_chunk : Text → AppendChunk
plain_append_chunk content = record {
  filename = [];
  content = content;
  append_content_hash = [];
  client_id = [];
  client_timestamp = [];
  append_id = [];
}

abbrev pub first_append_chunk : AppendInfo → Text → AppendChunk
first_append_chunk info content = record {
  filename = info.file_name;
  content = content;
  append_content_hash = info.append_hash;
  client_id = info.client_id;
  client_timestamp = info.client_timestamp;
  append_id = info.append_id;
}

abbrev pub with_append_info : AppendInfo → List Text → List AppendChunk
with_append_info info [] = []
with_append_info info (content ∷ rest) =
    first_append_chunk info content ∷ map plain_append_chunk rest

-- The chunks that `SendAppendToNode` sends.
unfoldable pub append_chunks : AppendInfo → Text → List AppendChunk
unfolding pieces
append_chunks info content = with_append_info info (pieces (length content) content)

-- The local variables of the loop in `AppendTransfer`; `head` is the first chunk, if one came.
pub record Appending : Type 0 where
  pub head : Option AppendChunk
  pub collected : Text
  pub stats : BandwidthStats

abbrev head_after : Option AppendChunk → AppendChunk → Option AppendChunk
head_after none chunk = some chunk
head_after (some first) chunk = some first

unfoldable pub append_chunk : AppendChunk → Appending → Appending
unfolding add_received
append_chunk chunk r = record {
  head = head_after r.head chunk;
  collected = r.collected ++ chunk.content;
  stats = add_received (length chunk.content) r.stats;
}

unfoldable pub receive_append : List AppendChunk → Appending → Appending
unfolding append_chunk
receive_append [] r = r
receive_append (chunk ∷ chunks) r = receive_append chunks (append_chunk chunk r)

-- `AppendInfo` from the fields of the first chunk, which are empty if none came
abbrev pub info_of : Option AppendChunk → Text → AppendInfo
info_of none content = record {
  file_name = [];
  append_id = [];
  client_id = [];
  client_timestamp = [];
  append_hash = [];
  size = length content;
}
info_of (some chunk) content = record {
  file_name = chunk.filename;
  append_id = chunk.append_id;
  client_id = chunk.client_id;
  client_timestamp = chunk.client_timestamp;
  append_hash = chunk.append_content_hash;
  size = length content;
}

-- The metadata may refuse an append whose content is written already.
unfoldable pub after_append : Option Metadata → Node → Node × Bool
after_append none node = (node, false)
after_append (some metadata) node = (record node { metadata = metadata }, true)

unfoldable pub store_append : FileSystem → AppendInfo → Text → Node → Node × Bool
unfolding insert append_to_file after_append
store_append fs info content node =
    if not fs.makes_directory || not (fs.writes info.append_id)
    then (node, false)
    else after_append (append_to_file info.file_name info node.metadata)
        (record node { disk = insert info.append_id content node.disk })

unfoldable pub finish_append :
    FileSystem → AppendInfo → Text → Option FileMetadata → Node → Node × Bool
unfolding store_append
finish_append fs info content none node = (node, false)
finish_append fs info content (some file) node = store_append fs info content node

-- `AppendTransfer`, and the success that it reports.
unfoldable pub append_transfer : FileSystem → Bool → List AppendChunk → Node → Node × Bool
unfolding receive_append finish_append get_file
append_transfer fs complete chunks node =
    let r =
      receive_append chunks
        (record { head = none; collected = []; stats = node.bandwidth_stats }) in
    let counted = record node { bandwidth_stats = r.stats } in
    let info = info_of r.head r.collected in
    if complete
    then finish_append fs info r.collected (get_file info.file_name node.metadata) counted
    else (counted, false)
