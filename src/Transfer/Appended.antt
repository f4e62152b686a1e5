-- ===== src/Transfer/Appended.antt =====
-- What the receiver of an append holds after the transfer.
use hydfs.Prelude.{
  ℕ, suc, ◌≡◌, refl, subst, ap, ◌∙◌, Text, text_eq, Option, none, some, List, [], ◌∷◌, true, length,
  map, insert, lookup, lookup-insert, arith, if◌then◌else◌, take, drop,
}
use hydfs.Metadata.{
  AppendInfo, FileMetadata, Metadata, get_file, append_to_file, has_append, insert_append,
  add_append,
}
use hydfs.Metadata.Consistency.{IsConsistent, Appends, append_to_file_lem}
use hydfs.Bandwidth.{BandwidthStats}
use hydfs.Transfer.{Node, FileSystem, pieces, chunk_size, is_entry_name}
use hydfs.Transfer.Appending.{
  AppendChunk, Appending, append_chunks, first_append_chunk, plain_append_chunk, append_chunk,
  receive_append, info_of, after_append, store_append, finish_append, append_transfer,
}
use hydfs.Transfer.Chunks.{joined-pieces, receive_append-rest}

abbrev nothing_yet : Node → Appending
nothing_yet node = record { head = none; collected = []; stats = node.bandwidth_stats }

-- the sender's description, with the size that the receiver counts
abbrev pub sized : AppendInfo → Text → AppendInfo
sized info content = record info { size = length content }

received_append :
    (info : AppendInfo) (c : ℕ) (content : Text) (node : Node)
    → let r = receive_append (append_chunks info (c ∷ content)) (nothing_yet node) in
      (info_of r.head r.collected ≡ sized info (c ∷ content)) × (r.collected ≡ c ∷ content)
unfolding append_chunks receive_append append_chunk pieces
received_append info c content node =
    let p = take chunk_size (c ∷ content) in
    let ps = pieces (length content) (drop chunk_size (c ∷ content)) in
    let r = append_chunk (first_append_chunk info p) (nothing_yet node) in
    let (head, whole) = receive_append-rest ps r {h = first_append_chunk info p} refl in
    let all = whole ∙ joined-pieces (suc (length content)) (c ∷ content) (omega arith) in
    (
      ap (λ o. info_of o (receive_append (map plain_append_chunk ps) r).collected) head
          ∙ ap (λ x. sized info x) all,
      all,
    )

finish_append_stores :
    (fs : FileSystem) (info : AppendInfo) (content : Text) (before : Option FileMetadata)
    (node : Node) {f : FileMetadata} (m : Metadata)
    → before ≡ some f
    → fs.makes_directory ≡ true
    → fs.writes info.append_id ≡ true
    → append_to_file info.file_name info node.metadata ≡ some m
    → finish_append fs info content before node
      ≡ (record node { metadata = m; disk = insert info.append_id content node.disk }, true)
unfolding finish_append store_append after_append
finish_append_stores fs info content before node m b d w e =
    rw (b, finish_append, store_append, d, w, e, after_append) refl

append_transfer_complete :
    (fs : FileSystem) (chunks : List AppendChunk) (node : Node)
    → let r = receive_append chunks (nothing_yet node) in
      let info = info_of r.head r.collected in
      append_transfer fs true chunks node
      ≡ finish_append fs info r.collected
          (get_file info.file_name node.metadata)
          (record node { bandwidth_stats = r.stats })
unfolding append_transfer
append_transfer_complete fs chunks node = refl

-- the whole outcome, with the metadata that the operation on it leaves
pub append_transfer_result :
    (fs : FileSystem) (info : AppendInfo) (c : ℕ) (content : Text) (node : Node) {f : FileMetadata}
    (m : Metadata)
    → get_file info.file_name node.metadata ≡ some f
    → append_to_file info.file_name (sized info (c ∷ content)) node.metadata ≡ some m
    → fs.makes_directory ≡ true
    → fs.writes info.append_id ≡ true
    → (stats : BandwidthStats) × (append_transfer fs true (append_chunks info (c ∷ content)) node
        ≡ (
          record {
            metadata = m;
            disk = insert info.append_id (c ∷ content) node.disk;
            bandwidth_stats = stats;
          },
          true,
        ))
append_transfer_result fs info c content node {f} m e ok d w =
    let r = receive_append (append_chunks info (c ∷ content)) (nothing_yet node) in
    let whole = sized info (c ∷ content) in
    let (known, all) = received_append info c content node in
    (
      r.stats,
      append_transfer_complete fs (append_chunks info (c ∷ content)) node
          ∙ ap
              (λ x.
                finish_append fs x r.collected (get_file x.file_name node.metadata)
                  (record node { bandwidth_stats = r.stats }))
              known
          ∙ ap
              (λ x.
                finish_append fs whole x (get_file info.file_name node.metadata)
                  (record node { bandwidth_stats = r.stats }))
              all
          ∙ finish_append_stores fs whole (c ∷ content) (get_file info.file_name node.metadata)
              (record node { bandwidth_stats = r.stats }) {f = f} m e d w ok,
    )

-- An append that is not empty, and whose ID is the name of an entry of a directory, sent to a node
-- with consistent metadata that has the file and can write, is stored there under its ID with all its
-- content. If the file lists no append with that ID yet, then the append now stands in its place
-- among them, with the size that was received; if it lists one, then the list stays as it was,
-- although the content under that ID is now the new one. The metadata of all other files and all
-- other entries of the directory stay.
pub append_transfer-append_chunks :
    (fs : FileSystem) (info : AppendInfo) (c : ℕ) (content : Text) (node : Node) {f : FileMetadata}
    → IsConsistent node.metadata
    → get_file info.file_name node.metadata ≡ some f
    → is_entry_name info.append_id ≡ true
    → fs.makes_directory ≡ true
    → fs.writes info.append_id ≡ true
    → (after : Node) × (append_transfer fs true (append_chunks info (c ∷ content)) node
        ≡ (after, true))
      × ((name : Text)
          → lookup name after.disk
            ≡ (if text_eq info.append_id name then some (c ∷ content) else lookup name node.disk))
      × ((name : Text)
          → get_file name after.metadata ≡ (
              if text_eq info.file_name name
              then some (record f {
                appends =
                    if has_append info.append_id f.appends
                    then f.appends
                    else insert_append (record info { size = length (c ∷ content) }) f.appends;
              })
              else get_file name node.metadata))
unfolding add_append
append_transfer-append_chunks fs info c content node {f} k e entry d w =
    let (m, ok, locks, files) =
      subst (Appends info.file_name (sized info (c ∷ content)) node.metadata) e
        (append_to_file_lem info.file_name (sized info (c ∷ content)) node.metadata k) in
    let (stats, done) = append_transfer_result fs info c content node {f = f} m e ok d w in
    (
      record {
        metadata = m;
        disk = insert info.append_id (c ∷ content) node.disk;
        bandwidth_stats = stats;
      },
      done,
      (λ x. lookup-insert info.append_id x (c ∷ content) node.disk),
      files,
    )
