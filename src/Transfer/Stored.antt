-- ===== src/Transfer/Stored.antt =====
-- What the receiver of a file or of an append holds after the transfer.
use native.Mathlib.Nat.{mod-eq_of_lt}
use hydfs.Prelude.{
  ℕ, suc, ◌<◌, ◌^◌, ◌≡◌, ◌≢◌, refl, ap, ◌∙◌, Text, text_eq, text_eq_iff, Option, none, some, List,
  [], ◌∷◌, ◌++◌, true, false, length, insert, lookup, lookup-insert, arith, if◌then◌else◌, take,
  drop, Bool-cases, inl, inr,
}
use hydfs.Metadata.{FileMetadata, get_file, add_file}
use hydfs.Metadata.Consistency.{get_file-add_file}
use hydfs.Ring.{returns, panics}
use hydfs.Bandwidth.{BandwidthStats}
use hydfs.Transfer.{
  Node, FileSystem, Filing, pieces, first_chunk, file_chunk, file_chunks, receive_file, finish_file,
  write_file, chunk_size, FileChunk, is_entry_name, save_file, file_transfer,
}
use hydfs.Transfer.Chunks.{joined, joined-pieces, receive_file-rest}

-- the local variables before the first chunk
abbrev pub nothing_yet : Node → Filing
nothing_yet node = record { name = []; meta = none; collected = []; stats = node.bandwidth_stats }

abbrev pub without_appends : FileMetadata → FileMetadata
without_appends meta = record meta { appends = [] }

first_file_chunk :
    (meta : FileMetadata) (p : Text) (node : Node)
    → text_eq meta.file_content_hash [] ≡ false
    → meta.file_name_hash < 2 ^ 32
    → let r' = file_chunk (first_chunk meta p) (nothing_yet node) in
      (r'.name ≡ meta.file_name) × (r'.meta ≡ some (without_appends meta)) × (r'.collected ≡ p)
unfolding file_chunk
first_file_chunk meta p node h l =
    rw h (
      refl,
      ap (λ i. some (record meta { file_name_hash = i; appends = [] })) (mod-eq_of_lt l),
      refl,
    )

pub received_file :
    (meta : FileMetadata) (c : ℕ) (content : Text) (node : Node)
    → text_eq meta.file_name [] ≡ false
    → text_eq meta.file_content_hash [] ≡ false
    → meta.file_name_hash < 2 ^ 32
    → let r' = receive_file (file_chunks meta (c ∷ content)) (nothing_yet node) in
      (r'.name ≡ meta.file_name)
      × (r'.meta ≡ some (without_appends meta))
      × (r'.collected ≡ c ∷ content)
unfolding file_chunks receive_file pieces
received_file meta c content node n h l =
    let p = take chunk_size (c ∷ content) in
    let ps = pieces (length content) (drop chunk_size (c ∷ content)) in
    let (name, found, part) = first_file_chunk meta p node h l in
    let (name', found', whole) =
      receive_file-rest ps (file_chunk (first_chunk meta p) (nothing_yet node))
        (ap (λ x. text_eq x []) name ∙ n) found in
    (
      name' ∙ name,
      found',
      whole
          ∙ ap (λ x. x ++ joined ps) part
          ∙ joined-pieces (suc (length content)) (c ∷ content) (omega arith),
    )

finish_file_stores :
    (fs : FileSystem) (r : Filing) (meta : FileMetadata) (content : Text)
    (before : Option FileMetadata) (node : Node)
    → before ≡ none
    → r.meta ≡ some meta
    → r.collected ≡ content
    → fs.makes_directory ≡ true
    → fs.writes meta.file_name ≡ true
    → finish_file fs r before node
      ≡ returns (
        record node {
          metadata = add_file meta node.metadata;
          disk = insert meta.file_name content node.disk;
        },
        true,
      )
unfolding finish_file save_file write_file
finish_file_stores fs r meta content before node b m e d w =
    rw (b, finish_file, m, save_file, e, d, write_file, w) refl

pub different : (x : Text) → x ≢ [] → text_eq x [] ≡ false
different x n = elim (Bool-cases (text_eq x [])) [
  | inl e ↦ absurd (n ((text_eq_iff x []).0 e))
  | inr e ↦ e
]

pub file_transfer_complete :
    (fs : FileSystem) (chunks : List FileChunk) (node : Node)
    → let r = receive_file chunks (nothing_yet node) in
      file_transfer fs true chunks node
      ≡ finish_file fs r (get_file r.name node.metadata) (record node { bandwidth_stats = r.stats })
unfolding file_transfer
file_transfer_complete fs chunks node = refl

pub file_transfer_result :
    (fs : FileSystem) (meta : FileMetadata) (c : ℕ) (content : Text) (node : Node)
    → meta.file_name ≢ []
    → meta.file_content_hash ≢ []
    → meta.file_name_hash < 2 ^ 31
    → fs.makes_directory ≡ true
    → fs.writes meta.file_name ≡ true
    → get_file meta.file_name node.metadata ≡ none
    → (stats : BandwidthStats) × (file_transfer fs true (file_chunks meta (c ∷ content)) node
        ≡ returns (
          record {
            metadata = add_file (without_appends meta) node.metadata;
            disk = insert meta.file_name (c ∷ content) node.disk;
            bandwidth_stats = stats;
          },
          true,
        ))
file_transfer_result fs meta c content node n h l d w e =
    let r = receive_file (file_chunks meta (c ∷ content)) (nothing_yet node) in
    let (name, found, whole) =
      received_file meta c content node (different meta.file_name n)
        (different meta.file_content_hash h) (omega (arith, l)) in
    (
      r.stats,
      file_transfer_complete fs (file_chunks meta (c ∷ content)) node
          ∙ finish_file_stores fs r (without_appends meta) (c ∷ content)
              (get_file r.name node.metadata) (record node { bandwidth_stats = r.stats })
              (ap (λ x. get_file x node.metadata) name ∙ e) found whole d w,
    )

-- A file that is not empty, whose name is that of an entry of a directory, that has a content hash,
-- and that hashes to less than 2^31 is, after a transfer to a node that does not have it and that
-- can write it, stored there under its name with all its content, and with the sender's metadata but
-- for the appends; the metadata of all other names and all other entries of the directory stay.
pub file_transfer-file_chunks :
    (fs : FileSystem) (meta : FileMetadata) (c : ℕ) (content : Text) (node : Node)
    → meta.file_name ≢ []
    → meta.file_content_hash ≢ []
    → meta.file_name_hash < 2 ^ 31
    → is_entry_name meta.file_name ≡ true
    → fs.makes_directory ≡ true
    → fs.writes meta.file_name ≡ true
    → get_file meta.file_name node.metadata ≡ none
    → (after : Node) × (file_transfer fs true (file_chunks meta (c ∷ content)) node
        ≡ returns (after, true))
      × ((name : Text)
          → lookup name after.disk
            ≡ (if text_eq meta.file_name name then some (c ∷ content) else lookup name node.disk))
      × ((name : Text)
          → get_file name after.metadata ≡ (
              if text_eq meta.file_name name
              then some (record meta { appends = [] })
              else get_file name node.metadata))
file_transfer-file_chunks fs meta c content node n h l entry d w e =
    let (stats, done) = file_transfer_result fs meta c content node n h l d w e in
    (
      record {
        metadata = add_file (without_appends meta) node.metadata;
        disk = insert meta.file_name (c ∷ content) node.disk;
        bandwidth_stats = stats;
      },
      done,
      (λ x. lookup-insert meta.file_name x (c ∷ content) node.disk),
      get_file-add_file (without_appends meta) node.metadata,
    )

-- An empty file travels in no chunk at all, and the receiver panics on the nil metadata, unless it
-- holds a file with an empty name or cannot make its directory.
pub file_transfer_empty :
    (fs : FileSystem) (meta : FileMetadata) (node : Node)
    → get_file [] node.metadata ≡ none
    → fs.makes_directory ≡ true
    → file_transfer fs true (file_chunks meta []) node ≡ panics
unfolding file_transfer receive_file finish_file save_file file_chunks pieces
file_transfer_empty fs meta node e d = rw (e, d) refl
