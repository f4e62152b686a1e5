-- ===== src/Tests/Transferring.antt =====
-- Transfers and the synchronisation of orders at concrete inputs.
use hydfs.Prelude.{
  All, Text, codes, text_eq, text_eq_iff, sym, ◌≡◌, refl, arith, some, none, [], ◌∷◌, true,
  if◌then◌else◌, lookup, insert, length,
}
use hydfs.Bandwidth.{zero_stats}
use hydfs.Metadata.{
  Metadata, empty_metadata, FileMetadata, get_file, add_file, insert_append, zero_file,
  get_file_lock, append_to_file,
}
use hydfs.Metadata.Consistency.{adds, deletes, operate_all, operate, operate_all-IsConsistent}
use hydfs.Metadata.Interleaving.{
  append_to_file_among, append_to_file_among-operate_all, append_to_file_among-delete_file,
}
use hydfs.Member.{member_id}
use hydfs.Garbage.{delete_files_outside_my_range}
use hydfs.Garbage.Kept.{kept, delete_files_outside_my_range_lem, delete_files_outside_my_range_pair}
use hydfs.Ring.{get_all_key_range, returns, panics}
use hydfs.Transfer.{Node, pieces, file_chunks, file_transfer}
use hydfs.Transfer.Chunks.{joined, IsChunk, pieces_lem}
use hydfs.Transfer.Stored.{file_transfer-file_chunks, file_transfer_empty}
use hydfs.Transfer.Appending.{append_chunks, append_transfer}
use hydfs.Transfer.Appended.{append_transfer-append_chunks}
use hydfs.Tests.Data.{first, third, ring, early, late, sent_file, empty_node, works}

abbrev with_file : Metadata
with_file = operate_all (adds sent_file ∷ []) empty_metadata

abbrev other_file : FileMetadata
other_file = record sent_file { file_name = codes "g" }

abbrev file_node : Node
file_node = record { metadata = with_file; disk = []; bandwidth_stats = zero_stats }

file_transfer-file_chunks_example :
    (after : Node) × (file_transfer works true (file_chunks sent_file (codes "abc")) empty_node
      ≡ returns (after, true))
    × ((name : Text)
        → lookup name after.disk
          ≡ (if text_eq (codes "f") name then some (codes "abc") else lookup name []))
    × ((name : Text)
        → get_file name after.metadata
          ≡ (if text_eq (codes "f") name then some sent_file else get_file name empty_metadata))
unfolding get_file lookup
file_transfer-file_chunks_example =
    file_transfer-file_chunks works sent_file 97 (codes "bc") empty_node (λ e. cc) (λ e. cc)
      (omega arith) refl refl refl refl

file_transfer_empty_example :
    file_transfer works true (file_chunks sent_file []) empty_node ≡ panics
unfolding get_file lookup
file_transfer_empty_example = file_transfer_empty works sent_file empty_node refl refl

append_transfer-append_chunks_example :
    (after : Node) × (append_transfer works true (append_chunks early (codes "abc")) file_node
      ≡ (after, true))
    × ((name : Text)
        → lookup name after.disk
          ≡ (if text_eq early.append_id name then some (codes "abc") else lookup name []))
    × ((name : Text)
        → get_file name after.metadata ≡ (
            if text_eq (codes "f") name
            then some
                (record sent_file { appends = record early { size = length (codes "abc") } ∷ [] })
            else get_file name with_file))
unfolding get_file operate_all operate add_file lookup insert text_eq insert_append
append_transfer-append_chunks_example =
    append_transfer-append_chunks works early 97 (codes "bc") file_node {f = sent_file}
      (operate_all-IsConsistent (adds sent_file ∷ [])) refl refl refl refl

delete_files_outside_my_range_lem_example :
    (after : Node) × (delete_files_outside_my_range
        (λ name. true)
        1
        ring
        (member_id first)
        file_node
      ≡ returns after)
    × ((name : Text) → get_file name after.metadata ≡ kept 200 10 (get_file name with_file))
unfolding get_all_key_range member_id text_eq
delete_files_outside_my_range_lem_example =
    delete_files_outside_my_range_lem (λ name. true) 1 ring (member_id first) file_node 200 10 refl

first_is_not_third : member_id first ≡ member_id third → ⊥
unfolding text_eq member_id
first_is_not_third e = cc (sym ((text_eq_iff (member_id first) (member_id third)).1 e))

delete_files_outside_my_range_pair_example :
    (delete_files_outside_my_range (λ name. true) 3 (first ∷ third ∷ []) (member_id first) file_node
      ≡ panics)
    × (after : Node) × (delete_files_outside_my_range
          (λ name. true)
          3
          (first ∷ third ∷ [])
          (member_id third)
          file_node
        ≡ returns after)
    × ((name : Text) → get_file name after.metadata ≡ kept 10 200 (get_file name with_file))
unfolding member_id
delete_files_outside_my_range_pair_example =
    delete_files_outside_my_range_pair (λ name. true) first third file_node first_is_not_third

append_to_file_among-operate_all_example :
    append_to_file_among
      (adds other_file ∷ [])
      (deletes (codes "g") ∷ [])
      (codes "f")
      early
      with_file
    ≡ append_to_file
        (codes "f")
        early
        (operate_all (adds other_file ∷ deletes (codes "g") ∷ []) with_file)
unfolding text_eq
append_to_file_among-operate_all_example =
    append_to_file_among-operate_all (adds other_file ∷ []) (deletes (codes "g") ∷ []) (codes "f")
      early with_file (operate_all-IsConsistent (adds sent_file ∷ [])) (refl, tt) (refl, tt)

append_to_file_among-delete_file_example :
    (m' : Metadata) × (append_to_file_among
        (deletes (codes "f") ∷ [])
        []
        (codes "f")
        early
        with_file
      ≡ some m')
    × (get_file (codes "f") m' ≡ some (record zero_file { appends = early ∷ [] }))
    × (get_file_lock (codes "f") m' ≡ none)
    × (append_to_file (codes "f") late m' ≡ none)
unfolding operate_all operate add_file lookup insert text_eq
append_to_file_among-delete_file_example =
    append_to_file_among-delete_file (codes "f") early late with_file {f = sent_file}
      (operate_all-IsConsistent (adds sent_file ∷ [])) refl

pieces_lem_example :
    (pieces 5 (codes "abc") ≡ pieces 3 (codes "abc"))
    × (joined (pieces 5 (codes "abc")) ≡ codes "abc")
    × All IsChunk (pieces 5 (codes "abc"))
pieces_lem_example = pieces_lem 5 (codes "abc") (omega arith)
