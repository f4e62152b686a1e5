-- ===== src/Metadata/Known.antt =====
-- A file of a node's metadata stays there under every operation but its deletion.
use hydfs.Prelude.{
  Text, ◌≡◌, some, List, true, lookup, lookup-insert, Option-cases, Bool-cases, inl, inr, arith,
}
use hydfs.Metadata.{
  AppendInfo, FileMetadata, Metadata, get_file, add_file, append_to_file, update_append_order,
  append_locked, file_or_zero, has_append, insert_append,
}
use hydfs.Metadata.Consistency.{is_some}

pub add_file-known :
    (name : Text) (f : FileMetadata) (m : Metadata)
    → is_some (get_file name m) ≡ true
    → is_some (get_file name (add_file f m)) ≡ true
unfolding add_file get_file
add_file-known name f m h = ground (arith, lookup-insert f.file_name name f m.files)

append_locked-known :
    (name n : Text) (i : AppendInfo) (f : FileMetadata) (m : Metadata)
    → is_some (get_file name m) ≡ true
    → is_some (get_file name (append_locked n i f m)) ≡ true
unfolding append_locked get_file
append_locked-known name n i f m h = elim (Bool-cases (has_append i.append_id f.appends)) [
  | inl e ↦ rw e h
  | inr e ↦
      rw (e, lookup-insert n name (record f { appends = insert_append i f.appends }) m.files)
        (ground arith)
]

pub append_to_file-known :
    (name n : Text) (i : AppendInfo) (m : Metadata) {m' : Metadata}
    → is_some (get_file name m) ≡ true
    → append_to_file n i m ≡ some m'
    → is_some (get_file name m') ≡ true
unfolding append_to_file
append_to_file-known name n i m {m'} h e =
    ground (arith, append_locked-known name n i (file_or_zero (lookup n m.files)) m h)

pub update_append_order-known :
    (name n : Text) (l : List AppendInfo) (m : Metadata)
    → is_some (get_file name m) ≡ true
    → is_some (get_file name (update_append_order n l m).0) ≡ true
unfolding update_append_order
update_append_order-known name n l m h = elim (Option-cases (get_file n m)) [
  | inl e ↦ rw (update_append_order, e) h
  | inr (f, e) ↦ rw (update_append_order, e) (add_file-known name _ m h)
]
