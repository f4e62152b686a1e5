-- ===== src/Metadata.antt =====
-- metadata.go: the metadata of the files a node stores, with the order of their appends; and
-- `UpdateAppendOrder` and `GetFileMetadata` of rpc_server.go, which read or replace them.
pub mod Order
pub mod Arrivals
pub mod Consistency
pub mod Known
pub mod Interleaving
pub mod Undeleted
pub mod Encoding
use hydfs.Prelude.{
  ℕ, Text, text_eq, Option, none, some, List, [], ◌∷◌, Bool, true, false, ◌&&◌, any, Dict, lookup,
  insert, remove, keys, if◌then◌else◌,
}
use hydfs.Prelude.Texts.{text_gt}

pub record AppendInfo : Type 0 where
  pub file_name : Text
  pub append_id : Text
  pub client_id : Text
  pub client_timestamp : Text
  pub append_hash : Text
  pub size : ℕ

pub record FileMetadata : Type 0 where
  pub file_name : Text
  pub file_content_hash : Text
  pub file_name_hash : ℕ
  pub creation_time : Text
  pub appends : List AppendInfo

-- `FileMetadata{}`
abbrev pub zero_file : FileMetadata
zero_file = record {
  file_name = [];
  file_content_hash = [];
  file_name_hash = 0;
  creation_time = [];
  appends = [];
}

-- `locks` holds a key for every per-file lock; a nil map reads as an empty one. An operation is one
-- step here; `AppendToFile`, which lets go of the lock of the maps in between, is taken apart in
-- Metadata/Interleaving.
pub record Metadata : Type 0 where
  pub files : Dict FileMetadata
  pub locks : Dict (Unit {0})

abbrev pub empty_metadata : Metadata
empty_metadata = record { files = []; locks = [] }

-- the test of the loop in `insertAppend`
abbrev pub goes_before : AppendInfo → AppendInfo → Bool
goes_before new_append a =
    text_eq a.client_id new_append.client_id
    && text_gt a.client_timestamp new_append.client_timestamp

unfoldable pub insert_append : AppendInfo → List AppendInfo → List AppendInfo
unfolding text_eq text_gt
insert_append new_append [] = new_append ∷ []
insert_append new_append (a ∷ appends) =
    if goes_before new_append a
    then new_append ∷ a ∷ appends
    else a ∷ insert_append new_append appends

-- `for _, a := range appends { if a.AppendID == id … }`
abbrev pub has_append : Text → List AppendInfo → Bool
has_append id = any (λ a. text_eq a.append_id id)

-- what `AppendToFile` does to the appends of a file that exists
unfoldable pub add_append : AppendInfo → List AppendInfo → List AppendInfo
unfolding insert_append text_eq
add_append new_append appends =
    if has_append new_append.append_id appends then appends else insert_append new_append appends

unfoldable pub add_lock : Text → Dict (Unit {0}) → Dict (Unit {0})
unfolding lookup insert
add_lock name locks = elim (lookup name locks) [ none ↦ insert name tt locks | some _ ↦ locks ]

unfoldable pub add_file : FileMetadata → Metadata → Metadata
unfolding insert add_lock
add_file meta m = record m {
  files = insert meta.file_name meta m.files;
  locks = add_lock meta.file_name m.locks;
}

unfoldable pub get_file : Text → Metadata → Option FileMetadata
unfolding lookup
get_file filename m = lookup filename m.files

-- `m.Files[filename]`, the zero value for a missing key
abbrev pub file_or_zero : Option FileMetadata → FileMetadata
file_or_zero none = zero_file
file_or_zero (some file) = file

-- The case of a file with a lock; a duplicate writes nothing.
unfoldable pub append_locked : Text → AppendInfo → FileMetadata → Metadata → Metadata
unfolding insert insert_append
append_locked filename append_info file m =
    if has_append append_info.append_id file.appends then m else record m {
      files =
          insert filename (record file { appends = insert_append append_info file.appends })
            m.files;
    }

-- `none` is the nil lock of a file that has none.
abbrev pub get_file_lock : Text → Metadata → Option (Unit {0})
get_file_lock filename m = lookup filename m.locks

-- `none` is the error "file does not exist".
unfoldable pub append_to_file : Text → AppendInfo → Metadata → Option Metadata
unfolding lookup append_locked
append_to_file filename append_info m = elim (get_file_lock filename m) [
  | none ↦ none
  | some _ ↦ some (append_locked filename append_info (file_or_zero (lookup filename m.files)) m)
]

unfoldable pub list_files : Metadata → List Text
list_files m = keys m.files

unfoldable pub delete_file : Text → Metadata → Metadata × Bool
unfolding lookup remove
delete_file filename m = elim (lookup filename m.files) [
  | none ↦ (m, false)
  | some _ ↦ (record { files = remove filename m.files; locks = remove filename m.locks }, true)
]

-- The `UpdateAppendOrder` request; the second result is `resp.Success`.
unfoldable pub update_append_order : Text → List AppendInfo → Metadata → Metadata × Bool
unfolding get_file add_file
update_append_order filename appends m = elim (get_file filename m) [
  | none ↦ (m, false)
  | some file ↦ (add_file (record file { appends = appends }) m, true)
]

-- The `GetFileMetadata` request: success, and the files of the reply.
unfoldable pub get_file_metadata : Text → Metadata → Bool × Dict FileMetadata
unfolding get_file
get_file_metadata filename m = elim (get_file filename m) [
  | none ↦ (false, [])
  | some file ↦ (true, (filename, file) ∷ [])
]
