-- ===== src/Sync.antt =====
-- hydfs_operations.go: how the `merge` of a file brings a successor's copy of its append order into
-- line with the primary's.
pub mod Convergence
use hydfs.Prelude.{
  ℕ, Text, text_eq, Option, none, some, List, [], ◌∷◌, Bool, true, false, ◌&&◌, not, any, length,
  ◌==◌, if◌then◌else◌, map,
}
use hydfs.Metadata.{AppendInfo, FileMetadata, Metadata, get_file, update_append_order, has_append}

-- `localAppendIDs` of `executeMerge`
abbrev pub append_ids : List AppendInfo → List Text
append_ids appends = map (λ a. a.append_id) appends

-- the loop over the remote appends
unfoldable pub all_known : List AppendInfo → List AppendInfo → Bool
unfolding text_eq
all_known local [] = true
all_known local (a ∷ remote) =
    if has_append a.append_id local then all_known local remote else false

unfoldable pub files_and_appends_match : FileMetadata → FileMetadata → Bool
unfolding all_known text_eq
files_and_appends_match local remote =
    if not (text_eq local.file_content_hash remote.file_content_hash)
    then false
    else if not (length local.appends == length remote.appends)
    then false
    else all_known local.appends remote.appends

unfoldable pub same_order : List Text → List AppendInfo → Bool
unfolding text_eq
same_order [] remote = true
same_order (id ∷ ids) [] = true
same_order (id ∷ ids) (a ∷ remote) = if text_eq id a.append_id then same_order ids remote else false

unfoldable pub orders_match : List Text → List AppendInfo → Bool
unfolding same_order
orders_match ids remote = if not (length ids == length remote) then false else same_order ids remote

unfoldable pub sync_found :
    Text → FileMetadata → List Text → Option FileMetadata → Metadata → Metadata
unfolding orders_match update_append_order
sync_found filename local ids none successor = successor
sync_found filename local ids (some remote) successor =
    if orders_match ids remote.appends
    then successor
    else (update_append_order filename local.appends successor).0

-- `syncRemoteAppendOrder` against the metadata of the successor, where both calls get through.
unfoldable pub sync_remote_append_order : Text → FileMetadata → List Text → Metadata → Metadata
unfolding sync_found get_file
sync_remote_append_order filename local ids successor =
    sync_found filename local ids (get_file filename successor) successor
