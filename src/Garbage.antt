-- ===== src/Garbage.antt =====
-- ring.go, `deleteFilesOutsideMyRange`: the garbage collector of a node's files.
pub mod Kept
use hydfs.Prelude.{ℕ, Text, Option, none, some, List, [], ◌∷◌, Bool, Dict, remove, if◌then◌else◌}
use hydfs.Member.{Member}
use hydfs.Metadata.{AppendInfo, FileMetadata, Metadata, get_file, delete_file, list_files}
use hydfs.Ring.{Outcome, returns, panics, is_hash_in_range, get_all_key_range}
use hydfs.Transfer.{Node}

-- `os.Remove`, which succeeds for the names that `removes` says; an error is logged and no more.
abbrev remove_path : (Text → Bool) → Text → Dict Text → Dict Text
remove_path removes name disk = if removes name then remove name disk else disk

remove_appends : (Text → Bool) → List AppendInfo → Dict Text → Dict Text
unfolding remove
remove_appends removes [] disk = disk
remove_appends removes (a ∷ appends) disk =
    remove_appends removes appends (remove_path removes a.append_id disk)

unfoldable pub delete_found : (Text → Bool) → Text → FileMetadata → Node → Node
unfolding remove remove_appends delete_file
delete_found removes filename file node = record node {
  metadata = (delete_file filename node.metadata).0;
  disk = remove_appends removes file.appends (remove_path removes filename node.disk);
}

-- one round of the loop
unfoldable pub collect_file : (Text → Bool) → ℕ → ℕ → Text → Node → Node
unfolding get_file is_hash_in_range delete_found
collect_file removes start_range end_range filename node = elim (get_file filename node.metadata) [
  | none ↦ node
  | some file ↦
      if is_hash_in_range file.file_name_hash start_range end_range
      then node
      else delete_found removes filename file node
]

unfoldable pub collect_files : (Text → Bool) → ℕ → ℕ → List Text → Node → Node
unfolding collect_file
collect_files removes start_range end_range [] node = node
collect_files removes start_range end_range (filename ∷ names) node =
    collect_files removes start_range end_range names
      (collect_file removes start_range end_range filename node)

unfoldable pub in_key_range : (Text → Bool) → Outcome (Option (ℕ × ℕ)) → Node → Outcome Node
unfolding collect_files list_files
in_key_range removes panics node = panics
in_key_range removes (returns none) node = returns node
in_key_range removes (returns (some (start_range, end_range))) node =
    returns (collect_files removes start_range end_range (list_files node.metadata) node)

-- Without members there is no key range, which makes the test of the source for that case idle.
unfoldable pub delete_files_outside_my_range :
    (Text → Bool) → ℕ → List Member → Text → Node → Outcome Node
unfolding in_key_range get_all_key_range
delete_files_outside_my_range removes replication_factor members own_id node =
    in_key_range removes (get_all_key_range members own_id replication_factor) node
