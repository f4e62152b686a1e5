-- ===== src/System/Collecting.antt =====
-- The garbage collector keeps what survives deletion.
use hydfs.Prelude.{
  ℕ, Text, Option, none, some, List, [], ◌∷◌, Bool, Bool-cases, Option-cases, inl, inr,
}
use hydfs.Member.{Member}
use hydfs.Metadata.{Metadata, get_file, delete_file, list_files}
use hydfs.Ring.{Outcome, returns, panics, is_hash_in_range, get_all_key_range}
use hydfs.Transfer.{Node}
use hydfs.Garbage.{
  delete_found, collect_file, collect_files, in_key_range, delete_files_outside_my_range,
}

-- of the node that the collector leaves
abbrev pub LeavesNode : (Metadata → Type 0) → Outcome Node → Type 0
LeavesNode Q panics = Unit
LeavesNode Q (returns node) = Q node.metadata

module _ (Q : Metadata → Type 0)
    (deletes : (n : Text) (m : Metadata) → Q m → Q (delete_file n m).0) where
  collect_file-Keeps :
      (removes : Text → Bool) (from until : ℕ) (name : Text) (node : Node)
      → Q node.metadata
      → Q (collect_file removes from until name node).metadata
  unfolding collect_file delete_found
  collect_file-Keeps removes from until name node q =
      elim (Option-cases (get_file name node.metadata)) [
        | inl e ↦ rw (collect_file, e) q
        | inr (file, e) ↦ elim (Bool-cases (is_hash_in_range file.file_name_hash from until)) [
          | inl r ↦ rw (collect_file, e, r) q
          | inr r ↦ rw (collect_file, e, r) (deletes name node.metadata q)
        ]
      ]

  collect_files-Keeps :
      (removes : Text → Bool) (from until : ℕ) (names : List Text) (node : Node)
      → Q node.metadata
      → Q (collect_files removes from until names node).metadata
  unfolding collect_files
  collect_files-Keeps removes from until [] node q = q
  collect_files-Keeps removes from until (name ∷ names) node q =
      collect_files-Keeps removes from until names _
        (collect_file-Keeps removes from until name node q)

  in_key_range-Leaves :
      (removes : Text → Bool) (range : Outcome (Option (ℕ × ℕ))) (node : Node)
      → Q node.metadata
      → LeavesNode Q (in_key_range removes range node)
  unfolding in_key_range
  in_key_range-Leaves removes panics node q = tt
  in_key_range-Leaves removes (returns none) node q = q
  in_key_range-Leaves removes (returns (some (from, until))) node q =
      collect_files-Keeps removes from until (list_files node.metadata) node q

  pub delete_files_outside_my_range-Leaves :
      (removes : Text → Bool) (n : ℕ) (l : List Member) (own_id : Text) (node : Node)
      → Q node.metadata
      → LeavesNode Q (delete_files_outside_my_range removes n l own_id node)
  unfolding delete_files_outside_my_range
  delete_files_outside_my_range-Leaves removes n l own_id node q =
      in_key_range-Leaves removes (get_all_key_range l own_id n) node q
