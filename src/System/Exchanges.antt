-- ===== src/System/Exchanges.antt =====
-- The exchange of files between a node and its successors keeps what survives the operations.
use hydfs.Prelude.{
  ℕ, Text, Option, none, some, List, [], ◌∷◌, lookup, Bool-cases, Option-cases, inl, inr, Dict,
}
use hydfs.Member.{Member}
use hydfs.Metadata.{AppendInfo, FileMetadata, Metadata, file_or_zero, append_to_file, has_append}
use hydfs.Ring.{get_primary_key_range, get_successors, needs_stabilization, get_files_within_range}
use hydfs.Cluster.{Cluster, Network}
use hydfs.Stabilization.{
  push_content, push_append, push_appends, push_known, push_each, push_files_to_successors,
  needs_content, read_own, own_file, own_files, own_disk, download, add_own_append, get_append,
  get_appends, get_missing, get_each, get_files_from_successors, exchange, stabilize_ring, my_files,
  handle_replication_window_change, kept_or, fetch_metadata_from_node,
}
use hydfs.System.Nodes.{AllNodes, Survives, AllNodes-change_own}
use hydfs.System.Calls.{
  AllNodes-send_file_to_node, AllNodes-send_append_to_node, AllNodes-receive_file_from_node,
}

module _ (P : Text → Metadata → Type 0) (s : Survives P) where
  AllNodes-push_content :
      (net : Network) (own t : Text) (meta : FileMetadata) (content : Option Text) (cl : Cluster)
      → AllNodes P cl
      → AllNodes P (push_content net own t meta content cl)
  unfolding push_content
  AllNodes-push_content net own t meta none cl h = h
  AllNodes-push_content net own t meta (some content) cl h =
      AllNodes-send_file_to_node P s net own t content meta cl h

  AllNodes-push_append :
      (net : Network) (own t : Text) (info : AppendInfo) (content : Option Text) (cl : Cluster)
      → AllNodes P cl
      → AllNodes P (push_append net own t info content cl)
  unfolding push_append
  AllNodes-push_append net own t info none cl h = h
  AllNodes-push_append net own t info (some content) cl h =
      AllNodes-send_append_to_node P s net own t content info cl h

  AllNodes-push_appends :
      (net : Network) (own t : Text) (remote appends : List AppendInfo) (cl : Cluster)
      → AllNodes P cl
      → AllNodes P (push_appends net own t remote appends cl)
  unfolding push_appends
  AllNodes-push_appends net own t remote [] cl h = h
  AllNodes-push_appends net own t remote (a ∷ appends) cl h =
      AllNodes-push_appends net own t remote appends _
        (elim (Bool-cases (has_append a.append_id remote)) [
          | inl e ↦ rw e h
          | inr e ↦ rw e (AllNodes-push_append net own t a (read_own own a.append_id cl) cl h)
        ])

  AllNodes-push_known :
      (net : Network) (own t name : Text) (meta : FileMetadata) (remote : Option FileMetadata)
      (cl : Cluster)
      → AllNodes P cl
      → AllNodes P (push_known net own t name meta remote cl)
  unfolding push_known
  AllNodes-push_known net own t name meta remote cl h =
      AllNodes-push_appends net own t (file_or_zero remote).appends meta.appends _
        (elim (Bool-cases (needs_content meta remote)) [
          | inl e ↦ rw e (AllNodes-push_content net own t meta (read_own own name cl) cl h)
          | inr e ↦ rw e h
        ])

  AllNodes-push_each :
      (net : Network) (own t : Text) (remote : Dict FileMetadata) (names : List Text) (cl : Cluster)
      → AllNodes P cl
      → AllNodes P (push_each net own t remote names cl)
  unfolding push_each
  AllNodes-push_each net own t remote [] cl h = h
  AllNodes-push_each net own t remote (name ∷ names) cl h =
      AllNodes-push_each net own t remote names _ (elim (Option-cases (own_file own name cl)) [
        | inl e ↦ rw e h
        | inr (meta, e) ↦ rw e (AllNodes-push_known net own t name meta (lookup name remote) cl h)
      ])

  AllNodes-push_files_to_successors :
      (net : Network) (own : Text) (files : List Text) (l : List Member) (from until : ℕ)
      (cl : Cluster)
      → AllNodes P cl
      → AllNodes P (push_files_to_successors net own files l from until cl)
  unfolding push_files_to_successors
  AllNodes-push_files_to_successors net own files [] from until cl h = h
  AllNodes-push_files_to_successors net own files (m ∷ l) from until cl h =
      AllNodes-push_files_to_successors net own files l from until _ (
        AllNodes-push_each net own m.address (fetch_metadata_from_node net m.address from until cl)
          files cl h)

  AllNodes-download :
      (net : Network) (own t name : Text) (cl : Cluster)
      → AllNodes P cl
      → AllNodes P (download net own t name cl).0
  unfolding download
  AllNodes-download net own t name cl h =
      AllNodes-change_own P own _ _
        (AllNodes-receive_file_from_node P net own t name name (own_disk own cl) cl h) (λ node p. p)

  append_kept :
      (a name : Text) (i : AppendInfo) (m : Metadata)
      → P a m
      → P a (kept_or m (append_to_file name i m))
  append_kept a name i m p = elim (Option-cases (append_to_file name i m)) [
    | inl e ↦ rw e p
    | inr (m', e) ↦ rw e (s.appends a name i m p e)
  ]

  AllNodes-get_append :
      (net : Network) (own t name : Text) (a : AppendInfo) (cl : Cluster)
      → AllNodes P cl
      → AllNodes P (get_append net own t name a cl)
  unfolding get_append add_own_append
  AllNodes-get_append net own t name a cl h =
      let kept = AllNodes-download net own t a.append_id cl h in
      elim (Bool-cases (download net own t a.append_id cl).1) [
        | inl e ↦
            rw e (
              AllNodes-change_own P own _ _ kept (λ node p. append_kept own name a node.metadata p))
        | inr e ↦ rw e kept
      ]

  AllNodes-get_appends :
      (net : Network) (own t name : Text) (local appends : List AppendInfo) (cl : Cluster)
      → AllNodes P cl
      → AllNodes P (get_appends net own t name local appends cl)
  unfolding get_appends
  AllNodes-get_appends net own t name local [] cl h = h
  AllNodes-get_appends net own t name local (a ∷ appends) cl h =
      AllNodes-get_appends net own t name local appends _
        (elim (Bool-cases (has_append a.append_id local)) [
          | inl e ↦ rw e h
          | inr e ↦ rw e (AllNodes-get_append net own t name a cl h)
        ])

  AllNodes-get_missing :
      (net : Network) (own t name : Text) (remote : FileMetadata) (cl : Cluster)
      → AllNodes P cl
      → AllNodes P (get_missing net own t name remote cl)
  unfolding get_missing
  AllNodes-get_missing net own t name remote cl h =
      let kept = AllNodes-download net own t name cl h in
      elim (Bool-cases (download net own t name cl).1) [
        | inl e ↦ rw e (
            AllNodes-get_appends net own t name [] remote.appends _ (
              AllNodes-change_own P own _ _ kept
                (λ node p. s.adds own (record remote { appends = [] }) node.metadata p)))
        | inr e ↦ rw e kept
      ]

  AllNodes-get_each :
      (net : Network) (own t : Text) (files : Dict FileMetadata) (cl : Cluster)
      → AllNodes P cl
      → AllNodes P (get_each net own t files cl)
  unfolding get_each
  AllNodes-get_each net own t [] cl h = h
  AllNodes-get_each net own t ((name, remote) ∷ files) cl h =
      AllNodes-get_each net own t files _ (elim (Option-cases (own_file own name cl)) [
        | inl e ↦ rw e (AllNodes-get_missing net own t name remote cl h)
        | inr (local, e) ↦
            rw e (AllNodes-get_appends net own t name local.appends remote.appends cl h)
      ])

  AllNodes-get_files_from_successors :
      (net : Network) (own : Text) (l : List Member) (from until : ℕ) (cl : Cluster)
      → AllNodes P cl
      → AllNodes P (get_files_from_successors net own l from until cl)
  unfolding get_files_from_successors
  AllNodes-get_files_from_successors net own [] from until cl h = h
  AllNodes-get_files_from_successors net own (m ∷ l) from until cl h =
      AllNodes-get_files_from_successors net own l from until _ (
        AllNodes-get_each net own m.address (fetch_metadata_from_node net m.address from until cl)
          cl h)

  AllNodes-exchange :
      (net : Network) (own filename : Text) (l : List Member) (range : Option (ℕ × ℕ))
      (cl : Cluster)
      → AllNodes P cl
      → AllNodes P (exchange net own filename l range cl)
  unfolding exchange
  AllNodes-exchange net own filename l none cl h = h
  AllNodes-exchange net own filename l (some (from, until)) cl h =
      AllNodes-get_files_from_successors net own l from until _ (
        AllNodes-push_files_to_successors net own
          (my_files filename (get_files_within_range (own_files own cl) from until)) l from until cl
          h)

  pub AllNodes-stabilize_ring :
      (net : Network) (n : ℕ) (own own_id : Text) (l : List Member) (filename : Text) (cl : Cluster)
      → AllNodes P cl
      → AllNodes P (stabilize_ring net n own own_id l filename cl)
  unfolding stabilize_ring
  AllNodes-stabilize_ring net n own own_id l filename cl h =
      AllNodes-exchange net own filename (get_successors l own_id n)
        (get_primary_key_range l own_id) cl h

  pub AllNodes-handle_replication_window_change :
      (net : Network) (n : ℕ) (own own_id : Text) (l : List Member) (id : Text) (cl : Cluster)
      → AllNodes P cl
      → AllNodes P (handle_replication_window_change net n own own_id l id cl)
  unfolding handle_replication_window_change
  AllNodes-handle_replication_window_change net n own own_id l id cl h =
      elim (Bool-cases (needs_stabilization l n own_id id)) [
        | inl e ↦ rw e (AllNodes-stabilize_ring net n own own_id l [] cl h)
        | inr e ↦ rw e h
      ]
