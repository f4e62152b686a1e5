-- ===== src/System/Merges.antt =====
-- The merge of files keeps what survives the operations on the metadata.
use hydfs.Prelude.{
  ℕ, Text, Option, none, some, List, [], ◌∷◌, lookup, Bool-cases, Option-cases, inl, inr, Dict,
}
use hydfs.Member.{Member}
use hydfs.Metadata.{FileMetadata, Metadata, get_file}
use hydfs.Ring.{
  Outcome, returns, panics, get_primary_key_range, get_successors, get_files_within_range,
  is_hash_in_range,
}
use hydfs.Sync.{
  append_ids, files_and_appends_match, sync_found, sync_remote_append_order, orders_match,
}
use hydfs.Cluster.{Cluster, Network, Client, targets_of}
use hydfs.Cluster.Commands.{Views, fetch_file_metadata}
use hydfs.Stabilization.{own_file, own_files}
use hydfs.FileMerge.{
  in_sync, reply_in_sync, ensure_remote_file_in_sync, sync_successor_order, merge_successors,
  execute_merge, merge_names, merge_range, execute_merge_for_all_files, merge_request,
  request_first, handle_merge_command, stabilize,
}
use hydfs.System.Nodes.{AllNodes, Survives, AllNodes-change_own}
use hydfs.System.Exchanges.{AllNodes-stabilize_ring}

-- of a cluster that a command leaves, if it does not panic
abbrev pub LeavesAll : (Text → Metadata → Type 0) → Outcome Cluster → Type 0
LeavesAll P panics = Unit
LeavesAll P (returns cl) = AllNodes P cl

module _ (P : Text → Metadata → Type 0) (s : Survives P) where
  AllNodes-stabilize :
      (net : Network) (c : Client) (filename : Text) (cl : Cluster)
      → AllNodes P cl
      → AllNodes P (stabilize net c filename cl)
  AllNodes-stabilize net c filename cl h =
      AllNodes-stabilize_ring P s net c.replication_factor c.own c.own_id c.members filename cl h

  AllNodes-in_sync :
      (net : Network) (c : Client) (filename : Text) (local : FileMetadata)
      (remote : Option FileMetadata) (cl : Cluster)
      → AllNodes P cl
      → AllNodes P (in_sync net c filename local remote cl).0
  unfolding in_sync
  AllNodes-in_sync net c filename local none cl h = AllNodes-stabilize net c filename cl h
  AllNodes-in_sync net c filename local (some remote) cl h =
      elim (Bool-cases (files_and_appends_match local remote)) [
        | inl e ↦ rw e h
        | inr e ↦ rw e (AllNodes-stabilize net c filename cl h)
      ]

  AllNodes-reply_in_sync :
      (net : Network) (c : Client) (filename : Text) (local : FileMetadata)
      (reply : Option (Dict FileMetadata)) (cl : Cluster)
      → AllNodes P cl
      → AllNodes P (reply_in_sync net c filename local reply cl).0
  unfolding reply_in_sync
  AllNodes-reply_in_sync net c filename local none cl h = h
  AllNodes-reply_in_sync net c filename local (some files) cl h =
      AllNodes-in_sync net c filename local (lookup filename files) cl h

  AllNodes-ensure_remote_file_in_sync :
      (net : Network) (c : Client) (t filename : Text) (local : FileMetadata) (cl : Cluster)
      → AllNodes P cl
      → AllNodes P (ensure_remote_file_in_sync net c t filename local cl).0
  unfolding ensure_remote_file_in_sync
  AllNodes-ensure_remote_file_in_sync net c t filename local cl h =
      AllNodes-reply_in_sync net c filename local (fetch_file_metadata net t filename cl) cl h

  sync_found-Survives :
      (a filename : Text) (local : FileMetadata) (ids : List Text) (remote : Option FileMetadata)
      (m : Metadata)
      → P a m
      → P a (sync_found filename local ids remote m)
  unfolding sync_found
  sync_found-Survives a filename local ids none m p = p
  sync_found-Survives a filename local ids (some remote) m p =
      elim (Bool-cases (orders_match ids remote.appends)) [
        | inl e ↦ rw e p
        | inr e ↦ rw e (s.reorders a filename local.appends m p)
      ]

  AllNodes-sync_successor_order :
      (net : Network) (t filename : Text) (local : FileMetadata) (ids : List Text) (cl : Cluster)
      → AllNodes P cl
      → AllNodes P (sync_successor_order net t filename local ids cl)
  unfolding sync_successor_order sync_remote_append_order
  AllNodes-sync_successor_order net t filename local ids cl h = elim (Bool-cases (net.reaches t)) [
    | inr r ↦ rw r h
    | inl r ↦ rw r (
        AllNodes-change_own P t _ cl h (λ node p.
          sync_found-Survives t filename local ids (get_file filename node.metadata) node.metadata
            p))
  ]

  AllNodes-merge_successors :
      (net : Network) (c : Client) (filename : Text) (local : FileMetadata) (ids : List Text)
      (l : List Member) (cl : Cluster)
      → AllNodes P cl
      → AllNodes P (merge_successors net c filename local ids l cl)
  unfolding merge_successors
  AllNodes-merge_successors net c filename local ids [] cl h = h
  AllNodes-merge_successors net c filename local ids (m ∷ l) cl h =
      let kept = AllNodes-ensure_remote_file_in_sync net c m.address filename local cl h in
      AllNodes-merge_successors net c filename local ids l _
        (elim (Bool-cases (ensure_remote_file_in_sync net c m.address filename local cl).1) [
          | inl e ↦ rw e (AllNodes-sync_successor_order net m.address filename local ids _ kept)
          | inr e ↦ rw e kept
        ])

  pub AllNodes-execute_merge :
      (net : Network) (c : Client) (filename : Text) (cl : Cluster)
      → AllNodes P cl
      → AllNodes P (execute_merge net c filename cl)
  unfolding execute_merge
  AllNodes-execute_merge net c filename cl h = elim (Option-cases (own_file c.own filename cl)) [
    | inl e ↦ rw (execute_merge, e) h
    | inr (local, e) ↦
        rw (execute_merge, e)
          (AllNodes-merge_successors net c filename local (append_ids local.appends)
            (get_successors c.members c.own_id c.replication_factor) cl h)
  ]

  AllNodes-merge_names :
      (net : Network) (c : Client) (names : List Text) (cl : Cluster)
      → AllNodes P cl
      → AllNodes P (merge_names net c names cl)
  unfolding merge_names
  AllNodes-merge_names net c [] cl h = h
  AllNodes-merge_names net c (name ∷ names) cl h =
      AllNodes-merge_names net c names _ (AllNodes-execute_merge net c name cl h)

  merge_range-Leaves :
      (net : Network) (c : Client) (range : Option (ℕ × ℕ)) (files : Dict FileMetadata)
      (cl : Cluster)
      → AllNodes P cl
      → LeavesAll P (merge_range net c range files cl)
  unfolding merge_range
  merge_range-Leaves net c none [] cl h = h
  merge_range-Leaves net c none (file ∷ files) cl h = tt
  merge_range-Leaves net c (some (from, until)) files cl h =
      AllNodes-merge_names net c (get_files_within_range files from until) cl h

  pub execute_merge_for_all_files-Leaves :
      (net : Network) (c : Client) (cl : Cluster)
      → AllNodes P cl
      → LeavesAll P (execute_merge_for_all_files net c cl)
  unfolding execute_merge_for_all_files
  execute_merge_for_all_files-Leaves net c cl h =
      merge_range-Leaves net c (get_primary_key_range c.members c.own_id) (own_files c.own cl) cl h

  AllNodes-merge_request :
      (net : Network) (views : Views) (t filename : Text) (cl : Cluster)
      → AllNodes P cl
      → AllNodes P (merge_request net views t filename cl).0
  unfolding merge_request
  AllNodes-merge_request net views t filename cl h = elim (Bool-cases (net.reaches t)) [
    | inr r ↦ rw r h
    | inl r ↦ elim (Option-cases (lookup t cl)) [
      | inl e ↦ rw (r, e) h
      | inr (node, e) ↦ rw (r, e) (AllNodes-execute_merge net (views.client t) filename cl h)
    ]
  ]

  AllNodes-request_first :
      (net : Network) (views : Views) (l : List Member) (filename : Text) (cl : Cluster)
      → AllNodes P cl
      → AllNodes P (request_first net views l filename cl).0
  unfolding request_first
  AllNodes-request_first net views [] filename cl h = h
  AllNodes-request_first net views (m ∷ l) filename cl h =
      AllNodes-merge_request net views m.address filename cl h

  pub AllNodes-handle_merge_command :
      (net : Network) (views : Views) (c : Client) (filename : Text) (cl : Cluster)
      → AllNodes P cl
      → AllNodes P (handle_merge_command net views c filename cl).0
  unfolding handle_merge_command
  AllNodes-handle_merge_command net views c filename cl h =
      elim (Option-cases (get_primary_key_range c.members c.own_id)) [
        | inl e ↦ rw (handle_merge_command, e) h
        | inr ((from, until), e) ↦
            elim (Bool-cases (is_hash_in_range (c.file_hash filename) from until)) [
              | inl q ↦ rw (handle_merge_command, e, q) (AllNodes-execute_merge net c filename cl h)
              | inr q ↦
                  rw (handle_merge_command, e, q)
                    (AllNodes-request_first net views (targets_of c filename) filename cl h)
            ]
      ]
