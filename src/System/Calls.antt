-- ===== src/System/Calls.antt =====
-- The calls between nodes keep what survives the operations on the metadata.
use hydfs.Prelude.{
  Text, Option, none, some, List, [], Bool, true, false, lookup, insert, Bool-cases, Option-cases,
  inl, inr, Dict, ◌||◌, not,
}
use hydfs.Metadata.{AppendInfo, FileMetadata, Metadata, get_file, append_to_file}
use hydfs.Ring.{Outcome, returns, panics}
use hydfs.Transfer.{
  Node, FileSystem, Filing, FileChunk, file_transfer, file_chunks, receive_file, finish_file,
  save_file, write_file,
}
use hydfs.Transfer.Appending.{
  append_transfer, append_chunks, finish_append, store_append, after_append, AppendChunk,
}
use hydfs.Transfer.Download.{get_file_stream}
use hydfs.Cluster.{
  Cluster, Network, counted, deliver, send_file_to_node, send_append_to_node,
  receive_file_from_node,
}
use hydfs.Stabilization.Pulling.{stream_keeps}
use hydfs.System.Nodes.{
  AllNodes, Survives, AllNodes-insert, AllNodes-remove, AllNodes-counted, AllNodes-set_stats,
}

-- of the node that a handler leaves, if it does not panic
abbrev Leaves : (Metadata → Type 0) → Outcome (Node × Bool) → Type 0
Leaves Q panics = Unit
Leaves Q (returns (node, ok)) = Q node.metadata

module _ (P : Text → Metadata → Type 0) (s : Survives P) where
  write_file-Survives :
      (a : Text) (fs : FileSystem) (content : Text) (meta : FileMetadata) (node : Node)
      → P a node.metadata
      → P a (write_file fs content meta node).0.metadata
  unfolding write_file
  write_file-Survives a fs content meta node p = elim (Bool-cases (fs.writes meta.file_name)) [
    | inl e ↦ rw e (s.adds a meta node.metadata p)
    | inr e ↦ rw e p
  ]

  save_file-Survives :
      (a : Text) (fs : FileSystem) (content : Text) (meta : Option FileMetadata) (node : Node)
      → P a node.metadata
      → Leaves (P a) (save_file fs content meta node)
  unfolding save_file
  save_file-Survives a fs content none node p = elim (Bool-cases fs.makes_directory) [
    | inl e ↦ rw e tt
    | inr e ↦ rw e p
  ]
  save_file-Survives a fs content (some meta) node p = elim (Bool-cases fs.makes_directory) [
    | inl e ↦ rw e (write_file-Survives a fs content meta node p)
    | inr e ↦ rw e p
  ]

  finish_file-Survives :
      (a : Text) (fs : FileSystem) (r : Filing) (old : Option FileMetadata) (node : Node)
      → P a node.metadata
      → Leaves (P a) (finish_file fs r old node)
  unfolding finish_file
  finish_file-Survives a fs r none node p = save_file-Survives a fs r.collected r.meta node p
  finish_file-Survives a fs r (some old) node p = p

  file_transfer-Survives :
      (a : Text) (fs : FileSystem) (complete : Bool) (chunks : List FileChunk) (node : Node)
      → P a node.metadata
      → Leaves (P a) (file_transfer fs complete chunks node)
  unfolding file_transfer
  file_transfer-Survives a fs true chunks node p =
      let r =
        receive_file chunks
          (record { name = []; meta = none; collected = []; stats = node.bandwidth_stats }) in
      finish_file-Survives a fs r (get_file r.name node.metadata)
        (record node { bandwidth_stats = r.stats }) p
  file_transfer-Survives a fs false chunks node p = p

  after_append-Survives :
      (a n : Text) (i : AppendInfo) (node : Node)
      → P a node.metadata
      → P a (after_append (append_to_file n i node.metadata) node).0.metadata
  unfolding after_append
  after_append-Survives a n i node p = elim (Option-cases (append_to_file n i node.metadata)) [
    | inl e ↦ rw e p
    | inr (m, e) ↦ rw e (s.appends a n i node.metadata p e)
  ]

  store_append-Survives :
      (a : Text) (fs : FileSystem) (i : AppendInfo) (content : Text) (node : Node)
      → P a node.metadata
      → P a (store_append fs i content node).0.metadata
  unfolding store_append
  store_append-Survives a fs i content node p =
      elim (Bool-cases (not fs.makes_directory || not (fs.writes i.append_id))) [
        | inl e ↦ rw e p
        | inr e ↦ rw e (
            after_append-Survives a i.file_name i
              (record node { disk = insert i.append_id content node.disk }) p)
      ]

  finish_append-Survives :
      (a : Text) (fs : FileSystem) (i : AppendInfo) (content : Text) (f : Option FileMetadata)
      (node : Node)
      → P a node.metadata
      → P a (finish_append fs i content f node).0.metadata
  unfolding finish_append
  finish_append-Survives a fs i content none node p = p
  finish_append-Survives a fs i content (some f) node p =
      store_append-Survives a fs i content node p

  append_transfer-Survives :
      (a : Text) (fs : FileSystem) (complete : Bool) (chunks : List AppendChunk) (node : Node)
      → P a node.metadata
      → P a (append_transfer fs complete chunks node).0.metadata
  unfolding append_transfer
  append_transfer-Survives a fs true chunks node p = finish_append-Survives a fs _ _ _ _ p
  append_transfer-Survives a fs false chunks node p = p

  AllNodes-deliver :
      (t : Text) (o : Outcome (Node × Bool)) (cl : Cluster)
      → AllNodes P cl
      → Leaves (P t) o
      → AllNodes P (deliver t o cl).0
  AllNodes-deliver t panics cl h p = AllNodes-remove P t cl h
  AllNodes-deliver t (returns (node, ok)) cl h p = AllNodes-insert P t node cl h p

  pub AllNodes-send_file_to_node :
      (net : Network) (own t content : Text) (meta : FileMetadata) (cl : Cluster)
      → AllNodes P cl
      → AllNodes P (send_file_to_node net own t content meta cl).0
  unfolding send_file_to_node
  AllNodes-send_file_to_node net own t content meta cl h = elim (Bool-cases (net.reaches t)) [
    | inr r ↦ rw r h
    | inl r ↦ elim (Option-cases (lookup t (counted own content cl))) [
      | inl e ↦ rw (r, e) h
      | inr (node, e) ↦
          rw (r, e)
            (AllNodes-deliver t _ (counted own content cl) (AllNodes-counted P own content cl h) (
              file_transfer-Survives t (net.file_system t) true (file_chunks meta content) node
                (AllNodes-counted P own content cl h t node e)))
    ]
  ]

  pub AllNodes-send_append_to_node :
      (net : Network) (own t content : Text) (info : AppendInfo) (cl : Cluster)
      → AllNodes P cl
      → AllNodes P (send_append_to_node net own t content info cl).0
  unfolding send_append_to_node
  AllNodes-send_append_to_node net own t content info cl h = elim (Bool-cases (net.reaches t)) [
    | inr r ↦ rw r h
    | inl r ↦ elim (Option-cases (lookup t (counted own content cl))) [
      | inl e ↦ rw (r, e) h
      | inr (node, e) ↦
          rw (r, e)
            (AllNodes-insert P t _ (counted own content cl) (AllNodes-counted P own content cl h) (
              append_transfer-Survives t (net.file_system t) true (append_chunks info content) node
                (AllNodes-counted P own content cl h t node e)))
    ]
  ]

-- A download changes no metadata anywhere.
pub AllNodes-receive_file_from_node :
    (P : Text → Metadata → Type 0) (net : Network) (own t name path : Text) (directory : Dict Text)
    (cl : Cluster)
    → AllNodes P cl
    → AllNodes P (receive_file_from_node net own t name path directory cl).cluster
unfolding receive_file_from_node
AllNodes-receive_file_from_node P net own t name path directory cl h =
    elim (Bool-cases (net.reaches t)) [
      | inr r ↦ rw r h
      | inl r ↦ elim (Option-cases (lookup t cl)) [
        | inl e ↦ rw (r, e) h
        | inr (node, e) ↦
            rw (r, e)
              (AllNodes-set_stats P own _ (insert t (get_file_stream name node).1 cl) (
                AllNodes-insert P t (get_file_stream name node).1 cl h
                  (rw ((stream_keeps name node).0) (h t node e))))
      ]
    ]
