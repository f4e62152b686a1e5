-- ===== src/System/Nodes.antt =====
-- What holds of the metadata of every node, and the calls of grpc_client.go that keep it.
use hydfs.Prelude.{
  AllValues, AllValues-insert, AllValues-remove, Text, ◌≡◌, some, lookup, insert, remove,
  Option-cases, inl, inr, List,
}
use hydfs.Metadata.{
  AppendInfo, FileMetadata, Metadata, add_file, append_to_file, update_append_order,
}
use hydfs.Bandwidth.{BandwidthStats}
use hydfs.Transfer.{Node}
use hydfs.Cluster.{Cluster, counted, set_stats}
use hydfs.Stabilization.{change_own}

-- of every node that runs
abbrev pub AllNodes : (Text → Metadata → Type 0) → Cluster → Type 0
AllNodes P = AllValues (λ a node. P a node.metadata)

-- What a predicate on the metadata of a node has to survive, deletion apart.
pub record Survives (P : Text → Metadata → Type 0) : Type 0 where
  pub adds : (a : Text) (f : FileMetadata) (m : Metadata) → P a m → P a (add_file f m)
  pub appends :
      (a n : Text) (i : AppendInfo) (m : Metadata) {m' : Metadata}
      → P a m
      → append_to_file n i m ≡ some m'
      → P a m'
  pub reorders :
      (a n : Text) (l : List AppendInfo) (m : Metadata) → P a m → P a (update_append_order n l m).0

module _ (P : Text → Metadata → Type 0) where
  pub AllNodes-insert :
      (t : Text) (node : Node) (cl : Cluster)
      → AllNodes P cl
      → P t node.metadata
      → AllNodes P (insert t node cl)
  AllNodes-insert = AllValues-insert (λ a node. P a node.metadata)

  pub AllNodes-remove : (t : Text) (cl : Cluster) → AllNodes P cl → AllNodes P (remove t cl)
  AllNodes-remove = AllValues-remove (λ a node. P a node.metadata)

  pub AllNodes-change_own :
      (own : Text) (f : Node → Node) (cl : Cluster)
      → AllNodes P cl
      → ((node : Node) → P own node.metadata → P own (f node).metadata)
      → AllNodes P (change_own own f cl)
  unfolding change_own
  AllNodes-change_own own f cl h g = elim (Option-cases (lookup own cl)) [
    | inl e ↦ rw (e, change_own) h
    | inr (node, e) ↦ rw (e, change_own) (AllNodes-insert own (f node) cl h (g node (h own node e)))
  ]

  pub AllNodes-counted :
      (own content : Text) (cl : Cluster) → AllNodes P cl → AllNodes P (counted own content cl)
  unfolding counted
  AllNodes-counted own content cl h = elim (Option-cases (lookup own cl)) [
    | inl e ↦ rw (e, counted) h
    | inr (node, e) ↦ rw (e, counted) (AllNodes-insert own _ cl h (h own node e))
  ]

  pub AllNodes-set_stats :
      (own : Text) (stats : BandwidthStats) (cl : Cluster)
      → AllNodes P cl
      → AllNodes P (set_stats own stats cl)
  unfolding set_stats
  AllNodes-set_stats own stats cl h = elim (Option-cases (lookup own cl)) [
    | inl e ↦ rw (e, set_stats) h
    | inr (node, e) ↦ rw (e, set_stats) (AllNodes-insert own _ cl h (h own node e))
  ]
