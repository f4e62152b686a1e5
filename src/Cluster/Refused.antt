-- ===== src/Cluster/Refused.antt =====
-- A file sent to a node that has one of the same name.
use hydfs.Prelude.{
  ℕ, Text, ◌≡◌, refl, ap, ◌∙◌, some, ◌∷◌, true, false, Dict, Bool-cases, inl, inr, arith,
}
use hydfs.Metadata.{Metadata, FileMetadata, get_file}
use hydfs.Ring.{returns}
use hydfs.Transfer.{Node, FileSystem, file_transfer, file_chunks, finish_file, receive_file}
use hydfs.Transfer.Stored.{received_file, different, file_transfer_complete, nothing_yet}
use hydfs.Cluster.{Cluster, Network, counted, send_file_to_node}
use hydfs.Cluster.Stores.{stores, stored_node, stores-counted, stores-put_back}
use hydfs.Cluster.Sending.{Stored, IsSendable, send_found, send_file_unreachable}

-- A node that runs and knows a file of that name.
abbrev pub KnowsName : Text → Stored → Type 0
KnowsName name o =
    (m : Metadata) × (d : Dict Text) × (f : FileMetadata) × (o ≡ some (m, d))
    × (get_file name m ≡ some f)

transfer_refused :
    (fs : FileSystem) (meta : FileMetadata) (c : ℕ) (content : Text) (node : Node)
    {f : FileMetadata}
    → IsSendable meta
    → get_file meta.file_name node.metadata ≡ some f
    → (after : Node) × (file_transfer fs true (file_chunks meta (c ∷ content)) node
        ≡ returns (after, false))
      × (after.metadata ≡ node.metadata)
      × (after.disk ≡ node.disk)
unfolding finish_file
transfer_refused fs meta c content node s e =
    let r = receive_file (file_chunks meta (c ∷ content)) (nothing_yet node) in
    let (name, found, whole) =
      received_file meta c content node (different meta.file_name s.has_name)
        (different meta.file_content_hash s.has_hash) (omega (arith, s.fits)) in
    (
      record node { bandwidth_stats = r.stats },
      file_transfer_complete fs (file_chunks meta (c ∷ content)) node
          ∙ ap (λ o. finish_file fs r o (record node { bandwidth_stats = r.stats }))
              (ap (λ x. get_file x node.metadata) name ∙ e),
      refl,
      refl,
    )

refused_found :
    (net : Network) (own t a : Text) (c : ℕ) (content : Text) (meta : FileMetadata) (cl : Cluster)
    → IsSendable meta
    → net.reaches t ≡ true
    → KnowsName meta.file_name (stores t cl)
    → let r = send_file_to_node net own t (c ∷ content) meta cl in
      (r.1 ≡ false) × (stores a r.0 ≡ stores a cl)
refused_found net own t a c content meta cl s r (m, d, f, e, known) =
    let (node, at, is_m, is_d) =
      stored_node t (counted own (c ∷ content) cl) {m = m} {d = d}
        (stores-counted own t (c ∷ content) cl ∙ e) in
    let (after, done, same_m, same_d) =
      transfer_refused (net.file_system t) meta c content node {f = f} s
        (ap (get_file meta.file_name) is_m ∙ known) in
    rw (send_found net own t (c ∷ content) meta cl {node = node} r at, done)
      (
        refl,
        stores-put_back t a node after (counted own (c ∷ content) cl) at same_m same_d
            ∙ stores-counted own a (c ∷ content) cl,
      )

-- A file that can travel and is not empty, sent to a node that knows a file of that name, is an
-- error, also where its content differs, and changes the metadata and the files of no node; so is
-- one sent to a node that cannot be reached.
pub send_file_to_node_refused :
    (net : Network) (own t a : Text) (c : ℕ) (content : Text) (meta : FileMetadata) (cl : Cluster)
    → IsSendable meta
    → (net.reaches t ≡ true → KnowsName meta.file_name (stores t cl))
    → let r = send_file_to_node net own t (c ∷ content) meta cl in
      (r.1 ≡ false) × (stores a r.0 ≡ stores a cl)
send_file_to_node_refused net own t a c content meta cl s known =
    elim (Bool-cases (net.reaches t)) [
      | inl r ↦ refused_found net own t a c content meta cl s r (known r)
      | inr r ↦ rw (send_file_unreachable net own t (c ∷ content) meta cl r) (refl, refl)
    ]
