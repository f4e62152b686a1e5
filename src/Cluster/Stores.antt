-- ===== src/Cluster/Stores.antt =====
-- What is stored at an address, apart from the counters, and what the calls do to it.
use hydfs.Prelude.{
  Text, text_eq, text_eq_iff, ◌≡◌, refl, sym, ap, ◌∙◌, Option, none, some, Bool, true, false, Dict,
  lookup, insert, lookup-insert, lookup-remove, if◌then◌else◌, Option-cases, Bool-cases, inl, inr,
}
use hydfs.Metadata.{Metadata}
use hydfs.Bandwidth.{BandwidthStats}
use hydfs.Ring.{Outcome, returns, panics}
use hydfs.Transfer.{Node, file_transfer, file_chunks}
use hydfs.Metadata.{FileMetadata, AppendInfo}
use hydfs.Cluster.{
  Cluster, Network, counted, deliver, set_stats, send_file_to_node, send_append_to_node,
}

abbrev pub stored : Option Node → Option (Metadata × Dict Text)
stored none = none
stored (some node) = some (node.metadata, node.disk)

abbrev pub stores : Text → Cluster → Option (Metadata × Dict Text)
stores a cl = stored (lookup a cl)

pub stores-insert :
    (t a : Text) (node : Node) (cl : Cluster)
    → stores a (insert t node cl)
      ≡ (if text_eq t a then some (node.metadata, node.disk) else stores a cl)
stores-insert t a node cl =
    rw (lookup-insert t a node cl)
      (elim (Bool-cases (text_eq t a)) [ inl e ↦ rw e refl | inr e ↦ rw e refl ])

-- a node put back with the same metadata and files
pub stores-put_back :
    (t a : Text) (node node' : Node) (cl : Cluster)
    → lookup t cl ≡ some node
    → node'.metadata ≡ node.metadata
    → node'.disk ≡ node.disk
    → stores a (insert t node' cl) ≡ stores a cl
stores-put_back t a node node' cl e m d =
    stores-insert t a node' cl ∙ elim (Bool-cases (text_eq t a)) [
      | inl s ↦ rw (s, m, d, ← (text_eq_iff t a).0 s, e) refl
      | inr s ↦ rw s refl
    ]

pub stores-counted :
    (own a content : Text) (cl : Cluster) → stores a (counted own content cl) ≡ stores a cl
unfolding counted
stores-counted own a content cl = elim (Option-cases (lookup own cl)) [
  | inl e ↦ rw (e, counted) refl
  | inr (node, e) ↦ rw (e, counted) (stores-put_back own a node _ cl e refl refl)
]

pub stores-set_stats :
    (own a : Text) (stats : BandwidthStats) (cl : Cluster)
    → stores a (set_stats own stats cl) ≡ stores a cl
unfolding set_stats
stores-set_stats own a stats cl = elim (Option-cases (lookup own cl)) [
  | inl e ↦ rw (e, set_stats) refl
  | inr (node, e) ↦ rw (e, set_stats) (stores-put_back own a node _ cl e refl refl)
]

stores-deliver :
    (t a : Text) (o : Outcome (Node × Bool)) (cl : Cluster)
    → text_eq t a ≡ false
    → stores a (deliver t o cl).0 ≡ stores a cl
stores-deliver t a panics cl s = rw (lookup-remove t a cl, s) refl
stores-deliver t a (returns (node, ok)) cl s = rw (stores-insert t a node cl, s) refl

-- A file or an append sent to one address changes nothing at another.
pub stores-send_file_to_node :
    (net : Network) (own t a content : Text) (meta : FileMetadata) (cl : Cluster)
    → text_eq t a ≡ false
    → stores a (send_file_to_node net own t content meta cl).0 ≡ stores a cl
unfolding send_file_to_node
stores-send_file_to_node net own t a content meta cl s = elim (Bool-cases (net.reaches t)) [
  | inr r ↦ rw r refl
  | inl r ↦ elim (Option-cases (lookup t (counted own content cl))) [
    | inl e ↦ rw (r, e) refl
    | inr (node, e) ↦
        rw (r, e)
          (stores-deliver t a
              (file_transfer (net.file_system t) true (file_chunks meta content) node)
              (counted own content cl) s
            ∙ stores-counted own a content cl)
  ]
]

pub stores-send_append_to_node :
    (net : Network) (own t a content : Text) (info : AppendInfo) (cl : Cluster)
    → text_eq t a ≡ false
    → stores a (send_append_to_node net own t content info cl).0 ≡ stores a cl
unfolding send_append_to_node
stores-send_append_to_node net own t a content info cl s = elim (Bool-cases (net.reaches t)) [
  | inr r ↦ rw r refl
  | inl r ↦ elim (Option-cases (lookup t (counted own content cl))) [
    | inl e ↦ rw (r, e) refl
    | inr (node, e) ↦
        rw (r, e)
          (stores-insert t a _ (counted own content cl) ∙ rw s (stores-counted own a content cl))
  ]
]

-- what is found in place of what is stored
pub stored_node :
    (a : Text) (cl : Cluster) {m : Metadata} {d : Dict Text}
    → stores a cl ≡ some (m, d)
    → (node : Node) × (lookup a cl ≡ some node) × (node.metadata ≡ m) × (node.disk ≡ d)
stored_node a cl e = elim (Option-cases (lookup a cl)) [
  | inl k ↦ absurd (nothing_stored (ap stored (sym k) ∙ e))
  | inr (node, k) ↦ (
    node,
    k,
    ap (λ p. p.0) (same (ap stored (sym k) ∙ e)),
    ap (λ p. p.1) (same (ap stored (sym k) ∙ e)),
  )
]
  where
    nothing_stored : {p : Metadata × Dict Text} → none ≡ some p → ⊥
    nothing_stored q = cc

    same : {p q : Metadata × Dict Text} → some p ≡ some q → p ≡ q
    same q = cc
