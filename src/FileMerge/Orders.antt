-- ===== src/FileMerge/Orders.antt =====
-- The `merge` of a file that its primary's successors have with the same appends.
use hydfs.Prelude.{
  Text, text_eq, text_eq_refl, ◌≡◌, refl, sym, ap, subst, ◌∙◌, none, some, List, [], ◌∷◌, Bool,
  true, false, Dict, lookup, if◌then◌else◌, Bool-cases, inl, inr, All,
}
use hydfs.Member.{Member}
use hydfs.Metadata.{FileMetadata, Metadata, get_file, get_file_metadata}
use hydfs.Metadata.Consistency.{IsConsistent}
use hydfs.Ring.{get_successors}
use hydfs.Sync.{append_ids, files_and_appends_match, sync_remote_append_order}
use hydfs.Sync.Convergence.{sync_remote_append_order_lem}
use hydfs.Cluster.{Cluster, Network, Client, send_all}
use hydfs.Cluster.Stores.{stores, stored_node}
use hydfs.Cluster.Sending.{Stored, HasDistinctAddresses, All-frame, send_all-All}
use hydfs.Cluster.Commands.{fetch_file_metadata}
use hydfs.Stabilization.{own_file}
use hydfs.Stabilization.Pulling.{change_own_frame, change_own_at}
use hydfs.FileMerge.{
  ensure_remote_file_in_sync, sync_successor_order, merge_successors, execute_merge, reply_in_sync,
  in_sync,
}

-- A consistent node that has the file with the content and the appends of `local`.
abbrev pub HasAppendsOf : FileMetadata → Text → Stored → Type 0
HasAppendsOf local filename o =
    (m : Metadata) × (d : Dict Text) × (remote : FileMetadata) × (o ≡ some (m, d))
    × IsConsistent m
    × (get_file filename m ≡ some remote)
    × (files_and_appends_match local remote ≡ true)

-- A node that has the file with the appends of `local` in the same order.
abbrev pub HasOrderOf : FileMetadata → Text → Stored → Type 0
HasOrderOf local filename o =
    (m : Metadata) × (d : Dict Text) × (remote : FileMetadata) × (o ≡ some (m, d))
    × (get_file filename m ≡ some remote)
    × (append_ids remote.appends ≡ append_ids local.appends)

module _ (net : Network) (c : Client) (filename : Text) (local : FileMetadata) where
  -- the step for a successor that needs no stabilization
  order : Text → Cluster → Cluster × Bool
  order t cl =
      (sync_successor_order net t filename local (append_ids local.appends) cl, net.reaches t)

  order-frame :
      (t a : Text) (cl : Cluster) → text_eq t a ≡ false → stores a (order t cl).0 ≡ stores a cl
  unfolding order sync_successor_order
  order-frame t a cl s = elim (Bool-cases (net.reaches t)) [
    | inl r ↦ rw r (change_own_frame t a _ cl s)
    | inr r ↦ rw r refl
  ]

  abbrev Matching : Text → Stored → Type 0
  Matching t o = net.reaches t ≡ true → HasAppendsOf local filename o

  fetched :
      (t : Text) (cl : Cluster) {m : Metadata} {d : Dict Text} {remote : FileMetadata}
      → net.reaches t ≡ true
      → stores t cl ≡ some (m, d)
      → get_file filename m ≡ some remote
      → fetch_file_metadata net t filename cl ≡ some ((filename, remote) ∷ [])
  unfolding fetch_file_metadata get_file_metadata
  fetched t cl {m} {d} r e known =
      let (node, at, is_m, is_d) = stored_node t cl {m = m} {d = d} e in
      rw (r, at, ap (get_file filename) is_m ∙ known, get_file_metadata) refl

  unreached :
      (t : Text) (cl : Cluster)
      → net.reaches t ≡ false
      → fetch_file_metadata net t filename cl ≡ none
  unfolding fetch_file_metadata
  unreached t cl r = rw r refl

  ensured :
      (t : Text) (cl : Cluster)
      → Matching t (stores t cl)
      → ensure_remote_file_in_sync net c t filename local cl ≡ (cl, net.reaches t)
  unfolding ensure_remote_file_in_sync lookup
  ensured t cl h = elim (Bool-cases (net.reaches t)) [
    | inr r ↦ rw (unreached t cl r, reply_in_sync, r) refl
    | inl r ↦
        let (m, d, remote, e, k, known, same) = h r in
        rw
          (
            fetched t cl {m = m} {d = d} {remote = remote} r e known,
            reply_in_sync,
            text_eq_refl filename,
            in_sync,
            same,
            r,
          )
          refl
  ]

  step-order :
      (t : Text) (cl : Cluster)
      → (if net.reaches t
          then sync_successor_order net t filename local (append_ids local.appends) cl
          else cl)
        ≡ (order t cl).0
  unfolding order sync_successor_order
  step-order t cl = elim (Bool-cases (net.reaches t)) [ inl r ↦ rw r refl | inr r ↦ rw r refl ]

  merge_successors-send_all :
      (successors : List Member) (cl : Cluster)
      → HasDistinctAddresses successors
      → All (λ k. Matching k.address (stores k.address cl)) successors
      → merge_successors net c filename local (append_ids local.appends) successors cl
        ≡ (send_all order successors cl).0
  unfolding merge_successors send_all
  merge_successors-send_all [] cl d p = refl
  merge_successors-send_all (m ∷ successors) cl d p =
      rw (ensured m.address cl p.0, step-order m.address cl)
        (merge_successors-send_all successors (order m.address cl).0 d.1
          (All-frame order order-frame Matching m successors cl d.0 p.1))

  ordered :
      (t : Text) (cl : Cluster)
      → Matching t (stores t cl)
      → net.reaches t ≡ true
      → HasOrderOf local filename (stores t (order t cl).0)
  unfolding order sync_successor_order
  ordered t cl h r =
      let (m, d, remote, e, k, known, same) = h r in
      let (node, at, is_m, is_d) = stored_node t cl {m = m} {d = d} e in
      let (appends, is_order, files) =
        sync_remote_append_order_lem filename local node.metadata {remote = remote}
          (subst IsConsistent (sym is_m) k) (ap (get_file filename) is_m ∙ known) in
      rw r (
        sync_remote_append_order filename local (append_ids local.appends) node.metadata,
        node.disk,
        record remote { appends = appends },
        change_own_at t _ cl node at,
        files filename ∙ rw (text_eq_refl filename) refl,
        is_order,
      )

  merged :
      (cl : Cluster)
      → own_file c.own filename cl ≡ some local
      → execute_merge net c filename cl
        ≡ merge_successors net c filename local
            (append_ids local.appends)
            (get_successors c.members c.own_id c.replication_factor)
            cl
  unfolding execute_merge
  merged cl here = rw (execute_merge, here) refl

  -- If the successors of a file's primary have different addresses, and each that can be reached
  -- has consistent metadata and the file with the same content and the same appends in any order,
  -- then after the merge of the file each of these has the appends in the order of the primary.
  pub execute_merge-HasOrderOf :
      (cl : Cluster)
      → own_file c.own filename cl ≡ some local
      → let successors = get_successors c.members c.own_id c.replication_factor in
        HasDistinctAddresses successors
        → All (λ k. Matching k.address (stores k.address cl)) successors
        → All
            (λ k.
              net.reaches k.address ≡ true
              → HasOrderOf local filename (stores k.address (execute_merge net c filename cl)))
            successors
  execute_merge-HasOrderOf cl here d p =
      let successors = get_successors c.members c.own_id c.replication_factor in
      subst
        (λ x.
          All (λ k. net.reaches k.address ≡ true → HasOrderOf local filename (stores k.address x))
            successors)
        (sym (merged cl here ∙ merge_successors-send_all successors cl d p))
        (send_all-All order order-frame Matching
          (λ t o. net.reaches t ≡ true → HasOrderOf local filename o) ordered successors cl d p)
