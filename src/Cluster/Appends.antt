-- ===== src/Cluster/Appends.antt =====
-- An append is stored by every target that can be reached.
use hydfs.Prelude.{
  ℕ, Text, text_eq_refl, ◌≡◌, refl, sym, ap, ◌∙◌, some, List, [], ◌∷◌, Bool, true, false, Dict,
  lookup, Bool-cases, inl, inr, All, length, select, if◌then◌else◌,
}
use hydfs.Prelude.Decimal.{ℤ}
use hydfs.Member.{Member}
use hydfs.Metadata.{Metadata, FileMetadata, AppendInfo, get_file, has_append, insert_append}
use hydfs.Metadata.Consistency.{IsConsistent}
use hydfs.Transfer.{Node}
use hydfs.Transfer.Appending.{append_transfer, append_chunks}
use hydfs.Transfer.Appended.{append_transfer-append_chunks}
use hydfs.Transfer.Download.{base}
use hydfs.Cluster.{
  Cluster, Network, Client, counted, send_append_to_node, send_all, targets_of, new_append,
  handle_append,
}
use hydfs.Cluster.Stores.{
  stores, stored_node, stores-counted, stores-insert, stores-send_append_to_node,
}
use hydfs.Cluster.Sending.{Stored, CanWrite, HasDistinctAddresses, send_all-All, send_all-count}

-- A node with consistent metadata that knows the file.
abbrev pub Knows : Text → FileMetadata → Stored → Type 0
Knows name f o =
    (m : Metadata) × (d : Dict Text) × (o ≡ some (m, d))
    × IsConsistent m
    × (get_file name m ≡ some f)

-- A node that has taken an append up: with its content on the disk, and in its place in the file,
-- unless the file lists one with that ID already.
abbrev pub HasTaken : AppendInfo → Text → FileMetadata → Stored → Type 0
HasTaken info content f o =
    (m : Metadata) × (d : Dict Text) × (o ≡ some (m, d))
    × (get_file info.file_name m
        ≡ some (record f {
          appends =
              if has_append info.append_id f.appends
              then f.appends
              else insert_append info f.appends;
        }))
    × (lookup info.append_id d ≡ some content)

pub send_append_found :
    (net : Network) (own t content : Text) (info : AppendInfo) (cl : Cluster) {node after : Node}
    → net.reaches t ≡ true
    → lookup t (counted own content cl) ≡ some node
    → append_transfer (net.file_system t) true (append_chunks info content) node ≡ (after, true)
    → ((send_append_to_node net own t content info cl).1 ≡ true)
      × (stores t (send_append_to_node net own t content info cl).0
          ≡ some (after.metadata, after.disk))
unfolding send_append_to_node
send_append_found net own t content info cl {after} r e done =
    rw (r, e, done)
      (refl, stores-insert t t after (counted own content cl) ∙ rw (text_eq_refl t) refl)

pub send_append_to_node-stores :
    (net : Network) (own t : Text) (b : ℕ) (content : Text) (info : AppendInfo) (f : FileMetadata)
    (cl : Cluster)
    → info.size ≡ length (b ∷ content)
    → net.reaches t ≡ true
    → CanWrite (net.file_system t) info.append_id
    → Knows info.file_name f (stores t cl)
    → ((send_append_to_node net own t (b ∷ content) info cl).1 ≡ true)
      × HasTaken info
          (b ∷ content)
          f
          (stores t (send_append_to_node net own t (b ∷ content) info cl).0)
send_append_to_node-stores net own t b content info f cl z r w (m, d, e, k, known) =
    let (node, at, is_m, is_d) =
      stored_node t (counted own (b ∷ content) cl) {m = m} {d = d}
        (stores-counted own t (b ∷ content) cl ∙ e) in
    let (after, done, disk, files) =
      append_transfer-append_chunks (net.file_system t) info b content node {f = f} (rw is_m k)
        (ap (get_file info.file_name) is_m ∙ known) w.names_entry w.makes w.writes_name in
    let (ok, at') =
      send_append_found net own t (b ∷ content) info cl {node = node} {after = after} r at done in
    (
      ok,
      (
        after.metadata,
        after.disk,
        at',
        files info.file_name ∙ rw (text_eq_refl info.file_name, ← z) refl,
        disk info.append_id ∙ rw (text_eq_refl info.append_id) refl,
      ),
    )

send_append_unreachable :
    (net : Network) (own t content : Text) (info : AppendInfo) (cl : Cluster)
    → net.reaches t ≡ false
    → send_append_to_node net own t content info cl ≡ (cl, false)
unfolding send_append_to_node
send_append_unreachable net own t content info cl r = rw r refl

module _ (net : Network) (c : Client) (now : ℤ) (name : Text) (b : ℕ) (content : Text)
    (file_at : Text → FileMetadata) where
  abbrev info : AppendInfo
  info = new_append c now name (b ∷ content)

  abbrev send : Text → Cluster → Cluster × Bool
  send target = send_append_to_node net c.own target (b ∷ content) info

  -- a target before the append, if a call to it gets through
  abbrev Ready : Text → Stored → Type 0
  Ready t o =
      net.reaches t ≡ true → Knows name (file_at t) o × CanWrite (net.file_system t) info.append_id

  send_takes :
      (t : Text) (cl : Cluster)
      → Ready t (stores t cl)
      → net.reaches t ≡ true
      → HasTaken info (b ∷ content) (file_at t) (stores t (send t cl).0)
  send_takes t cl ready r =
      (send_append_to_node-stores net c.own t b content info (file_at t) cl refl r (ready r).1
        (ready r).0).1

  pub send_ok : (t : Text) (cl : Cluster) → Ready t (stores t cl) → (send t cl).1 ≡ net.reaches t
  send_ok t cl ready = elim (Bool-cases (net.reaches t)) [
    | inl r ↦
        (send_append_to_node-stores net c.own t b content info (file_at t) cl refl r (ready r).1
          (ready r).0).0
        ∙ sym r
    | inr r ↦ rw (send_append_unreachable net c.own t (b ∷ content) info cl r, r) refl
  ]

  pub append_sends :
      (local : Dict Text) (local_name : Text) (cl : Cluster)
      → lookup (base local_name) local ≡ some (b ∷ content)
      → handle_append net c now local local_name name cl ≡ send_all send (targets_of c name) cl
  unfolding handle_append send_all
  append_sends local local_name cl e = by_targets (targets_of c name) refl
    where
      by_targets :
          (ts : List Member)
          → targets_of c name ≡ ts
          → handle_append net c now local local_name name cl ≡ send_all send (targets_of c name) cl
      by_targets [] k = rw (k, handle_append) refl
      by_targets (m ∷ ts) k = rw (k, handle_append, e) refl

  -- If no two targets of a file have one address, and every target that a call reaches has
  -- consistent metadata, knows the file and can write the append, then `append` of a local file
  -- that is not empty reports as many successes as targets are reached. Each of these has the content
  -- under the append ID, and the append in its place among those that it had, if none of them has
  -- that ID, which is made of the file's name, the second and the client's node; if one has, then the
  -- list is as it was, although the content under the ID is the new one.
  pub handle_append_lem :
      (local : Dict Text) (local_name : Text) (cl : Cluster)
      → lookup (base local_name) local ≡ some (b ∷ content)
      → HasDistinctAddresses (targets_of c name)
      → All (λ k. Ready k.address (stores k.address cl)) (targets_of c name)
      → let r = handle_append net c now local local_name name cl in
        (r.1 ≡ length (select (λ k. net.reaches k.address) (targets_of c name)))
        × All
            (λ k.
              net.reaches k.address ≡ true
              → HasTaken info (b ∷ content) (file_at k.address) (stores k.address r.0))
            (targets_of c name)
  handle_append_lem local local_name cl e d ready = rw (append_sends local local_name cl e) (
    send_all-count send (λ t a cl'. stores-send_append_to_node net c.own t a (b ∷ content) _ cl')
        net.reaches Ready send_ok (targets_of c name) cl d ready,
    send_all-All send (λ t a cl'. stores-send_append_to_node net c.own t a (b ∷ content) _ cl')
        Ready (λ t o. net.reaches t ≡ true → HasTaken info (b ∷ content) (file_at t) o) send_takes
        (targets_of c name) cl d ready,
  )
