-- ===== src/Cluster/ReadYourAppend.antt =====
-- An append can be read after what the file held, as long as one node can be reached.
use hydfs.Prelude.{
  ℕ, Text, text_eq, text_eq_refl, ◌≡◌, refl, sym, ap, subst, ◌∙◌, some, List, [], ◌∷◌, ◌++◌, Bool,
  true, false, Dict, lookup, insert, if◌then◌else◌, All, any,
}
use hydfs.Prelude.Decimal.{ℤ}
use hydfs.Metadata.{
  AppendInfo, FileMetadata, Metadata, get_file, has_append, goes_before, add_append,
}
use hydfs.Metadata.Consistency.{IsConsistent}
use hydfs.Sync.{append_ids}
use hydfs.Transfer.Download.{base, file_paths}
use hydfs.Transfer.Downloaded.{lines, Holds}
use hydfs.Cluster.{
  Cluster, Network, Client, send_append_to_node, send_all, targets_of, new_append, handle_append,
  handle_get,
}
use hydfs.Cluster.Stores.{stores, stores-send_append_to_node}
use hydfs.Cluster.Sending.{Stored, Serves, CanWrite, HasDistinctAddresses, send_all-All}
use hydfs.Cluster.Reading.{get_loop-Serves}
use hydfs.Cluster.Appends.{append_sends}
use hydfs.Stabilization.Pushing.{with_append, appended-Keeps, insert_append_last}

-- A consistent node that has a file, with the contents of the file and of its appends.
abbrev pub HasAll : Text → FileMetadata → List Text → Stored → Type 0
HasAll name f contents o =
    (m : Metadata) × (d : Dict Text) × (o ≡ some (m, d))
    × IsConsistent m
    × (get_file name m ≡ some f)
    × Holds d (file_paths f) contents

-- An append that comes last: it has a new ID, and no later one of its client is there.
pub record IsNext (info : AppendInfo) (f : FileMetadata) : Type 0 where
  pub fresh : has_append info.append_id f.appends ≡ false
  pub last : All (λ x. goes_before info x ≡ false) f.appends
  pub apart : All (λ p. text_eq info.append_id p ≡ false) (file_paths f)

add_append_last :
    (info : AppendInfo) (f : FileMetadata)
    → IsNext info f
    → add_append info f.appends ≡ f.appends ++ info ∷ []
unfolding add_append
add_append_last info f n = rw n.fresh (insert_append_last info f.appends n.last)

append_ids-append :
    (xs ys : List AppendInfo) → append_ids (xs ++ ys) ≡ append_ids xs ++ append_ids ys
append_ids-append [] ys = refl
append_ids-append (x ∷ xs) ys = ap (x.append_id ∷◌) (append_ids-append xs ys)

Holds-append :
    (d d' : Dict Text) (paths contents : List Text) (id content : Text)
    → ((p : Text) → lookup p d' ≡ (if text_eq id p then some content else lookup p d))
    → All (λ p. text_eq id p ≡ false) paths
    → Holds d paths contents
    → Holds d' (paths ++ id ∷ []) (contents ++ content ∷ [])
Holds-append d d' [] [] id content same n h = (same id ∙ rw (text_eq_refl id) refl, tt)
Holds-append d d' [] (c ∷ contents) id content same n h = absurd h
Holds-append d d' (p ∷ paths) [] id content same n h = absurd h
Holds-append d d' (p ∷ paths) (c ∷ contents) id content same n h =
    (same p ∙ rw n.0 h.0, Holds-append d d' paths contents id content same n.1 h.1)

paths_with_append :
    (info : AppendInfo) (f : FileMetadata)
    → IsNext info f
    → file_paths (with_append info f) ≡ file_paths f ++ info.append_id ∷ []
paths_with_append info f n =
    ap (λ l. f.file_name ∷ append_ids l) (add_append_last info f n)
    ∙ ap (f.file_name ∷◌) (append_ids-append f.appends (info ∷ []))

module _ (net : Network) (c : Client) (now : ℤ) (name : Text) (b : ℕ) (content : Text)
    (f : FileMetadata) (contents : List Text)
    (next : IsNext (new_append c now name (b ∷ content)) f) where
  abbrev info : AppendInfo
  info = new_append c now name (b ∷ content)

  abbrev send : Text → Cluster → Cluster × Bool
  send target = send_append_to_node net c.own target (b ∷ content) info

  -- a target before the append, if a call to it gets through
  abbrev Ready : Text → Stored → Type 0
  Ready t o =
      net.reaches t ≡ true → HasAll name f contents o × CanWrite (net.file_system t) info.append_id

  send-Serves :
      (t : Text) (cl : Cluster)
      → Ready t (stores t cl)
      → net.reaches t ≡ true
      → Serves name (contents ++ (b ∷ content) ∷ []) (stores t (send t cl).0)
  send-Serves t cl ready r =
      let (m, d, e, k, known, held) = (ready r).0 in
      let (m', d', e', k', known', same) =
        appended-Keeps net c.own t b content info f (λ p. lookup p d) cl refl r (ready r).1
          (m, d, e, k, known, (λ p. refl)) in
      (
        m',
        d',
        with_append info f,
        e',
        known',
        subst (λ ps. Holds d' ps (contents ++ (b ∷ content) ∷ []))
            (sym (paths_with_append info f next))
            (Holds-append d d' (file_paths f) contents info.append_id (b ∷ content) same next.apart
              held),
      )

  -- If no two targets of a file have one address, at least one can be reached, and every one that a
  -- call reaches has consistent metadata, the same metadata of the file, and the contents of it and
  -- of all its appends, and can write the append, then after an `append` of a local file that is not
  -- empty, whose append comes last, a `get` under the same network conditions, on a node that can
  -- write its local copy, succeeds and writes the contents in order and the appended content after
  -- them, with a newline between two of them.
  pub handle_get-handle_append :
      (local : Dict Text) (local_name path : Text) (cl : Cluster)
      → lookup (base local_name) local ≡ some (b ∷ content)
      → HasDistinctAddresses (targets_of c name)
      → All (λ k. Ready k.address (stores k.address cl)) (targets_of c name)
      → any (λ k. net.reaches k.address) (targets_of c name) ≡ true
      → CanWrite (net.file_system c.own) (base path)
      → let appended = handle_append net c now local local_name name cl in
        let got = handle_get net c name path local appended.0 in
        (got.ok ≡ true)
        × (got.local ≡ insert (base path) (lines (contents ++ (b ∷ content) ∷ [])) local)
  unfolding handle_get
  handle_get-handle_append local local_name path cl e d ready one w =
      let served =
        send_all-All send (λ t a cl'. stores-send_append_to_node net c.own t a (b ∷ content) _ cl')
          Ready (λ t o. net.reaches t ≡ true → Serves name (contents ++ (b ∷ content) ∷ []) o)
          send-Serves (targets_of c name) cl d ready in
      rw (append_sends net c now name b content (λ a. f) local local_name cl e) (
        get_loop-Serves net c.own name path (contents ++ (b ∷ content) ∷ []) (targets_of c name)
          local (send_all send (targets_of c name) cl).0 w served one)
