-- ===== src/Cluster/Reading.antt =====
-- A download from nodes that serve the file.
use hydfs.Prelude.{
  Text, ◌≡◌, refl, sym, subst, ap, ◌∙◌, List, [], ◌∷◌, true, false, Dict, insert, Bool-cases, inl,
  inr, All, any,
}
use hydfs.Member.{Member}
use hydfs.Metadata.{get_file}
use hydfs.Transfer.Download.{get_file_stream, base, file_paths}
use hydfs.Transfer.Downloaded.{lines, Holds, save_stream-get_file_stream}
use hydfs.Cluster.{Cluster, Network, receive_file_from_node, stats_at, get_loop}
use hydfs.Cluster.Stores.{stores, stored_node}
use hydfs.Cluster.Sending.{Serves, CanWrite}

-- one download from a node that serves the file
pub receive-Serves :
    (net : Network) (own t name path : Text) (contents : List Text) (local : Dict Text)
    (cl : Cluster)
    → net.reaches t ≡ true
    → CanWrite (net.file_system own) (base path)
    → Serves name contents (stores t cl)
    → let r = receive_file_from_node net own t name path local cl in
      (r.ok ≡ true) × (r.local ≡ insert (base path) (lines contents) local)
unfolding receive_file_from_node
receive-Serves net own t name path contents local cl r w (m, d, f, e, known, held) =
    let (node, at, is_m, is_d) = stored_node t cl {m = m} {d = d} e in
    let (saved, ok) =
      save_stream-get_file_stream (net.file_system own) name (base path) node local
        (stats_at own (insert t (get_file_stream name node).1 cl)) contents {meta = f}
        (ap (get_file name) is_m ∙ known)
        (subst (λ x. Holds x (file_paths f) contents) (sym is_d) held) w.makes w.writes_name in
    rw (r, at) (ok, saved)

receive_unreachable :
    (net : Network) (own t name path : Text) (local : Dict Text) (cl : Cluster)
    → net.reaches t ≡ false
    → receive_file_from_node net own t name path local cl
      ≡ record { cluster = cl; local = local; ok = false }
unfolding receive_file_from_node
receive_unreachable net own t name path local cl r = rw r refl

pub get_loop-Serves :
    (net : Network) (own name path : Text) (contents : List Text) (ms : List Member)
    (local : Dict Text) (cl : Cluster)
    → CanWrite (net.file_system own) (base path)
    → All (λ k. net.reaches k.address ≡ true → Serves name contents (stores k.address cl)) ms
    → any (λ k. net.reaches k.address) ms ≡ true
    → let r = get_loop net own name path ms local cl in
      (r.ok ≡ true) × (r.local ≡ insert (base path) (lines contents) local)
unfolding get_loop
get_loop-Serves net own name path contents [] local cl w s one = cc
get_loop-Serves net own name path contents (m ∷ ms) local cl w s one =
    elim (Bool-cases (net.reaches m.address)) [
      | inl r ↦
          let (ok, saved) =
            receive-Serves net own m.address name path contents local cl r w (s.0 r) in
          rw ok (ok, saved)
      | inr r ↦
          rw (receive_unreachable net own m.address name path local cl r)
            (get_loop-Serves net own name path contents ms local cl w s.1 (rw r at one))
    ]
