-- ===== src/Cluster/Listing.antt =====
-- What `ls` prints of a file that was created.
use hydfs.Prelude.{
  ℕ, Text, text_eq_refl, ◌≡◌, refl, ap, ◌∙◌, some, List, [], ◌∷◌, true, false, Dict, lookup,
  Bool-cases, inl, inr, All, select,
}
use hydfs.Prelude.Decimal.{ℤ}
use hydfs.Member.{Member}
use hydfs.Metadata.{FileMetadata, Metadata, get_file, get_file_metadata}
use hydfs.Transfer.Download.{base}
use hydfs.Cluster.{Cluster, Network, Client, targets_of, new_file, handle_create}
use hydfs.Cluster.Stores.{stores, stored_node}
use hydfs.Cluster.Sending.{Serves, IsSendable, HasDistinctAddresses}
use hydfs.Cluster.Commands.{fetch_file_metadata, replies_with, ls_loop, handle_ls}
use hydfs.Cluster.ReadYourWrite.{Ready, create_sends, sent_everywhere}

lookup_alone : (name : Text) (f : FileMetadata) → lookup name ((name, f) ∷ []) ≡ some f
unfolding lookup
lookup_alone name f = rw (text_eq_refl name) refl

replies_with-get_file_metadata :
    (name : Text) (m : Metadata) {f : FileMetadata}
    → get_file name m ≡ some f
    → replies_with name (some ((get_file_metadata name m).1)) ≡ true
unfolding get_file_metadata
replies_with-get_file_metadata name m {f} e =
    rw (get_file_metadata, e, replies_with, lookup_alone name f) refl

replies-Serves :
    (net : Network) (t name : Text) (contents : List Text) (cl : Cluster)
    → net.reaches t ≡ true
    → Serves name contents (stores t cl)
    → replies_with name (fetch_file_metadata net t name cl) ≡ true
unfolding fetch_file_metadata
replies-Serves net t name contents cl r (m, d, f, e, known, held) =
    let (node, at, is_m, is_d) = stored_node t cl {m = m} {d = d} e in
    rw (fetch_file_metadata, r, at)
      (replies_with-get_file_metadata name node.metadata {f = f} (ap (get_file name) is_m ∙ known))

replies_unreachable :
    (net : Network) (t name : Text) (cl : Cluster)
    → net.reaches t ≡ false
    → replies_with name (fetch_file_metadata net t name cl) ≡ false
unfolding fetch_file_metadata
replies_unreachable net t name cl r = rw (fetch_file_metadata, r) refl

ls_loop-Serves :
    (net : Network) (name : Text) (contents : List Text) (ms : List Member) (cl : Cluster)
    → All (λ k. net.reaches k.address ≡ true → Serves name contents (stores k.address cl)) ms
    → ls_loop net name ms cl ≡ select (λ k. net.reaches k.address) ms
unfolding ls_loop
ls_loop-Serves net name contents [] cl h = refl
ls_loop-Serves net name contents (m ∷ ms) cl h = elim (Bool-cases (net.reaches m.address)) [
  | inl r ↦
      rw (ls_loop, replies-Serves net m.address name contents cl r (h.0 r), r)
        (ap (◌∷◌ m) (ls_loop-Serves net name contents ms cl h.1))
  | inr r ↦
      rw (ls_loop, replies_unreachable net m.address name cl r, r)
        (ls_loop-Serves net name contents ms cl h.1)
]

-- If a local file is not empty and can travel, no two of its targets have one address, and every
-- one that a call reaches does not know the file and can write it, then after `create` the command
-- `ls` under the same network conditions prints exactly the targets that are reached, in the order
-- of the ring.
pub handle_ls-handle_create :
    (net : Network) (c : Client) (now : ℤ) (name : Text) (b : ℕ) (content : Text)
    (s : IsSendable (new_file c now name (b ∷ content))) (local : Dict Text) (local_name : Text)
    (cl : Cluster)
    → lookup (base local_name) local ≡ some (b ∷ content)
    → HasDistinctAddresses (targets_of c name)
    → All
        (λ k. Ready net c now name b content s k.address (stores k.address cl))
        (targets_of c name)
    → handle_ls net c name (handle_create net c now local local_name name cl).0
      ≡ select (λ k. net.reaches k.address) (targets_of c name)
unfolding handle_ls
handle_ls-handle_create net c now name b content s local local_name cl e d ready =
    rw (create_sends net c now name b content s local local_name cl e) (
      ls_loop-Serves net name ((b ∷ content) ∷ []) (targets_of c name) _
        (sent_everywhere net c now name b content s (targets_of c name) cl d ready).0)
