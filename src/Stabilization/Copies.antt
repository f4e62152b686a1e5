-- ===== src/Stabilization/Copies.antt =====
-- A node that pushes a file to a successor without it leaves a copy of it there.
use hydfs.Prelude.{
  ℕ, Text, text_eq, ◌≡◌, ◌≢◌, refl, ap, subst, ◌∙◌, Option, none, some, List, [], ◌∷◌, true, false,
  Dict, lookup, lookup-insert, Bool-cases, inl, inr, All, arith,
}
use hydfs.Metadata.{file_or_zero, AppendInfo, FileMetadata, Metadata, get_file, has_append}
use hydfs.Metadata.Arrivals.{receive_all}
use hydfs.Ring.{get_files_within_range}
use hydfs.Member.{Member}
use hydfs.Sync.{append_ids}
use hydfs.Transfer.Download.{file_paths}
use hydfs.Transfer.Stored.{without_appends}
use hydfs.Cluster.{Cluster, Network}
use hydfs.Cluster.Stores.{stores, stored_node, stores-send_append_to_node, stores-send_file_to_node}
use hydfs.Cluster.Sending.{CanWrite, IsSendable}
use hydfs.Stabilization.{
  pick_files, get_files_metadata, fetch_metadata_from_node, push_files_to_successors, push_each,
  own_file, push_append, push_appends, push_content, push_known,
}
use hydfs.Stabilization.Pushing.{
  Keeps, copied, read_own_lem, overwritten, with_append, other_disk, IsPushable, push_append-Keeps,
  copied_next, LacksFile, push_content-Keeps, Follows, receive_all-append,
}

none_listed : (appends : List AppendInfo) → All (λ a. has_append a.append_id [] ≡ false) appends
none_listed [] = tt
none_listed (a ∷ appends) = (refl, none_listed appends)

module _ (net : Network) (own t name : Text) (r : net.reaches t ≡ true)
    (apart : text_eq t own ≡ false) (m0 : Metadata) (from : Dict Text) where
  push_append_own :
      (a : AppendInfo) (o : Option Text) (cl : Cluster)
      → stores own (push_append net own t a o cl) ≡ stores own cl
  unfolding push_append
  push_append_own a none cl = refl
  push_append_own a (some content) cl = stores-send_append_to_node net own t own content a cl apart

  -- The appends that the other node does not list, one after the other.
  push_appends-Keeps :
      (remote appends : List AppendInfo) (f : FileMetadata) (disk : Text → Option Text)
      (cl : Cluster)
      → stores own cl ≡ some (m0, from)
      → All (λ a. has_append a.append_id remote ≡ false) appends
      → All (IsPushable (net.file_system t) name from) appends
      → Keeps name f disk (stores t cl)
      → Keeps name
          (record f { appends = receive_all f.appends appends })
          (copied from (append_ids appends) disk)
          (stores t (push_appends net own t remote appends cl))
  unfolding push_appends receive_all
  push_appends-Keeps remote [] f disk cl o n p h = h
  push_appends-Keeps remote (a ∷ appends) f disk cl o n p h =
      rw (n.0, read_own_lem own a.append_id cl o)
        (let cl' = push_append net own t a (lookup a.append_id from) cl in
          other_disk name _ _ _ (stores t (push_appends net own t remote appends cl'))
            (copied_next from a.append_id (append_ids appends) disk)
            (push_appends-Keeps remote appends (with_append a f)
              (overwritten a.append_id (lookup a.append_id from) disk) cl'
              (push_append_own a (lookup a.append_id from) cl ∙ o) n.1 p.1
              (push_append-Keeps net own t name a f cl from disk r p.0 h)))

  push_content_own :
      (meta : FileMetadata) (o : Option Text) (cl : Cluster)
      → stores own (push_content net own t meta o cl) ≡ stores own cl
  unfolding push_content
  push_content_own meta none cl = refl
  push_content_own meta (some content) cl =
      stores-send_file_to_node net own t own content meta cl apart

push_known_missing :
    (net : Network) (own t : Text) (meta : FileMetadata) (b : ℕ) (content : Text) (m0 : Metadata)
    (from : Dict Text) (disk : Text → Option Text) (cl : Cluster)
    → net.reaches t ≡ true
    → text_eq t own ≡ false
    → IsSendable meta
    → CanWrite (net.file_system t) meta.file_name
    → stores own cl ≡ some (m0, from)
    → lookup meta.file_name from ≡ some (b ∷ content)
    → All (IsPushable (net.file_system t) meta.file_name from) meta.appends
    → Follows [] meta.appends
    → LacksFile meta.file_name disk (stores t cl)
    → Keeps meta.file_name meta
        (copied from (file_paths meta) disk)
        (stores t (push_known net own t meta.file_name meta none cl))
unfolding push_known
push_known_missing net own t meta b content m0 from disk cl r apart s w o here p ordered h =
    let cl' = push_content net own t meta (lookup meta.file_name from) cl in
    rw (read_own_lem own meta.file_name cl o) (
      subst
        (λ l.
          Keeps meta.file_name (record meta { appends = l }) (copied from (file_paths meta) disk)
            (stores t (push_appends net own t [] meta.appends cl')))
        (receive_all-append [] meta.appends ordered)
        (other_disk meta.file_name _ _ _ (stores t (push_appends net own t [] meta.appends cl'))
          (copied_next from meta.file_name (append_ids meta.appends) disk)
          (push_appends-Keeps net own t meta.file_name r apart m0 from [] meta.appends
            (without_appends meta) (overwritten meta.file_name (lookup meta.file_name from) disk)
            cl'
            (push_content_own net own t meta.file_name r apart m0 from meta
                (lookup meta.file_name from) cl
              ∙ o)
            (none_listed meta.appends) p
            (push_content-Keeps net own t meta b content cl from disk s r w here h))))

-- A node does not reply with a file that it does not know.
absent-get_files_within_range :
    (name : Text) (files : Dict FileMetadata) (s e : ℕ)
    → lookup name files ≡ none
    → All (λ n. text_eq n name ≡ false) (get_files_within_range files s e)
unfolding get_files_within_range lookup
absent-get_files_within_range name [] s e h = tt
absent-get_files_within_range name ((n, meta) ∷ files) s e h = elim (Bool-cases (text_eq n name)) [
  | inl same ↦ absurd (found same h)
  | inr other ↦
      let rest = absent-get_files_within_range name files s e (rw other at h) in
      ground (arith, rest)
]
  where
    found : text_eq n name ≡ true → lookup name ((n, meta) ∷ files) ≢ none
    found same k = ground arith

lookup-pick_files :
    (name : Text) (files : Dict FileMetadata) (names : List Text) (result : Dict FileMetadata)
    → All (λ n. text_eq n name ≡ false) names
    → lookup name result ≡ none
    → lookup name (pick_files files names result) ≡ none
unfolding pick_files
lookup-pick_files name files [] result h k = k
lookup-pick_files name files (n ∷ names) result h k =
    lookup-pick_files name files names _ h.1
      (lookup-insert n name (file_or_zero (lookup n files)) result ∙ rw h.0 k)

lookup-fetch_metadata_from_node :
    (net : Network) (t name : Text) (s e : ℕ) (disk : Text → Option Text) (cl : Cluster)
    → LacksFile name disk (stores t cl)
    → lookup name (fetch_metadata_from_node net t s e cl) ≡ none
unfolding fetch_metadata_from_node get_files_metadata lookup get_file
lookup-fetch_metadata_from_node net t name s e disk cl (m, d, at, k, fresh, held) =
    let (node, found, is_m, is_d) = stored_node t cl {m = m} {d = d} at in
    let absent = ap (λ x. lookup name x.files) is_m ∙ fresh in
    elim (Bool-cases (net.reaches t)) [
      | inr r ↦ rw r refl
      | inl r ↦
          rw (r, found)
            (lookup-pick_files name node.metadata.files _ []
              (absent-get_files_within_range name node.metadata.files s e absent) refl)
    ]

own_file_lem :
    (own name : Text) (cl : Cluster) {m : Metadata} {d : Dict Text}
    → stores own cl ≡ some (m, d)
    → own_file own name cl ≡ get_file name m
unfolding own_file
own_file_lem own name cl {m} {d} e =
    let (node, at, is_m, is_d) = stored_node own cl {m = m} {d = d} e in
    rw (own_file, at, is_m) refl

-- If a node has a file with content, that can travel, and its appends in order with their
-- contents, none of them empty, then pushing the file to a successor at another address that can be
-- reached and written, has consistent metadata and does not know the file, leaves there a copy: the
-- same metadata of the file, with the appends in the same order, and the contents of the file and of
-- each append; all other entries of that node's directory stay as they were. The names of the file
-- and of the appends are those of entries of a directory.
pub push_files_to_successors-copied :
    (net : Network) (own : Text) (k : Member) (start_range end_range : ℕ) (meta : FileMetadata)
    (b : ℕ) (content : Text) (m0 : Metadata) (from : Dict Text) (disk : Text → Option Text)
    (cl : Cluster)
    → net.reaches k.address ≡ true
    → text_eq k.address own ≡ false
    → IsSendable meta
    → CanWrite (net.file_system k.address) meta.file_name
    → stores own cl ≡ some (m0, from)
    → get_file meta.file_name m0 ≡ some meta
    → lookup meta.file_name from ≡ some (b ∷ content)
    → All (IsPushable (net.file_system k.address) meta.file_name from) meta.appends
    → Follows [] meta.appends
    → LacksFile meta.file_name disk (stores k.address cl)
    → Keeps meta.file_name meta (copied from (file_paths meta) disk) (
        stores k.address (
          push_files_to_successors net own (meta.file_name ∷ []) (k ∷ []) start_range end_range cl))
unfolding push_files_to_successors push_each own_file
push_files_to_successors-copied net own k s e meta b content m0 from disk cl r apart sendable w o
      known here p ordered h =
    rw
      (
        own_file_lem own meta.file_name cl o,
        known,
        push_each,
        lookup-fetch_metadata_from_node net k.address meta.file_name s e disk cl h,
      )
      (push_known_missing net own k.address meta b content m0 from disk cl r apart sendable w o here
        p ordered h)
