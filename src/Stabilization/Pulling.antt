-- ===== src/Stabilization/Pulling.antt =====
-- A node that pulls a file from a successor: its appends come with the content and not as appends.
use hydfs.Prelude.{
  Text, text_eq, text_eq_refl, ◌≡◌, refl, ap, ◌∙◌, none, some, List, [], ◌∷◌, true, false, Dict,
  lookup, insert, remove, lookup-insert, lookup-remove, Bool-cases, Option-cases, inl, inr, All,
}
use hydfs.Metadata.{AppendInfo, FileMetadata, Metadata, get_file, add_file, has_append}
use hydfs.Metadata.Consistency.{get_file-add_file}
use hydfs.Bandwidth.{BandwidthStats}
use hydfs.Transfer.{Node, FileSystem}
use hydfs.Transfer.Download.{get_file_stream, stream_found, save_stream, file_paths, base}
use hydfs.Transfer.Downloaded.{lines, Holds}
use hydfs.Cluster.{Cluster, Network, receive_file_from_node}
use hydfs.Cluster.Stores.{stores, stored_node, stores-insert, stores-set_stats, stores-put_back}
use hydfs.Cluster.Reading.{receive-Serves}
use hydfs.Cluster.Sending.{CanWrite}
use hydfs.Stabilization.{change_own, own_disk, download, get_append, get_appends, get_missing}

pub stream_keeps :
    (name : Text) (node : Node)
    → ((get_file_stream name node).1.metadata ≡ node.metadata)
      × ((get_file_stream name node).1.disk ≡ node.disk)
unfolding get_file_stream stream_found
stream_keeps name node = elim (Option-cases (get_file name node.metadata)) [
  | inl e ↦ rw (e, stream_found) (refl, refl)
  | inr (f, e) ↦ rw (e, stream_found) (refl, refl)
]

-- A download changes nothing that a node stores: its result stands apart.
stores-receive_file_from_node :
    (net : Network) (own t name path a : Text) (directory : Dict Text) (cl : Cluster)
    → stores a (receive_file_from_node net own t name path directory cl).cluster ≡ stores a cl
unfolding receive_file_from_node
stores-receive_file_from_node net own t name path a directory cl =
    elim (Bool-cases (net.reaches t)) [
      | inr r ↦ rw r refl
      | inl r ↦ elim (Option-cases (lookup t cl)) [
        | inl e ↦ rw (r, e) refl
        | inr (node, e) ↦
            rw (r, e)
              (stores-set_stats own a _ (insert t (get_file_stream name node).1 cl)
                ∙ stores-put_back t a node (get_file_stream name node).1 cl e
                    (stream_keeps name node).0 (stream_keeps name node).1)
      ]
    ]

unknown_stream :
    (name : Text) (node : Node)
    → get_file name node.metadata ≡ none
    → (get_file_stream name node).0 ≡ none
unfolding get_file_stream stream_found
unknown_stream name node e = rw (e, stream_found) refl

save_nothing :
    (fs : FileSystem) (path : Text) (directory : Dict Text) (stats : BandwidthStats)
    → CanWrite fs path
    → let r = save_stream fs path none directory stats in
      (r.1 ≡ false) × (r.0.0 ≡ remove path directory)
unfolding save_stream
save_nothing fs path directory stats w = rw (w.makes, w.writes_name) (refl, refl)

-- a download of something that the other node does not know
receive_unknown :
    (net : Network) (own t name path : Text) (directory : Dict Text) (cl : Cluster) {m : Metadata}
    {d : Dict Text}
    → net.reaches t ≡ true
    → CanWrite (net.file_system own) (base path)
    → stores t cl ≡ some (m, d)
    → get_file name m ≡ none
    → let r = receive_file_from_node net own t name path directory cl in
      (r.ok ≡ false) × (r.local ≡ remove (base path) directory)
unfolding receive_file_from_node
receive_unknown net own t name path directory cl {m} {d} r w e unknown =
    let (node, at, is_m, is_d) = stored_node t cl {m = m} {d = d} e in
    rw (r, at, unknown_stream name node (ap (get_file name) is_m ∙ unknown))
      (save_nothing (net.file_system own) (base path) directory _ w)

pub change_own_frame :
    (own a : Text) (f : Node → Node) (cl : Cluster)
    → text_eq own a ≡ false
    → stores a (change_own own f cl) ≡ stores a cl
unfolding change_own
change_own_frame own a f cl s = elim (Option-cases (lookup own cl)) [
  | inl e ↦ rw (e, change_own) refl
  | inr (node, e) ↦ rw (e, change_own) (stores-insert own a (f node) cl ∙ rw s refl)
]

pub change_own_at :
    (own : Text) (f : Node → Node) (cl : Cluster) (node : Node)
    → lookup own cl ≡ some node
    → stores own (change_own own f cl) ≡ some ((f node).metadata, (f node).disk)
unfolding change_own
change_own_at own f cl node e =
    rw (change_own, e) (stores-insert own own (f node) cl ∙ rw (text_eq_refl own) refl)

download_frame :
    (net : Network) (own t name a : Text) (cl : Cluster)
    → text_eq own a ≡ false
    → stores a (download net own t name cl).0 ≡ stores a cl
unfolding download
download_frame net own t name a cl s =
    let r = receive_file_from_node net own t name name (own_disk own cl) cl in
    change_own_frame own a (λ node. record node { disk = r.local }) r.cluster s
    ∙ stores-receive_file_from_node net own t name name a (own_disk own cl) cl

own_disk_lem :
    (own : Text) (cl : Cluster) {m : Metadata} {d : Dict Text}
    → stores own cl ≡ some (m, d)
    → own_disk own cl ≡ d
unfolding own_disk
own_disk_lem own cl {m} {d} e =
    let (node, at, is_m, is_d) = stored_node own cl {m = m} {d = d} e in rw (own_disk, at) is_d

abbrev into_disk : Dict Text → Node → Node
into_disk local node = record node { disk = local }

download_from :
    (net : Network) (own t name : Text) (cl : Cluster) {m : Metadata} {d : Dict Text}
    → stores own cl ≡ some (m, d)
    → let r = receive_file_from_node net own t name name d cl in
      download net own t name cl ≡ (change_own own (into_disk r.local) r.cluster, r.ok)
unfolding download
download_from net own t name cl {m} {d} e =
    ap
      (λ x.
        let r = receive_file_from_node net own t name name x cl in
        (change_own own (into_disk r.local) r.cluster, r.ok))
      (own_disk_lem own cl {m = m} {d = d} e)

download_at :
    (net : Network) (own t name : Text) (cl : Cluster) {m : Metadata} {d : Dict Text}
    → stores own cl ≡ some (m, d)
    → let r = receive_file_from_node net own t name name d cl in
      ((download net own t name cl).1 ≡ r.ok)
      × (stores own (download net own t name cl).0 ≡ some (m, r.local))
download_at net own t name cl {m} {d} e =
    let r = receive_file_from_node net own t name name d cl in
    let (node, at, is_m, is_d) =
      stored_node own r.cluster {m = m} {d = d}
        (stores-receive_file_from_node net own t name name own d cl ∙ e) in
    (
      ap (λ x. x.1) (download_from net own t name cl {m = m} {d = d} e),
      ap (λ x. stores own x.0) (download_from net own t name cl {m = m} {d = d} e)
          ∙ change_own_at own (into_disk r.local) r.cluster node at
          ∙ ap (λ x. some (x, r.local)) is_m,
    )

abbrev unappended : FileMetadata → FileMetadata
unappended remote = record remote { appends = [] }

module _ (net : Network) (own t name : Text) (r : net.reaches t ≡ true)
    (apart : text_eq own t ≡ false) (m : Metadata) (d : Dict Text) where
  -- An append whose ID names no file at the other node is not found there.
  get_append_unknown :
      (a : AppendInfo) (cl : Cluster) {m0 : Metadata} {d0 : Dict Text}
      → CanWrite (net.file_system own) (base a.append_id)
      → get_file a.append_id m ≡ none
      → stores own cl ≡ some (m0, d0)
      → stores t cl ≡ some (m, d)
      → (stores own (get_append net own t name a cl) ≡ some (m0, remove (base a.append_id) d0))
        × (stores t (get_append net own t name a cl) ≡ stores t cl)
  unfolding get_append
  get_append_unknown a cl {m0} {d0} w unknown o e =
      let (failed, local) =
        receive_unknown net own t a.append_id a.append_id d0 cl {m = m} {d = d} r w e unknown in
      let (done, at) = download_at net own t a.append_id cl {m = m0} {d = d0} o in
      rw (done ∙ failed)
        (at ∙ ap (λ x. some (m0, x)) local, download_frame net own t a.append_id t cl apart)

  -- An append that the other node cannot serve, as it is no file there.
  abbrev pub IsUnservable : AppendInfo → Type 0
  IsUnservable a =
      CanWrite (net.file_system own) (base a.append_id) × (get_file a.append_id m ≡ none)

  get_appends_unknown :
      (local appends : List AppendInfo) (cl : Cluster) (p : Text) {m0 : Metadata} {d0 : Dict Text}
      → All IsUnservable appends
      → All (λ a. text_eq (base a.append_id) p ≡ false) appends
      → stores own cl ≡ some (m0, d0)
      → stores t cl ≡ some (m, d)
      → (d' : Dict Text) × (stores own (get_appends net own t name local appends cl)
          ≡ some (m0, d'))
        × (lookup p d' ≡ lookup p d0)
  unfolding get_appends
  get_appends_unknown local [] cl p {m0} {d0} u n o e = (d0, o, refl)
  get_appends_unknown local (a ∷ appends) cl p {m0} {d0} u n o e =
      elim (Bool-cases (has_append a.append_id local)) [
        | inl old ↦ rw old (get_appends_unknown local appends cl p {m0 = m0} {d0 = d0} u.1 n.1 o e)
        | inr new ↦
            let (at, same) = get_append_unknown a cl {m0 = m0} {d0 = d0} u.0.0 u.0.1 o e in
            let (d', at', held) =
              get_appends_unknown local appends (get_append net own t name a cl) p {m0 = m0}
                {d0 = remove (base a.append_id) d0} u.1 n.1 at (same ∙ e) in
            rw new (d', at', held ∙ lookup-remove (base a.append_id) p d0 ∙ rw n.0 refl)
      ]

  -- If a node pulls a file, whose name is no longer path, from another node that can be reached and
  -- has it with the contents of all its appends, under IDs that name no file there and end in another
  -- name than the file's own, and the node can write these names, then afterwards it knows the file
  -- with no appends at all, and has under its name one content in which the appends follow the file,
  -- with a newline between two of them.
  pub get_missing_lem :
      (remote : FileMetadata) (contents : List Text) (cl : Cluster) {m0 : Metadata} {d0 : Dict Text}
      → get_file name m ≡ some remote
      → remote.file_name ≡ name
      → base name ≡ name
      → CanWrite (net.file_system own) (base name)
      → Holds d (file_paths remote) contents
      → All IsUnservable remote.appends
      → All (λ a. text_eq (base a.append_id) name ≡ false) remote.appends
      → stores own cl ≡ some (m0, d0)
      → stores t cl ≡ some (m, d)
      → (m' : Metadata) × (d' : Dict Text) × (stores own (get_missing net own t name remote cl)
          ≡ some (m', d'))
        × (get_file name m' ≡ some (record remote { appends = [] }))
        × (lookup name d' ≡ some (lines contents))
  unfolding get_missing
  get_missing_lem remote contents cl {m0} {d0} known named plain w held u n o e =
      let (ok, local) =
        receive-Serves net own t name name contents d0 cl r w (m, d, remote, e, known, held) in
      let (done, at) = download_at net own t name cl {m = m0} {d = d0} o in
      let cl' = (download net own t name cl).0 in
      let (node, found, is_m, is_d) =
        stored_node own cl' {m = m0} {d = insert (base name) (lines contents) d0}
          (at ∙ ap (λ x. some (m0, x)) local) in
      let adds = λ (x : Node). record x { metadata = add_file (unappended remote) x.metadata } in
      let (d', after, same) =
        get_appends_unknown [] remote.appends (change_own own adds cl') name
          {m0 = add_file (unappended remote) node.metadata} {d0 = node.disk} u n
          (change_own_at own adds cl' node found)
          (change_own_frame own t adds cl' apart ∙ download_frame net own t name t cl apart ∙ e) in
      rw (done ∙ ok) (
        add_file (unappended remote) node.metadata,
        d',
        after,
        get_file-add_file (unappended remote) node.metadata name
            ∙ rw (named, text_eq_refl name) refl,
        same
            ∙ ap (lookup name) is_d
            ∙ lookup-insert (base name) name (lines contents) d0
            ∙ rw (plain, text_eq_refl name) refl,
      )
