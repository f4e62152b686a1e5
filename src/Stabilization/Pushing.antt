-- ===== src/Stabilization/Pushing.antt =====
-- What one pushed file or append leaves at the other node.
use mathlib.Core.List.{append_assoc, append-nil}
use hydfs.Prelude.{
  ℕ, Text, text_eq, text_eq_iff, text_eq_refl, ◌≡◌, refl, sym, ap, subst, ◌∙◌, Option, none, some,
  List, [], ◌∷◌, ◌++◌, true, false, any, Dict, lookup, insert, lookup-insert, if◌then◌else◌,
  Bool-cases, inl, inr, All, length,
}
use hydfs.Metadata.{
  AppendInfo, FileMetadata, Metadata, get_file, add_file, add_append, insert_append, has_append,
  goes_before,
}
use hydfs.Metadata.Arrivals.{receive_all}
use hydfs.Metadata.Consistency.{
  IsConsistent, Appends, append_to_file_lem, appended-IsConsistent, add_file-IsConsistent,
  get_file-add_file,
}
use hydfs.Merge.Told.{if_same}
use hydfs.Transfer.{FileSystem}
use hydfs.Transfer.Stored.{file_transfer_result, without_appends}
use hydfs.Transfer.Appended.{append_transfer_result}
use hydfs.Cluster.{Cluster, Network, counted, deliver, send_append_to_node}
use hydfs.Cluster.Stores.{stores, stored_node, stores-counted, stores-insert}
use hydfs.Cluster.Sending.{Stored, CanWrite, IsSendable, send_found}
use hydfs.Cluster.Appends.{send_append_found}
use hydfs.Stabilization.{read_own, push_append, push_content}

-- A node with consistent metadata that knows the file `f`, and has `disk` as its files.
abbrev pub Keeps : Text → FileMetadata → (Text → Option Text) → Stored → Type 0
Keeps name f disk o =
    (m : Metadata) × (d : Dict Text) × (o ≡ some (m, d))
    × IsConsistent m
    × (get_file name m ≡ some f)
    × ((p : Text) → lookup p d ≡ disk p)

-- the files of `from` at the paths, and those of `disk` elsewhere
abbrev pub copied : Dict Text → List Text → (Text → Option Text) → Text → Option Text
copied from paths disk p = if any (λ q. text_eq q p) paths then lookup p from else disk p

abbrev pub with_append : AppendInfo → FileMetadata → FileMetadata
with_append a f = record f { appends = add_append a f.appends }

pub read_own_lem :
    (own p : Text) (cl : Cluster) {m : Metadata} {d : Dict Text}
    → stores own cl ≡ some (m, d)
    → read_own own p cl ≡ lookup p d
unfolding read_own
read_own_lem own p cl {m} {d} e =
    let (node, at, is_m, is_d) = stored_node own cl {m = m} {d = d} e in
    rw (read_own, at, is_d) refl

pub appended-Keeps :
    (net : Network) (own t : Text) (b : ℕ) (content : Text) (a : AppendInfo) (f : FileMetadata)
    (disk : Text → Option Text) (cl : Cluster)
    → a.size ≡ length (b ∷ content)
    → net.reaches t ≡ true
    → CanWrite (net.file_system t) a.append_id
    → Keeps a.file_name f disk (stores t cl)
    → Keeps a.file_name
        (with_append a f)
        (λ p. if text_eq a.append_id p then some (b ∷ content) else disk p)
        (stores t (send_append_to_node net own t (b ∷ content) a cl).0)
appended-Keeps net own t b content a f disk cl z r w (m, d, e, k, known, held) =
    let (node, at, is_m, is_d) =
      stored_node t (counted own (b ∷ content) cl) {m = m} {d = d}
        (stores-counted own t (b ∷ content) cl ∙ e) in
    let (m', ok, locks, files) =
      subst (Appends a.file_name a m) known (append_to_file_lem a.file_name a m k) in
    let (stats, done) =
      append_transfer_result (net.file_system t) a b content node {f = f} m'
        (ap (get_file a.file_name) is_m ∙ known) (rw (is_m, ← z) ok) w.makes w.writes_name in
    let (sent, at') = send_append_found net own t (b ∷ content) a cl {node = node} r at done in
    (
      m',
      insert a.append_id (b ∷ content) node.disk,
      at',
      appended-IsConsistent a.file_name a m k ok,
      files a.file_name ∙ rw (text_eq_refl a.file_name) refl,
      (λ p. lookup-insert a.append_id p (b ∷ content) node.disk ∙ rw (is_d, held p) refl),
    )

-- An append of the file, with its content, that can be written at the other node.
abbrev pub IsPushable : FileSystem → Text → Dict Text → AppendInfo → Type 0
IsPushable fs name from a =
    (b : ℕ) × (content : Text) × (a.file_name ≡ name)
    × (lookup a.append_id from ≡ some (b ∷ content))
    × (a.size ≡ length (b ∷ content))
    × CanWrite fs a.append_id

pub other_disk :
    (name : Text) (f : FileMetadata) (disk disk' : Text → Option Text) (o : Stored)
    → ((p : Text) → disk p ≡ disk' p)
    → Keeps name f disk o
    → Keeps name f disk' o
other_disk name f disk disk' o same (m, d, e, k, known, held) =
    (m, d, e, k, known, λ p. held p ∙ same p)

abbrev pub overwritten : Text → Option Text → (Text → Option Text) → Text → Option Text
overwritten q o disk p = if text_eq q p then o else disk p

-- One append pushed from a node that has its content.
pub push_append-Keeps :
    (net : Network) (own t name : Text) (a : AppendInfo) (f : FileMetadata) (cl : Cluster)
    (from : Dict Text) (disk : Text → Option Text)
    → net.reaches t ≡ true
    → IsPushable (net.file_system t) name from a
    → Keeps name f disk (stores t cl)
    → Keeps name
        (with_append a f)
        (overwritten a.append_id (lookup a.append_id from) disk)
        (stores t (push_append net own t a (lookup a.append_id from) cl))
unfolding push_append
push_append-Keeps net own t name a f cl from disk r (b, content, named, here, z, w) h =
    let own_name = subst (λ n. Keeps n f disk (stores t cl)) (sym named) h in
    rw (here, push_append)
      (subst
        (λ n.
          Keeps n (with_append a f) (overwritten a.append_id (some (b ∷ content)) disk)
            (stores t (send_append_to_node net own t (b ∷ content) a cl).0))
        named (appended-Keeps net own t b content a f disk cl z r w own_name))

pub copied_next :
    (from : Dict Text) (q : Text) (qs : List Text) (disk : Text → Option Text) (p : Text)
    → copied from qs (overwritten q (lookup q from) disk) p ≡ copied from (q ∷ qs) disk p
copied_next from q qs disk p = elim (Bool-cases (text_eq q p)) [
  | inl s ↦
      rw (s, (text_eq_iff q p).0 s) (sym (if_same (any (λ x. text_eq x p) qs) (lookup p from)))
  | inr s ↦ rw s refl
]

-- A consistent node that does not know the file.
abbrev pub LacksFile : Text → (Text → Option Text) → Stored → Type 0
LacksFile name disk o =
    (m : Metadata) × (d : Dict Text) × (o ≡ some (m, d))
    × IsConsistent m
    × (get_file name m ≡ none)
    × ((p : Text) → lookup p d ≡ disk p)

-- The file itself, pushed to a node that does not know it.
pub push_content-Keeps :
    (net : Network) (own t : Text) (meta : FileMetadata) (b : ℕ) (content : Text) (cl : Cluster)
    (from : Dict Text) (disk : Text → Option Text)
    → IsSendable meta
    → net.reaches t ≡ true
    → CanWrite (net.file_system t) meta.file_name
    → lookup meta.file_name from ≡ some (b ∷ content)
    → LacksFile meta.file_name disk (stores t cl)
    → Keeps meta.file_name
        (without_appends meta)
        (overwritten meta.file_name (lookup meta.file_name from) disk)
        (stores t (push_content net own t meta (lookup meta.file_name from) cl))
unfolding push_content
push_content-Keeps net own t meta b content cl from disk s r w here (m, d, e, k, fresh, held) =
    let (node, at, is_m, is_d) =
      stored_node t (counted own (b ∷ content) cl) {m = m} {d = d}
        (stores-counted own t (b ∷ content) cl ∙ e) in
    let (stats, done) =
      file_transfer_result (net.file_system t) meta b content node s.has_name s.has_hash s.fits
        w.makes w.writes_name (ap (get_file meta.file_name) is_m ∙ fresh) in
    let sent =
      send_found net own t (b ∷ content) meta cl {node = node} r at
      ∙ ap (λ o. deliver t o (counted own (b ∷ content) cl)) done in
    let after = add_file (without_appends meta) node.metadata in
    rw (here, push_content, sent)
      (
        after,
        insert meta.file_name (b ∷ content) node.disk,
        stores-insert t t
              (record {
                metadata = after;
                disk = insert meta.file_name (b ∷ content) node.disk;
                bandwidth_stats = stats;
              })
              (counted own (b ∷ content) cl)
            ∙ rw (text_eq_refl t) refl,
        add_file-IsConsistent (without_appends meta) node.metadata
            (subst IsConsistent (sym is_m) k),
        get_file-add_file (without_appends meta) node.metadata meta.file_name
            ∙ rw (text_eq_refl meta.file_name) refl,
        (λ p. lookup-insert meta.file_name p (b ∷ content) node.disk ∙ rw (is_d, held p) refl),
      )

-- Each append follows those before it: it has another ID, and no later one of its client is there.
abbrev pub Follows : List AppendInfo → List AppendInfo → Type 0
Follows before [] = Unit
Follows before (a ∷ appends) =
    (has_append a.append_id before ≡ false)
    × All (λ x. goes_before a x ≡ false) before
    × Follows (before ++ a ∷ []) appends

pub insert_append_last :
    (a : AppendInfo) (l : List AppendInfo)
    → All (λ x. goes_before a x ≡ false) l
    → insert_append a l ≡ l ++ a ∷ []
unfolding insert_append
insert_append_last a [] h = refl
insert_append_last a (x ∷ l) h = rw h.0 (ap (x ∷◌) (insert_append_last a l h.1))

-- Appends that are received in their own order stay in it.
pub receive_all-append :
    (before appends : List AppendInfo)
    → Follows before appends
    → receive_all before appends ≡ before ++ appends
unfolding receive_all add_append
receive_all-append before [] h = sym (append-nil before)
receive_all-append before (a ∷ appends) (new, last, rest) =
    rw (new, insert_append_last a before last)
      (receive_all-append (before ++ a ∷ []) appends rest ∙ append_assoc before (a ∷ []) appends)
