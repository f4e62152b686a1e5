-- ===== src/Cluster/Sending.antt =====
-- One file sent to one node, and to all targets.
use hydfs.Prelude.{
  ℕ, ◌<◌, ◌^◌, Text, text_eq, text_eq_refl, text_eq_sym, ◌≡◌, ◌≢◌, refl, sym, ap, subst, ◌∙◌,
  Option, none, some, List, [], ◌∷◌, Bool, true, false, Dict, lookup, arith, All, length, select,
}
use hydfs.Member.{Member}
use hydfs.Metadata.{Metadata, FileMetadata, get_file}
use hydfs.Transfer.{is_entry_name, Node, FileSystem, file_transfer, file_chunks}
use hydfs.Transfer.Download.{file_paths}
use hydfs.Transfer.Downloaded.{Holds}
use hydfs.Transfer.Stored.{file_transfer-file_chunks}
use hydfs.Cluster.{Cluster, Network, counted, deliver, send_file_to_node, send_all}
use hydfs.Cluster.Stores.{stores, stored_node, stores-counted, stores-insert}

abbrev pub Stored : Type 0
Stored = Option (Metadata × Dict Text)

-- A node that runs and does not know the file.
abbrev pub Lacks : Text → Stored → Type 0
Lacks name o = (m : Metadata) × (d : Dict Text) × (o ≡ some (m, d)) × (get_file name m ≡ none)

-- A node that knows the file, and has the contents of the file and of its appends.
abbrev pub Serves : Text → List Text → Stored → Type 0
Serves name contents o =
    (m : Metadata) × (d : Dict Text) × (f : FileMetadata) × (o ≡ some (m, d))
    × (get_file name m ≡ some f)
    × Holds d (file_paths f) contents

-- What a file needs to travel: a name, a content hash, and a hash that an `int32` holds.
pub record IsSendable (meta : FileMetadata) : Type 0 where
  pub has_name : meta.file_name ≢ []
  pub has_hash : meta.file_content_hash ≢ []
  pub fits : meta.file_name_hash < 2 ^ 31

-- A node can write an entry of its directory, under a name that is one.
pub record CanWrite (fs : FileSystem) (name : Text) : Type 0 where
  pub makes : fs.makes_directory ≡ true
  pub writes_name : fs.writes name ≡ true
  pub names_entry : is_entry_name name ≡ true

pub send_found :
    (net : Network) (own t content : Text) (meta : FileMetadata) (cl : Cluster) {node : Node}
    → net.reaches t ≡ true
    → lookup t (counted own content cl) ≡ some node
    → send_file_to_node net own t content meta cl
      ≡ deliver t
          (file_transfer (net.file_system t) true (file_chunks meta content) node)
          (counted own content cl)
unfolding send_file_to_node
send_found net own t content meta cl r e = rw (r, e) refl

pub send_file_to_node-stores :
    (net : Network) (own t : Text) (c : ℕ) (content : Text) (meta : FileMetadata) (cl : Cluster)
    → IsSendable meta
    → net.reaches t ≡ true
    → CanWrite (net.file_system t) meta.file_name
    → Lacks meta.file_name (stores t cl)
    → ((send_file_to_node net own t (c ∷ content) meta cl).1 ≡ true)
      × Serves meta.file_name
          ((c ∷ content) ∷ [])
          (stores t (send_file_to_node net own t (c ∷ content) meta cl).0)
send_file_to_node-stores net own t c content meta cl s r w (m, d, e, fresh) =
    let (node, at, is_m, is_d) =
      stored_node t (counted own (c ∷ content) cl) {m = m} {d = d}
        (stores-counted own t (c ∷ content) cl ∙ e) in
    let (after, done, disk, files) =
      file_transfer-file_chunks (net.file_system t) meta c content node s.has_name s.has_hash s.fits
        w.names_entry w.makes w.writes_name (ap (get_file meta.file_name) is_m ∙ fresh) in
    let sent =
      send_found net own t (c ∷ content) meta cl {node = node} r at
      ∙ ap (λ o. deliver t o (counted own (c ∷ content) cl)) done in
    rw sent (
      refl,
      (
        after.metadata,
        after.disk,
        record meta { appends = [] },
        stores-insert t t after (counted own (c ∷ content) cl) ∙ rw (text_eq_refl t) refl,
        files meta.file_name ∙ rw (text_eq_refl meta.file_name) refl,
        (disk meta.file_name ∙ rw (text_eq_refl meta.file_name) refl, tt),
      ),
    )

pub send_file_unreachable :
    (net : Network) (own t content : Text) (meta : FileMetadata) (cl : Cluster)
    → net.reaches t ≡ false
    → send_file_to_node net own t content meta cl ≡ (cl, false)
unfolding send_file_to_node
send_file_unreachable net own t content meta cl r = rw r refl

-- No two targets have one address.
abbrev pub HasDistinctAddresses : List Member → Type 0
HasDistinctAddresses [] = Unit
HasDistinctAddresses (m ∷ ms) =
    All (λ k. text_eq m.address k.address ≡ false) ms × HasDistinctAddresses ms

-- Calls to one address each that leave the other addresses alone.
module _ (send : Text → Cluster → Cluster × Bool)
    (frame : (t a : Text) (cl : Cluster)
      → text_eq t a ≡ false
      → stores a (send t cl).0 ≡ stores a cl) where
  send_all-frame :
      (a : Text) (ms : List Member) (cl : Cluster)
      → All (λ k. text_eq a k.address ≡ false) ms
      → stores a (send_all send ms cl).0 ≡ stores a cl
  unfolding send_all
  send_all-frame a [] cl h = refl
  send_all-frame a (m ∷ ms) cl h =
      send_all-frame a ms (send m.address cl).0 h.1
      ∙ frame m.address a cl (text_eq_sym m.address a ∙ h.0)

  pub All-frame :
      (P : Text → Stored → Type 0) (m : Member) (ms : List Member) (cl : Cluster)
      → All (λ k. text_eq m.address k.address ≡ false) ms
      → All (λ k. P k.address (stores k.address cl)) ms
      → All (λ k. P k.address (stores k.address (send m.address cl).0)) ms
  All-frame P m [] cl h p = tt
  All-frame P m (k ∷ ms) cl h p = (
    subst (P k.address) (sym (frame m.address k.address cl h.0)) p.0,
    All-frame P m ms cl h.1 p.1,
  )

  -- What one call makes of the node that it goes to, all calls make of all nodes.
  pub send_all-All :
      (P Q : Text → Stored → Type 0)
      → ((t : Text) (cl : Cluster) → P t (stores t cl) → Q t (stores t (send t cl).0))
      → (ms : List Member) (cl : Cluster) → HasDistinctAddresses ms
      → All (λ k. P k.address (stores k.address cl)) ms
      → All (λ k. Q k.address (stores k.address (send_all send ms cl).0)) ms
  unfolding send_all
  send_all-All P Q step [] cl d p = tt
  send_all-All P Q step (m ∷ ms) cl d p = (
    subst (Q m.address) (sym (send_all-frame m.address ms (send m.address cl).0 d.0))
        (step m.address cl p.0),
    send_all-All P Q step ms (send m.address cl).0 d.1 (All-frame P m ms cl d.0 p.1),
  )

  -- the successes, if each call succeeds that gets through
  pub send_all-count :
      (reaches : Text → Bool) (P : Text → Stored → Type 0)
      → ((t : Text) (cl : Cluster) → P t (stores t cl) → (send t cl).1 ≡ reaches t)
      → (ms : List Member) (cl : Cluster) → HasDistinctAddresses ms
      → All (λ k. P k.address (stores k.address cl)) ms
      → (send_all send ms cl).1 ≡ length (select (λ k. reaches k.address) ms)
  unfolding send_all
  send_all-count reaches P ok [] cl d p = refl
  send_all-count reaches P ok (m ∷ ms) cl d p = ground (
    arith,
    ok m.address cl p.0,
    send_all-count reaches P ok ms (send m.address cl).0 d.1 (All-frame P m ms cl d.0 p.1),
  )
