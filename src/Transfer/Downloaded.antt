-- ===== src/Transfer/Downloaded.antt =====
-- What a download leaves: the file and its appends, in the order of the metadata.
use mathlib.Core.List.{append-nil, append_assoc}
use hydfs.Prelude.{
  ◌≡◌, refl, sym, ap, ◌∙◌, Text, some, List, [], ◌∷◌, ◌++◌, true, Dict, lookup, insert, length,
  arith,
}
use hydfs.Metadata.{FileMetadata, get_file}
use hydfs.Bandwidth.{BandwidthStats}
use hydfs.Transfer.{Node, FileSystem, pieces}
use hydfs.Transfer.Chunks.{joined, joined-pieces}
use hydfs.Transfer.Download.{
  path_chunks, file_paths, get_file_stream, stream_found, write_chunks, save_stream,
}

-- contents with a newline between two of them
abbrev pub lines : List Text → Text
lines [] = []
lines (content ∷ []) = content
lines (content ∷ next ∷ rest) = content ++ 10 ∷ lines (next ∷ rest)

-- Every path has its content on the disk.
abbrev pub Holds : Dict Text → List Text → List Text → Type 0
Holds disk [] [] = Unit
Holds disk [] (content ∷ contents) = ⊥
Holds disk (path ∷ paths) [] = ⊥
Holds disk (path ∷ paths) (content ∷ contents) =
    (lookup path disk ≡ some content) × Holds disk paths contents

joined-append : (xs ys : List Text) → joined (xs ++ ys) ≡ joined xs ++ joined ys
joined-append [] ys = refl
joined-append (x ∷ xs) ys =
    ap (x ++◌) (joined-append xs ys) ∙ sym (append_assoc x (joined xs) (joined ys))

write_chunks-joined :
    (chunks : List Text) (written : Text) (stats : BandwidthStats)
    → (write_chunks chunks written stats).0 ≡ written ++ joined chunks
unfolding write_chunks
write_chunks-joined [] written stats = sym (append-nil written)
write_chunks-joined (c ∷ chunks) written stats =
    write_chunks-joined chunks (written ++ c) _ ∙ append_assoc written c (joined chunks)

path_chunks-lines :
    (disk : Dict Text) (paths contents : List Text)
    → Holds disk paths contents
    → joined (path_chunks disk paths) ≡ lines contents
unfolding path_chunks
path_chunks-lines disk [] [] h = refl
path_chunks-lines disk (p ∷ []) (c ∷ []) h =
    rw (h.0, path_chunks)
      (joined-append (pieces (length c) c) []
        ∙ append-nil (joined (pieces (length c) c))
        ∙ joined-pieces (length c) c (omega arith))
path_chunks-lines disk (p ∷ q ∷ paths) (c ∷ d ∷ contents) h =
    rw (h.0, path_chunks)
      (joined-append (pieces (length c) c) ((10 ∷ []) ∷ path_chunks disk (q ∷ paths))
        ∙ ap (λ x. x ++ 10 ∷ joined (path_chunks disk (q ∷ paths)))
            (joined-pieces (length c) c (omega arith))
        ∙ ap (λ x. c ++ 10 ∷ x) (path_chunks-lines disk (q ∷ paths) (d ∷ contents) h.1))
path_chunks-lines disk [] (c ∷ contents) h = absurd h
path_chunks-lines disk (p ∷ paths) [] h = absurd h
path_chunks-lines disk (p ∷ []) (c ∷ d ∷ contents) h = absurd h.1
path_chunks-lines disk (p ∷ q ∷ paths) (c ∷ []) h = absurd h.1

get_file_stream_found :
    (filename : Text) (node : Node) {meta : FileMetadata}
    → get_file filename node.metadata ≡ some meta
    → (get_file_stream filename node).0 ≡ some (path_chunks node.disk (file_paths meta))
unfolding get_file_stream stream_found
get_file_stream_found filename node e = rw (e, stream_found) refl

save_stream_saves :
    (fs : FileSystem) (path : Text) (chunks : List Text) (directory : Dict Text)
    (stats : BandwidthStats)
    → fs.makes_directory ≡ true
    → fs.writes path ≡ true
    → ((save_stream fs path (some chunks) directory stats).0.0
        ≡ insert path (joined chunks) directory)
      × ((save_stream fs path (some chunks) directory stats).1 ≡ true)
unfolding save_stream
save_stream_saves fs path chunks directory stats d w =
    rw (d, w) (ap (λ x. insert path x directory) (write_chunks-joined chunks [] stats), refl)

-- A download of a file that the other node knows, and of which it has the content and all appends
-- on its disk, succeeds if the local side can write, and writes the content and the appends in the
-- order of the metadata, with a newline between two of them, and changes no other local file.
pub save_stream-get_file_stream :
    (fs : FileSystem) (filename path : Text) (node : Node) (directory : Dict Text)
    (stats : BandwidthStats) (contents : List Text) {meta : FileMetadata}
    → get_file filename node.metadata ≡ some meta
    → Holds node.disk (file_paths meta) contents
    → fs.makes_directory ≡ true
    → fs.writes path ≡ true
    → let r = save_stream fs path (get_file_stream filename node).0 directory stats in
      (r.0.0 ≡ insert path (lines contents) directory) × (r.1 ≡ true)
save_stream-get_file_stream fs filename path node directory stats contents {meta} e h d w =
    let chunks = path_chunks node.disk (file_paths meta) in
    let (saved, ok) = save_stream_saves fs path chunks directory stats d w in
    rw (get_file_stream_found filename node {meta = meta} e) (
      saved
          ∙ ap (λ x. insert path x directory)
              (path_chunks-lines node.disk (file_paths meta) contents h),
      ok,
    )
