-- ===== src/Transfer/Chunks.antt =====
-- The chunks of a file put together again.
use mathlib.Core.List.{append-nil, append_assoc}
use hydfs.Prelude.{
  ℕ, zero, suc, ◌<◌, ◌≤◌, ◌≡◌, text_eq, false, some, refl, sym, ap, ◌∙◌, Text, List, [], ◌∷◌, ◌++◌,
  length, All, take, drop, take-append-drop, length-take, length-drop, map, arith,
}
use hydfs.Transfer.{pieces, chunk_size, Filing, plain_chunk, file_chunk, receive_file}
use hydfs.Metadata.{FileMetadata}
use hydfs.Transfer.Appending.{
  AppendChunk, Appending, append_chunk, plain_append_chunk, receive_append,
}

-- the pieces in one
abbrev pub joined : List Text → Text
joined [] = []
joined (piece ∷ pieces) = piece ++ joined pieces

chunk_size_pos : 0 < chunk_size
unfolding chunk_size
chunk_size_pos = omega arith

drop_shorter : (n c : ℕ) (content : Text) → 0 < n → length (drop n (c ∷ content)) ≤ length content
drop_shorter n c content pos = omega (arith, length-drop n (c ∷ content))

-- As many rounds as there are bytes are enough.
pub joined-pieces :
    (rounds : ℕ) (content : Text)
    → length content ≤ rounds
    → joined (pieces rounds content) ≡ content
unfolding pieces
joined-pieces zero [] l = refl
joined-pieces zero (c ∷ content) l = absurd (omega arith)
joined-pieces (suc rounds) [] l = refl
joined-pieces (suc rounds) (c ∷ content) l =
    ap (λ rest. take chunk_size (c ∷ content) ++ rest)
      (joined-pieces rounds (drop chunk_size (c ∷ content))
        (omega (arith, drop_shorter chunk_size c content chunk_size_pos)))
    ∙ take-append-drop chunk_size (c ∷ content)

-- Rounds beyond the number of bytes change nothing.
pieces-rounds :
    (rounds more : ℕ) (content : Text)
    → length content ≤ rounds
    → length content ≤ more
    → pieces rounds content ≡ pieces more content
unfolding pieces
pieces-rounds zero zero [] l k = refl
pieces-rounds zero (suc more) [] l k = refl
pieces-rounds (suc rounds) zero [] l k = refl
pieces-rounds (suc rounds) (suc more) [] l k = refl
pieces-rounds zero more (c ∷ content) l k = absurd (omega arith)
pieces-rounds (suc rounds) zero (c ∷ content) l k = absurd (omega arith)
pieces-rounds (suc rounds) (suc more) (c ∷ content) l k =
    let shorter = drop_shorter chunk_size c content chunk_size_pos in
    ap (take chunk_size (c ∷ content) ∷◌) (
      pieces-rounds rounds more (drop chunk_size (c ∷ content)) (omega (arith, shorter))
        (omega (arith, shorter)))

-- a chunk that a message carries: not empty, and no longer than the limit
abbrev pub IsChunk : Text → Type 0
IsChunk p = (0 < length p) × (length p ≤ chunk_size)

take-IsChunk : (c : ℕ) (content : Text) → IsChunk (take chunk_size (c ∷ content))
take-IsChunk c content = (
  omega (arith, length-take chunk_size (c ∷ content), chunk_size_pos),
  omega (arith, length-take chunk_size (c ∷ content)),
)

pieces-IsChunk : (rounds : ℕ) (content : Text) → All IsChunk (pieces rounds content)
unfolding pieces
pieces-IsChunk zero content = tt
pieces-IsChunk (suc rounds) [] = tt
pieces-IsChunk (suc rounds) (c ∷ content) =
    (take-IsChunk c content, pieces-IsChunk rounds (drop chunk_size (c ∷ content)))

-- The loop that cuts a content into chunks ends after at most one round for each byte: with that
-- many rounds or more it gives the same chunks, which put together are the content, and each of
-- which is not empty and at most 64 KiB long.
pub pieces_lem :
    (rounds : ℕ) (content : Text)
    → length content ≤ rounds
    → (pieces rounds content ≡ pieces (length content) content)
      × (joined (pieces rounds content) ≡ content)
      × All IsChunk (pieces rounds content)
pieces_lem rounds content l = (
  pieces-rounds rounds (length content) content l (omega arith),
  joined-pieces rounds content l,
  pieces-IsChunk rounds content,
)

pub pieces_nonempty :
    (rounds c : ℕ) (content : Text)
    → (piece : Text) × (rest : List Text) × (pieces (suc rounds) (c ∷ content) ≡ piece ∷ rest)
unfolding pieces
pieces_nonempty rounds c content =
    (take chunk_size (c ∷ content), pieces rounds (drop chunk_size (c ∷ content)), refl)

-- a chunk that is not the first
file_chunk-plain :
    (p : Text) (r : Filing) {f : FileMetadata}
    → text_eq r.name [] ≡ false
    → r.meta ≡ some f
    → let r' = file_chunk (plain_chunk p) r in
      (r'.name ≡ r.name) × (r'.meta ≡ some f) × (r'.collected ≡ r.collected ++ p)
unfolding file_chunk
file_chunk-plain p r n m = rw (n, m) (refl, refl, refl)

-- What the later chunks add to the content; the name and the metadata stand.
pub receive_file-rest :
    (ps : List Text) (r : Filing) {f : FileMetadata}
    → text_eq r.name [] ≡ false
    → r.meta ≡ some f
    → let r' = receive_file (map plain_chunk ps) r in
      (r'.name ≡ r.name) × (r'.meta ≡ some f) × (r'.collected ≡ r.collected ++ joined ps)
unfolding receive_file
receive_file-rest [] r n m = (refl, m, sym (append-nil r.collected))
receive_file-rest (p ∷ ps) r n m =
    let (name, meta, content) = file_chunk-plain p r n m in
    let (name', meta', content') =
      receive_file-rest ps (file_chunk (plain_chunk p) r) (ap (λ x. text_eq x []) name ∙ n) meta in
    (
      name' ∙ name,
      meta',
      content' ∙ ap (λ x. x ++ joined ps) content ∙ append_assoc r.collected p (joined ps),
    )

append_chunk-plain :
    (p : Text) (r : Appending) {h : AppendChunk}
    → r.head ≡ some h
    → let r' = append_chunk (plain_append_chunk p) r in
      (r'.head ≡ some h) × (r'.collected ≡ r.collected ++ p)
unfolding append_chunk
append_chunk-plain p r e = rw e (refl, refl)

pub receive_append-rest :
    (ps : List Text) (r : Appending) {h : AppendChunk}
    → r.head ≡ some h
    → let r' = receive_append (map plain_append_chunk ps) r in
      (r'.head ≡ some h) × (r'.collected ≡ r.collected ++ joined ps)
unfolding receive_append
receive_append-rest [] r e = (e, sym (append-nil r.collected))
receive_append-rest (p ∷ ps) r e =
    let (head, content) = append_chunk-plain p r e in
    let (head', content') = receive_append-rest ps (append_chunk (plain_append_chunk p) r) head in
    (head', content' ∙ ap (λ x. x ++ joined ps) content ∙ append_assoc r.collected p (joined ps))
