-- ===== src/Metadata/Interleaving.antt =====
-- metadata.go, `AppendToFile` among the other operations: it holds the lock of the file, but lets go
-- of the lock of the maps between its three looks at them, where others may change them.
use hydfs.Prelude.{
  Text, text_eq, text_eq_refl, ◌≡◌, refl, sym, ap, ◌∙◌, Option, none, some, List, [], ◌∷◌, ◌++◌,
  Bool, true, false, not, lookup, insert, remove, Dict, Bool-cases, lookup-insert, lookup-remove,
  All, arith, Option-cases, inl, inr,
}
use hydfs.Metadata.{
  AppendInfo, FileMetadata, Metadata, zero_file, file_or_zero, get_file_lock, append_locked,
  append_to_file, add_file, add_lock, delete_file, update_append_order, get_file, has_append,
  insert_append,
}
use hydfs.Metadata.Consistency.{
  Operation, adds, appends_to, deletes, reorders, operate, operate_all, IsConsistent, is_some,
  operate-IsConsistent, operate_all-IsConsistent_from,
}

-- What others do after the lookup of the lock, before the read of the file, and what they do after
-- it, before the write.
unfoldable pub append_to_file_among :
    List Operation → List Operation → Text → AppendInfo → Metadata → Option Metadata
unfolding operate_all append_locked lookup
append_to_file_among before after filename append_info m = elim (get_file_lock filename m) [
  | none ↦ none
  | some _ ↦
      let read = operate_all before m in
      some (
        append_locked filename append_info (file_or_zero (lookup filename read.files))
          (operate_all after read))
]

-- an operation on another file
abbrev pub elsewhere : Text → Operation → Bool
elsewhere n (adds f) = not (text_eq f.file_name n)
elsewhere n (appends_to k a) = not (text_eq k n)
elsewhere n (deletes k) = not (text_eq k n)
elsewhere n (reorders k l) = not (text_eq k n)

abbrev pub IsElsewhere : Text → Operation → Type 0
IsElsewhere n o = elsewhere n o ≡ true

abbrev SameAt : Text → Metadata → Metadata → Type 0
SameAt n m m' = (lookup n m'.files ≡ lookup n m.files) × (lookup n m'.locks ≡ lookup n m.locks)

lookup-add_lock :
    (k n : Text) (locks : Dict (Unit {0}))
    → text_eq k n ≡ false
    → lookup n (add_lock k locks) ≡ lookup n locks
unfolding add_lock
lookup-add_lock k n locks e = elim (Option-cases (lookup k locks)) [
  | inl q ↦ rw (q, add_lock, lookup-insert k n tt locks, e) refl
  | inr (u, q) ↦ rw (q, add_lock) refl
]

add_file-elsewhere :
    (n : Text) (f : FileMetadata) (m : Metadata)
    → text_eq f.file_name n ≡ false
    → SameAt n m (add_file f m)
unfolding add_file
add_file-elsewhere n f m e =
    (rw (lookup-insert f.file_name n f m.files, e) refl, lookup-add_lock f.file_name n m.locks e)

append_locked-elsewhere :
    (n k : Text) (a : AppendInfo) (f : FileMetadata) (m : Metadata)
    → text_eq k n ≡ false
    → SameAt n m (append_locked k a f m)
unfolding append_locked
append_locked-elsewhere n k a f m e = elim (Bool-cases (has_append a.append_id f.appends)) [
  | inl old ↦ rw old (refl, refl)
  | inr new ↦
      rw (new, lookup-insert k n (record f { appends = insert_append a f.appends }) m.files, e)
        (refl, refl)
]

operate-elsewhere :
    (n : Text) (o : Operation) (m : Metadata)
    → IsConsistent m
    → IsElsewhere n o
    → SameAt n m (operate o m)
unfolding operate append_to_file delete_file update_append_order get_file
operate-elsewhere n (adds f) m h e = add_file-elsewhere n f m (ground arith)
operate-elsewhere n (appends_to k a) m h e = elim (Option-cases (get_file_lock k m)) [
  | inl q ↦ rw (q, operate, append_to_file) (refl, refl)
  | inr (u, q) ↦
      rw (q, operate, append_to_file)
        (append_locked-elsewhere n k a (file_or_zero (lookup k m.files)) m (ground arith))
]
operate-elsewhere n (deletes k) m h e = elim (Option-cases (lookup k m.files)) [
  | inl q ↦ rw (q, operate, delete_file) (refl, refl)
  | inr (f, q) ↦
      rw (q, operate, delete_file)
        (
          rw (lookup-remove k n m.files) (ground arith),
          rw (lookup-remove k n m.locks) (ground arith),
        )
]
operate-elsewhere n (reorders k l) m h e = elim (Option-cases (lookup k m.files)) [
  | inl q ↦ rw (q, operate, update_append_order) (refl, refl)
  | inr (f, q) ↦
      rw (q, operate, update_append_order)
        (add_file-elsewhere n (record f { appends = l }) m (rw (h.named k f q) (ground arith)))
]

operate_all-elsewhere :
    (n : Text) (os : List Operation) (m : Metadata)
    → IsConsistent m
    → All (IsElsewhere n) os
    → SameAt n m (operate_all os m)
unfolding operate_all
operate_all-elsewhere n [] m h es = (refl, refl)
operate_all-elsewhere n (o ∷ os) m h es =
    let one = operate-elsewhere n o m h (es.0) in
    let rest = operate_all-elsewhere n os (operate o m) (operate-IsConsistent o m h) (es.1) in
    (rest.0 ∙ one.0, rest.1 ∙ one.1)

operate_all-append :
    (os os' : List Operation) (m : Metadata)
    → operate_all (os ++ os') m ≡ operate_all os' (operate_all os m)
unfolding operate_all
operate_all-append [] os' m = refl
operate_all-append (o ∷ os) os' m = operate_all-append os os' (operate o m)

-- An append to a file gives the same, while operations on other files run between its lookup of the
-- lock, its read of the file and its write, as after all of them, if the metadata was consistent:
-- the same error, or the same metadata.
pub append_to_file_among-operate_all :
    (before after : List Operation) (n : Text) (a : AppendInfo) (m : Metadata)
    → IsConsistent m
    → All (IsElsewhere n) before
    → All (IsElsewhere n) after
    → append_to_file_among before after n a m ≡ append_to_file n a (operate_all (before ++ after) m)
unfolding append_to_file_among append_to_file
append_to_file_among-operate_all before after n a m h eb ea =
    let m1 = operate_all before m in
    let h1 = operate_all-IsConsistent_from before m h in
    let same = operate_all-elsewhere n before m h eb in
    let same' = operate_all-elsewhere n after m1 h1 ea in
    (elim (Option-cases (get_file_lock n m)) [
      | inl q ↦ rw (append_to_file_among, append_to_file, same'.1, same.1, q) refl
      | inr (u, q) ↦ rw (append_to_file_among, append_to_file, same'.1, same.1, q, same'.0) refl
    ])
    ∙ ap (append_to_file n a) (sym (operate_all-append before after m))

-- If the file is deleted between the lookup of its lock and the read, then the append still
-- succeeds, and the file is back in the map, as the zero file with that one append, under a name
-- that is not its own and without a lock: the next append to it is refused as to a missing file.
pub append_to_file_among-delete_file :
    (n : Text) (a a' : AppendInfo) (m : Metadata) {f : FileMetadata}
    → IsConsistent m
    → lookup n m.files ≡ some f
    → (m' : Metadata) × (append_to_file_among (deletes n ∷ []) [] n a m ≡ some m')
      × (get_file n m' ≡ some (record zero_file { appends = a ∷ [] }))
      × (get_file_lock n m' ≡ none)
      × (append_to_file n a' m' ≡ none)
unfolding append_to_file_among operate_all operate delete_file append_locked insert_append get_file
    append_to_file
append_to_file_among-delete_file n a a' m {f} h e =
    let ended : Metadata = record {
      files = insert n (record zero_file { appends = a ∷ [] }) (remove n m.files);
      locks = remove n m.locks;
    } in
    (
      ended,
      locked_before,
      lookup-insert n n (record zero_file { appends = a ∷ [] }) (remove n m.files)
          ∙ rw (text_eq_refl n) refl,
      unlocked,
      rw (append_to_file, unlocked) refl,
    )
  where
    unlocked : lookup n (remove n m.locks) ≡ none
    unlocked = lookup-remove n n m.locks ∙ rw (text_eq_refl n) refl

    emptied : lookup n (remove n m.files) ≡ none
    emptied = lookup-remove n n m.files ∙ rw (text_eq_refl n) refl

    locked_before :
        append_to_file_among (deletes n ∷ []) [] n a m
        ≡ some (record {
          files = insert n (record zero_file { appends = a ∷ [] }) (remove n m.files);
          locks = remove n m.locks;
        })
    locked_before = elim (Option-cases (get_file_lock n m)) [
      | inl q ↦ absurd (nothing (h.locked n) q)
      | inr (u, q) ↦
          rw (append_to_file_among, q, operate_all, operate, delete_file, e, emptied) refl
    ]
      where
        nothing :
            is_some (lookup n m.files) ≡ is_some (lookup n m.locks) → get_file_lock n m ≡ none → ⊥
        nothing same q = ground (arith, e)
