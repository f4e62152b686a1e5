-- ===== src/Metadata/Undeleted.antt =====
-- metadata.go, `AppendToFile` among other operations, none of which deletes the file.
use hydfs.Prelude.{
  Text, text_eq, text_eq_iff, ◌≡◌, refl, ap, subst, ◌∙◌, Option, none, some, List, [], ◌∷◌, Bool,
  true, not, lookup, lookup-insert, lookup-remove, All, arith, Option-cases, Bool-cases, inl, inr,
}
use hydfs.Metadata.{
  AppendInfo, FileMetadata, Metadata, file_or_zero, get_file_lock, append_locked, append_to_file,
  delete_file, get_file, has_append, insert_append,
}
use hydfs.Metadata.Consistency.{
  Operation, adds, appends_to, deletes, reorders, operate, operate_all, IsConsistent, is_some,
  operate_all-IsConsistent_from,
}
use hydfs.Metadata.Known.{add_file-known, append_to_file-known, update_append_order-known}
use hydfs.Metadata.Interleaving.{append_to_file_among}

-- an operation that does not delete the file
abbrev pub spares : Text → Operation → Bool
spares n (adds f) = true
spares n (appends_to k a) = true
spares n (deletes k) = not (text_eq k n)
spares n (reorders k l) = true

abbrev pub Spares : Text → Operation → Type 0
Spares n o = spares n o ≡ true

operate-known :
    (n : Text) (o : Operation) (m : Metadata)
    → Spares n o
    → is_some (get_file n m) ≡ true
    → is_some (get_file n (operate o m)) ≡ true
unfolding operate delete_file get_file
operate-known n (adds f) m e h = add_file-known n f m h
operate-known n (appends_to k a) m e h = elim (Option-cases (append_to_file k a m)) [
  | inl q ↦ rw (operate, q) h
  | inr (m', q) ↦ rw (operate, q) (append_to_file-known n k a m h q)
]
operate-known n (deletes k) m e h = elim (Option-cases (lookup k m.files)) [
  | inl q ↦ rw (operate, delete_file, q) h
  | inr (f, q) ↦
      rw (operate, delete_file, q) (ap is_some (lookup-remove k n m.files) ∙ ground arith)
]
operate-known n (reorders k l) m e h = update_append_order-known n k l m h

operate_all-known :
    (n : Text) (os : List Operation) (m : Metadata)
    → All (Spares n) os
    → is_some (get_file n m) ≡ true
    → is_some (get_file n (operate_all os m)) ≡ true
unfolding operate_all
operate_all-known n [] m es h = h
operate_all-known n (o ∷ os) m es h =
    operate_all-known n os (operate o m) (es.1) (operate-known n o m (es.0) h)

append_locked-IsConsistent :
    (n : Text) (a : AppendInfo) (f : FileMetadata) (m : Metadata)
    → IsConsistent m
    → f.file_name ≡ n
    → is_some (get_file n m) ≡ true
    → IsConsistent (append_locked n a f m)
unfolding append_locked get_file
append_locked-IsConsistent n a f m h e k = elim (Bool-cases (has_append a.append_id f.appends)) [
  | inl old ↦ rw old h
  | inr new ↦ rw new (record {
    locked = λ j.
        rw (lookup-insert n j (record f { appends = insert_append a f.appends }) m.files)
          (ground (arith, h.locked j, text_eq_iff n j));
    named = λ j g q. ground (
      arith,
      lookup-insert n j (record f { appends = insert_append a f.appends }) m.files,
      text_eq_iff n j,
      h.named j g,
    );
  })
]

is_some-cases : {A : Type 0} (o : Option A) → is_some o ≡ true → (a : A) × (o ≡ some a)
is_some-cases none e = cc
is_some-cases (some a) e = (a, refl)

-- An append that succeeds leaves consistent metadata consistent, whatever other operations run
-- between its steps, on the same file too, if none of them deletes that file.
pub append_to_file_among-IsConsistent :
    (before after : List Operation) (n : Text) (a : AppendInfo) (m : Metadata) {m' : Metadata}
    → IsConsistent m
    → All (Spares n) before
    → All (Spares n) after
    → append_to_file_among before after n a m ≡ some m'
    → IsConsistent m'
unfolding append_to_file_among get_file
append_to_file_among-IsConsistent before after n a m {m'} h eb ea e =
    elim (Option-cases (get_file_lock n m)) [
      | inl q ↦ cc (rw (append_to_file_among, q) at e)
      | inr (u, q) ↦
          let read = operate_all before m in
          let known = operate_all-known n before m eb (h.locked n ∙ ap is_some q) in
          let (f, at) = is_some-cases (lookup n read.files) known in
          let h1 = operate_all-IsConsistent_from before m h in
          subst IsConsistent (written u q) (
            append_locked-IsConsistent n a (file_or_zero (lookup n read.files))
              (operate_all after read) (operate_all-IsConsistent_from after read h1)
              (rw at (h1.named n f at)) (operate_all-known n after read ea known))
    ]
  where
    written :
        (u : Unit {0})
        → get_file_lock n m ≡ some u
        → append_locked n a
            (file_or_zero (lookup n (operate_all before m).files))
            (operate_all after (operate_all before m))
          ≡ m'
    written u q = cc (rw (append_to_file_among, q) at e)
