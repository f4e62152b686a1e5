-- ===== src/Metadata/Consistency.antt =====
-- The file map and the lock map of a node's metadata, under every sequence of its operations.
use hydfs.Prelude.{
  Text, text_eq, text_eq_iff, ◌≡◌, refl, subst, Option, none, some, List, [], ◌∷◌, Bool, true,
  false, lookup, lookup-insert, lookup-remove, Dict, ◌||◌, arith, if◌then◌else◌, Bool-cases,
  Option-cases, inl, inr,
}
use hydfs.Metadata.{
  AppendInfo, FileMetadata, Metadata, empty_metadata, add_file, append_to_file, delete_file,
  update_append_order, get_file, has_append, insert_append, add_append, add_lock, append_locked,
}

abbrev pub is_some {ℓ} : {A : Type ℓ} → Option A → Bool
is_some none = false
is_some (some a) = true

-- A file has a lock exactly when it is in the file map, and stands there under its own name.
pub record IsConsistent (m : Metadata) : Type 0 where
  pub locked : (n : Text) → is_some (lookup n m.files) ≡ is_some (lookup n m.locks)
  pub named : (n : Text) (f : FileMetadata) → lookup n m.files ≡ some f → f.file_name ≡ n

-- What the handlers do to the metadata.
pub data Operation : Type 0 where
  adds : FileMetadata → Operation
  appends_to : Text → AppendInfo → Operation
  deletes : Text → Operation
  reorders : Text → List AppendInfo → Operation

abbrev kept_on_error : Metadata → Option Metadata → Metadata
kept_on_error m none = m
kept_on_error m (some m') = m'

unfoldable pub operate : Operation → Metadata → Metadata
unfolding add_file append_to_file delete_file update_append_order
operate (adds f) m = add_file f m
operate (appends_to n a) m = kept_on_error m (append_to_file n a m)
operate (deletes n) m = (delete_file n m).0
operate (reorders n l) m = (update_append_order n l m).0

unfoldable pub operate_all : List Operation → Metadata → Metadata
unfolding operate
operate_all [] m = m
operate_all (o ∷ os) m = operate_all os (operate o m)

is_some-add_lock :
    (n j : Text) (l : Dict (Unit {0}))
    → is_some (lookup j (add_lock n l)) ≡ (text_eq n j || is_some (lookup j l))
unfolding add_lock
is_some-add_lock n j l = elim (Option-cases (lookup n l)) [
  | inl e ↦ rw (e, add_lock) (ground (arith, lookup-insert n j tt l))
  | inr (u, e) ↦ rw (e, add_lock) (ground (arith, text_eq_iff n j))
]

pub add_file-IsConsistent :
    (f : FileMetadata) (m : Metadata) → IsConsistent m → IsConsistent (add_file f m)
unfolding add_file
add_file-IsConsistent f m h = record {
  locked = λ n.
      rw (lookup-insert f.file_name n f m.files, is_some-add_lock f.file_name n m.locks)
        (ground (arith, h.locked n));
  named = λ n g e.
      ground (arith, lookup-insert f.file_name n f m.files, text_eq_iff f.file_name n, h.named n g);
}

lookup-append_locked :
    (n j : Text) (a : AppendInfo) (f : FileMetadata) (m : Metadata)
    → lookup n m.files ≡ some f
    → lookup j (append_locked n a f m).files ≡ (
        if text_eq n j
        then some (record f { appends = add_append a f.appends })
        else lookup j m.files)
unfolding append_locked add_append
lookup-append_locked n j a f m e = elim (Bool-cases (has_append a.append_id f.appends)) [
  | inl old ↦ rw old (ground (arith, text_eq_iff n j))
  | inr new ↦ rw new (lookup-insert n j (record f { appends = insert_append a f.appends }) m.files)
]

locks-append_locked :
    (n : Text) (a : AppendInfo) (f : FileMetadata) (m : Metadata)
    → (append_locked n a f m).locks ≡ m.locks
unfolding append_locked
locks-append_locked n a f m = ground arith

append_to_file_found :
    (n : Text) (a : AppendInfo) (m : Metadata) {f : FileMetadata}
    → IsConsistent m
    → lookup n m.files ≡ some f
    → append_to_file n a m ≡ some (append_locked n a f m)
unfolding append_to_file
append_to_file_found n a m h e = ground (arith, h.locked n)

append_to_file_missing :
    (n : Text) (a : AppendInfo) (m : Metadata)
    → IsConsistent m
    → lookup n m.files ≡ none
    → append_to_file n a m ≡ none
unfolding append_to_file
append_to_file_missing n a m h e = ground (arith, h.locked n)

pub get_file-add_file :
    (meta : FileMetadata) (m : Metadata) (name : Text)
    → get_file name (add_file meta m)
      ≡ (if text_eq meta.file_name name then some meta else get_file name m)
unfolding get_file add_file
get_file-add_file meta m name = lookup-insert meta.file_name name meta m.files

-- What an append does: an error if there is no file, and otherwise that file alone changes, and in
-- it only the appends.
abbrev pub Appends : Text → AppendInfo → Metadata → Option FileMetadata → Type 0
Appends n a m none = append_to_file n a m ≡ none
Appends n a m (some f) =
    (m' : Metadata) × (append_to_file n a m ≡ some m')
    × (m'.locks ≡ m.locks)
    × ((j : Text)
        → get_file j m' ≡ (
            if text_eq n j
            then some (record f { appends = add_append a f.appends })
            else get_file j m))

-- In consistent metadata an append to a file that does not exist is an error; to one that exists it
-- succeeds, and puts the append in its place among that file's appends, once, and changes no other
-- file and no lock.
pub append_to_file_lem :
    (n : Text) (a : AppendInfo) (m : Metadata) → IsConsistent m → Appends n a m (get_file n m)
unfolding get_file
append_to_file_lem n a m h = elim (Option-cases (lookup n m.files)) [
  | inl e ↦ rw e (append_to_file_missing n a m h e)
  | inr (f, e) ↦ rw e (
    append_locked n a f m,
    append_to_file_found n a m h e,
    locks-append_locked n a f m,
    (λ j. lookup-append_locked n j a f m e),
  )
]

append_to_file-IsConsistent :
    (n : Text) (a : AppendInfo) (m : Metadata)
    → IsConsistent m
    → IsConsistent (kept_on_error m (append_to_file n a m))
append_to_file-IsConsistent n a m h = elim (Option-cases (lookup n m.files)) [
  | inl e ↦ rw (append_to_file_missing n a m h e) h
  | inr (f, e) ↦ rw (append_to_file_found n a m h e) (record {
    locked = λ j.
        rw (lookup-append_locked n j a f m e, locks-append_locked n a f m)
          (ground (arith, h.locked j, text_eq_iff n j));
    named = λ j g k.
        ground
          (arith, lookup-append_locked n j a f m e, h.named n f e, h.named j g, text_eq_iff n j);
  })
]

pub appended-IsConsistent :
    (n : Text) (a : AppendInfo) (m : Metadata) {m' : Metadata}
    → IsConsistent m
    → append_to_file n a m ≡ some m'
    → IsConsistent m'
appended-IsConsistent n a m h e =
    subst (λ o. IsConsistent (kept_on_error m o)) e (append_to_file-IsConsistent n a m h)

delete_file-IsConsistent :
    (n : Text) (m : Metadata) → IsConsistent m → IsConsistent (delete_file n m).0
unfolding delete_file
delete_file-IsConsistent n m h = elim (Option-cases (lookup n m.files)) [
  | inl e ↦ rw (e, delete_file) h
  | inr (f, e) ↦
      rw (e, delete_file)
        (record {
          locked = λ j.
              rw (lookup-remove n j m.files, lookup-remove n j m.locks)
                (ground (arith, h.locked j));
          named = λ j g k. ground (arith, lookup-remove n j m.files, h.named j g);
        })
]

pub operate-IsConsistent :
    (o : Operation) (m : Metadata) → IsConsistent m → IsConsistent (operate o m)
unfolding operate update_append_order get_file
operate-IsConsistent (adds f) m h = add_file-IsConsistent f m h
operate-IsConsistent (appends_to n a) m h = append_to_file-IsConsistent n a m h
operate-IsConsistent (deletes n) m h = delete_file-IsConsistent n m h
operate-IsConsistent (reorders n l) m h = elim (Option-cases (lookup n m.files)) [
  | inl e ↦ rw (e, operate, update_append_order) h
  | inr (f, e) ↦
      rw (e, operate, update_append_order) (add_file-IsConsistent (record f { appends = l }) m h)
]

pub operate_all-IsConsistent_from :
    (os : List Operation) (m : Metadata) → IsConsistent m → IsConsistent (operate_all os m)
unfolding operate_all
operate_all-IsConsistent_from [] m h = h
operate_all-IsConsistent_from (o ∷ os) m h =
    operate_all-IsConsistent_from os (operate o m) (operate-IsConsistent o m h)

pub empty-IsConsistent : IsConsistent empty_metadata
unfolding lookup
empty-IsConsistent = record { locked = λ n. refl; named = λ n f e. cc }

-- After any sequence of additions, appends, deletions and reorderings from the empty metadata,
-- refused ones included, a file has a lock exactly when it is in the file map, and every file
-- stands there under its own name.
pub operate_all-IsConsistent : (os : List Operation) → IsConsistent (operate_all os empty_metadata)
operate_all-IsConsistent os = operate_all-IsConsistent_from os empty_metadata empty-IsConsistent
