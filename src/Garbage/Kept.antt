-- ===== src/Garbage/Kept.antt =====
-- The garbage collector keeps the files of the node's key range and deletes the others.
use hydfs.Prelude.{
  ℕ, ◌≡◌, ◌≢◌, refl, sym, ap, subst, ◌∙◌, Text, text_eq, text_eq_iff, Option, none, some, List, [],
  ◌∷◌, Bool, true, false, any, Dict, keys, lookup, lookup-remove, arith, if◌then◌else◌, Bool-cases,
  Option-cases, inl, inr,
}
use hydfs.Config.{initial_config}
use hydfs.Member.{Member, member_id}
use hydfs.Membership.Identity.{HasUniqueIds}
use hydfs.Metadata.{FileMetadata, Metadata, get_file, delete_file, list_files}
use hydfs.Ring.{returns, panics, is_hash_in_range, get_all_key_range}
use hydfs.Ring.Indices.{get_node_index-at}
use hydfs.Ring.Collection.{get_all_key_range_panics}
use hydfs.Transfer.{Node}
use hydfs.Garbage.{
  delete_found, collect_file, collect_files, in_key_range, delete_files_outside_my_range,
}

-- what stays of a file
abbrev pub kept : ℕ → ℕ → Option FileMetadata → Option FileMetadata
kept s e none = none
kept s e (some f) = if is_hash_in_range f.file_name_hash s e then some f else none

get_file-delete_file :
    (n j : Text) (m : Metadata) {f : FileMetadata}
    → get_file n m ≡ some f
    → get_file j (delete_file n m).0 ≡ (if text_eq n j then none else get_file j m)
unfolding get_file delete_file
get_file-delete_file n j m e = rw (delete_file, e) (lookup-remove n j m.files)

found_same :
    (n j : Text) (m : Metadata) {o : Option FileMetadata}
    → text_eq n j ≡ true
    → get_file n m ≡ o
    → get_file j m ≡ o
found_same n j m {o} q k = subst (λ i. get_file i m ≡ o) ((text_eq_iff n j).0 q) k

kept_twice : (s e : ℕ) (o : Option FileMetadata) → kept s e (kept s e o) ≡ kept s e o
kept_twice s e none = refl
kept_twice s e (some f) = ground arith

kept_both :
    (s e : ℕ) (a b : Bool) (o : Option FileMetadata)
    → (if b then kept s e (if a then kept s e o else o) else (if a then kept s e o else o))
      ≡ (if (if a then true else b) then kept s e o else o)
kept_both s e true true o = kept_twice s e o
kept_both s e true false o = refl
kept_both s e false true o = refl
kept_both s e false false o = refl

same_file :
    (s e : ℕ) (n j : Text) (m : Metadata) {o : Option FileMetadata}
    → get_file n m ≡ o
    → kept s e o ≡ o
    → get_file j m ≡ (if text_eq n j then kept s e (get_file j m) else get_file j m)
same_file s e n j m k same = elim (Bool-cases (text_eq n j)) [
  | inl q ↦ rw (q, found_same n j m q k) (sym same)
  | inr q ↦ rw q refl
]

gone_file :
    (s e : ℕ) (n j : Text) (m : Metadata) {o : Option FileMetadata}
    → get_file n m ≡ o
    → kept s e o ≡ none
    → (if text_eq n j then none else get_file j m)
      ≡ (if text_eq n j then kept s e (get_file j m) else get_file j m)
gone_file s e n j m k gone = elim (Bool-cases (text_eq n j)) [
  | inl q ↦ rw (q, found_same n j m q k) (sym gone)
  | inr q ↦ rw q refl
]

module _ (removes : Text → Bool) (s e : ℕ) where
  get_file-collect_file :
      (n j : Text) (node : Node)
      → get_file j (collect_file removes s e n node).metadata
        ≡ (if text_eq n j then kept s e (get_file j node.metadata) else get_file j node.metadata)
  unfolding collect_file delete_found
  get_file-collect_file n j node = elim (Option-cases (get_file n node.metadata)) [
    | inl k ↦ rw (k, collect_file) (same_file s e n j node.metadata k refl)
    | inr (f, k) ↦ elim (Bool-cases (is_hash_in_range f.file_name_hash s e)) [
      | inl b ↦ rw (k, collect_file, b) (same_file s e n j node.metadata k (rw b refl))
      | inr b ↦
          rw (k, collect_file, b, delete_found)
            (get_file-delete_file n j node.metadata k
              ∙ gone_file s e n j node.metadata k (rw b refl))
    ]
  ]

  get_file-collect_files :
      (ns : List Text) (j : Text) (node : Node)
      → get_file j (collect_files removes s e ns node).metadata ≡ (
          if any (λ n. text_eq n j) ns
          then kept s e (get_file j node.metadata)
          else get_file j node.metadata)
  unfolding collect_files
  get_file-collect_files [] j node = refl
  get_file-collect_files (n ∷ ns) j node =
      get_file-collect_files ns j (collect_file removes s e n node)
      ∙ ap (λ o. if any (λ i. text_eq i j) ns then kept s e o else o)
          (get_file-collect_file n j node)
      ∙ kept_both s e (text_eq n j) (any (λ i. text_eq i j) ns) (get_file j node.metadata)

lookup_rest :
    (n j : Text) (g : FileMetadata) (m : Dict FileMetadata) {f : FileMetadata}
    → text_eq n j ≡ false
    → lookup j ((n, g) ∷ m) ≡ some f
    → lookup j m ≡ some f
unfolding lookup
lookup_rest n j g m q e = ground arith

listed :
    (j : Text) (m : Dict FileMetadata) {f : FileMetadata}
    → lookup j m ≡ some f
    → any (λ n. text_eq n j) (keys m) ≡ true
unfolding lookup
listed j [] e = cc
listed j ((n, g) ∷ m) e = elim (Bool-cases (text_eq n j)) [
  | inl q ↦ rw q refl
  | inr q ↦ rw q (listed j m (lookup_rest n j g m q e))
]

all_listed :
    (s e : ℕ) (j : Text) (m : Metadata)
    → (if any (λ n. text_eq n j) (list_files m) then kept s e (get_file j m) else get_file j m)
      ≡ kept s e (get_file j m)
unfolding get_file list_files
all_listed s e j m = elim (Option-cases (lookup j m.files)) [
  | inl k ↦ rw k (ground arith)
  | inr (f, k) ↦ rw (listed j m.files k) refl
]

-- Where the node's key range is determined, the garbage collector keeps in the metadata exactly the
-- files whose hash lies in that range, unchanged, and deletes all others, whatever the file system
-- does.
pub delete_files_outside_my_range_lem :
    (removes : Text → Bool) (rf : ℕ) (members : List Member) (own_id : Text) (node : Node) (s e : ℕ)
    → get_all_key_range members own_id rf ≡ returns (some (s, e))
    → (after : Node) × (delete_files_outside_my_range removes rf members own_id node
        ≡ returns after)
      × ((name : Text) → get_file name after.metadata ≡ kept s e (get_file name node.metadata))
unfolding delete_files_outside_my_range in_key_range
delete_files_outside_my_range_lem removes rf members own_id node s e k = (
  collect_files removes s e (list_files node.metadata) node,
  rw k refl,
  (λ name.
      get_file-collect_files removes s e (list_files node.metadata) name node
      ∙ all_listed s e name node.metadata),
)

-- In a group of two members with different IDs, with the three replicas of the configuration of the
-- program, the garbage collector of the first one panics, whatever files it has; that of the second
-- one keeps the files between the two members' hashes.
pub delete_files_outside_my_range_pair :
    (removes : Text → Bool) (a b : Member) (node : Node)
    → member_id a ≢ member_id b
    → (delete_files_outside_my_range removes initial_config.replication_factor
          (a ∷ b ∷ [])
          (member_id a)
          node
        ≡ panics)
      × (after : Node) × (delete_files_outside_my_range removes initial_config.replication_factor
            (a ∷ b ∷ [])
            (member_id b)
            node
          ≡ returns after)
      × ((name : Text)
          → get_file name after.metadata ≡ kept a.hash b.hash (get_file name node.metadata))
unfolding delete_files_outside_my_range in_key_range
delete_files_outside_my_range_pair removes a b node n =
    let (after, done, files) =
      delete_files_outside_my_range_lem removes 3 (a ∷ b ∷ []) (member_id b) node a.hash b.hash
        second in
    (
      rw
          (
            delete_files_outside_my_range,
            get_all_key_range_panics (a ∷ b ∷ []) 0 3 {m = a} distinct refl (omega arith) (λ q. cc),
          )
          refl,
      after,
      done,
      files,
    )
  where
    distinct : HasUniqueIds (a ∷ b ∷ [])
    distinct = (ground (arith, text_eq_iff (member_id b) (member_id a), n), (refl, tt))

    second : get_all_key_range (a ∷ b ∷ []) (member_id b) 3 ≡ returns (some (a.hash, b.hash))
    second = unfold get_all_key_range in rw (get_node_index-at (a ∷ b ∷ []) 1 distinct refl) refl
