-- ===== src/Sync/Convergence.antt =====
-- After the order of a file was synchronised, the successor has the primary's.
use hydfs.Prelude.{
  ◌≡◌, refl, subst, lookup, Text, text_eq, text_eq_iff, some, List, [], ◌∷◌, true, length,
  if◌then◌else◌, Bool-cases, inl, inr, arith,
}
use hydfs.Metadata.{AppendInfo, FileMetadata, Metadata, get_file, update_append_order, add_file}
use hydfs.Metadata.Consistency.{IsConsistent, get_file-add_file}
use hydfs.Sync.{append_ids, same_order, orders_match, sync_found, sync_remote_append_order}

same_order-eq :
    (ids : List Text) (remote : List AppendInfo)
    → length ids ≡ length remote
    → same_order ids remote ≡ true
    → append_ids remote ≡ ids
unfolding same_order
same_order-eq [] [] l e = refl
same_order-eq [] (a ∷ remote) l e = absurd (omega arith)
same_order-eq (id ∷ ids) [] l e = absurd (omega arith)
same_order-eq (id ∷ ids) (a ∷ remote) l e =
    ground (arith, text_eq_iff id a.append_id, same_order-eq ids remote)

orders_match-eq :
    (ids : List Text) (remote : List AppendInfo)
    → orders_match ids remote ≡ true
    → append_ids remote ≡ ids
unfolding orders_match
orders_match-eq ids remote e = ground (arith, same_order-eq ids remote)

get_file-lookup :
    (filename : Text) (m : Metadata) {f : FileMetadata}
    → get_file filename m ≡ some f
    → lookup filename m.files ≡ some f
unfolding get_file
get_file-lookup filename m e = e

update_append_order-files :
    (filename : Text) (appends : List AppendInfo) (successor : Metadata) (remote : FileMetadata)
    (name : Text)
    → IsConsistent successor
    → get_file filename successor ≡ some remote
    → get_file name (update_append_order filename appends successor).0 ≡ (
        if text_eq filename name
        then some (record remote { appends = appends })
        else get_file name successor)
unfolding update_append_order
update_append_order-files filename appends successor remote name k e =
    rw (update_append_order, e)
      (subst
        (λ n. get_file name (add_file (record remote { appends = appends }) successor) ≡ (
          if text_eq n name
          then some (record remote { appends = appends })
          else get_file name successor))
        (k.named filename remote (get_file-lookup filename successor e))
        (get_file-add_file (record remote { appends = appends }) successor name))

-- After the order of a file was synchronised with a consistent successor that has the file, the
-- successor lists the appends under the IDs of the primary, in its order, and keeps the rest of
-- the file and all other files.
pub sync_remote_append_order_lem :
    (filename : Text) (local : FileMetadata) (successor : Metadata) {remote : FileMetadata}
    → IsConsistent successor
    → get_file filename successor ≡ some remote
    → let after = sync_remote_append_order filename local (append_ids local.appends) successor in
      (appends : List AppendInfo) × (append_ids appends ≡ append_ids local.appends)
      × ((name : Text)
          → get_file name after ≡ (
              if text_eq filename name
              then some (record remote { appends = appends })
              else get_file name successor))
unfolding sync_remote_append_order sync_found
sync_remote_append_order_lem filename local successor {remote} k e =
    elim (Bool-cases (orders_match (append_ids local.appends) remote.appends)) [
      | inl same ↦
          rw (e, sync_found, same)
            (
              remote.appends,
              orders_match-eq (append_ids local.appends) remote.appends same,
              (λ name. unchanged name),
            )
      | inr other ↦
          rw (e, sync_found, other)
            (
              local.appends,
              refl,
              (λ name. update_append_order-files filename local.appends successor remote name k e),
            )
    ]
  where
    unchanged :
        (name : Text)
        → get_file name successor
          ≡ (if text_eq filename name then some remote else get_file name successor)
    unchanged name = ground (arith, text_eq_iff filename name)
