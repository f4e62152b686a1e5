-- ===== src/Tests/Clustering.antt =====
-- Commands on a cluster of three nodes, and the exchange of files between them.
use hydfs.Prelude.{
  Text, codes, text_eq, ◌≡◌, refl, arith, some, [], ◌∷◌, ◌++◌, true, false, All, Dict, lookup,
  insert, length, select,
}
use hydfs.Prelude.Decimal.{pos, show_int, show_nat, digits_upto}
use hydfs.Bandwidth.{zero_stats}
use hydfs.Member.{member_id}
use hydfs.Config.{address_to_vm_name, reverse_map}
use hydfs.Metadata.{AppendInfo, FileMetadata, Metadata, empty_metadata, get_file, add_file}
use hydfs.Metadata.Consistency.{adds, operate_all, operate, operate_all-IsConsistent}
use hydfs.Ring.{find_target_nodes, get_successors, primary_index}
use hydfs.Transfer.{Node}
use hydfs.Transfer.Download.{base, file_paths}
use hydfs.Cluster.{
  Cluster, targets_of, handle_create, handle_get, handle_append, new_append, send_file_to_node,
}
use hydfs.Cluster.Stores.{stores}
use hydfs.Cluster.ReadYourWrite.{handle_get-handle_create}
use hydfs.Cluster.Appends.{HasTaken, handle_append_lem}
use hydfs.Cluster.ReadYourAppend.{handle_get-handle_append}
use hydfs.Cluster.Refused.{send_file_to_node_refused}
use hydfs.Sync.{files_and_appends_match}
use hydfs.Stabilization.{own_file, push_files_to_successors, get_missing}
use hydfs.Stabilization.Pushing.{Keeps, copied}
use hydfs.Stabilization.Copies.{push_files_to_successors-copied}
use hydfs.Stabilization.Pulling.{get_missing_lem}
use hydfs.FileMerge.{execute_merge}
use hydfs.FileMerge.Orders.{HasOrderOf, execute_merge-HasOrderOf}
use hydfs.Tests.Data.{
  all_reached, client, local, second_one, ring, early, late, sent_file, empty_node,
}

abbrev idle : Cluster
idle = (codes "a", empty_node) ∷ (codes "b", empty_node) ∷ (codes "c", empty_node) ∷ []

-- a file with two appends, and a node that has it with all its contents
abbrev first_append : AppendInfo
first_append = record early { size = 2 }

abbrev second_append : AppendInfo
second_append = record late { size = 1 }

abbrev long_file : FileMetadata
long_file = record sent_file { appends = first_append ∷ second_append ∷ [] }

abbrev long_metadata : Metadata
long_metadata = operate_all (adds long_file ∷ []) empty_metadata

abbrev long_disk : Dict Text
long_disk = (codes "f", codes "abc") ∷ (codes "x", codes "de") ∷ (codes "x2", codes "g") ∷ []

abbrev long_node : Node
long_node = record { metadata = long_metadata; disk = long_disk; bandwidth_stats = zero_stats }

abbrev holding : Cluster
holding = (codes "a", long_node) ∷ (codes "b", empty_node) ∷ (codes "c", empty_node) ∷ []

handle_get-handle_create_example :
    let created = handle_create all_reached client (pos 7) local (codes "l") (codes "f") idle in
    let got = handle_get all_reached client (codes "f") (codes "copy") local created.0 in
    (created.1 ≡ 2) × (got.ok ≡ true) × (got.local ≡ insert (codes "copy") (codes "abc") local)
unfolding find_target_nodes primary_index lookup base get_file text_eq
handle_get-handle_create_example =
    handle_get-handle_create all_reached client (pos 7) (codes "f") 97 (codes "bc")
      (record { has_name = λ e. cc; has_hash = λ e. cc; fits = omega arith }) local (codes "l")
      (codes "copy") idle refl ((refl, tt), (tt, tt))
      (
        (λ r. (
          (empty_metadata, [], refl, refl),
          record { makes = refl; writes_name = refl; names_entry = refl },
        )),
        (
          (λ r. (
            (empty_metadata, [], refl, refl),
            record { makes = refl; writes_name = refl; names_entry = refl },
          )),
          tt,
        ),
      )
      refl (record { makes = refl; writes_name = refl; names_entry = refl })

-- a file without appends on the two targets
abbrev short_metadata : Metadata
short_metadata = operate_all (adds sent_file ∷ []) empty_metadata

abbrev short_node : Node
short_node = record {
  metadata = short_metadata;
  disk = (codes "f", codes "abc") ∷ [];
  bandwidth_stats = zero_stats;
}

abbrev created : Cluster
created = (codes "a", empty_node) ∷ (codes "b", short_node) ∷ (codes "c", short_node) ∷ []

handle_append_lem_example :
    let info = new_append client (pos 7) (codes "f") (codes "abc") in
    let r = handle_append all_reached client (pos 7) local (codes "l") (codes "f") created in
    (r.1 ≡ length (select (λ k. true) (targets_of client (codes "f"))))
    × All
        (λ k. true ≡ true → HasTaken info (codes "abc") sent_file (stores k.address r.0))
        (targets_of client (codes "f"))
unfolding find_target_nodes primary_index lookup base get_file operate_all operate add_file insert
    text_eq show_int address_to_vm_name show_nat digits_upto reverse_map
handle_append_lem_example =
    handle_append_lem all_reached client (pos 7) (codes "f") 97 (codes "bc") (λ a. sent_file) local
      (codes "l") created refl ((refl, tt), (tt, tt))
      (
        (λ r. (
          (
            short_metadata,
            short_node.disk,
            refl,
            operate_all-IsConsistent (adds sent_file ∷ []),
            refl,
          ),
          record { makes = refl; writes_name = refl; names_entry = refl },
        )),
        (
          (λ r. (
            (
              short_metadata,
              short_node.disk,
              refl,
              operate_all-IsConsistent (adds sent_file ∷ []),
              refl,
            ),
            record { makes = refl; writes_name = refl; names_entry = refl },
          )),
          tt,
        ),
      )

handle_get-handle_append_example :
    let appended = handle_append all_reached client (pos 7) local (codes "l") (codes "f") created in
    let got = handle_get all_reached client (codes "f") (codes "copy") local appended.0 in
    (got.ok ≡ true) × (got.local ≡ insert (codes "copy") (codes "abc" ++ 10 ∷ codes "abc") local)
unfolding find_target_nodes primary_index lookup base get_file operate_all operate add_file insert
    text_eq show_int address_to_vm_name
handle_get-handle_append_example =
    handle_get-handle_append all_reached client (pos 7) (codes "f") 97 (codes "bc") sent_file
      (codes "abc" ∷ []) (record { fresh = refl; last = tt; apart = (refl, tt) }) local (codes "l")
      (codes "copy") created refl ((refl, tt), (tt, tt))
      (
        (λ r. (
          (
            short_metadata,
            short_node.disk,
            refl,
            operate_all-IsConsistent (adds sent_file ∷ []),
            refl,
            (refl, tt),
          ),
          record { makes = refl; writes_name = refl; names_entry = refl },
        )),
        (
          (λ r. (
            (
              short_metadata,
              short_node.disk,
              refl,
              operate_all-IsConsistent (adds sent_file ∷ []),
              refl,
              (refl, tt),
            ),
            record { makes = refl; writes_name = refl; names_entry = refl },
          )),
          tt,
        ),
      )
      refl (record { makes = refl; writes_name = refl; names_entry = refl })

send_file_to_node_refused_example :
    let r =
      send_file_to_node all_reached (codes "a") (codes "b") (codes "other") sent_file created in
    (r.1 ≡ false) × (stores (codes "b") r.0 ≡ stores (codes "b") created)
unfolding lookup get_file operate_all operate add_file insert text_eq
send_file_to_node_refused_example =
    send_file_to_node_refused all_reached (codes "a") (codes "b") (codes "b") 111 (codes "ther")
      sent_file created (record { has_name = λ e. cc; has_hash = λ e. cc; fits = omega arith })
      (λ r. (short_metadata, short_node.disk, sent_file, refl, refl))

push_files_to_successors-copied_example :
    Keeps (codes "f") long_file (copied long_disk (file_paths long_file) (λ p. lookup p [])) (
      stores (codes "b") (
        push_files_to_successors all_reached
          (codes "a")
          (codes "f" ∷ [])
          (second_one ∷ [])
          0
          10
          holding))
unfolding lookup get_file operate_all operate add_file insert text_eq
push_files_to_successors-copied_example =
    push_files_to_successors-copied all_reached (codes "a") second_one 0 10 long_file 97
      (codes "bc") long_metadata long_disk (λ p. lookup p []) holding refl refl
      (record { has_name = λ e. cc; has_hash = λ e. cc; fits = omega arith })
      (record { makes = refl; writes_name = refl; names_entry = refl }) refl refl refl
      (
        (
          100,
          codes "e",
          refl,
          refl,
          refl,
          record { makes = refl; writes_name = refl; names_entry = refl },
        ),
        (
          (
            103,
            [],
            refl,
            refl,
            refl,
            record { makes = refl; writes_name = refl; names_entry = refl },
          ),
          tt,
        ),
      )
      (refl, tt, (refl, (refl, tt), tt))
      (empty_metadata, [], refl, operate_all-IsConsistent [], refl, (λ p. refl))

get_missing_lem_example :
    (m' : Metadata) × (d' : Dict Text) × (stores
        (codes "b")
        (get_missing all_reached (codes "b") (codes "a") (codes "f") long_file holding)
      ≡ some (m', d'))
    × (get_file (codes "f") m' ≡ some sent_file)
    × (lookup (codes "f") d' ≡ some (codes "abc" ++ 10 ∷ (codes "de" ++ 10 ∷ codes "g")))
unfolding lookup get_file operate_all operate add_file insert text_eq base
get_missing_lem_example =
    get_missing_lem all_reached (codes "b") (codes "a") (codes "f") refl refl long_metadata
      long_disk long_file (codes "abc" ∷ codes "de" ∷ codes "g" ∷ []) holding {m0 = empty_metadata}
      {d0 = []} refl refl refl (record { makes = refl; writes_name = refl; names_entry = refl })
      (refl, (refl, (refl, tt)))
      (
        (record { makes = refl; writes_name = refl; names_entry = refl }, refl),
        ((record { makes = refl; writes_name = refl; names_entry = refl }, refl), tt),
      )
      (refl, (refl, tt)) refl refl

-- the first node holds the appends in the other order than the second
abbrev mixed_file : FileMetadata
mixed_file = record sent_file { appends = second_append ∷ first_append ∷ [] }

abbrev mixed_metadata : Metadata
mixed_metadata = operate_all (adds mixed_file ∷ []) empty_metadata

abbrev mixed : Cluster
mixed =
    (codes "a", long_node)
    ∷ (codes "b", record long_node { metadata = mixed_metadata })
    ∷ (codes "c", empty_node)
    ∷ []

execute_merge-HasOrderOf_example :
    All
      (λ k.
        true ≡ true
        → HasOrderOf long_file
            (codes "f")
            (stores k.address (execute_merge all_reached client (codes "f") mixed)))
      (get_successors ring (codes "a-7") 2)
unfolding lookup get_file operate_all operate add_file insert text_eq get_successors own_file
    files_and_appends_match member_id
execute_merge-HasOrderOf_example =
    execute_merge-HasOrderOf all_reached client (codes "f") long_file mixed refl (tt, tt)
      (
        (λ r. (
          mixed_metadata,
          long_disk,
          mixed_file,
          refl,
          operate_all-IsConsistent (adds mixed_file ∷ []),
          refl,
          refl,
        )),
        tt,
      )
