-- ===== src/Tests/Evolving.antt =====
-- A cluster in which nodes start and a file is created, and what remains true of it.
use hydfs.Prelude.{
  codes, text_eq, ◌≡◌, refl, Option, none, some, [], true, lookup, insert, select, arith,
}
use hydfs.Prelude.Texts.{text_gt}
use hydfs.Config.{address_to_vm_name, reverse_map}
use hydfs.Prelude.Decimal.{pos, show_int, show_nat, digits_upto}
use hydfs.Bandwidth.{add_received, add_sent}
use hydfs.Metadata.{empty_metadata, get_file, add_file, add_lock, append_to_file, insert_append}
use hydfs.Metadata.Consistency.{IsConsistent, is_some}
use hydfs.Ring.{find_target_nodes, primary_index, get_successors}
use hydfs.Transfer.{
  Node, pieces, chunk_size, file_chunks, count_sent, file_chunk, receive_file, write_file,
  save_file, finish_file, file_transfer,
}
use hydfs.Transfer.Appending.{
  append_transfer, append_chunks, append_chunk, receive_append, finish_append, store_append,
  after_append,
}
use hydfs.Transfer.Download.{base, base_from}
use hydfs.Cluster.{
  Cluster, handle_create, handle_append, send_all, send_file_to_node, send_append_to_node, counted,
  targets_of,
}
use hydfs.Cluster.Commands.{handle_ls}
use hydfs.Cluster.Listing.{handle_ls-handle_create}
use hydfs.System.{creates, appends, starts, runs, none_yet, run, Reach, here, next}
use hydfs.System.Reachable.{Reach-IsConsistent, Runs-known}
use hydfs.Tests.Data.{empty_node, all_reached, client, local}

abbrev started : Cluster
started =
    insert (codes "c") empty_node (insert (codes "b") empty_node (insert (codes "a") empty_node []))

abbrev with_file : Cluster
with_file = (handle_create all_reached client (pos 7) local (codes "l") (codes "f") started).0

with_file-Reach : Reach [] with_file
with_file-Reach =
    next
      (next (next (next here (starts (codes "a") [])) (starts (codes "b") []))
        (starts (codes "c") []))
      (runs (creates all_reached client (pos 7) local (codes "l") (codes "f")))

abbrev node_of : Option Node → Node
node_of none = empty_node
node_of (some node) = node

Reach-IsConsistent_example : IsConsistent (node_of (lookup (codes "b") with_file)).metadata
unfolding handle_create send_all send_file_to_node counted file_transfer file_chunks pieces
    chunk_size count_sent add_sent add_received receive_file file_chunk finish_file save_file
    write_file get_file add_file add_lock insert lookup text_eq find_target_nodes primary_index
    get_successors show_int show_nat digits_upto base base_from
Reach-IsConsistent_example =
    Reach-IsConsistent with_file (codes "b") (node_of (lookup (codes "b") with_file))
      with_file-Reach refl

-- an append to the file, on the same targets
abbrev appended : Cluster
appended = (handle_append all_reached client (pos 8) local (codes "l") (codes "f") with_file).0

Runs-known_example :
    is_some (get_file (codes "f") (node_of (lookup (codes "b") appended)).metadata) ≡ true
unfolding handle_create handle_append send_all send_file_to_node send_append_to_node counted
    file_transfer file_chunks pieces chunk_size count_sent add_sent add_received receive_file
    file_chunk finish_file save_file write_file get_file add_file add_lock insert lookup text_eq
    find_target_nodes primary_index get_successors show_int show_nat digits_upto base base_from
    append_transfer append_chunks append_chunk receive_append finish_append store_append
    after_append append_to_file insert_append text_gt address_to_vm_name reverse_map
Runs-known_example =
    Runs-known with_file appended (codes "b") (codes "f") (node_of (lookup (codes "b") with_file))
      (node_of (lookup (codes "b") appended))
      (run none_yet (appends all_reached client (pos 8) local (codes "l") (codes "f"))) refl refl
      refl

handle_ls-handle_create_example :
    handle_ls all_reached client (codes "f") with_file
    ≡ select (λ k. true) (targets_of client (codes "f"))
unfolding find_target_nodes primary_index get_successors lookup base base_from get_file text_eq
    insert
handle_ls-handle_create_example =
    handle_ls-handle_create all_reached client (pos 7) (codes "f") 97 (codes "bc")
      (record { has_name = λ e. cc; has_hash = λ e. cc; fits = omega arith }) local (codes "l")
      started refl ((refl, tt), (tt, tt))
      (
        (λ r. (
          (empty_metadata, [], refl, refl),
          record { makes = refl; writes_name = refl; names_entry = refl },
        )),
        (
          (λ r. (
            (empty_metadata, [], refl, refl),
            record { makes = refl; writes_name = refl; names_entry = refl },
          )),
          tt,
        ),
      )
