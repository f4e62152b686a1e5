-- ===== src/System/Reachable.antt =====
-- What holds of every node at all times.
use hydfs.Prelude.{Text, ◌≡◌, refl, subst, some, [], true, lookup}
use hydfs.Metadata.{Metadata, get_file}
use hydfs.Metadata.Consistency.{
  IsConsistent, is_some, add_file-IsConsistent, appended-IsConsistent, operate-IsConsistent,
  empty-IsConsistent, operate, reorders, deletes,
}
use hydfs.Metadata.Undeleted.{append_to_file_among-IsConsistent}
use hydfs.Metadata.Known.{add_file-known, append_to_file-known, update_append_order-known}
use hydfs.Transfer.{Node}
use hydfs.Cluster.{Cluster}
use hydfs.System.{
  Run, creates, appends, gets, gets_from_replica, multi_appends, merges, executes_merge, merges_all,
  stabilizes, changes_window, counts, Step, runs, collects, interleaves, starts, stops, Runs,
  none_yet, run, Reach, here, next,
}
use hydfs.System.Nodes.{AllNodes, Survives, AllNodes-insert, AllNodes-remove, AllNodes-set_stats}
use hydfs.System.Exchanges.{AllNodes-stabilize_ring, AllNodes-handle_replication_window_change}
use hydfs.System.Commands.{
  AllNodes-handle_create, AllNodes-handle_append, AllNodes-handle_get,
  AllNodes-handle_get_from_replica, AllNodes-handle_multi_append,
}
use hydfs.System.Merges.{
  LeavesAll, AllNodes-handle_merge_command, AllNodes-execute_merge,
  execute_merge_for_all_files-Leaves,
}
use hydfs.System.Collecting.{LeavesNode, delete_files_outside_my_range-Leaves}

Run-Survives :
    (P : Text → Metadata → Type 0) (s : Survives P) {cl cl' : Cluster}
    → Run cl cl'
    → AllNodes P cl
    → AllNodes P cl'
Run-Survives P s {cl} (creates net c now local local_name name) h =
    AllNodes-handle_create P s net c now local local_name name cl h
Run-Survives P s {cl} (appends net c now local local_name name) h =
    AllNodes-handle_append P s net c now local local_name name cl h
Run-Survives P s {cl} (gets net c name path local) h =
    AllNodes-handle_get P net c name path local cl h
Run-Survives P s {cl} (gets_from_replica net c vm_id name path local) h =
    AllNodes-handle_get_from_replica P net c vm_id name path local cl h
Run-Survives P s {cl} (multi_appends net views now name vm_names local_files) h =
    AllNodes-handle_multi_append P s net views now name vm_names local_files cl h
Run-Survives P s {cl} (merges net views c name) h =
    AllNodes-handle_merge_command P s net views c name cl h
Run-Survives P s {cl} (executes_merge net c name) h = AllNodes-execute_merge P s net c name cl h
Run-Survives P s {cl} (merges_all net c e) h =
    subst (LeavesAll P) e (execute_merge_for_all_files-Leaves P s net c cl h)
Run-Survives P s {cl} (stabilizes net n own own_id l filename) h =
    AllNodes-stabilize_ring P s net n own own_id l filename cl h
Run-Survives P s {cl} (changes_window net n own own_id l id) h =
    AllNodes-handle_replication_window_change P s net n own own_id l id cl h
Run-Survives P s {cl} (counts own stats) h = AllNodes-set_stats P own stats cl h

Runs-Survives :
    (P : Text → Metadata → Type 0) (s : Survives P) {cl cl' : Cluster}
    → Runs cl cl'
    → AllNodes P cl
    → AllNodes P cl'
Runs-Survives P s none_yet h = h
Runs-Survives P s (run rs r) h = Run-Survives P s r (Runs-Survives P s rs h)

IsConsistent-Survives : Survives (λ a m. IsConsistent m)
unfolding operate
IsConsistent-Survives = record {
  adds = λ a f m h. add_file-IsConsistent f m h;
  appends = λ a n i m h e. appended-IsConsistent n i m h e;
  reorders = λ a n l m h. operate-IsConsistent (reorders n l) m h;
}

Step-AllConsistent :
    {cl cl' : Cluster}
    → Step cl cl'
    → AllNodes (λ a m. IsConsistent m) cl
    → AllNodes (λ a m. IsConsistent m) cl'
unfolding operate
Step-AllConsistent (runs r) h = Run-Survives (λ a m. IsConsistent m) IsConsistent-Survives r h
Step-AllConsistent {cl} (collects removes n l own own_id node e r) h =
    AllNodes-insert (λ a m. IsConsistent m) own _ cl h
      (subst (LeavesNode IsConsistent) r (
        delete_files_outside_my_range-Leaves IsConsistent
          (λ name m. operate-IsConsistent (deletes name) m) removes n l own_id node (h own node e)))
Step-AllConsistent {cl} (interleaves before after n i own node e eb ea q) h =
    AllNodes-insert (λ a m. IsConsistent m) own _ cl h
      (append_to_file_among-IsConsistent before after n i node.metadata (h own node e) eb ea q)
Step-AllConsistent {cl} (starts own disk) h =
    AllNodes-insert (λ a m. IsConsistent m) own _ cl h empty-IsConsistent
Step-AllConsistent {cl} (stops own) h = AllNodes-remove (λ a m. IsConsistent m) own cl h

Reach-AllConsistent : {cl : Cluster} → Reach [] cl → AllNodes (λ a m. IsConsistent m) cl
unfolding lookup
Reach-AllConsistent here = λ a node e. cc
Reach-AllConsistent (next r st) = Step-AllConsistent st (Reach-AllConsistent r)

-- In every cluster that comes from no nodes at all by nodes that start and stop, commands,
-- exchanges, garbage collections, and appends that other operations on a node's metadata interrupt,
-- in any order and with any failures, but never with a deletion of a file in the middle of an append
-- to it, at every node a file has a lock exactly when it is in the file map, and every file stands
-- there under its own name.
pub Reach-IsConsistent :
    (cl : Cluster) (a : Text) (node : Node)
    → Reach [] cl
    → lookup a cl ≡ some node
    → IsConsistent node.metadata
Reach-IsConsistent cl a node r e = Reach-AllConsistent r a node e

-- at one address, a name is in the file map
abbrev KnowsAt : Text → Text → Text → Metadata → Type 0
KnowsAt at name a m = a ≡ at → is_some (get_file name m) ≡ true

KnowsAt-Survives : (at name : Text) → Survives (KnowsAt at name)
KnowsAt-Survives at name = record {
  adds = λ a f m h q. add_file-known name f m (h q);
  appends = λ a n i m h e q. append_to_file-known name n i m (h q) e;
  reorders = λ a n l m h q. update_append_order-known name n l m (h q);
}

-- No sequence of commands and exchanges, with whatever failures, takes a file out of the metadata
-- of a node: if it runs afterwards, then it still knows the file.
pub Runs-known :
    (cl cl' : Cluster) (a name : Text) (node node' : Node)
    → Runs cl cl'
    → lookup a cl ≡ some node
    → is_some (get_file name node.metadata) ≡ true
    → lookup a cl' ≡ some node'
    → is_some (get_file name node'.metadata) ≡ true
Runs-known cl cl' a name node node' rs e known e' =
    Runs-Survives (KnowsAt a name) (KnowsAt-Survives a name) rs before a node' e' refl
  where
    before : AllNodes (KnowsAt a name) cl
    before b x q same = cc
