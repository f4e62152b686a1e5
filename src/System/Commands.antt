-- ===== src/System/Commands.antt =====
-- The commands on several nodes keep what survives the operations on the metadata.
use hydfs.Prelude.{
  Text, Option, none, some, List, [], ◌∷◌, Bool, lookup, Bool-cases, Option-cases, List-cases, inl,
  inr, Dict,
}
use hydfs.Prelude.Decimal.{ℤ}
use hydfs.Config.{node_map}
use hydfs.Member.{Member}
use hydfs.Metadata.{Metadata}
use hydfs.Cluster.{
  Cluster, Network, Client, targets_of, new_file, new_append, send_all, handle_create,
  handle_append, handle_get, get_loop, receive_file_from_node,
}
use hydfs.Transfer.Download.{base}
use hydfs.Cluster.Commands.{
  Views, handle_get_from_replica, multi_append, multi_append_one, handle_multi_append,
}
use hydfs.System.Nodes.{AllNodes, Survives}
use hydfs.System.Calls.{
  AllNodes-send_file_to_node, AllNodes-send_append_to_node, AllNodes-receive_file_from_node,
}

module _ (P : Text → Metadata → Type 0) where
  AllNodes-send_all :
      (send : Text → Cluster → Cluster × Bool) (l : List Member) (cl : Cluster)
      → ((t : Text) (c : Cluster) → AllNodes P c → AllNodes P (send t c).0)
      → AllNodes P cl
      → AllNodes P (send_all send l cl).0
  unfolding send_all
  AllNodes-send_all send [] cl k h = h
  AllNodes-send_all send (m ∷ l) cl k h =
      AllNodes-send_all send l (send m.address cl).0 k (k m.address cl h)

  AllNodes-get_loop :
      (net : Network) (own name path : Text) (l : List Member) (local : Dict Text) (cl : Cluster)
      → AllNodes P cl
      → AllNodes P (get_loop net own name path l local cl).cluster
  unfolding get_loop
  AllNodes-get_loop net own name path [] local cl h = h
  AllNodes-get_loop net own name path (m ∷ l) local cl h =
      let r = receive_file_from_node net own m.address name path local cl in
      let kept = AllNodes-receive_file_from_node P net own m.address name path local cl h in
      elim (Bool-cases r.ok) [
        | inl e ↦ rw e kept
        | inr e ↦ rw e (AllNodes-get_loop net own name path l r.local r.cluster kept)
      ]

  pub AllNodes-handle_get :
      (net : Network) (c : Client) (name path : Text) (local : Dict Text) (cl : Cluster)
      → AllNodes P cl
      → AllNodes P (handle_get net c name path local cl).cluster
  unfolding handle_get
  AllNodes-handle_get net c name path local cl h =
      AllNodes-get_loop net c.own name path (targets_of c name) local cl h

  pub AllNodes-handle_get_from_replica :
      (net : Network) (c : Client) (vm_id name path : Text) (local : Dict Text) (cl : Cluster)
      → AllNodes P cl
      → AllNodes P (handle_get_from_replica net c vm_id name path local cl).cluster
  unfolding handle_get_from_replica
  AllNodes-handle_get_from_replica net c vm_id name path local cl h =
      elim (Option-cases (lookup vm_id node_map)) [
        | inl e ↦ rw (handle_get_from_replica, e) h
        | inr (t, e) ↦
            rw (handle_get_from_replica, e)
              (AllNodes-receive_file_from_node P net c.own t name path local cl h)
      ]

module _ (P : Text → Metadata → Type 0) (s : Survives P) where
  pub AllNodes-handle_create :
      (net : Network) (c : Client) (now : ℤ) (local : Dict Text) (local_name name : Text)
      (cl : Cluster)
      → AllNodes P cl
      → AllNodes P (handle_create net c now local local_name name cl).0
  unfolding handle_create
  AllNodes-handle_create net c now local local_name name cl h =
      elim (List-cases (targets_of c name)) [
        | inl e ↦ rw (handle_create, e) h
        | inr (m, l, e) ↦ elim (Option-cases (lookup (base local_name) local)) [
          | inl q ↦ rw (handle_create, e, q) h
          | inr (content, q) ↦
              rw (handle_create, e, q)
                (AllNodes-send_all P _ (m ∷ l) cl
                  (λ t cl' kept.
                    AllNodes-send_file_to_node P s net c.own t content (new_file c now name content)
                      cl' kept)
                  h)
        ]
      ]

  pub AllNodes-handle_append :
      (net : Network) (c : Client) (now : ℤ) (local : Dict Text) (local_name name : Text)
      (cl : Cluster)
      → AllNodes P cl
      → AllNodes P (handle_append net c now local local_name name cl).0
  unfolding handle_append
  AllNodes-handle_append net c now local local_name name cl h =
      elim (List-cases (targets_of c name)) [
        | inl e ↦ rw (handle_append, e) h
        | inr (m, l, e) ↦ elim (Option-cases (lookup (base local_name) local)) [
          | inl q ↦ rw (handle_append, e, q) h
          | inr (content, q) ↦
              rw (handle_append, e, q)
                (AllNodes-send_all P _ (m ∷ l) cl
                  (λ t cl' kept.
                    AllNodes-send_append_to_node P s net c.own t content
                      (new_append c now name content) cl' kept)
                  h)
        ]
      ]

  AllNodes-multi_append :
      (net : Network) (views : Views) (now : ℤ) (t name local_name : Text) (cl : Cluster)
      → AllNodes P cl
      → AllNodes P (multi_append net views now t name local_name cl).0
  unfolding multi_append
  AllNodes-multi_append net views now t name local_name cl h = elim (Bool-cases (net.reaches t)) [
    | inr r ↦ rw r h
    | inl r ↦ elim (Option-cases (lookup t cl)) [
      | inl e ↦ rw (r, e) h
      | inr (node, e) ↦
          rw (r, e)
            (AllNodes-handle_append net (views.client t) now (views.local_directory t) local_name
              name cl h)
    ]
  ]

  AllNodes-multi_append_one :
      (net : Network) (views : Views) (now : ℤ) (name : Text) (t : Option Text) (local_name : Text)
      (cl : Cluster)
      → AllNodes P cl
      → AllNodes P (multi_append_one net views now name t local_name cl).0
  unfolding multi_append_one
  AllNodes-multi_append_one net views now name none local_name cl h = h
  AllNodes-multi_append_one net views now name (some t) local_name cl h =
      AllNodes-multi_append net views now t name local_name cl h

  pub AllNodes-handle_multi_append :
      (net : Network) (views : Views) (now : ℤ) (name : Text) (vms locals : List Text)
      (cl : Cluster)
      → AllNodes P cl
      → AllNodes P (handle_multi_append net views now name vms locals cl).0
  unfolding handle_multi_append
  AllNodes-handle_multi_append net views now name [] locals cl h = h
  AllNodes-handle_multi_append net views now name (v ∷ vms) [] cl h = h
  AllNodes-handle_multi_append net views now name (v ∷ vms) (f ∷ locals) cl h =
      AllNodes-handle_multi_append net views now name vms locals _
        (AllNodes-multi_append_one net views now name (lookup v node_map) f cl h)
