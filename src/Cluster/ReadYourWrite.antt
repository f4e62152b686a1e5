-- ===== src/Cluster/ReadYourWrite.antt =====
-- A file that was created can be read, as long as one node can be reached.
use hydfs.Prelude.{
  ℕ, Text, ◌≡◌, refl, sym, ◌∙◌, some, List, [], ◌∷◌, Bool, true, Dict, lookup, insert, Bool-cases,
  inl, inr, All, any, length, select,
}
use hydfs.Prelude.Decimal.{ℤ}
use hydfs.Member.{Member}
use hydfs.Transfer.Download.{base}
use hydfs.Cluster.{
  Cluster, Network, Client, send_file_to_node, send_all, targets_of, new_file, handle_create,
  handle_get,
}
use hydfs.Cluster.Stores.{stores, stores-send_file_to_node}
use hydfs.Cluster.Sending.{
  Stored, Lacks, Serves, IsSendable, CanWrite, HasDistinctAddresses, send_file_to_node-stores,
  send_file_unreachable, send_all-All, send_all-count,
}
use hydfs.Cluster.Reading.{get_loop-Serves}

module _ (net : Network) (c : Client) (now : ℤ) (name : Text) (b : ℕ) (content : Text)
    (s : IsSendable (new_file c now name (b ∷ content))) where
  abbrev pub send : Text → Cluster → Cluster × Bool
  send target = send_file_to_node net c.own target (b ∷ content) (new_file c now name (b ∷ content))

  -- a target before the file is created, if a call to it gets through
  abbrev pub Ready : Text → Stored → Type 0
  Ready t o = net.reaches t ≡ true → Lacks name o × CanWrite (net.file_system t) name

  send-Serves :
      (t : Text) (cl : Cluster)
      → Ready t (stores t cl)
      → net.reaches t ≡ true
      → Serves name ((b ∷ content) ∷ []) (stores t (send t cl).0)
  send-Serves t cl ready r =
      (send_file_to_node-stores net c.own t b content (new_file c now name (b ∷ content)) cl s r
        (ready r).1 (ready r).0).1

  send_ok : (t : Text) (cl : Cluster) → Ready t (stores t cl) → (send t cl).1 ≡ net.reaches t
  send_ok t cl ready = elim (Bool-cases (net.reaches t)) [
    | inl r ↦
        (send_file_to_node-stores net c.own t b content (new_file c now name (b ∷ content)) cl s r
          (ready r).1 (ready r).0).0
        ∙ sym r
    | inr r ↦
        rw
          (
            send_file_unreachable net c.own t (b ∷ content) (new_file c now name (b ∷ content)) cl
                r,
            r,
          )
          refl
  ]

  pub create_sends :
      (local : Dict Text) (local_name : Text) (cl : Cluster)
      → lookup (base local_name) local ≡ some (b ∷ content)
      → handle_create net c now local local_name name cl ≡ send_all send (targets_of c name) cl
  unfolding handle_create send_all
  create_sends local local_name cl e = by_targets (targets_of c name) refl
    where
      by_targets :
          (ts : List Member)
          → targets_of c name ≡ ts
          → handle_create net c now local local_name name cl ≡ send_all send (targets_of c name) cl
      by_targets [] k = rw (k, handle_create) refl
      by_targets (m ∷ ts) k = rw (k, handle_create, e) refl

  pub sent_everywhere :
      (ts : List Member) (cl : Cluster)
      → HasDistinctAddresses ts
      → All (λ k. Ready k.address (stores k.address cl)) ts
      → All
          (λ k.
            net.reaches k.address ≡ true
            → Serves name ((b ∷ content) ∷ []) (stores k.address (send_all send ts cl).0))
          ts
        × ((send_all send ts cl).1 ≡ length (select (λ k. net.reaches k.address) ts))
  sent_everywhere ts cl d ready = (
    send_all-All send (λ t a cl'. stores-send_file_to_node net c.own t a (b ∷ content) _ cl') Ready
        (λ t o. net.reaches t ≡ true → Serves name ((b ∷ content) ∷ []) o) send-Serves ts cl d
        ready,
    send_all-count send (λ t a cl'. stores-send_file_to_node net c.own t a (b ∷ content) _ cl')
        net.reaches Ready send_ok ts cl d ready,
  )

  -- If a local file is not empty and can travel, no two of its targets have one address, at least
  -- one target can be reached, and every one that a call reaches does not know the file and can
  -- write it, then `create` reports as many successes as targets are reached, and a `get` under the
  -- same network conditions, on a node that can write its local copy, succeeds and writes exactly
  -- the content that was created.
  pub handle_get-handle_create :
      (local : Dict Text) (local_name path : Text) (cl : Cluster)
      → lookup (base local_name) local ≡ some (b ∷ content)
      → HasDistinctAddresses (targets_of c name)
      → All (λ k. Ready k.address (stores k.address cl)) (targets_of c name)
      → any (λ k. net.reaches k.address) (targets_of c name) ≡ true
      → CanWrite (net.file_system c.own) (base path)
      → let created = handle_create net c now local local_name name cl in
        let got = handle_get net c name path local created.0 in
        (created.1 ≡ length (select (λ k. net.reaches k.address) (targets_of c name)))
        × (got.ok ≡ true)
        × (got.local ≡ insert (base path) (b ∷ content) local)
  unfolding handle_get
  handle_get-handle_create local local_name path cl e d ready one w =
      let (served, count) = sent_everywhere (targets_of c name) cl d ready in
      let (ok, saved) =
        get_loop-Serves net c.own name path ((b ∷ content) ∷ []) (targets_of c name) local
          (send_all send (targets_of c name) cl).0 w served one in
      rw (create_sends local local_name cl e) (count, ok, saved)
