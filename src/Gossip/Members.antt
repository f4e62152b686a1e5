-- ===== src/Gossip/Members.antt =====
-- A round of messages leaves every list of members well formed.
use hydfs.Prelude.{
  ℕ, Text, ◌≡◌, refl, Option, none, some, List, [], ◌∷◌, Bool, lookup, Bool-cases, inl, inr,
  AllValues, AllValues-insert,
}
use hydfs.Config.{Config, ProtocolType, gossip_protocol, ping_ack_protocol, other_protocol}
use hydfs.Member.{Member, get_address_from_id}
use hydfs.Membership.{add_or_update, snapshot}
use hydfs.Membership.Order.{add_or_update-IsSorted}
use hydfs.Membership.Identity.{add_or_update-HasUniqueIds}
use hydfs.Server.{Server, server_id}
use hydfs.Merge.{merge_membership}
use hydfs.Merge.Members.{IsWellFormed, merge_membership-IsWellFormed}
use hydfs.Rpc.{gossip_request, ping_request}
use hydfs.Rpc.Dispatch.{Process}
use hydfs.Gossip.{Selection, gossip_list, ping_list}
use hydfs.Gossip.Rounds.{
  Group, gossip_at, call_gossip, gossip_each, acknowledge, ping_at, call_ping, ping_each,
  gossip_selected, gossip_send, ping_selected, ping_send, timely_round,
  send_timely_messages_as_per_protocol,
}

abbrev pub Fine : Text → Process → Type 0
Fine a p = IsWellFormed p.server.members

pub added :
    (m : Member) (nodes : List Member) → IsWellFormed nodes → IsWellFormed (add_or_update m nodes)
added m nodes h = record {
  sorted = add_or_update-IsSorted m nodes;
  unique = add_or_update-HasUniqueIds m nodes h.unique;
}

pub merged :
    (c : Config) (now : ℕ) (received : List Member) (sender : Text) (s : Server)
    → IsWellFormed s.members
    → IsWellFormed (merge_membership c now received sender s).members
merged c now received sender s h = (merge_membership-IsWellFormed c now received sender s h).0

module _ (reaches acks : Text → Bool) (now : ℕ) where
  gossip_at-Fine :
      (sender : Text) (l : List Member) (t : Text) (o : Option Process) (group : Group)
      → lookup t group ≡ o
      → AllValues Fine group
      → AllValues Fine (gossip_at reaches acks now sender l t o group)
  unfolding gossip_at gossip_request
  gossip_at-Fine sender l t none group e h = h
  gossip_at-Fine sender l t (some p) group e h =
      AllValues-insert Fine t _ group h (merged p.config now l sender p.server (h t p e))

  call_gossip-Fine :
      (sender : Text) (l : List Member) (t : Text) (group : Group)
      → AllValues Fine group
      → AllValues Fine (call_gossip reaches acks now sender l t group)
  unfolding call_gossip
  call_gossip-Fine sender l t group h = elim (Bool-cases (reaches t)) [
    | inl r ↦ rw r (gossip_at-Fine sender l t (lookup t group) group refl h)
    | inr r ↦ rw r h
  ]

  gossip_each-Fine :
      (sender : Text) (l : List Member) (nodes : List Text) (group : Group)
      → AllValues Fine group
      → AllValues Fine (gossip_each reaches acks now sender l nodes group)
  unfolding gossip_each
  gossip_each-Fine sender l [] group h = h
  gossip_each-Fine sender l (node ∷ nodes) group h =
      gossip_each-Fine sender l nodes _
        (call_gossip-Fine sender l (get_address_from_id node) group h)

  acknowledge-Fine :
      (own node : Text) (l : List Member) (o : Option Process) (group : Group)
      → lookup own group ≡ o
      → AllValues Fine group
      → AllValues Fine (acknowledge reaches acks now own node l o group)
  unfolding acknowledge
  acknowledge-Fine own node l none group e h = h
  acknowledge-Fine own node l (some p) group e h =
      AllValues-insert Fine own _ group h (merged p.config now l node p.server (h own p e))

  ping_at-Fine :
      (own node sender : Text) (l : List Member) (t : Text) (o : Option Process) (group : Group)
      → lookup t group ≡ o
      → AllValues Fine group
      → AllValues Fine (ping_at reaches acks now own node sender l t o group)
  unfolding ping_at ping_request
  ping_at-Fine own node sender l t none group e h = h
  ping_at-Fine own node sender l t (some p) group e h =
      let answered =
        AllValues-insert Fine t _ group h (merged p.config now l sender p.server (h t p e)) in
      elim (Bool-cases (acks t)) [
        | inl a ↦ rw a (
            acknowledge-Fine own node (ping_request p.config now sender l p.server).2 _ _ refl
              answered)
        | inr a ↦ rw a answered
      ]

  call_ping-Fine :
      (own node sender : Text) (l : List Member) (t : Text) (group : Group)
      → AllValues Fine group
      → AllValues Fine (call_ping reaches acks now own node sender l t group)
  unfolding call_ping
  call_ping-Fine own node sender l t group h = elim (Bool-cases (reaches t)) [
    | inl r ↦ rw r (ping_at-Fine own node sender l t (lookup t group) group refl h)
    | inr r ↦ rw r h
  ]

  ping_each-Fine :
      (own sender : Text) (l : List Member) (nodes : List Text) (group : Group)
      → AllValues Fine group
      → AllValues Fine (ping_each reaches acks now own sender l nodes group)
  unfolding ping_each
  ping_each-Fine own sender l [] group h = h
  ping_each-Fine own sender l (node ∷ nodes) group h =
      ping_each-Fine own sender l nodes _
        (call_ping-Fine own node sender l (get_address_from_id node) group h)

  -- of the group that a round leaves, if no index is out of range
  abbrev pub AfterRound : Option (Selection × Group) → Type 0
  AfterRound none = Unit
  AfterRound (some (st, group)) = AllValues Fine group

  module _ (shuffle : List Text → List Text) (own : Text) where
    gossip_selected-Fine :
        (p : Process) (o : Option (List Text × Selection)) (group : Group)
        → AllValues Fine group
        → AfterRound (gossip_selected reaches acks now shuffle own p o group)
    unfolding gossip_selected
    gossip_selected-Fine p none group h = tt
    gossip_selected-Fine p (some (nodes, st)) group h =
        gossip_each-Fine (server_id p.server) (gossip_list (snapshot p.server.members)) nodes group
          h

    ping_selected-Fine :
        (p : Process) (o : Option (List Text × Selection)) (group : Group)
        → AllValues Fine group
        → AfterRound (ping_selected reaches acks now shuffle own p o group)
    unfolding ping_selected
    ping_selected-Fine p none group h = tt
    ping_selected-Fine p (some (nodes, st)) group h =
        ping_each-Fine own (server_id p.server) (ping_list (snapshot p.server.members)) nodes group
          h

    by_protocol-Fine :
        (p : Process) (protocol : ProtocolType) (st : Selection) (group : Group)
        → p.config.protocol ≡ protocol
        → AllValues Fine group
        → AfterRound (timely_round reaches acks now shuffle own (some p) st group)
    unfolding timely_round gossip_send ping_send
    by_protocol-Fine p gossip_protocol st group e h =
        rw (timely_round, e) (gossip_selected-Fine p _ group h)
    by_protocol-Fine p ping_ack_protocol st group e h =
        rw (timely_round, e) (ping_selected-Fine p _ group h)
    by_protocol-Fine p (other_protocol t) st group e h = rw (timely_round, e) h

    timely_round-Fine :
        (o : Option Process) (st : Selection) (group : Group)
        → AllValues Fine group
        → AfterRound (timely_round reaches acks now shuffle own o st group)
    unfolding timely_round
    timely_round-Fine none st group h = h
    timely_round-Fine (some p) st group h = by_protocol-Fine p p.config.protocol st group refl h

    pub send_timely-Fine :
        (st : Selection) (group : Group)
        → AllValues Fine group
        → AfterRound (send_timely_messages_as_per_protocol reaches acks now shuffle own st group)
    unfolding send_timely_messages_as_per_protocol
    send_timely-Fine st group h = timely_round-Fine (lookup own group) st group h
