-- ===== src/Gossip/Rounds.antt =====
-- protocols.go, `gossipSend` and `pingSend`, and the loop of server.go that calls them: one round of
-- a node, with what the nodes that it reaches make of its message.
use hydfs.Prelude.{
  ℕ, Text, Option, none, some, List, [], ◌∷◌, Bool, Dict, lookup, insert, if◌then◌else◌,
}
use hydfs.Config.{gossip_protocol, ping_ack_protocol}
use hydfs.Member.{Member, get_address_from_id}
use hydfs.Membership.{snapshot}
use hydfs.Server.{server_id}
use hydfs.Merge.{merge_membership}
use hydfs.Rpc.{gossip_request, ping_request}
use hydfs.Rpc.Dispatch.{Process}
use hydfs.Gossip.{Selection, select_next_k_nodes, gossip_list, ping_list}

-- The processes that run, by their addresses.
abbrev pub Group : Type 0
Group = Dict Process

-- Which addresses a request gets through to, and from which an acknowledgement comes back and is not
-- dropped for a test.
module _ (reaches acks : Text → Bool) (now : ℕ) where
  unfoldable pub gossip_at : Text → List Member → Text → Option Process → Group → Group
  unfolding gossip_request insert
  gossip_at sender members address none group = group
  gossip_at sender members address (some p) group =
      insert address (record p { server = gossip_request p.config now sender members p.server })
        group

  -- `CallGossip`
  unfoldable pub call_gossip : Text → List Member → Text → Group → Group
  unfolding gossip_at lookup
  call_gossip sender members address group =
      if reaches address
      then gossip_at sender members address (lookup address group) group
      else group

  -- One goroutine for each node; they work on different processes.
  unfoldable pub gossip_each : Text → List Member → List Text → Group → Group
  unfolding call_gossip get_address_from_id
  gossip_each sender members [] group = group
  gossip_each sender members (node ∷ nodes) group =
      gossip_each sender members nodes (call_gossip sender members (get_address_from_id node) group)

  -- the merge of an acknowledgement, under the ID of the node that was called
  unfoldable pub acknowledge : Text → Text → List Member → Option Process → Group → Group
  unfolding merge_membership insert
  acknowledge own node members none group = group
  acknowledge own node members (some p) group =
      insert own (record p { server = merge_membership p.config now members node p.server }) group

  unfoldable pub ping_at : Text → Text → Text → List Member → Text → Option Process → Group → Group
  unfolding ping_request acknowledge lookup insert
  ping_at own node sender members address none group = group
  ping_at own node sender members address (some p) group =
      let (s', ack_sender, ack_members) = ping_request p.config now sender members p.server in
      let group' = insert address (record p { server = s' }) group in
      if acks address then acknowledge own node ack_members (lookup own group') group' else group'

  unfoldable pub call_ping : Text → Text → Text → List Member → Text → Group → Group
  unfolding ping_at lookup
  call_ping own node sender members address group =
      if reaches address
      then ping_at own node sender members address (lookup address group) group
      else group

  unfoldable pub ping_each : Text → Text → List Member → List Text → Group → Group
  unfolding call_ping get_address_from_id
  ping_each own sender members [] group = group
  ping_each own sender members (node ∷ nodes) group =
      ping_each own sender members nodes
        (call_ping own node sender members (get_address_from_id node) group)

  module _ (shuffle : List Text → List Text) (own : Text) where
    unfoldable pub gossip_selected :
        Process → Option (List Text × Selection) → Group → Option (Selection × Group)
    unfolding gossip_each server_id gossip_list snapshot
    gossip_selected p none group = none
    gossip_selected p (some (nodes, st)) group =
        some (
          st,
          gossip_each (server_id p.server) (gossip_list (snapshot p.server.members)) nodes group,
        )

    -- `gossipSend`; `none` is an index out of range.
    unfoldable pub gossip_send : ℕ → Process → Selection → Group → Option (Selection × Group)
    unfolding gossip_selected select_next_k_nodes server_id snapshot
    gossip_send k p st group =
        gossip_selected p
          (select_next_k_nodes shuffle k (server_id p.server) (snapshot p.server.members) st) group

    unfoldable pub ping_selected :
        Process → Option (List Text × Selection) → Group → Option (Selection × Group)
    unfolding ping_each server_id ping_list snapshot
    ping_selected p none group = none
    ping_selected p (some (nodes, st)) group =
        some (
          st,
          ping_each own (server_id p.server) (ping_list (snapshot p.server.members)) nodes group,
        )

    -- `pingSend`
    unfoldable pub ping_send : ℕ → Process → Selection → Group → Option (Selection × Group)
    unfolding ping_selected select_next_k_nodes server_id snapshot
    ping_send k p st group =
        ping_selected p
          (select_next_k_nodes shuffle k (server_id p.server) (snapshot p.server.members) st) group

    unfoldable pub timely_round : Option Process → Selection → Group → Option (Selection × Group)
    unfolding gossip_send ping_send
    timely_round none st group = some (st, group)
    timely_round (some p) st group = elim p.config.protocol [
      | gossip_protocol ↦ gossip_send p.config.fanout p st group
      | ping_ack_protocol ↦ ping_send p.config.fanout p st group
      | _ ↦ some (st, group)
    ]

    -- one tick of `sendTimelyMessagesAsPerProtocol`, for the process at `own`
    unfoldable pub send_timely_messages_as_per_protocol :
        Selection → Group → Option (Selection × Group)
    unfolding timely_round lookup
    send_timely_messages_as_per_protocol st group = timely_round (lookup own group) st group
