-- ===== src/Gossip/Requests.antt =====
-- What a node does with a datagram, and a `switch` command, leave every list of members well formed.
use hydfs.Prelude.{
  ℕ, Text, ◌≡◌, refl, Option, none, some, [], ◌∷◌, Bool, true, false, lookup, Bool-cases,
  Option-cases, inl, inr, AllValues, AllValues-insert, Dict, text_eq, not, ◌&&◌,
}
use hydfs.Config.{ProtocolType, SuspicionType, handle_switch}
use hydfs.Member.{Member}
use hydfs.Membership.{snapshot}
use hydfs.Gossip.Switching.{tell_at, tell, broadcast, switch_command}
use hydfs.Rpc.{join_request, gossip_request, ping_request, accepted}
use hydfs.Rpc.Dispatch.{
  Process, Method, Request, RpcMessage, RpcResponse, serve, serve_params, serve_method, route,
  answer, send_response, handle_rpc_request, listen_for_messages, method_names,
}
use hydfs.Rpc.Dispatch
use hydfs.Gossip.Rounds.{Group}
use hydfs.Gossip.Members.{Fine, added, merged}

serve-Fine :
    (hash_of : Text → ℕ) (now : ℕ) (m : Method) (req : Request m) (p : Process) (a : Text)
    → Fine a p
    → Fine a (serve hash_of now m req p).0
unfolding serve gossip_request ping_request join_request
serve-Fine hash_of now Dispatch.join member p a h = elim (Bool-cases p.server.is_introducer) [
  | inl e ↦ rw (serve, e) (added (accepted hash_of now member) p.server.members h)
  | inr e ↦ rw (serve, e) h
]
serve-Fine hash_of now Dispatch.gossip (sender, l) p a h = merged p.config now l sender p.server h
serve-Fine hash_of now Dispatch.ping (sender, l) p a h = merged p.config now l sender p.server h
serve-Fine hash_of now Dispatch.protocol_switch (sender, protocol, suspicion) p a h = h
serve-Fine hash_of now Dispatch.get_files_metadata_of (from, until) p a h = h
serve-Fine hash_of now Dispatch.get_file_metadata_of filename p a h = h
serve-Fine hash_of now Dispatch.multi_append (filename, local_name) p a h = h
serve-Fine hash_of now Dispatch.update_order (filename, l) p a h = h
serve-Fine hash_of now Dispatch.merge filename p a h = h
serve-Fine hash_of now Dispatch.execute_command command p a h = h

module _ {P : Type 0} (unmarshal : Text → Option (RpcMessage P))
    (convert_params : (m : Method) → P → Option (Request m)) (marshal : RpcResponse → Text)
    (hash_of : Text → ℕ) (now : ℕ) where
  serve_params-Fine :
      (id : ℕ) (m : Method) (o : Option (Request m)) (p : Process) (a : Text)
      → Fine a p
      → Fine a (serve_params unmarshal convert_params marshal hash_of now id m o p).0
  unfolding serve_params answer
  serve_params-Fine id m none p a h = h
  serve_params-Fine id m (some req) p a h = serve-Fine hash_of now m req p a h

  route-Fine :
      (o : Option (RpcMessage P)) (p : Process) (a : Text)
      → Fine a p
      → Fine a (route unmarshal convert_params marshal hash_of now o p).0
  unfolding route serve_method
  route-Fine none p a h = h
  route-Fine (some msg) p a h = elim (Option-cases (lookup msg.method method_names)) [
    | inl e ↦ rw (route, serve_method, e) h
    | inr (m, e) ↦
        rw (route, serve_method, e) (serve_params-Fine msg.id m (convert_params m msg.params) p a h)
  ]

  handle_rpc_request-Fine :
      (bytes : Text) (p : Process) (a : Text)
      → Fine a p
      → Fine a (handle_rpc_request unmarshal convert_params marshal hash_of now bytes p).0
  unfolding handle_rpc_request send_response
  handle_rpc_request-Fine bytes p a h = route-Fine (unmarshal bytes) p a h

  pub listen_for_messages-Fine :
      (dropped : Bool) (bytes : Text) (p : Process) (a : Text)
      → Fine a p
      → Fine a (listen_for_messages unmarshal convert_params marshal hash_of now dropped bytes p).0
  unfolding listen_for_messages
  listen_for_messages-Fine true bytes p a h = h
  listen_for_messages-Fine false bytes p a h = handle_rpc_request-Fine bytes _ a h

module _ (reaches : Text → Bool) (own : Text) (protocol : ProtocolType)
    (suspicion : SuspicionType) where
  tell_at-Fine :
      (t : Text) (o : Option Process) (g : Group)
      → lookup t g ≡ o
      → AllValues Fine g
      → AllValues Fine (tell_at reaches own protocol suspicion t o g)
  unfolding tell_at
  tell_at-Fine t none g e h = h
  tell_at-Fine t (some p) g e h = AllValues-insert Fine t _ g h (h t p e)

  tell-Fine :
      (t : Text) (g : Group)
      → AllValues Fine g
      → AllValues Fine (tell reaches own protocol suspicion t g)
  unfolding tell
  tell-Fine t g h = elim (Bool-cases (not (text_eq t own) && reaches t)) [
    | inl r ↦ rw r (tell_at-Fine t (lookup t g) g refl h)
    | inr r ↦ rw r h
  ]

  broadcast-Fine :
      (members : Dict Member) (g : Group)
      → AllValues Fine g
      → AllValues Fine (broadcast reaches own protocol suspicion members g)
  unfolding broadcast
  broadcast-Fine [] g h = h
  broadcast-Fine ((id, m) ∷ members) g h = broadcast-Fine members _ (tell-Fine m.address g h)

unfoldable pub AfterSwitch : Option Group → Type 0
AfterSwitch none = Unit
AfterSwitch (some g) = AllValues Fine g

pub switch_command-Fine :
    (reaches : Text → Bool) (ps ss : Text) (p : Process) (g : Group)
    → lookup p.server.addr g ≡ some p
    → AllValues Fine g
    → AfterSwitch (switch_command reaches ps ss p g)
unfolding switch_command AfterSwitch
switch_command-Fine reaches ps ss p g e h = elim (Option-cases (handle_switch ps ss p.config)) [
  | inl k ↦ rw (switch_command, k) tt
  | inr (c, k) ↦
      rw (switch_command, k)
        (broadcast-Fine reaches p.server.addr c.protocol c.suspicion (snapshot p.server.members) _
          (AllValues-insert Fine p.server.addr _ g h (h p.server.addr p e)))
]
