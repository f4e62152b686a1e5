-- ===== src/Gossip/Schedule.antt =====
-- A group over time: the loops of server.go, the requests that arrive, the commands `switch` and
-- `leave` of cli.go and the end of `notifyIntroducer`, one step each and in any order. What arrives,
-- which messages are lost and what the clocks say is left open.
use hydfs.Prelude.{ℕ, Text, ◌≡◌, Option, some, List, Bool, lookup, insert, remove}
use hydfs.Prelude.Decimal.{ℤ}
use hydfs.Config.{Config}
use hydfs.Server.{Server, new_server, increase_heartbeat, leave_group}
use hydfs.Detection.{Timeouts, mark_suspect_if_needed}
use hydfs.Rpc.{JoinResponse, notify_introducer}
use hydfs.Rpc.Dispatch.{Process, Method, Request, RpcMessage, RpcResponse, listen_for_messages}
use hydfs.Gossip.{Selection}
use hydfs.Gossip.Switching.{switch_command}
use hydfs.Gossip.Rounds.{Group, send_timely_messages_as_per_protocol}

pub data GroupStep (group : Group) : Group → Type 1 where
  starts :
      (own : Text) (c : Config) (hash_of : Text → ℕ) (seconds : ℤ) (now : ℕ)
      (introducer_addr : Text) (is_introducer : Bool)
      → GroupStep group (
          insert own
            (record {
              config = c;
              server = new_server hash_of seconds now own introducer_addr is_introducer;
            })
            group)
  joins :
      (own : Text) (p : Process) (now : ℕ) (resp : Option JoinResponse) {c' : Config} {s' : Server}
      → lookup own group ≡ some p
      → notify_introducer now resp p.config p.server ≡ some (c', s')
      → GroupStep group (insert own (record { config = c'; server = s' }) group)
  beats :
      (own : Text) (p : Process) (now : ℕ)
      → lookup own group ≡ some p
      → GroupStep group
          (insert own (record p { server = increase_heartbeat p.config now p.server }) group)
  checks :
      (own : Text) (p : Process) (now : ℕ) (t : Timeouts)
      → lookup own group ≡ some p
      → GroupStep group (
          insert own
            (record p { server = (mark_suspect_if_needed p.config now t p.server).0 })
            group)
  sends :
      (reaches acks : Text → Bool) (now : ℕ) (shuffle : List Text → List Text) (own : Text)
      (st : Selection) {st' : Selection} {group' : Group}
      → send_timely_messages_as_per_protocol reaches acks now shuffle own st group
        ≡ some (st', group')
      → GroupStep group group'
  hears :
      {P : Type 0} (unmarshal : Text → Option (RpcMessage P))
      (convert_params : (m : Method) → P → Option (Request m)) (marshal : RpcResponse → Text)
      (hash_of : Text → ℕ) (now : ℕ) (own : Text) (p : Process) (dropped : Bool) (bytes : Text)
      → lookup own group ≡ some p
      → GroupStep group (
          insert own
            (listen_for_messages unmarshal convert_params marshal hash_of now dropped bytes p).0
            group)
  switches :
      (reaches : Text → Bool) (p : Process) (protocol_str suspicion_str : Text) {group' : Group}
      → lookup p.server.addr group ≡ some p
      → switch_command reaches protocol_str suspicion_str p group ≡ some group'
      → GroupStep group group'
  leaves :
      (own : Text) (p : Process) (now : ℕ)
      → lookup own group ≡ some p
      → GroupStep group (insert own (record p { server = leave_group now p.server }) group)
  stops : (own : Text) → GroupStep group (remove own group)

pub data GroupReach (group : Group) : Group → Type 1 where
  here : GroupReach group group
  next : {t u : Group} → GroupReach group t → GroupStep t u → GroupReach group u
