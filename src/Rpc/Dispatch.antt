-- ===== src/Rpc/Dispatch.antt =====
-- rpc_server.go, `listenForMessages`, `handleRPCRequest` and what they call: a datagram is decoded,
-- served and answered; and `ExecuteCommand`. The JSON decoding and encoding are parameters.
use hydfs.Prelude.{
  ℕ, Text, codes, Option, none, some, List, [], ◌∷◌, Bool, true, Dict, lookup, length,
  if◌then◌else◌,
}
use hydfs.Config.{Config, ProtocolType, SuspicionType}
use hydfs.Member.{Member}
use hydfs.Metadata.{AppendInfo, FileMetadata, get_file_metadata, update_append_order}
use hydfs.Bandwidth.{add_sent, add_received}
use hydfs.Server.{Server}
use hydfs.Stabilization.{get_files_metadata}
use hydfs.Rpc.{JoinResponse, protocol_switch_request, join_request, gossip_request, ping_request}

pub data Method : Type 0 where
  join gossip ping protocol_switch get_files_metadata_of get_file_metadata_of : Method
  multi_append update_order merge execute_command : Method

-- the cases of the `switch` over the method's name
abbrev pub method_names : Dict Method
method_names =
    (codes "Join", join)
    ∷ (codes "Gossip", gossip)
    ∷ (codes "Ping", ping)
    ∷ (codes "ProtocolSwitch", protocol_switch)
    ∷ (codes "GetFilesMetadata", get_files_metadata_of)
    ∷ (codes "GetFileMetadata", get_file_metadata_of)
    ∷ (codes "MultiAppend", multi_append)
    ∷ (codes "UpdateAppendOrder", update_order)
    ∷ (codes "Merge", merge)
    ∷ (codes "ExecuteCommand", execute_command)
    ∷ []

-- The requests of rpc_types.go, and what their handlers answer; messages are left out.
abbrev pub Request : Method → Type 0
Request join = Member
Request gossip = Text × List Member
Request ping = Text × List Member
Request protocol_switch = Text × ProtocolType × SuspicionType
Request get_files_metadata_of = ℕ × ℕ
Request get_file_metadata_of = Text
Request multi_append = Text × Text
Request update_order = Text × List AppendInfo
Request merge = Text
Request execute_command = Text

abbrev pub Response : Method → Type 0
Response join = JoinResponse
Response gossip = Bool
Response ping = Text × List Member
Response protocol_switch = Bool
Response get_files_metadata_of = Bool × Dict FileMetadata
Response get_file_metadata_of = Bool × Dict FileMetadata
Response multi_append = Bool
Response update_order = Bool
Response merge = Bool
Response execute_command = Bool

-- the global `Config` and the server
pub record Process : Type 0 where
  pub config : Config
  pub server : Server

-- What a handler runs besides: `handleAppend` and `executeMerge` before the answer, a command line
-- in a goroutine.
pub data Run : Type 0 where
  nothing : Run
  handles_append : Text → Text → Run
  executes_merge handles_command : Text → Run

abbrev with_server : Process → Server → Process
with_server p s = record p { server = s }

-- `ExecuteCommand`, where there is a server
unfoldable pub execute_command_request : Text → Run × Bool
execute_command_request command = (handles_command command, true)

-- The handlers; `hash_of` is `HashToMbits`.
unfoldable pub serve :
    (Text → ℕ) → ℕ → (m : Method) → Request m → Process → Process × Run × Response m
unfolding join_request gossip_request ping_request protocol_switch_request get_files_metadata
    get_file_metadata update_append_order execute_command_request
serve hash_of now join member p =
    let r = join_request p.config hash_of now member p.server in (with_server p (r.0), nothing, r.1)
serve hash_of now gossip (sender, received) p =
    (with_server p (gossip_request p.config now sender received p.server), nothing, true)
serve hash_of now ping (sender, received) p =
    let r = ping_request p.config now sender received p.server in
    (with_server p (r.0), nothing, (r.1, r.2))
serve hash_of now protocol_switch (sender, protocol, suspicion) p =
    (record p { config = protocol_switch_request protocol suspicion p.config }, nothing, true)
serve hash_of now get_files_metadata_of (start_range, end_range) p =
    (p, nothing, (true, get_files_metadata start_range end_range p.server.metadata))
serve hash_of now get_file_metadata_of filename p =
    (p, nothing, get_file_metadata filename p.server.metadata)
serve hash_of now multi_append (filename, local_name) p =
    (p, handles_append local_name filename, true)
serve hash_of now update_order (filename, appends) p =
    let r = update_append_order filename appends p.server.metadata in
    (with_server p (record p.server { metadata = r.0 }), nothing, r.1)
serve hash_of now merge filename p = (p, executes_merge filename, true)
serve hash_of now execute_command command p =
    let r = execute_command_request command in (p, r.0, r.1)

-- `RPCMessage`; `P` is what the JSON decoder makes of an `interface{}`.
pub record RpcMessage (P : Type 0) : Type 0 where
  pub method : Text
  pub params : P
  pub id : ℕ

pub data RpcError : Type 0 where
  unmarshal_error invalid_params : RpcError
  unknown_method : Text → RpcError

pub data RpcResponse : Type 0 where
  failed : ℕ → RpcError → RpcResponse
  replied : ℕ → (m : Method) → Response m → RpcResponse

module _ {P : Type 0} (unmarshal : Text → Option (RpcMessage P))
    (convert_params : (m : Method) → P → Option (Request m)) (marshal : RpcResponse → Text)
    (hash_of : Text → ℕ) (now : ℕ) where
  unfoldable pub answer :
      ℕ → (m : Method) → Process × Run × Response m → Process × Run × RpcResponse
  answer id m (p, run, resp) = (p, run, replied id m resp)

  unfoldable pub serve_params :
      ℕ → (m : Method) → Option (Request m) → Process → Process × Run × RpcResponse
  unfolding serve answer
  serve_params id m none p = (p, nothing, failed id invalid_params)
  serve_params id m (some req) p = answer id m (serve hash_of now m req p)

  unfoldable pub serve_method : RpcMessage P → Option Method → Process → Process × Run × RpcResponse
  unfolding serve_params
  serve_method msg none p = (p, nothing, failed msg.id (unknown_method msg.method))
  serve_method msg (some m) p = serve_params msg.id m (convert_params m msg.params) p

  unfoldable pub route : Option (RpcMessage P) → Process → Process × Run × RpcResponse
  unfolding serve_method lookup
  route none p = (p, nothing, failed 0 unmarshal_error)
  route (some msg) p = serve_method msg (lookup msg.method method_names) p

  -- `sendRPCResponse` and `sendRPCError`, which count the bytes
  unfoldable pub send_response : Process × Run × RpcResponse → Process × Run × RpcResponse
  unfolding add_sent
  send_response (p, run, resp) =
      let stats = add_sent (length (marshal resp)) p.server.bandwidth_stats in
      (with_server p (record p.server { bandwidth_stats = stats }), run, resp)

  -- `handleRPCRequest`
  unfoldable pub handle_rpc_request : Text → Process → Process × Run × RpcResponse
  unfolding route send_response
  handle_rpc_request bytes p = send_response (route (unmarshal bytes) p)

  -- One round of `listenForMessages`: a datagram is counted, and then dropped with the rate that is
  -- set for tests, or handled.
  unfoldable pub listen_for_messages : Bool → Text → Process → Process × Option (Run × RpcResponse)
  unfolding handle_rpc_request add_received
  listen_for_messages dropped bytes p =
      let stats = add_received (length bytes) p.server.bandwidth_stats in
      let counted = with_server p (record p.server { bandwidth_stats = stats }) in
      if dropped then (counted, none) else heard (handle_rpc_request bytes counted)
    where
      heard : Process × Run × RpcResponse → Process × Option (Run × RpcResponse)
      heard (p', run, resp) = (p', some (run, resp))
