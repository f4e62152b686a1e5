-- ===== src/Rpc/Client.antt =====
-- rpc_client.go: a call over UDP, with its counters and errors, and the calls of each method; and
-- what a process on the other side makes of it. JSON and the socket are parameters.
pub mod Exchange
use hydfs.Prelude.{
  ℕ, Text, codes, text_eq, Option, none, some, List, [], Bool, true, false, length, take,
  if◌then◌else◌,
}
use hydfs.Config.{ProtocolType, SuspicionType}
use hydfs.Member.{Member}
use hydfs.Metadata.{AppendInfo}
use hydfs.Bandwidth.{BandwidthStats, add_sent, add_received}
use hydfs.Rpc.Dispatch.{
  Method, join, gossip, ping, protocol_switch, get_files_metadata_of, get_file_metadata_of,
  multi_append, update_order, merge, execute_command, Request, Response, RpcMessage, RpcResponse,
  Process, Run, listen_for_messages,
}

abbrev pub buffer_size : ℕ
buffer_size = 4096

-- A datagram that is longer than the buffer is cut.
unfoldable pub read_into_buffer : Text → Text
read_into_buffer bytes = take buffer_size bytes

-- What a socket does: does it open and write, and what comes back for what was written, if anything
-- does in time?
pub record Connection : Type 0 where
  pub dials : Bool
  pub writes : Bool
  pub answer_to : Text → Option Text

-- `RPCResponse` as it is decoded; `R` is what the JSON decoder makes of an `interface{}`.
pub record RpcReply (R : Type 0) : Type 0 where
  pub result : R
  pub error : Text

pub data CallError : Type 0 where
  dial_error marshal_error write_error read_error ack_dropped : CallError
  unmarshal_response_error marshal_result_error unmarshal_result_error : CallError
  rpc_error : Text → CallError

pub data Called (A : Type 0) : Type 0 where
  gives : A → Called A
  fails : CallError → Called A

-- The JSON of the caller.
pub record Codec (R : Type 0) : Type 0 where
  pub marshal_request : Text → (m : Method) → Request m → ℕ → Option Text
  pub unmarshal_response : Text → Option (RpcReply R)
  pub marshal_result : R → Option Text
  pub unmarshal_result : (m : Method) → Text → Option (Response m)

-- `server` or its counters may be nil
abbrev pub counted_by :
    (BandwidthStats → BandwidthStats) → Option BandwidthStats → Option BandwidthStats
counted_by f none = none
counted_by f (some stats) = some (f stats)

module _ {R : Type 0} (codec : Codec R) where
  converted : (m : Method) → Option (Response m) → Called (Response m)
  converted m none = fails unmarshal_result_error
  converted m (some resp) = gives resp

  convert_result : (m : Method) → Option Text → Called (Response m)
  unfolding converted
  convert_result m none = fails marshal_result_error
  convert_result m (some data_text) = converted m (codec.unmarshal_result m data_text)

  read_reply : (m : Method) → Option (RpcReply R) → Called (Response m)
  unfolding convert_result text_eq
  read_reply m none = fails unmarshal_response_error
  read_reply m (some reply) =
      if text_eq reply.error []
      then convert_result m (codec.marshal_result reply.result)
      else fails (rpc_error reply.error)

  receive_reply :
      (m : Method)
      → Option Text
      → Option BandwidthStats
      → Option BandwidthStats × Called (Response m)
  unfolding read_reply read_into_buffer add_received
  receive_reply m none stats = (stats, fails read_error)
  receive_reply m (some bytes) stats =
      let buffer = read_into_buffer bytes in
      (
        counted_by (add_received (length buffer)) stats,
        read_reply m (codec.unmarshal_response buffer),
      )

  send_call :
      Connection
      → (m : Method) → Option Text
      → Option BandwidthStats
      → Option BandwidthStats × Called (Response m)
  unfolding receive_reply add_sent
  send_call conn m none stats = (stats, fails marshal_error)
  send_call conn m (some request) stats =
      if conn.writes
      then receive_reply m (conn.answer_to request) (counted_by (add_sent (length request)) stats)
      else (stats, fails write_error)

  -- `makeRPCCall`; `id` is the clock in nanoseconds, and the name of the method goes with the
  -- request.
  unfoldable pub make_rpc_call :
      Connection
      → ℕ
      → Text
      → (m : Method) → Request m
      → Option BandwidthStats
      → Option BandwidthStats × Called (Response m)
  unfolding send_call
  make_rpc_call conn id method m req stats =
      if conn.dials
      then send_call conn m (codec.marshal_request method m req id) stats
      else (stats, fails dial_error)

  module _ (conn : Connection) (id : ℕ) where
    abbrev pub CallOf : Method → Type 0
    CallOf m = Option BandwidthStats → Option BandwidthStats × Called (Response m)

    unfoldable pub call_join : Member → CallOf join
    unfolding make_rpc_call
    call_join member = make_rpc_call conn id (codes "Join") join member

    unfoldable pub call_gossip : Text → List Member → CallOf gossip
    unfolding make_rpc_call
    call_gossip sender members = make_rpc_call conn id (codes "Gossip") gossip (sender, members)

    unfoldable pub call_protocol_switch :
        Text → ProtocolType → SuspicionType → CallOf protocol_switch
    unfolding make_rpc_call
    call_protocol_switch sender protocol suspicion =
        make_rpc_call conn id (codes "ProtocolSwitch") protocol_switch (sender, protocol, suspicion)

    unfoldable pub get_keys_metadata : ℕ → ℕ → CallOf get_files_metadata_of
    unfolding make_rpc_call
    get_keys_metadata start_range end_range =
        make_rpc_call conn id (codes "GetFilesMetadata") get_files_metadata_of
          (start_range, end_range)

    unfoldable pub call_get_file_metadata : Text → CallOf get_file_metadata_of
    unfolding make_rpc_call
    call_get_file_metadata filename =
        make_rpc_call conn id (codes "GetFileMetadata") get_file_metadata_of filename

    unfoldable pub call_multi_append : Text → Text → CallOf multi_append
    unfolding make_rpc_call
    call_multi_append filename local_name =
        make_rpc_call conn id (codes "MultiAppend") multi_append (filename, local_name)

    unfoldable pub call_update_append_order : Text → List AppendInfo → CallOf update_order
    unfolding make_rpc_call
    call_update_append_order filename appends =
        make_rpc_call conn id (codes "UpdateAppendOrder") update_order (filename, appends)

    unfoldable pub call_merge : Text → CallOf merge
    unfolding make_rpc_call
    call_merge filename = make_rpc_call conn id (codes "Merge") merge filename

    ack_or_dropped : Bool → Called (Response ping) → Called (Response ping)
    ack_or_dropped drops (gives ack) = if drops then fails ack_dropped else gives ack
    ack_or_dropped drops (fails e) = fails e

    -- `CallPing`; `drops` says that the acknowledgement is dropped for a test.
    unfoldable pub call_ping : Bool → Text → List Member → CallOf ping
    unfolding make_rpc_call ack_or_dropped
    call_ping drops sender members stats =
        let r = make_rpc_call conn id (codes "Ping") ping (sender, members) stats in
        (r.0, ack_or_dropped drops (r.1))
