-- ===== src/Rpc/Client/Exchange.antt =====
-- rpc_client.go and rpc_server.go together: what a call brings back, and what it leaves at the
-- process that was called.
use hydfs.Prelude.{
  ℕ, ◌≤◌, ◌<◌, Text, codes, text_eq, ◌≡◌, refl, ap, ◌∙◌, Option, none, some, [], true, false,
  length, lookup, take_all, take, length-take, arith,
}
use hydfs.Bandwidth.{BandwidthStats, add_sent, add_received}
use hydfs.Rpc.Dispatch.{
  Method, method_names, Request, Response, RpcMessage, RpcResponse, replied, Process, Run, serve,
  listen_for_messages, handle_rpc_request, route, serve_method, serve_params, answer, send_response,
}
use hydfs.Rpc.Dispatch
use hydfs.Rpc.Answers.{sent}
use hydfs.Rpc.Client.{
  buffer_size, read_into_buffer, Connection, gives, fails, Codec, counted_by, make_rpc_call,
  converted, convert_result, read_reply, receive_reply, send_call, unmarshal_response_error,
}

-- the names that rpc_client.go puts into its requests
abbrev pub method_name : Method → Text
method_name Dispatch.join = codes "Join"
method_name Dispatch.gossip = codes "Gossip"
method_name Dispatch.ping = codes "Ping"
method_name Dispatch.protocol_switch = codes "ProtocolSwitch"
method_name Dispatch.get_files_metadata_of = codes "GetFilesMetadata"
method_name Dispatch.get_file_metadata_of = codes "GetFileMetadata"
method_name Dispatch.multi_append = codes "MultiAppend"
method_name Dispatch.update_order = codes "UpdateAppendOrder"
method_name Dispatch.merge = codes "Merge"
method_name Dispatch.execute_command = codes "ExecuteCommand"

named : (m : Method) → lookup (method_name m) method_names ≡ some m
unfolding lookup text_eq
named Dispatch.join = refl
named Dispatch.gossip = refl
named Dispatch.ping = refl
named Dispatch.protocol_switch = refl
named Dispatch.get_files_metadata_of = refl
named Dispatch.get_file_metadata_of = refl
named Dispatch.multi_append = refl
named Dispatch.update_order = refl
named Dispatch.merge = refl
named Dispatch.execute_command = refl

module _ {P R : Type 0} (unmarshal : Text → Option (RpcMessage P))
    (convert_params : (m : Method) → P → Option (Request m)) (marshal : RpcResponse → Text)
    (hash_of : Text → ℕ) (now : ℕ) (codec : Codec R) where
  reply_text : Option (Run × RpcResponse) → Option Text
  reply_text none = none
  reply_text (some (run, resp)) = some (marshal resp)

  abbrev pub hears : Text → Process → Process × Option (Run × RpcResponse)
  hears t p =
      listen_for_messages unmarshal convert_params marshal hash_of now false (read_into_buffer t) p

  -- A socket to a process that hears every datagram and whose answers come back in time.
  pub connected : Process → Connection
  unfolding reply_text
  connected p = record { dials = true; writes = true; answer_to = λ t. reply_text (hears t p).1 }

  -- the process when a handler runs
  abbrev pub heard : Text → Process → Process
  heard t p = record p {
    server = record p.server { bandwidth_stats = add_received (length t) p.server.bandwidth_stats };
  }

  abbrev pub served : (m : Method) → Request m → Text → Process → Process × Run × Response m
  served m req t p = serve hash_of now m req (heard t p)

  -- A request that fits into the buffer and that the other side decodes as what it is.
  pub record IsUnderstood (id : ℕ) (m : Method) (req : Request m) (t : Text) : Type 0 where
    pub marshals : codec.marshal_request (method_name m) m req id ≡ some t
    pub fits : length t ≤ buffer_size
    pub params : P
    pub decoded : unmarshal t ≡ some (record { method = method_name m; params = params; id = id })
    pub converts : convert_params m params ≡ some req

  -- A response that fits and that the caller decodes as what it is.
  pub record IsReadable (id : ℕ) (m : Method) (resp : Response m) : Type 0 where
    pub fits : length (marshal (replied id m resp)) ≤ buffer_size
    pub result : R
    pub result_text : Text
    pub decoded :
        codec.unmarshal_response (marshal (replied id m resp))
        ≡ some (record { result = result; error = [] })
    pub marshals : codec.marshal_result result ≡ some result_text
    pub converts : codec.unmarshal_result m result_text ≡ some resp

  understood :
      (id : ℕ) (m : Method) (req : Request m) (t : Text) (p : Process)
      → IsUnderstood id m req t
      → let (p', run, resp) = served m req t p in
        hears t p ≡ (
          sent unmarshal convert_params marshal hash_of now (replied id m resp) p',
          some (run, replied id m resp),
        )
  unfolding listen_for_messages handle_rpc_request route serve_method serve_params answer
      send_response read_into_buffer
  understood id m req t p u =
      rw (take_all buffer_size t u.fits, u.decoded, named m, u.converts) refl

  gets_reply :
      (id : ℕ) (m : Method) (req : Request m) (t : Text) (p : Process)
      (stats : Option BandwidthStats)
      → IsUnderstood id m req t
      → let reply = marshal (replied id m (served m req t p).2) in
        make_rpc_call codec (connected p) id (method_name m) m req stats
        ≡ receive_reply codec m (some reply) (counted_by (add_sent (length t)) stats)
  unfolding make_rpc_call send_call connected reply_text
  gets_reply id m req t p stats u = rw (u.marshals, understood id m req t p u) refl

  read :
      (id : ℕ) (m : Method) (resp : Response m) (stats : Option BandwidthStats)
      → IsReadable id m resp
      → receive_reply codec m (some (marshal (replied id m resp))) stats
        ≡ (counted_by (add_received (length (marshal (replied id m resp)))) stats, gives resp)
  unfolding receive_reply read_reply convert_result converted read_into_buffer text_eq
  read id m resp stats r =
      rw
        (
          take_all buffer_size (marshal (replied id m resp)) r.fits,
          r.decoded,
          r.marshals,
          r.converts,
        )
        refl

  -- A call of a method whose request and response fit into the buffers and are decoded as what they
  -- are, to a process that hears it, gives exactly what the handler of the method answers; the
  -- caller counts the bytes that it sent and received, and the process is left as the handler leaves
  -- it, with the bytes of the request and of the answer counted.
  pub make_rpc_call-serve :
      (id : ℕ) (m : Method) (req : Request m) (t : Text) (p : Process)
      (stats : Option BandwidthStats)
      → IsUnderstood id m req t
      → IsReadable id m (served m req t p).2
      → let (p', run, resp) = served m req t p in
        let reply = marshal (replied id m resp) in
        (make_rpc_call codec (connected p) id (method_name m) m req stats ≡ (
          counted_by (add_received (length reply)) (counted_by (add_sent (length t)) stats),
          gives resp,
        ))
        × ((hears t p).0 ≡ sent unmarshal convert_params marshal hash_of now (replied id m resp) p')
  make_rpc_call-serve id m req t p stats u r = (
    gets_reply id m req t p stats u
        ∙ read id m (served m req t p).2 (counted_by (add_sent (length t)) stats) r,
    ap (λ x. x.0) (understood id m req t p u),
  )

  -- A response that is longer than the buffer, of which no beginning is JSON.
  pub record IsTooLong (id : ℕ) (m : Method) (resp : Response m) : Type 0 where
    pub exceeds : buffer_size < length (marshal (replied id m resp))
    pub beginnings :
        (k : ℕ)
        → k < length (marshal (replied id m resp))
        → codec.unmarshal_response (take k (marshal (replied id m resp))) ≡ none

  -- A call whose request is understood, but whose response is longer than 4096 bytes, of which no
  -- proper beginning is JSON, is an error for the caller, who has counted 4096 received bytes; but
  -- the handler has run at the process that was called, which is left as after a call that succeeds
  -- and counts the whole answer as sent.
  pub make_rpc_call_cut :
      (id : ℕ) (m : Method) (req : Request m) (t : Text) (p : Process)
      (stats : Option BandwidthStats)
      → IsUnderstood id m req t
      → IsTooLong id m (served m req t p).2
      → let (p', run, resp) = served m req t p in
        (make_rpc_call codec (connected p) id (method_name m) m req stats ≡ (
          counted_by (add_received 4096) (counted_by (add_sent (length t)) stats),
          fails unmarshal_response_error,
        ))
        × ((hears t p).0 ≡ sent unmarshal convert_params marshal hash_of now (replied id m resp) p')
  unfolding receive_reply read_reply read_into_buffer
  make_rpc_call_cut id m req t p stats u long =
      let reply = marshal (replied id m (served m req t p).2) in
      (
        gets_reply id m req t p stats u
            ∙ rw (receive_reply, long.beginnings buffer_size long.exceeds, read_reply)
                (ap
                  (λ n. (
                    counted_by (add_received n) (counted_by (add_sent (length t)) stats),
                    fails unmarshal_response_error,
                  ))
                  (length-take buffer_size reply ∙ omega (arith, long.exceeds))),
        ap (λ x. x.0) (understood id m req t p u),
      )
