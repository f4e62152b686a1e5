-- ===== src/Rpc/Answers.antt =====
-- What an answer leaves at the process that sends it.
use hydfs.Prelude.{ℕ, Text, Option, length}
use hydfs.Bandwidth.{add_sent}
use hydfs.Rpc.Dispatch.{Method, Request, Process, RpcMessage, RpcResponse}

module _ {P : Type 0} (unmarshal : Text → Option (RpcMessage P))
    (convert_params : (m : Method) → P → Option (Request m)) (marshal : RpcResponse → Text)
    (hash_of : Text → ℕ) (now : ℕ) where
  -- a process that has sent an answer
  abbrev pub sent : RpcResponse → Process → Process
  sent resp p = record p {
    server = record p.server {
      bandwidth_stats = add_sent (length (marshal resp)) p.server.bandwidth_stats;
    };
  }
