-- ===== src/Tests/Calling.antt =====
-- Calls between processes, a group that is started, metadata as JSON, and addresses.
use hydfs.Prelude.{
  ℕ, Text, codes, text_eq, ◌≡◌, refl, Option, none, some, [], ◌∷◌, ◌++◌, true, false, lookup,
  insert, if◌then◌else◌, arith, All, ◌&&◌,
}
use hydfs.Prelude.Decimal.{pos, show_nat, to_lower, digits_upto}
use hydfs.Config.{Config, initial_config, ping_ack_protocol, suspect, handle_switch}
use hydfs.Member.{Member, alive, convert_to_grpc_address}
use hydfs.Membership.{snapshot}
use hydfs.Merge.Members.{IsWellFormed}
use hydfs.Metadata.Encoding.{
  EncodedFile, encoded, marshal_json, unmarshal_json, unmarshal_json-marshal_json,
}
use hydfs.Bandwidth.{zero_stats, add_sent, add_received}
use hydfs.Rpc.Dispatch.{
  Method, join, merge, Request, Response, RpcMessage, RpcResponse, replied, Process,
  listen_for_messages, serve,
}
use hydfs.Rpc.Answers.{sent}
use hydfs.Rpc.Client.{Codec, gives, make_rpc_call}
use hydfs.Rpc.Client.Exchange
use hydfs.Rpc.Client.Exchange.{
  method_name, connected, served, IsUnderstood, IsReadable, make_rpc_call-serve,
}
use hydfs.Gossip.Rounds.{Group}
use hydfs.Gossip.Schedule.{here, next, starts, hears}
use hydfs.Gossip.Reachable.{GroupReach-IsWellFormed}
use hydfs.Gossip.Switching.{switch_command, switched, is_told, switch_command_lem}
use hydfs.Transfer.Listening.{IsPlain, grpc_listen_address, grpc_listen_address-convert}
use hydfs.Server.{new_server}
use hydfs.Tests.Data.{server, sent_file, member, ring}

abbrev process : Process
process = record { config = initial_config; server = server }

-- The only request is to merge a file, which is its own JSON.
abbrev decode : Text → Option (RpcMessage Text)
decode bytes = some (record { method = codes "Merge"; params = bytes; id = 5 })

abbrev convert : (m : Method) → Text → Option (Request m)
convert m params = elim m as (λ x. Option (Request x)) [ merge ↦ some params | _ ↦ none ]

abbrev encode : RpcResponse → Text
encode resp = codes "ok"

abbrev hash_of : Text → ℕ
hash_of address = 30

abbrev own_text : (m : Method) → Request m → Option Text
own_text m = elim m as (λ x. Request x → Option Text) [ merge ↦ λ name. some name | _ ↦ λ r. none ]

abbrev succeeded : (m : Method) → Option (Response m)
succeeded m = elim m as (λ x. Option (Response x)) [ merge ↦ some true | _ ↦ none ]

abbrev codec : Codec Text
codec = record {
  marshal_request = λ name m req id. own_text m req;
  unmarshal_response = λ bytes. some (record { result = bytes; error = [] });
  marshal_result = λ result. some result;
  unmarshal_result = λ m bytes. succeeded m;
}

make_rpc_call-serve_example :
    (make_rpc_call codec
        (connected decode convert encode hash_of 4 codec process)
        5
        (codes "Merge")
        merge
        (codes "f")
        (some zero_stats)
      ≡ (some (add_received 2 (add_sent 1 zero_stats)), gives true))
    × ((Exchange.hears decode convert encode hash_of 4 codec (codes "f") process).0
        ≡ sent decode convert encode hash_of 4
            (replied 5 merge true)
            (served decode convert encode hash_of 4 codec merge (codes "f") (codes "f") process).0)
unfolding serve
make_rpc_call-serve_example =
    make_rpc_call-serve decode convert encode hash_of 4 codec 5 merge (codes "f") (codes "f")
      process (some zero_stats)
      (record {
        marshals = refl;
        fits = omega arith;
        params = codes "f";
        decoded = refl;
        converts = refl;
      })
      (record {
        fits = omega arith;
        result = codes "ok";
        result_text = codes "ok";
        decoded = refl;
        marshals = refl;
        converts = refl;
      })

abbrev encode_file : EncodedFile → Option Text
encode_file aux = some (aux.file_name ++ aux.file_name_hash)

abbrev decode_file : Text → Option EncodedFile
decode_file json = some (encoded sent_file)

unmarshal_json-marshal_json_example :
    unmarshal_json encode_file decode_file (codes "f9")
    ≡ some (record { file = sent_file; is_negative = false })
unfolding marshal_json show_nat digits_upto
unmarshal_json-marshal_json_example =
    unmarshal_json-marshal_json encode_file decode_file sent_file (codes "f9") (λ t e. refl) refl

grpc_listen_address-convert_example :
    grpc_listen_address (codes "10.0.0.1" ++ b':' ∷ show_nat 5000)
    ≡ some (convert_to_grpc_address (codes "10.0.0.1" ++ b':' ∷ show_nat 5000))
grpc_listen_address-convert_example =
    grpc_listen_address-convert (codes "10.0.0.1") 5000 plain (omega arith)
  where
    plain : All IsPlain (codes "10.0.0.1")
    plain = ground arith

-- The introducer starts at "a", and a node at "b" asks it to join.
abbrev joining : Text → Option (RpcMessage Member)
joining bytes = some (record { method = codes "Join"; params = member bytes 30 alive 1; id = 5 })

abbrev as_member : (m : Method) → Member → Option (Request m)
as_member m params = elim m as (λ x. Option (Request x)) [ join ↦ some params | _ ↦ none ]

abbrev alone : Group
alone =
    insert (codes "a")
      (record {
        config = initial_config;
        server = new_server hash_of (pos 7) 3 (codes "a") (codes "a") true;
      })
      []

abbrev introducer : Process
introducer = record {
  config = initial_config;
  server = new_server hash_of (pos 7) 3 (codes "a") (codes "a") true;
}

abbrev asked : Process
asked = (listen_for_messages joining as_member encode hash_of 4 false (codes "b") introducer).0

GroupReach-IsWellFormed_example : IsWellFormed asked.server.members
unfolding lookup insert text_eq
GroupReach-IsWellFormed_example =
    GroupReach-IsWellFormed (insert (codes "a") asked alone) (codes "a") asked
      (next (next here (starts (codes "a") initial_config hash_of (pos 7) 3 (codes "a") true))
        (hears joining as_member encode hash_of 4 (codes "a") introducer false (codes "b") refl))
      refl

-- The node at "a" has the nodes at "b" and "c" among its members, and reaches both.
abbrev pair : Group
pair = (codes "a", process) ∷ (codes "c", process) ∷ []

abbrev pinged : Config
pinged = record initial_config { protocol = ping_ack_protocol; suspicion = suspect; fanout = 1 }

switch_command_lem_example :
    (group' : Group) × (switch_command (λ a. true) (codes "ping") (codes "Suspect") process pair
      ≡ some group')
    × (lookup (codes "c") group'
        ≡ some (
            if text_eq (codes "a") (codes "c")
            then record process { config = pinged }
            else if is_told (codes "c") (snapshot ring) && true
            then switched ping_ack_protocol suspect process
            else process))
unfolding handle_switch lookup to_lower text_eq
switch_command_lem_example =
    switch_command_lem (λ a. true) (codes "ping") (codes "Suspect") process pair (codes "c")
      {c = pinged} {q = process} refl refl
