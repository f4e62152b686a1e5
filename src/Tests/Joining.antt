-- ===== src/Tests/Joining.antt =====
-- A node that joins a group of three, and a datagram that is answered.
use hydfs.Prelude.{ℕ, Text, false, codes, text_eq, ◌≡◌, refl, Option, some, none, [], ◌∷◌, inl}
use hydfs.Config.{initial_config}
use hydfs.Member.{member_id, alive}
use hydfs.Membership.Identity.{find_member}
use hydfs.Server.{Server, server_id, self_member}
use hydfs.Merge.Told.{told_by}
use hydfs.Rpc.{accepted, join_request, notify_introducer}
use hydfs.Rpc.Dispatch.{Method, ping, Request, RpcMessage, RpcResponse, Process}
use hydfs.Rpc.Joining.{adopted, notify_introducer-join_request}
use hydfs.Tests.Data.{member, second_one, ring_unique, server, pinging}

abbrev newcomer : Server
newcomer = record server {
  addr = codes "d";
  is_introducer = false;
  members = member (codes "d") 30 alive 1 ∷ [];
  hash = 30;
}

abbrev hash_of : Text → ℕ
hash_of address = 30

notify_introducer-join_request_example :
    let (introducer, resp) = join_request pinging hash_of 4 (self_member 4 newcomer) server in
    (find_member (codes "d-7") introducer.members
      ≡ some (accepted hash_of 4 (self_member 4 newcomer)))
    × (find_member (codes "b-7") introducer.members ≡ some second_one)
    × ((s' : Server) × (notify_introducer 5 (some resp) initial_config newcomer
          ≡ some (adopted pinging initial_config, s'))
        × (find_member (codes "b-7") s'.members
            ≡ told_by (adopted pinging initial_config) 5 (codes "a-7") (some second_one) none))
unfolding member_id server_id text_eq
notify_introducer-join_request_example =
    notify_introducer-join_request pinging initial_config hash_of 4 5 server newcomer (codes "b-7")
      refl (inl refl) ring_unique (refl, tt) refl

abbrev decode : Text → Option (RpcMessage Text)
decode bytes = some (record { method = codes "Ping"; params = bytes; id = 5 })

-- a ping names its sender, and nothing else converts
abbrev convert : (m : Method) → Text → Option (Request m)
convert m params = elim m as (λ x. Option (Request x)) [ ping ↦ some (params, []) | _ ↦ none ]

abbrev process : Process
process = record { config = pinging; server = server }

abbrev encode : RpcResponse → Text
encode resp = codes "ok"
