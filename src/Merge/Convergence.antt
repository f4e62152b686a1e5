-- ===== src/Merge/Convergence.antt =====
-- With suspicion, nodes that hear the same messages in different orders go on to agree.
use hydfs.Prelude.{ℕ, Text, ◌≡◌, Option, none, some, List, [], ◌∷◌, ◌&&◌, All, if◌then◌else◌, true}
use hydfs.Config.{Config}
use hydfs.Member.{Member, dead, status_eq}
use hydfs.Membership.{has_id}
use hydfs.Membership.Identity.{HasUniqueIds, find_member}
use hydfs.Server.{Server}
use hydfs.Merge.{is_gossip, merge_membership}
use hydfs.Merge.Self.{IsDetected}
use hydfs.Merge.Join.{Belief, belief, join}

-- A message of a peer, at the time of its arrival.
pub record Message : Type 0 where
  pub time : ℕ
  pub sender : Text
  pub list : List Member

unfoldable pub receive : Config → Server → List Message → Server
receive c s [] = s
receive c s (msg ∷ msgs) = receive c (merge_membership c msg.time msg.list msg.sender s) msgs

-- What one message adds to a belief about the member of an ID; the gossip protocol skips a report
-- of death.
abbrev heed : Config → Belief → Option Member → Belief
heed c b none = b
heed c b (some r) = if is_gossip c.protocol && status_eq r.status dead then b else join b (belief r)

unfoldable pub heed_all : Config → Text → Belief → List Message → Belief
heed_all c id b [] = b
heed_all c id b (msg ∷ msgs) = heed_all c id (heed c b (find_member id msg.list)) msgs

-- The list repeats no ID, and says of the member of an ID that it is alive, suspected or dead.
abbrev pub IsMessage : Text → Message → Type 0
IsMessage id msg =
    HasUniqueIds msg.list × All (λ r. has_id id r ≡ true → IsDetected r.status) msg.list

abbrev pub believed : Option Member → Option Belief
believed none = none
believed (some m) = some (belief m)
