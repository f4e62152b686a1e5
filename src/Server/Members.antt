-- ===== src/Server/Members.antt =====
-- A node changes its own list of members by `AddOrUpdate` alone.
use hydfs.Prelude.{Bool, ℕ, Text, ◌≡◌, refl, Option, none, some, List, [], lookup}
use hydfs.Prelude.Decimal.{ℤ}
use hydfs.Config.{Config, ProtocolType, gossip_protocol, ping_ack_protocol, other_protocol}
use hydfs.Member.{Member}
use hydfs.Membership.{add_or_update, snapshot}
use hydfs.Server.{Server, new_server, beat, increase_heartbeat, leave_as, leave_group, server_id}

module _ (P : List Member → Type 0)
    (keep : (m : Member) (nodes : List Member) → P nodes → P (add_or_update m nodes)) where
  pub new_server_keeps :
      (hash_of : Text → ℕ) (seconds : ℤ) (now : ℕ) (addr introducer_addr : Text)
      (is_introducer : Bool)
      → P []
      → P (new_server hash_of seconds now addr introducer_addr is_introducer).members
  unfolding new_server
  new_server_keeps hash_of seconds now addr introducer_addr is_introducer h = keep _ [] h

  beat_keeps : (now : ℕ) (s : Server) → P s.members → P (beat now s).members
  unfolding beat
  beat_keeps now s h = keep _ s.members h

  heartbeat_by :
      (p : ProtocolType) (c : Config) (now : ℕ) (s : Server)
      → c.protocol ≡ p
      → P s.members
      → P (increase_heartbeat c now s).members
  unfolding increase_heartbeat
  heartbeat_by gossip_protocol c now s e h = rw (increase_heartbeat, e) (beat_keeps now s h)
  heartbeat_by ping_ack_protocol c now s e h = rw (increase_heartbeat, e) h
  heartbeat_by (other_protocol t) c now s e h = rw (increase_heartbeat, e) (beat_keeps now s h)

  pub increase_heartbeat_keeps :
      (c : Config) (now : ℕ) (s : Server) → P s.members → P (increase_heartbeat c now s).members
  increase_heartbeat_keeps c now s h = heartbeat_by c.protocol c now s refl h

  leave_as_keeps :
      (o : Option Member) (now : ℕ) (s : Server) → P s.members → P (leave_as o now s).members
  unfolding leave_as
  leave_as_keeps none now s h = h
  leave_as_keeps (some m) now s h = keep _ s.members h

  pub leave_group_keeps : (now : ℕ) (s : Server) → P s.members → P (leave_group now s).members
  unfolding leave_group
  leave_group_keeps now s h = leave_as_keeps (lookup (server_id s) (snapshot s.members)) now s h
