-- ===== src/Config/Switching.antt =====
-- What the `switch` command leaves in the configuration.
use hydfs.Prelude.{Text, ◌≡◌, some, ◌⊎◌, arith}
use hydfs.Config.{
  Config, gossip_protocol, ping_ack_protocol, suspect, no_suspect, handle_switch, fanout_of,
}

-- The protocol and the suspicion mode are values for which the membership code has a branch.
pub record IsKnown (c : Config) : Type 0 where
  pub known_protocol : (c.protocol ≡ gossip_protocol) ⊎ (c.protocol ≡ ping_ack_protocol)
  pub known_suspicion : (c.suspicion ≡ suspect) ⊎ (c.suspicion ≡ no_suspect)

-- A switch command that succeeds, whatever the words typed, leaves a known protocol and a known
-- suspicion mode, and changes nothing else but the fanout, which is that of the protocol.
pub handle_switch-IsKnown :
    (protocol_str suspicion_str : Text) (c : Config) {c' : Config}
    → handle_switch protocol_str suspicion_str c ≡ some c'
    → IsKnown c'
      × (c'.fanout ≡ fanout_of c'.protocol)
      × (c'.replication_factor ≡ c.replication_factor)
      × (c'.hash_bits ≡ c.hash_bits)
      × (c'.introducer_addr ≡ c.introducer_addr)
unfolding handle_switch
handle_switch-IsKnown p s c h = ground arith
