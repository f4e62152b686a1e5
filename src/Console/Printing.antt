-- ===== src/Console/Printing.antt =====
-- membership_list.go, `Print` and `PrintSuspectedNodes`, metadata.go, `PrintFileMetadata`, and cli.go,
-- `printCurrentProtocol`: what the commands show.
pub mod Logged
use hydfs.Prelude.{
  ℕ, zero, suc, ◌+◌, ◌*◌, Text, codes, ◌≡◌, refl, ap, ◌∙◌, Option, none, some, List, [], ◌∷◌, ◌++◌,
  Bool, true, false, lookup, length, length-append, ltb, if◌then◌else◌, arith,
}
use hydfs.Prelude.Decimal.{show_nat}
use hydfs.Config.{
  Config, ProtocolType, SuspicionType, gossip_protocol, ping_ack_protocol, other_protocol,
  address_to_vm_name,
}
use hydfs.Member.{Member, Status, member_id}
use hydfs.Membership.{get_suspected_nodes}
use hydfs.Metadata.{AppendInfo, FileMetadata, Metadata, get_file}
use hydfs.Server.{vm_name_of}
use hydfs.Console.{Console, log_info, console_printf, console_println, terminated, logged}
use hydfs.Member
use hydfs.Config

-- `%s` of a status
abbrev pub show_status : Status → Text
show_status Member.alive = codes "alive"
show_status Member.suspect = codes "suspect"
show_status Member.dead = codes "dead"
show_status Member.voluntary_leave = codes "voluntary_leave"
show_status (Member.other_status t) = t

-- the fields that both lines of `Print` start with
member_head : Member → Text
unfolding lookup address_to_vm_name member_id show_nat
member_head m =
    codes "VMName: "
    ++ vm_name_of (lookup m.address address_to_vm_name)
    ++ codes " | Member: "
    ++ member_id m
    ++ codes " | Hash: "
    ++ show_nat m.hash

gossip_line : Text → Member → Text
unfolding member_head show_nat
gossip_line separator m =
    member_head m
    ++ separator
    ++ codes "Status:  "
    ++ show_status m.status
    ++ codes "| Heartbeat: "
    ++ show_nat m.heartbeat
    ++ codes "| Incarnation: "
    ++ show_nat m.incarnation
    ++ 10 ∷ []

ping_line : Member → Text
unfolding member_head show_nat
ping_line m =
    member_head m
    ++ codes " | Status:  "
    ++ show_status m.status
    ++ codes "| Incarnation: "
    ++ show_nat m.incarnation
    ++ codes " \n"

printed_if : Bool → Text → Console → Console
unfolding console_printf
printed_if print_on_console text c = if print_on_console then console_printf text c else c

abbrev pub headed_if : Bool → Text → Console → Console
unfolding console_println
headed_if print_on_console text c = if print_on_console then console_println text c else c

print_member : ProtocolType → Bool → Member → Console → Console
unfolding printed_if gossip_line ping_line log_info
print_member gossip_protocol on_console m c =
    log_info true (gossip_line (codes "| ") m)
      (printed_if on_console (gossip_line (codes " | ") m) c)
print_member ping_ack_protocol on_console m c =
    log_info true (ping_line m) (printed_if on_console (ping_line m) c)
print_member (other_protocol t) on_console m c = c

print_members : ProtocolType → Bool → List Member → Console → Console
unfolding print_member
print_members protocol on_console [] c = c
print_members protocol on_console (m ∷ nodes) c =
    print_members protocol on_console nodes (print_member protocol on_console m c)

-- `Print`
unfoldable pub print : Config → Bool → List Member → Console → Console
unfolding print_members headed_if console_println
print config on_console nodes c = headed_if on_console (codes "-------------------------") (
    print_members config.protocol on_console nodes
      (headed_if on_console (codes "---- Membership List ----") c))

-- The log of a member that is suspected; `show_time` is the time in the format RFC 3339.
suspected_line : (ℕ → Text) → ProtocolType → Member → Option Text
unfolding member_id show_nat
suspected_line show_time gossip_protocol m = some (
    codes "Suspected Member: "
    ++ member_id m
    ++ codes " | Status:  "
    ++ show_status m.status
    ++ codes "| Heartbeat: "
    ++ show_nat m.heartbeat
    ++ codes "| Incarnation: "
    ++ show_nat m.incarnation
    ++ codes "| Hash: "
    ++ show_nat m.hash
    ++ codes "| LastUpdated: "
    ++ show_time m.last_updated
    ++ 10 ∷ [])
suspected_line show_time ping_ack_protocol m = some (
    codes "Suspected Member: "
    ++ member_id m
    ++ codes " | Status:  "
    ++ show_status m.status
    ++ codes "| Incarnation: "
    ++ show_nat m.incarnation
    ++ codes "| Hash: "
    ++ show_nat m.hash
    ++ 10 ∷ [])
suspected_line show_time (other_protocol t) m = none

shown_and_logged : Option Text → Console → Console
unfolding console_printf log_info
shown_and_logged none c = c
shown_and_logged (some line) c = log_info true line (console_printf line c)

print_suspects : (ℕ → Text) → ProtocolType → List Member → Console → Console
unfolding shown_and_logged suspected_line
print_suspects show_time protocol [] c = c
print_suspects show_time protocol (m ∷ nodes) c =
    print_suspects show_time protocol nodes
      (shown_and_logged (suspected_line show_time protocol m) c)

-- `PrintSuspectedNodes`
unfoldable pub print_suspected_nodes : (ℕ → Text) → Config → List Member → Console → Console
unfolding print_suspects console_println get_suspected_nodes
print_suspected_nodes show_time config nodes c =
    console_println (codes "-------------------------") (
      print_suspects show_time config.protocol (get_suspected_nodes nodes)
        (console_println (codes "---- Membership List ----") c))

-- `printCurrentProtocol`, with `rate` for the drop rate as it is shown
abbrev pub show_protocol : ProtocolType → Text
show_protocol gossip_protocol = codes "gossip"
show_protocol ping_ack_protocol = codes "ping"
show_protocol (other_protocol t) = t

abbrev pub show_suspicion : SuspicionType → Text
show_suspicion Config.suspect = codes "suspect"
show_suspicion Config.no_suspect = codes "nosuspect"
show_suspicion (Config.other_suspicion t) = t

unfoldable pub print_current_protocol : Text → Config → Console → Console
unfolding console_printf
print_current_protocol rate config c =
    console_printf
      (codes "Current Protocol: "
        ++ show_protocol config.protocol
        ++ codes " | Suspicion: "
        ++ show_suspicion config.suspicion
        ++ codes " | Message Drop Rate: "
        ++ rate
        ++ codes "%\n")
      c
