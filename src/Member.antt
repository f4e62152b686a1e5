-- ===== src/Member.antt =====
-- member.go and utils.go: a member of the group, its ID, and the addresses made from it.
pub mod Naming
use hydfs.Prelude.{
  ℕ, ◌%◌, ◌^◌, Text, codes, text_eq, Option, none, some, List, [], ◌∷◌, ◌++◌, Bool, true, false,
  length, take, if◌then◌else◌,
}
use hydfs.Prelude.Decimal.{ℤ, pos, negsuc, ◌+ℤ◌, show_int, atoi, last_index, split_at}

-- `Status`, a string type: a peer may send any other string.
pub data Status : Type 0 where
  alive suspect dead voluntary_leave : Status
  other_status : Text → Status

-- `NodeCreationTimestamp` is held in Unix seconds, the only way in which the program reads it;
-- `LastUpdated` in nanoseconds after Go's zero time; `Hash`, a `big.Int` that is never negative,
-- as its value.
pub record Member : Type 0 where
  pub address : Text
  pub node_creation_timestamp : ℤ
  pub status : Status
  pub heartbeat : ℕ
  pub incarnation : ℕ
  pub last_updated : ℕ
  pub hash : ℕ

-- `Member{}`: the Unix time of Go's zero time is -62135596800.
abbrev pub zero_member : Member
zero_member = record {
  address = [];
  node_creation_timestamp = negsuc 62135596799;
  status = other_status [];
  heartbeat = 0;
  incarnation = 0;
  last_updated = 0;
  hash = 0;
}

-- `fmt.Sprintf("%s-%d", address, seconds)`, for members and for the server
unfoldable pub node_id : Text → ℤ → Text
unfolding show_int
node_id address seconds = address ++ b'-' ∷ show_int seconds

unfoldable pub member_id : Member → Text
unfolding node_id
member_id m = node_id m.address m.node_creation_timestamp

unfoldable pub mark_suspect : ℕ → Member → Member
mark_suspect now m = record m { status = suspect; last_updated = now }

unfoldable pub mark_dead : ℕ → Member → Member
mark_dead now m = record m { status = dead; last_updated = now }

unfoldable pub mark_voluntary_leave : ℕ → Member → Member
mark_voluntary_leave now m = record m { status = voluntary_leave; last_updated = now }

-- `s == StatusAlive` and the other comparisons of a status
unfoldable pub status_eq : Status → Status → Bool
unfolding text_eq
status_eq alive alive = true
status_eq suspect suspect = true
status_eq dead dead = true
status_eq voluntary_leave voluntary_leave = true
status_eq (other_status s) (other_status t) = text_eq s t
status_eq _ _ = false

abbrev pub is_alive : Member → Bool
is_alive m = elim m.status [ alive ↦ true | _ ↦ false ]

-- `HashToMbits`: the digest, read as a big-endian number, modulo 2^bits. SHA-1 is a parameter.
unfoldable pub hash_to_mbits : (Text → ℕ) → ℕ → Text → ℕ
hash_to_mbits digest bits input = digest input % 2 ^ bits

before_dash : Text → Option ℕ → Text
before_dash id none = []
before_dash id (some i) = take i id

unfoldable pub get_address_from_id : Text → Text
unfolding last_index before_dash
get_address_from_id id = before_dash id (last_index b'-' id)

grpc_address : Text → Text → Option ℤ → Text
unfolding show_int ◌+ℤ◌
grpc_address udp_addr host none = udp_addr
grpc_address udp_addr host (some port) = host ++ b':' ∷ show_int (port +ℤ pos 1000)

grpc_parts : Text → List Text → Text
unfolding atoi grpc_address
grpc_parts udp_addr (host ∷ port ∷ []) = grpc_address udp_addr host (atoi port)
grpc_parts udp_addr _ = udp_addr

-- an address that is not of the form host:port comes back as it is
unfoldable pub convert_to_grpc_address : Text → Text
unfolding split_at grpc_parts
convert_to_grpc_address udp_addr = grpc_parts udp_addr (split_at b':' [] udp_addr)
