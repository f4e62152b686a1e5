-- ===== src/Transfer/Listening.antt =====
-- grpc_server.go, `StartHyDFSGRPCServer`: where a node listens for transfers.
use hydfs.Prelude.{
  ℕ, suc, ◌^◌, ◌<◌, Text, ◌≡◌, ◌≢◌, refl, Option, none, some, [], ◌∷◌, ◌++◌, Bool, false, ◌==◌,
  if◌then◌else◌, length, take, drop, any, All, arith,
}
use hydfs.Prelude.Decimal.{ℤ, pos, ◌+ℤ◌, show_nat, show_int, read_digits-show_nat, atoi, last_index}
use hydfs.Prelude.Digits.{
  IsHost, IsDigit, show_nat-IsDigit, show_nat-ne-nil, last_index_of_digits, last_index-append,
  take-length-append, atoi_of_digits,
}
use hydfs.Member.{convert_to_grpc_address}
use hydfs.Member.Naming.{convert_to_grpc_address_port}

abbrev in_front_of : Option ℕ → Option ℕ
in_front_of none = none
in_front_of (some i) = some (suc i)

-- `strings.IndexByte(s, c)`
unfoldable pub index_of : ℕ → Text → Option ℕ
index_of c [] = none
index_of c (x ∷ xs) = let rest = index_of c xs in if x == c then some 0 else in_front_of rest

abbrev pub has_byte : ℕ → Text → Bool
has_byte c = any (λ x. x == c)

-- The checks for brackets out of place, after `j` and after `k` bytes.
checked_parts : Text → ℕ → ℕ → Text × Text → Option (Text × Text)
checked_parts s j k parts =
    if has_byte b'[' (drop j s) then none else if has_byte b']' (drop k s) then none else some parts

-- an address like "[::1]:80", whose last colon has index `i`
bracketed : Text → ℕ → Option ℕ → Option (Text × Text)
unfolding checked_parts
bracketed s i none = none
bracketed s i (some end) =
    if suc end == i then checked_parts s 1 (suc end) (drop 1 (take end s), drop (suc i) s) else none

plain : Text → ℕ → Option (Text × Text)
unfolding checked_parts
plain s i =
    if has_byte b':' (take i s) then none else checked_parts s 0 0 (take i s, drop (suc i) s)

starts_bracket : Text → Bool
starts_bracket [] = false
starts_bracket (c ∷ s) = c == b'['

split_last : Text → Option ℕ → Option (Text × Text)
unfolding bracketed plain index_of starts_bracket
split_last s none = none
split_last s (some i) = if starts_bracket s then bracketed s i (index_of b']' s) else plain s i

-- `net.SplitHostPort`
unfoldable pub split_host_port : Text → Option (Text × Text)
unfolding split_last last_index
split_host_port s = split_last s (last_index b':' s)

grpc_port : Text → Option ℤ → Option Text
unfolding ◌+ℤ◌ show_int
grpc_port host none = none
grpc_port host (some port) = some (host ++ b':' ∷ show_int (port +ℤ pos 1000))

-- The address that `StartHyDFSGRPCServer` listens on; `none` is an address that does not parse.
unfoldable pub grpc_listen_address : Text → Option Text
unfolding split_host_port grpc_port atoi
grpc_listen_address addr = elim (split_host_port addr) [
  | none ↦ none
  | some (host, port) ↦ grpc_port host (atoi port)
]

-- a byte that is part of an address without brackets
abbrev pub IsPlain : ℕ → Type 0
IsPlain c = (c ≢ b':') × (c ≢ b'[') × (c ≢ b']')

has_byte-append :
    (c : ℕ) (s t : Text) → has_byte c s ≡ false → has_byte c t ≡ false → has_byte c (s ++ t) ≡ false
has_byte-append c [] t h k = k
has_byte-append c (x ∷ s) t h k = ground (arith, has_byte-append c s t)

plain_has :
    (host : Text)
    → All IsPlain host
    → (has_byte b':' host ≡ false) × (has_byte b'[' host ≡ false) × (has_byte b']' host ≡ false)
plain_has [] h = (refl, refl, refl)
plain_has (c ∷ host) h = ground (arith, plain_has host h.1)

digits_have : (s : Text) → All IsDigit s → (has_byte b'[' s ≡ false) × (has_byte b']' s ≡ false)
digits_have [] h = (refl, refl)
digits_have (c ∷ s) h = ground (arith, digits_have s h.1)

plain-IsHost : (host : Text) → All IsPlain host → IsHost host
plain-IsHost [] h = tt
plain-IsHost (c ∷ host) h = (h.0.0, plain-IsHost host h.1)

starts_plain : (host t : Text) → All IsPlain host → starts_bracket (host ++ b':' ∷ t) ≡ false
unfolding starts_bracket
starts_plain [] t h = refl
starts_plain (c ∷ host) t h = ground arith

drop_past_length : (host t : Text) (c : ℕ) → drop (suc (length host)) (host ++ c ∷ t) ≡ t
drop_past_length [] t c = refl
drop_past_length (x ∷ host) t c = drop_past_length host t c

split_host_port_plain :
    (host t : Text)
    → All IsPlain host
    → All IsDigit t
    → split_host_port (host ++ b':' ∷ t) ≡ some (host, t)
unfolding split_host_port split_last plain checked_parts
split_host_port_plain host t h d =
    let (no_colon, no_open, no_close) = plain_has host h in
    let (open_t, close_t) = digits_have t d in
    rw
      (
        last_index-append b':' host t (last_index_of_digits b':' t refl d),
        starts_plain host t h,
        take-length-append host (b':' ∷ t),
        no_colon,
        has_byte-append b'[' host (b':' ∷ t) no_open open_t,
        has_byte-append b']' host (b':' ∷ t) no_close close_t,
        drop_past_length host t b':',
      )
      refl

-- For a host without colon and brackets and a port, a node listens for transfers at exactly the
-- address that `ConvertToGRPCAddress` gives the nodes that send to it.
pub grpc_listen_address-convert :
    (host : Text) (port : ℕ)
    → All IsPlain host
    → port < 2 ^ 63
    → grpc_listen_address (host ++ b':' ∷ show_nat port)
      ≡ some (convert_to_grpc_address (host ++ b':' ∷ show_nat port))
unfolding grpc_listen_address grpc_port ◌+ℤ◌ show_int
grpc_listen_address-convert host port h small =
    rw
      (
        grpc_listen_address,
        split_host_port_plain host (show_nat port) h (show_nat-IsDigit port),
        atoi_of_digits (show_nat port) port (show_nat-ne-nil port) (show_nat-IsDigit port)
            (read_digits-show_nat port) small,
        convert_to_grpc_address_port host port (plain-IsHost host h) small,
      )
      refl
