-- ===== src/Member/Naming.antt =====
-- IDs and addresses: an ID names one address and one creation time.
use hydfs.Prelude.{ℕ, ◌+◌, ◌^◌, ◌<◌, Text, ◌≡◌, refl, [], ◌∷◌, ◌++◌}
use hydfs.Prelude.Decimal.{pos, show_nat, read_digits-show_nat}
use hydfs.Prelude.Digits.{
  IsHost, show_nat-IsDigit, show_nat-ne-nil, last_index_of_digits, last_index-append,
  take-length-append, split_at_of_digits, split_at-append, atoi_of_digits,
}
use hydfs.Member.{Member, member_id, get_address_from_id, convert_to_grpc_address}

-- The address read from a member's ID is the member's address, whatever bytes the address holds,
-- if the member was created at or after 1970.
pub get_address_from_id-member_id :
    (m : Member) (seconds : ℕ)
    → m.node_creation_timestamp ≡ pos seconds
    → get_address_from_id (member_id m) ≡ m.address
unfolding get_address_from_id member_id
get_address_from_id-member_id m seconds h =
    rw
      (
        h,
        last_index-append b'-' m.address (show_nat seconds)
            (last_index_of_digits b'-' (show_nat seconds) refl (show_nat-IsDigit seconds)),
      )
      (take-length-append m.address (b'-' ∷ show_nat seconds))

-- A host and a UDP port become the same host and the port 1000 higher.
pub convert_to_grpc_address_port :
    (host : Text) (port : ℕ)
    → IsHost host
    → port < 2 ^ 63
    → convert_to_grpc_address (host ++ b':' ∷ show_nat port) ≡ host ++ b':' ∷ show_nat (port + 1000)
unfolding convert_to_grpc_address
convert_to_grpc_address_port host port h small =
    rw
      (
        split_at-append [] host (show_nat port) h,
        split_at_of_digits [] (show_nat port) (show_nat-IsDigit port),
        atoi_of_digits (show_nat port) port (show_nat-ne-nil port) (show_nat-IsDigit port)
            (read_digits-show_nat port) small,
      )
      refl
