-- ===== src/MessageBuffer/Metadata.antt =====
-- The metadata of a reduction behind the header of its message, Message.cpp: where each of them
-- stands, and the functions that store and load them. A message is its bytes from the header on; the
-- representation of the fixed width integers is a parameter.
use findus.Base.{ℕ, ◌+◌, ◌-◌, ◌%◌, ◌^◌, Bool, not, ◌==◌, ◌&&◌, if◌then◌else◌}
use Prim.Native.Nat.{bit_and, bit_or}
use findus.Base.Int.{ℤ}
use findus.Serializer.State.{write, read}
use findus.Serializer.Scalars.{AsBytes}

-- `sizeof(MessageHeader)`.
abbrev pub reduction_id_offset_in_bytes : ℕ
reduction_id_offset_in_bytes = 64

abbrev pub data_offset_jump_in_bytes : ℕ
data_offset_jump_in_bytes = 8 + reduction_id_offset_in_bytes

abbrev pub callback_offset_jump_in_bytes : ℕ
callback_offset_jump_in_bytes = data_offset_jump_in_bytes + 4

abbrev pub combine_offset_jump_in_bytes : ℕ
combine_offset_jump_in_bytes = callback_offset_jump_in_bytes + 4

abbrev pub data_size_jump_in_bytes : ℕ
data_size_jump_in_bytes = combine_offset_jump_in_bytes + 8

abbrev pub contributed_metadata_jump_in_bytes : ℕ
contributed_metadata_jump_in_bytes = data_size_jump_in_bytes + 4

abbrev pub target_parent_jump_in_bytes : ℕ
target_parent_jump_in_bytes = contributed_metadata_jump_in_bytes + 4

abbrev pub expected_contributions_jump_in_bytes : ℕ
expected_contributions_jump_in_bytes = target_parent_jump_in_bytes + 4

abbrev pub root_expected_contributions_jump_in_bytes : ℕ
root_expected_contributions_jump_in_bytes = expected_contributions_jump_in_bytes + 4

-- A message, by the byte at each offset from its header.
abbrev pub MessageBytes : Type 0
MessageBytes = ℕ → ℕ

-- A store of an integer, and a load of one of so many bytes.
abbrev pub store : {T : Type 0} → AsBytes T → ℕ → T → MessageBytes → MessageBytes
store as_bytes offset value message = write message offset (as_bytes.to_bytes value)

abbrev pub load : {T : Type 0} → AsBytes T → ℕ → ℕ → MessageBytes → T
load as_bytes size offset message = as_bytes.of_bytes (read message offset size)

module _ (uint64 : AsBytes ℕ) (uint32 : AsBytes ℕ) (int32 : AsBytes ℤ) where
  unfoldable pub set_id : ℕ → MessageBytes → MessageBytes
  set_id reduction_id message = store uint64 reduction_id_offset_in_bytes reduction_id message

  unfoldable pub get_id : MessageBytes → ℕ
  get_id message = load uint64 8 reduction_id_offset_in_bytes message

  unfoldable pub set_data_offset : ℕ → MessageBytes → MessageBytes
  set_data_offset data_offset message = store uint32 data_offset_jump_in_bytes data_offset message

  unfoldable pub get_data_offset : MessageBytes → ℕ
  get_data_offset message = load uint32 4 data_offset_jump_in_bytes message

  unfoldable pub set_callback_offset : ℕ → MessageBytes → MessageBytes
  set_callback_offset callback_offset message =
      store uint32 callback_offset_jump_in_bytes callback_offset message

  unfoldable pub get_callback_offset : MessageBytes → ℕ
  get_callback_offset message = load uint32 4 callback_offset_jump_in_bytes message

  -- The address, for a message whose header has the address `header`.
  unfoldable pub get_callback_address : ℕ → MessageBytes → ℕ
  unfolding get_callback_offset
  get_callback_address header message = header + get_callback_offset message

  -- A function's address is kept as its distance from that of `combine_anchor`, which differs
  -- between processes.
  unfoldable pub set_combine_function_pointer : ℕ → ℕ → MessageBytes → MessageBytes
  set_combine_function_pointer anchor pointer message =
      store uint64 combine_offset_jump_in_bytes ((pointer + 2 ^ 64 - anchor) % 2 ^ 64) message

  unfoldable pub get_combine_function_pointer : ℕ → MessageBytes → ℕ
  get_combine_function_pointer anchor message =
      (load uint64 8 combine_offset_jump_in_bytes message + anchor) % 2 ^ 64

  unfoldable pub set_data_size : ℕ → MessageBytes → MessageBytes
  set_data_size data_size message = store uint32 data_size_jump_in_bytes data_size message

  unfoldable pub get_data_size : MessageBytes → ℕ
  get_data_size message = load uint32 4 data_size_jump_in_bytes message

  unfoldable pub set_target_process_id : ℤ → MessageBytes → MessageBytes
  set_target_process_id target_process_id message =
      store int32 target_parent_jump_in_bytes target_process_id message

  unfoldable pub get_target_process_id : MessageBytes → ℤ
  get_target_process_id message = load int32 4 target_parent_jump_in_bytes message

  unfoldable pub set_expected_number_of_contributions : ℤ → MessageBytes → MessageBytes
  set_expected_number_of_contributions expected message =
      store int32 expected_contributions_jump_in_bytes expected message

  unfoldable pub get_expected_number_of_contributions : MessageBytes → ℤ
  get_expected_number_of_contributions message =
      load int32 4 expected_contributions_jump_in_bytes message

  unfoldable pub set_expected_number_of_root_contributions : ℤ → MessageBytes → MessageBytes
  set_expected_number_of_root_contributions expected message =
      store int32 root_expected_contributions_jump_in_bytes expected message

  unfoldable pub get_expected_number_of_root_contributions : MessageBytes → ℤ
  get_expected_number_of_root_contributions message =
      load int32 4 root_expected_contributions_jump_in_bytes message

pub data Contribution : Type 0 where
  self_contributed left_child_contributed right_child_contributed : Contribution
  parent_has_local_contributions parents_other_child_has_contributions : Contribution

unfoldable pub flag_of : Contribution → ℕ
flag_of self_contributed = 0b1
flag_of left_child_contributed = 0b10
flag_of right_child_contributed = 0b100
flag_of parent_has_local_contributions = 0b1000
flag_of parents_other_child_has_contributions = 0b10000

abbrev pub flags_of : MessageBytes → ℕ
flags_of message = message contributed_metadata_jump_in_bytes

abbrev pub store_flags : ℕ → MessageBytes → MessageBytes
store_flags flags message offset =
    if offset == contributed_metadata_jump_in_bytes then flags else message offset

unfoldable pub zero_contributed_metadata : MessageBytes → MessageBytes
zero_contributed_metadata message = store_flags 0 message

unfoldable pub set_contributed_metadata : Contribution → MessageBytes → MessageBytes
unfolding flag_of
set_contributed_metadata contribution message =
    store_flags (bit_or (flags_of message) (flag_of contribution)) message

-- The complement of the flag, as a byte.
unfoldable pub unset_contributed_metadata : Contribution → MessageBytes → MessageBytes
unfolding flag_of
unset_contributed_metadata contribution message =
    store_flags (bit_and (flags_of message) (255 - flag_of contribution)) message

unfoldable pub get_contributed_metadata : Contribution → MessageBytes → Bool
unfolding flag_of
get_contributed_metadata contribution message =
    not (bit_and (flags_of message) (flag_of contribution) == 0)

-- Whether the process itself and both children have contributed.
unfoldable pub message_ready : MessageBytes → Bool
unfolding get_contributed_metadata
message_ready message =
    get_contributed_metadata self_contributed message
    && get_contributed_metadata left_child_contributed message
    && get_contributed_metadata right_child_contributed message
