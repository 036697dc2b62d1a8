-- ===== src/MessageHeader.antt =====
-- MessageHeader.hpp and MessageHeader.cpp: the header at the start of each message, with its packed
-- 64-bit word. Words are numbers below 2 ^ 64; `compl` is `compl64`, `<<` keeps 64 bits.
pub mod Fields
pub mod Laws
pub mod Data
pub mod Pointers
use Prim.Native.Nat.{bit_and, bit_or}
use findus.Base.{
  ℕ, ◌+◌, ◌-◌, ◌*◌, ◌/◌, ◌%◌, ◌^◌, Bool, true, false, ltb, ◌==◌, if◌then◌else◌, not, ◌&&◌, ◌||◌,
}
use findus.Base.Int.{ℤ, pos, negsuc, minus_one, ◌==ℤ◌}
use findus.Base.Result.{Result, ok, err}

-- enum class MessageType : std::uint8_t. A value of the type that is no enumerator is `other`.
pub data MessageType : Type 0 where
  uninitialized invoke broadcast broadcast_to reduction reduction_over : MessageType
  other : ℕ → MessageType

unfoldable pub type_code : MessageType → ℕ
type_code uninitialized = 0b000
type_code invoke = 0b001
type_code broadcast = 0b010
type_code broadcast_to = 0b011
type_code reduction = 0b100
type_code reduction_over = 0b101
type_code (other n) = n

-- static_cast<MessageType>.
unfoldable pub type_of_code : ℕ → MessageType
type_of_code n =
    if n == 0b000
    then uninitialized
    else if n == 0b001
    then invoke
    else if n == 0b010
    then broadcast
    else if n == 0b011
    then broadcast_to
    else if n == 0b100
    then reduction
    else if n == 0b101
    then reduction_over
    else other n

abbrev pub add64 : ℕ → ℕ → ℕ
add64 a b = (a + b) % 2 ^ 64

abbrev pub sub64 : ℕ → ℕ → ℕ
sub64 a b = (a + 2 ^ 64 - b) % 2 ^ 64

-- The two words of a pointer to member, lower one first.
pub record MemberFunctionPtr : Type 0 where
  pub lower : ℕ
  pub upper : ℕ

-- operator- and operator+ with the borrow and the carry between the two words.
pub ptr_sub : MemberFunctionPtr → MemberFunctionPtr → MemberFunctionPtr
ptr_sub lhs rhs =
    let lower = sub64 lhs.lower rhs.lower in
    record {
      lower = lower;
      upper = sub64 (sub64 lhs.upper rhs.upper) (if ltb lhs.lower lower then 1 else 0);
    }

pub ptr_add : MemberFunctionPtr → MemberFunctionPtr → MemberFunctionPtr
ptr_add lhs rhs =
    let lower = add64 lhs.lower rhs.lower in
    record {
      lower = lower;
      upper = add64 (add64 lhs.upper rhs.upper) (if ltb lower lhs.lower then 1 else 0);
    }

pub record MessageHeader : Type 0 where
  pub member_function_ptr : MemberFunctionPtr
  pub target_collection_index : ℕ
  -- `number_of_bytes_in_message_`, the packed word.
  pub metadata : ℕ
  pub distributed_object_index : ℕ
  pub data_offset : ℕ
  pub source_process_id : ℤ
  pub destination_process_id : ℤ
  pub quiescence_detection_sweep_number : ℕ

abbrev pub compl64 : ℕ → ℕ
compl64 x = 2 ^ 64 - 1 - x

abbrev pub shl64 : ℕ → ℕ → ℕ
shl64 x k = x * 2 ^ k % 2 ^ 64

abbrev pub data_was_serialized_mask : ℕ
data_was_serialized_mask = shl64 0b1 63

abbrev pub message_type_mask : ℕ
message_type_mask = shl64 0b111 60

abbrev pub max_alignment : ℕ
max_alignment = 2 ^ 8 - 1

abbrev pub data_alignment_mask : ℕ
data_alignment_mask = shl64 max_alignment 52

abbrev pub number_of_bytes_in_message_mask : ℕ
number_of_bytes_in_message_mask = shl64 1 40 - 1

abbrev pub max_uint64 : ℕ
max_uint64 = 2 ^ 64 - 1

abbrev pub no_collection_index : ℕ
no_collection_index = max_uint64

abbrev pub reduction_message_collection_index : ℕ
reduction_message_collection_index = max_uint64 - 1

-- The anonymous functions of MessageHeader.cpp, on the packed word.
unfoldable pub set_data_was_serialized : ℕ → Bool → ℕ
set_data_was_serialized metadata data_was_serialized =
    if data_was_serialized
    then bit_or data_was_serialized_mask metadata
    else bit_and (compl64 data_was_serialized_mask) metadata

unfoldable pub set_message_type : ℕ → MessageType → ℕ
unfolding type_code
set_message_type metadata message_type =
    bit_or (shl64 (type_code message_type) 60) (bit_and (compl64 message_type_mask) metadata)

unfoldable pub number_of_bytes_in_message : MessageHeader → ℕ
number_of_bytes_in_message h = bit_and number_of_bytes_in_message_mask h.metadata

unfoldable pub set_number_of_bytes_in_message : ℕ → MessageHeader → MessageHeader
set_number_of_bytes_in_message value h = record h {
  metadata = bit_or (bit_and (compl64 number_of_bytes_in_message_mask) h.metadata) value;
}

unfoldable pub message_type : MessageHeader → MessageType
unfolding type_of_code
message_type h = type_of_code (bit_and message_type_mask h.metadata / 2 ^ 60)

abbrev pub same_bool : Bool → Bool → Bool
same_bool true b = b
same_bool false b = not b

abbrev pub same_type : MessageType → MessageType → Bool
same_type a b = type_code a == type_code b

unfoldable pub is_broadcast : MessageHeader → Bool
is_broadcast h = same_type (message_type h) broadcast

unfoldable pub is_broadcast_to : MessageHeader → Bool
is_broadcast_to h = same_type (message_type h) broadcast_to

unfoldable pub data_was_serialized : MessageHeader → Bool
data_was_serialized h = not (bit_and data_was_serialized_mask h.metadata == 0)

pub set_serialized : Bool → MessageHeader → MessageHeader
set_serialized was_serialized h = record h {
  metadata = set_data_was_serialized h.metadata was_serialized;
}

unfoldable pub data_alignment : MessageHeader → ℕ
data_alignment h = bit_and data_alignment_mask h.metadata / 2 ^ 52

unfoldable pub set_data_alignment : ℕ → MessageHeader → MessageHeader
set_data_alignment alignment h = record h {
  metadata = bit_or (shl64 alignment 52) (bit_and (compl64 data_alignment_mask) h.metadata);
}

unfoldable pub change_destination_process_id : ℤ → MessageHeader → MessageHeader
change_destination_process_id id h = record h { destination_process_id = id }

unfoldable pub change_source_process_id : ℤ → MessageHeader → MessageHeader
change_source_process_id id h = record h { source_process_id = id }

pub data HeaderError : Type 0 where
  message_too_large not_a_broadcast misaligned_data wrong_alignment : HeaderError

-- The constructor with arguments. The alignment bits of the size are those of a size below 2 ^ 40.
unfoldable pub create_header :
    MemberFunctionPtr
    → ℕ
    → ℕ
    → ℕ
    → ℕ
    → ℤ
    → ℤ
    → ℕ
    → Bool
    → MessageType
    → Result HeaderError MessageHeader
unfolding set_data_was_serialized set_message_type
create_header function index bytes object offset source destination sweep was_serialized type =
    if ltb 1099511627775 bytes
    then err message_too_large
    else ok (record {
      member_function_ptr = function;
      target_collection_index = index;
      metadata = set_message_type (set_data_was_serialized bytes was_serialized) type;
      distributed_object_index = object;
      data_offset = offset;
      source_process_id = source;
      destination_process_id = destination;
      quiescence_detection_sweep_number = sweep;
    })

-- The default constructor.
pub default_header : MessageHeader
default_header = record {
  member_function_ptr = record { lower = 0; upper = 0 };
  target_collection_index = 0;
  metadata = 0;
  distributed_object_index = 0;
  data_offset = 0;
  source_process_id = minus_one;
  destination_process_id = minus_one;
  quiescence_detection_sweep_number = max_uint64;
}

unfoldable pub convert_broadcast_to_invoke : ℕ → MessageHeader → Result HeaderError MessageHeader
unfolding is_broadcast is_broadcast_to set_message_type
convert_broadcast_to_invoke index h =
    if not (is_broadcast h) && not (is_broadcast_to h)
    then err not_a_broadcast
    else ok (record h {
      metadata = set_message_type h.metadata invoke;
      target_collection_index = index;
    })

pub ptr_eq : MemberFunctionPtr → MemberFunctionPtr → Bool
ptr_eq a b = a.lower == b.lower && a.upper == b.upper

pub header_eq : MessageHeader → MessageHeader → Bool
unfolding ptr_eq number_of_bytes_in_message data_alignment data_was_serialized message_type
header_eq a b =
    ptr_eq a.member_function_ptr b.member_function_ptr
    && a.target_collection_index == b.target_collection_index
    && number_of_bytes_in_message a == number_of_bytes_in_message b
    && a.distributed_object_index == b.distributed_object_index
    && a.data_offset == b.data_offset
    && a.source_process_id ==ℤ b.source_process_id
    && a.destination_process_id ==ℤ b.destination_process_id
    && a.quiescence_detection_sweep_number == b.quiescence_detection_sweep_number
    && data_alignment a == data_alignment b
    && same_bool (data_was_serialized a) (data_was_serialized b)
    && same_type (message_type a) (message_type b)

-- The address of the data of a message whose header stands at `address`.
unfoldable pub data_location : ℕ → MessageHeader → ℕ
data_location address h = address + h.data_offset

-- The data is written at the returned address; what is written is the caller's type.
unfoldable pub create_data_in_message :
    ℕ → ℕ → MessageHeader → Result HeaderError (ℕ × MessageHeader)
unfolding data_location set_data_alignment
create_data_in_message address alignof h =
    if not (data_location address h % alignof == 0)
    then err misaligned_data
    else ok (data_location address h, set_data_alignment alignof h)

pub data_from_message : ℕ → ℕ → MessageHeader → Result HeaderError ℕ
unfolding data_location data_alignment
data_from_message address alignof h =
    if not (data_location address h % alignof == 0)
    then err misaligned_data
    else if not (alignof == data_alignment h)
    then err wrong_alignment
    else ok (data_location address h)
