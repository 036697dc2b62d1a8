-- ===== src/MessageBuffer.antt =====
-- Messages as buffers, Message.cpp: the header, then the numbers that a broadcast to some elements
-- carries, then the data, at an offset that suits its alignment. A buffer starts at an address that suits both
-- the header and the data. Its bytes behind the header are a function of the offset; bytes that the
-- code does not write are those of `fresh`.
pub mod Layout
pub mod Metadata
pub mod Places
pub mod Fields
use findus.Base.{
  ℕ, suc, ◌+◌, ◌-◌, ◌*◌, ◌%◌, ◌^◌, ◌≤◌, ◌<◌, Bool, true, false, ltb, leb, ◌&&◌, if◌then◌else◌, List,
  [], ◌∷◌,
}
use findus.Base.Int.{ℤ, pos, negsuc}
use findus.Base.Result.{Result, ok, err, ◌>>=◌}
use findus.MessageHeader.{
  MessageType, broadcast_to, MemberFunctionPtr, MessageHeader, HeaderError, create_header,
  set_data_alignment, no_collection_index,
}

pub record Buffer : Type 0 where
  pub header : MessageHeader
  pub words : List ℕ
  pub bytes : ℕ → ℕ

abbrev pub header_size : ℕ
header_size = 64

-- An `int32_t` as an `uint64_t`.
abbrev pub word_of : ℤ → ℕ
word_of (pos n) = n
word_of (negsuc k) = 2 ^ 64 - suc k

-- The offset of data behind the first `front` bytes, stored in 32 bits.
unfoldable pub padded_offset : ℕ → ℕ → ℕ
padded_offset front data_alignment = (front + (data_alignment - front % data_alignment)) % 2 ^ 32

-- `std::memcpy` of `size` bytes to the offset `to`.
unfoldable pub copy_bytes : ℕ → ℕ → (ℕ → ℕ) → (ℕ → ℕ) → ℕ → ℕ
copy_bytes to size source target i =
    if leb to i && ltb i (to + size) then source (i - to) else target i

module _ (function : MemberFunctionPtr) (object : ℕ) (source destination : ℤ) (sweep : ℕ)
    (was_serialized : Bool) (data_alignment data_size : ℕ) (bytes fresh : ℕ → ℕ) where
  -- The header, the words and the data behind the first `front` bytes.
  unfoldable pub fill : ℕ → ℕ → List ℕ → MessageType → Result HeaderError Buffer
  unfolding padded_offset copy_bytes
  fill front index words type =
      let offset = padded_offset front data_alignment in
      create_header function index ((offset + data_size) % 2 ^ 64) object offset source destination
        sweep was_serialized type
      >>= λ (h : MessageHeader). ok (record {
        header = set_data_alignment data_alignment h;
        words = words;
        bytes = copy_bytes h.data_offset data_size bytes fresh;
      })

  unfoldable pub create_buffer : ℕ → MessageType → Result HeaderError Buffer
  unfolding fill
  create_buffer index type = fill header_size index [] type

  -- The first two words behind the header are written; the others are left for the indices.
  unfoldable pub create_broadcast_to_buffer : ℕ → Result HeaderError Buffer
  unfolding fill
  create_broadcast_to_buffer number_of_elements =
      let extra_metadata_bytes = 8 * (2 + number_of_elements) % 2 ^ 32 in
      fill ((header_size + extra_metadata_bytes) % 2 ^ 32) no_collection_index
        (word_of destination ∷ 0 ∷ []) broadcast_to
