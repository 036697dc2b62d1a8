-- ===== src/Tests/Header.antt =====
-- Runs of the message header of MessageHeader.hpp on one message.
use findus.Base.{ℕ, [], ◌+◌, ◌*◌, ◌%◌, ◌^◌, ◌≤◌, ◌<◌, true, false, ◌||◌, ◌≡◌, refl, arith, ◌⊎◌}
use findus.Base.Int.{pos}
use findus.Base.Result.{ok, err}
use findus.MessageHeader.{
  invoke, broadcast, MemberFunctionPtr, MessageHeader, message_too_large, wrong_alignment,
  not_a_broadcast, create_header, set_data_alignment, is_broadcast, is_broadcast_to,
  convert_broadcast_to_invoke, create_data_in_message, data_location, data_from_message,
}
use findus.MessageHeader.Fields.{view}
use findus.MessageHeader.Laws.{convert_broadcast_to_invoke_lem}
use findus.MessageHeader.Data.{create_header_lem, data_from-create_data}
use findus.MessageBuffer.{Buffer, padded_offset, fill}
use findus.MessageBuffer.Layout.{fill_lem}
use findus.MessageHeader.Pointers.{IsWords}

-- 200 bytes, a broadcast, serialized, alignment 16.
abbrev header : MessageHeader
header = record {
  member_function_ptr = record { lower = 4096; upper = 0 };
  target_collection_index = 3;
  metadata = 200 + 16 * 2 ^ 52 + 2 * 2 ^ 60 + 2 ^ 63;
  distributed_object_index = 2;
  data_offset = 64;
  source_process_id = pos 0;
  destination_process_id = pos 1;
  quiescence_detection_sweep_number = 9;
}

header-is_broadcast : is_broadcast header ≡ true
unfolding is_broadcast findus.MessageHeader.message_type findus.MessageHeader.type_of_code
    findus.MessageHeader.type_code
header-is_broadcast = refl

convert_broadcast_to_invoke_example :
    ((is_broadcast header || is_broadcast_to header) ≡ false)
      × (convert_broadcast_to_invoke 6 header ≡ err not_a_broadcast)
    ⊎ ((g : MessageHeader) × ((is_broadcast header || is_broadcast_to header) ≡ true)
        × (convert_broadcast_to_invoke 6 header ≡ ok g)
        × (view g ≡ record (view header) { kind = invoke })
        × (g ≡ record header { metadata = g.metadata; target_collection_index = 6 }))
convert_broadcast_to_invoke_example = convert_broadcast_to_invoke_lem header (omega arith) 6

abbrev pointer : MemberFunctionPtr
pointer = record { lower = 4096; upper = 16 }

create_header_example :
    let result = create_header pointer 3 200 2 64 (pos 0) (pos 1) 9 true broadcast in
    (2 ^ 40 ≤ 200) × (result ≡ err message_too_large)
    ⊎ ((h : MessageHeader) × (200 < 2 ^ 40)
        × (result ≡ ok h)
        × (h.metadata < 2 ^ 64)
        × (h.data_offset ≡ 64)
        × (view h ≡ record { bytes = 200; kind = broadcast; serialized = true; alignment = 0 }))
create_header_example = create_header_lem pointer 3 200 2 64 (pos 0) (pos 1) 9 true broadcast tt

data_from-create_data_example :
    (data_from_message 1000 8 (set_data_alignment 8 header) ≡ ok 1064)
    × (1064 % 4 ≡ 0
        → ¬ ◌≡◌ {A = ℕ} 4 8
        → data_from_message 1000 4 (set_data_alignment 8 header) ≡ err wrong_alignment)
unfolding create_data_in_message data_location
data_from-create_data_example =
    data_from-create_data 1000 header (omega arith) 8 4 1064 (set_data_alignment 8 header)
      (omega arith) refl

pointer-IsWords : IsWords pointer
pointer-IsWords = record { lower_lt = omega arith; upper_lt = omega arith }

abbrev no_bytes : ℕ → ℕ
no_bytes i = 0

-- Three bytes of data of alignment 16.
fill_example :
    let result = fill pointer 2 (pos 0) (pos 1) 9 true 16 3 (λ i. i) no_bytes 64 5 [] invoke in
    (2 ^ 40 ≤ padded_offset 64 16 + 3) × (result ≡ err message_too_large)
    ⊎ ((b : Buffer) × (result ≡ ok b)
        × (64 < b.header.data_offset)
        × (b.header.data_offset % 16 ≡ 0)
        × (view b.header ≡ record {
          bytes = b.header.data_offset + 3;
          kind = invoke;
          serialized = true;
          alignment = 16;
        })
        × ((i : ℕ) → i < 3 → b.bytes (b.header.data_offset + i) ≡ i))
fill_example =
    fill_lem pointer 2 (pos 0) (pos 1) 9 true 16 3 (λ i. i) no_bytes 64 5 [] invoke tt (omega arith)
      (omega arith) (omega arith) (omega arith)
