-- ===== src/TaskDriver/LocalTasks.antt =====
-- The tasks that a broadcast makes on one process, by `add_local_broadcast_tasks`. The function is given
-- what the new messages hold where nothing was written.
pub mod EachElement
use findus.Base.{
  ℕ, zero, suc, ◌+◌, ◌-◌, ◌*◌, ◌%◌, ◌^◌, Bool, true, false, ltb, leb, ◌==◌, if◌then◌else◌, not,
  List, [], ◌∷◌, ◌++◌, Option, none, some, length, get_elem?,
}
use findus.Base.Int.{ℤ, pos, negsuc, ltb_ℤ, ◌-ℤ◌, ◌==ℤ◌}
use findus.Base.Result.{Result, ok, err, ◌>>=◌}
use findus.Components.{regular, collection, DistributedOjectClassHolder}
use findus.MessageHeader.{
  HeaderError, MessageHeader, sub64, invoke, number_of_bytes_in_message, is_broadcast,
  is_broadcast_to, data_was_serialized, data_alignment, no_collection_index,
  change_destination_process_id, convert_broadcast_to_invoke,
}
use findus.MessageBuffer.{Buffer, header_size, word_of, create_buffer}
use findus.Accounting.{of_bytes}
use findus.Serializer.Scalars.{take, drop}
use findus.Serializer.State.{read, int_of_size}
use findus.TaskDriver.{
  TaskMessage, DriverError, no_such_object, unsupported_type, wrong_process, not_on_process,
  header_error,
}

abbrev pub from_header : {A : Type 0} → Result HeaderError A → Result DriverError A
from_header (ok a) = ok a
from_header (err e) = err (header_error e)

-- A word of 64 bits behind the header.
abbrev pub word_at : ℕ → TaskMessage → ℕ
word_at i message = of_bytes (take 8 (drop (8 * i) message.contents))

-- The byte at an offset of the message, which is 0 behind the end.
abbrev pub byte_at : TaskMessage → ℕ → ℕ
byte_at message i = elim (get_elem? message.contents (i - header_size)) [ none ↦ 0 | some b ↦ b ]

abbrev pub of_buffer : Buffer → TaskMessage
of_buffer b = record {
  header = b.header;
  contents = read b.bytes header_size (number_of_bytes_in_message b.header - header_size);
}

-- A copy as an invocation of one element on this process.
unfoldable pub local_copy : ℤ → TaskMessage → ℕ → Result DriverError TaskMessage
local_copy my_node_id message collection_index =
    from_header (convert_broadcast_to_invoke collection_index message.header)
    >>= λ (h : MessageHeader).
        ok (record message { header = change_destination_process_id my_node_id h })

-- The loop over the map; `left` is the number of local elements that have no copy yet.
unfoldable pub copy_to_elements :
    ℤ → TaskMessage → ℤ → List (ℕ × ℤ) → Result DriverError (List TaskMessage)
copy_to_elements my_node_id message left [] = ok []
copy_to_elements my_node_id message left ((collection_index, process_id) ∷ rest) =
    let skipped = copy_to_elements my_node_id message left rest in
    let copied = local_copy my_node_id message collection_index >>= λ (m : TaskMessage).
    copy_to_elements my_node_id message (left -ℤ pos 1) rest >>= λ (ms : List TaskMessage).
    ok (m ∷ ms) in
    if not (ltb_ℤ (pos 0) left)
    then ok []
    else if not (process_id ==ℤ my_node_id)
    then skipped
    else copied

abbrev pub is_element : ℕ → List (ℕ × ℤ) → Bool
is_element collection_index [] = false
is_element collection_index (e ∷ rest) =
    if e.0 == collection_index then true else is_element collection_index rest

module _ (fresh : ℕ → ℕ) (my_node_id : ℤ) (message : TaskMessage) where
  -- The data of the message alone, for one element.
  unfoldable pub create_invocation : ℕ → Result DriverError TaskMessage
  unfolding create_buffer
  create_invocation collection_index =
      let h = message.header in
      from_header (
        create_buffer h.member_function_ptr h.distributed_object_index h.source_process_id
          my_node_id h.quiescence_detection_sweep_number (data_was_serialized h) (data_alignment h)
          (sub64 (number_of_bytes_in_message h) h.data_offset)
          (λ i. byte_at message (h.data_offset + i)) fresh collection_index invoke)
      >>= λ (b : Buffer). ok (of_buffer b)

  -- The loop over the indices that the message lists, from the `i`th on.
  unfoldable pub invoke_listed : List (ℕ × ℤ) → ℕ → ℕ → Result DriverError (List TaskMessage)
  unfolding create_invocation
  invoke_listed objects zero i = ok []
  invoke_listed objects (suc number) i =
      let collection_index = word_at (2 + i) message in
      if not (is_element collection_index objects)
      then err (not_on_process collection_index)
      else create_invocation collection_index >>= λ (m : TaskMessage).
          invoke_listed objects number (suc i) >>= λ (ms : List TaskMessage). ok (m ∷ ms)

  abbrev count_of : ℤ → ℕ
  count_of (pos n) = n
  count_of (negsuc n) = 0

  -- The messages that are added to the tasks.
  unfoldable pub add_local_broadcast_tasks :
      List DistributedOjectClassHolder → Result DriverError (List TaskMessage)
  unfolding int_of_size
  add_local_broadcast_tasks distributed_objects =
      elim (get_elem? distributed_objects message.header.distributed_object_index) [
        | none ↦ err no_such_object
        | some object ↦ elim object.objects [
          | collection objects ↦
              if is_broadcast message.header
              then copy_to_elements my_node_id message object.number_of_local_objects objects
              else if is_broadcast_to message.header
              then if word_at 0 message == word_of my_node_id
                then invoke_listed objects (count_of (int_of_size (word_at 1 message))) 0
                else err (wrong_process (word_at 0 message))
              else err unsupported_type
          | regular ↦
              local_copy my_node_id message no_collection_index >>= λ (m : TaskMessage). ok (m ∷ [])
        ]
      ]
