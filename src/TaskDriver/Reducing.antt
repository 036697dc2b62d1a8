-- ===== src/TaskDriver/Reducing.antt =====
-- `send_reduction_message_impl`: a message of a reduction is added to the table of the process, and what leaves the table goes
-- up the tree or, on process 0, to the callback. How metadata and data lie in a message is a parameter.
pub mod Arriving
pub mod Upwards
use findus.Base.{
  ℕ, ◌+◌, Bool, true, false, if◌then◌else◌, List, [], ◌∷◌, ◌++◌, Option, none, some, length,
  get_elem?, set,
}
use findus.Base.Int.{ℤ, pos, minus_one, ◌==ℤ◌}
use findus.Base.Result.{Result, ok, err, ◌>>=◌}
use findus.Components.{Objects, regular, collection, DistributedOjectClassHolder, find}
use findus.MessageHeader.{
  MessageHeader, MessageType, invoke, broadcast, same_type, data_was_serialized, data_alignment,
  no_collection_index,
}
use findus.MessageBuffer.{Buffer, create_buffer}
use findus.Reductions.Interprocess.{ReductionMessage, InterprocessData, combine_inter_process}
use findus.Serializer.State.{int_of_size}
use findus.TaskDriver.{
  TaskMessage, DriverError, no_such_object, not_on_process, unsupported_type, header_error,
  reduction_error, Payload, TaskDriver, Outcome, send_data, send_message_impl,
}
use findus.TaskDriver.LocalTasks.{of_buffer}

-- The process that an invocation goes to: that of the element, or the index itself.
unfoldable pub target_of : Objects → ℕ → Option ℤ
unfolding int_of_size
target_of regular index = some (int_of_size index)
target_of (collection es) index = find index es

abbrev pub index_for : Objects → ℕ → ℕ
index_for regular index = no_collection_index
index_for (collection es) index = index

abbrev pub byte_of : List ℕ → ℕ → ℕ
byte_of bytes i = elim (get_elem? bytes i) [ none ↦ 0 | some b ↦ b ]

module _ (fails : ℕ → Bool) (fresh : ℕ → ℕ) (decode : TaskMessage → ReductionMessage Payload)
    (encode : ReductionMessage Payload → TaskMessage) (op : Payload → Payload → Payload) where
  -- A new message with the data of the result, handed to `send_data`.
  unfoldable pub send_result :
      ReductionMessage Payload → ℕ → ℕ → ℤ → ℤ → MessageType → TaskDriver → Outcome
  send_result message object index destination target type driver =
      elim (create_buffer message.header.member_function_ptr object driver.my_node_id destination
        driver.local_sweep_number (data_was_serialized message.header)
        (data_alignment message.header) (length message.payload.values)
        (byte_of message.payload.values) fresh index type) [
          | err e ↦ (driver, some (header_error e))
          | ok b ↦ (send_data target (of_buffer b) driver, none)
        ]

  unfoldable pub call_back : ReductionMessage Payload → TaskDriver → Outcome
  unfolding send_result
  call_back message driver =
      let callback = message.payload.callback in
      let object = callback.distributed_object_index in
      if same_type callback.message_type invoke
      then elim (get_elem? driver.distributed_objects object) [
        | none ↦ (driver, some no_such_object)
        | some holder ↦ elim (target_of holder.objects callback.collection_index) [
          | none ↦ (driver, some (not_on_process callback.collection_index))
          | some target ↦
              send_result message object (index_for holder.objects callback.collection_index) target
                target invoke driver
        ]
      ]
      else if same_type callback.message_type broadcast
      then send_result message object no_collection_index driver.my_node_id minus_one broadcast
          driver
      else (driver, some unsupported_type)

  -- What is done with a message that leaves the table.
  unfoldable pub pass_on : ReductionMessage Payload → TaskDriver → Outcome
  pass_on message driver =
      if driver.my_node_id ==ℤ pos 0
      then call_back message driver
      else send_message_impl fails
          (some (
            encode (record message {
              header = record message.header {
                quiescence_detection_sweep_number = driver.local_sweep_number;
              };
            })))
          driver

  abbrev pub with_table : ℕ → List (InterprocessData Payload) → TaskDriver → TaskDriver
  with_table index table driver = record driver {
    reduction_tables = set driver.reduction_tables index table;
  }

  abbrev pub pass_on_any : Option (ReductionMessage Payload) → TaskDriver → Outcome
  pass_on_any none driver = (driver, none)
  pass_on_any (some message) driver = pass_on message driver

  unfoldable pub send_reduction_message_impl : TaskMessage → TaskDriver → Outcome
  send_reduction_message_impl in_message driver =
      let object_index = in_message.header.distributed_object_index in
      elim (get_elem? driver.reduction_tables object_index) [
        | none ↦ (driver, some no_such_object)
        | some table ↦ elim (combine_inter_process op driver.my_node_id (decode in_message) table) [
          | err e ↦ (driver, some (reduction_error e))
          | ok r ↦ pass_on_any r.0 (with_table object_index r.1 driver)
        ]
      ]

  -- Messages one after the other, unless an exception ends it.
  unfoldable pub send_reductions : List TaskMessage → Outcome → Outcome
  send_reductions ts (driver, some e) = (driver, some e)
  send_reductions [] (driver, none) = (driver, none)
  send_reductions (t ∷ ts) (driver, none) =
      send_reductions ts (send_reduction_message_impl t driver)
