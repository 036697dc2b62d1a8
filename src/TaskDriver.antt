-- ===== src/TaskDriver.antt =====
-- How the driver of DistributedTaskDriver.cpp sends: to the threads of its own process, through MPI
-- to another process, and to the children of the process in the tree. An exception leaves behind what
-- was changed before it, so a call returns the driver and the exception, if there is one. MPI is a parameter, by the
-- number of messages that it was given before.
pub mod Children
pub mod LocalTasks
pub mod Receiving
pub mod Sending
pub mod Running
pub mod Reducing
use findus.Base.{
  ℕ, ◌+◌, ◌^◌, Bool, true, false, if◌then◌else◌, not, ◌&&◌, ◌||◌, List, [], ◌∷◌, ◌++◌, Option, none,
  some, length,
}
use findus.Base.Int.{ℤ, pos, negsuc, minus_one, ltb_ℤ, ◌+ℤ◌, ◌==ℤ◌}
use findus.ProcessTree.{ParentAndChildren}
use findus.Components.{DistributedOjectClassHolder}
use findus.Reductions.Interprocess.{InterprocessData, InterprocessError}
use findus.MessageHeader.{
  MessageType, HeaderError, MessageHeader, number_of_bytes_in_message,
  change_destination_process_id,
}
use findus.Serializer.State.{int_of_size}

-- A header and the bytes behind it.
pub record TaskMessage : Type 0 where
  pub header : MessageHeader
  pub contents : List ℕ

-- Exceptions; `null_dereference` is none of them, but marks where the code reads through a null pointer, and what
-- it does then is undefined.
pub data DriverError : Type 0 where
  null_message negative_size failed_to_send same_children : DriverError
  destination_outside : ℤ → DriverError
  null_dereference no_such_object no_local_objects too_many_elements negative_number
        unsupported_type :
      DriverError
  wrong_process not_on_process : ℕ → DriverError
  header_error : HeaderError → DriverError
  reduction_error : InterprocessError → DriverError
  failed_to_get_status failed_to_probe failed_to_receive not_positive : DriverError

-- What MPI was given: the number of bytes, the destination and the message.
pub record Sent : Type 0 where
  pub num_bytes : ℤ
  pub destination : ℤ
  pub message : TaskMessage

-- What a message of a reduction carries: whom to call with the result, and the data as bytes.
pub record ReductionCallback : Type 0 where
  pub message_type : MessageType
  pub distributed_object_index : ℕ
  pub collection_index : ℕ

pub record Payload : Type 0 where
  pub callback : ReductionCallback
  pub values : List ℕ

-- A receive that was given to MPI: its request, and the message, which is there when the request is complete. A
-- message that was moved out is `none`.
pub record Incoming : Type 0 where
  pub request : ℕ
  pub message : Option TaskMessage

pub record TaskDriver : Type 0 where
  pub my_node_id : ℤ
  pub number_of_nodes : ℤ
  pub parent_and_children : ParentAndChildren
  pub tasks : List TaskMessage
  pub outgoing_messages : List (ℤ × TaskMessage)
  pub outgoing_mpi_messages : List TaskMessage
  pub sent : List Sent
  pub local_sends : ℤ
  pub distributed_objects : List DistributedOjectClassHolder
  pub incoming_mpi_messages : List Incoming
  pub node_id_for_receive : ℤ
  pub local_processed : ℤ
  pub last_regular_message_sweep_number : ℕ
  pub local_sweep_number : ℕ
  pub reduction_tables : List (List (InterprocessData Payload))

abbrev pub Outcome : Type 0
Outcome = TaskDriver × Option DriverError

unfoldable pub send_data : ℤ → TaskMessage → TaskDriver → TaskDriver
send_data target_node message driver =
    if target_node ==ℤ driver.my_node_id
    then record driver { tasks = driver.tasks ++ message ∷ [] }
    else record driver {
      outgoing_messages = driver.outgoing_messages ++ (target_node, message) ∷ [];
    }

-- `MPI_Isend` and what comes behind it.
unfoldable pub hand_over : (ℕ → Bool) → TaskMessage → ℤ → TaskDriver → Outcome
hand_over fails message num_bytes driver =
    let destination = message.header.destination_process_id in
    let given : TaskDriver = record driver {
      sent =
          driver.sent
          ++ (record { num_bytes = num_bytes; destination = destination; message = message }) ∷ [];
    } in
    if fails (length driver.sent)
    then (given, some failed_to_send)
    else (record given { local_sends = driver.local_sends +ℤ pos 1 }, none)

-- The message is kept until MPI is done with it.
unfoldable pub send_message_impl : (ℕ → Bool) → Option TaskMessage → TaskDriver → Outcome
unfolding hand_over number_of_bytes_in_message int_of_size
send_message_impl fails none driver = (driver, some null_message)
send_message_impl fails (some message) driver =
    let destination = message.header.destination_process_id in
    let kept : TaskDriver = record driver {
      outgoing_mpi_messages = driver.outgoing_mpi_messages ++ message ∷ [];
    } in
    let num_bytes = int_of_size (number_of_bytes_in_message message.header) in
    if ltb_ℤ destination (pos 0) || not (ltb_ℤ destination driver.number_of_nodes)
    then (driver, some (destination_outside destination))
    else if ltb_ℤ num_bytes (pos 0)
    then (kept, some negative_size)
    else hand_over fails message num_bytes kept

-- A copy with another destination.
unfoldable pub addressed : ℤ → TaskMessage → TaskMessage
unfolding change_destination_process_id
addressed child message = record message {
  header = change_destination_process_id child message.header;
}

-- A round of the loop over the children, unless an exception has ended it.
unfoldable pub send_to_child : (ℕ → Bool) → TaskMessage → ℤ → Outcome → Outcome
unfolding send_message_impl addressed
send_to_child fails message child (driver, some e) = (driver, some e)
send_to_child fails message child (driver, none) =
    if not (child ==ℤ minus_one)
    then send_message_impl fails (some (addressed child message)) driver
    else (driver, none)

unfoldable pub send_to_children : (ℕ → Bool) → TaskMessage → TaskDriver → Outcome
send_to_children fails message driver =
    let left = driver.parent_and_children.left_process_id in
    let right = driver.parent_and_children.right_process_id in
    if not (left ==ℤ minus_one) && not (right ==ℤ minus_one) && left ==ℤ right
    then (driver, some same_children)
    else send_to_child fails message right (send_to_child fails message left (driver, none))
