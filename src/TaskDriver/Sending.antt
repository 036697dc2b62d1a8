-- ===== src/TaskDriver/Sending.antt =====
-- `initiate_sends`: what waits in the queue goes to MPI and to the threads of the process, in batches. The queue
-- gives what it holds in order, as many as it is asked for. What is done with a message of a reduction is a
-- parameter.
use findus.Base.{
  ℕ, zero, suc, ◌+◌, Bool, ltb, ◌==◌, if◌then◌else◌, not, ◌&&◌, ◌||◌, List, [], ◌∷◌, ◌++◌, none,
  some, length, get_elem?,
}
use findus.Base.Int.{ℤ, pos, ◌==ℤ◌}
use findus.Base.Result.{ok, err}
use findus.MessageHeader.{
  invoke, reduction, reduction_over, same_type, message_type, is_broadcast, is_broadcast_to,
}
use findus.Serializer.Scalars.{take, drop}
use findus.TaskDriver.{
  TaskMessage, no_such_object, unsupported_type, not_positive, TaskDriver, Outcome,
  send_message_impl, addressed, send_to_children,
}
use findus.TaskDriver.LocalTasks.{add_local_broadcast_tasks}

module _ (fails : ℕ → Bool) (reduce : TaskMessage → TaskDriver → Outcome) (fresh : ℕ → ℕ) where
  -- The tasks of a broadcast on the process itself.
  unfoldable pub add_local : TaskMessage → Outcome → Outcome
  add_local message (driver, some e) = (driver, some e)
  add_local message (driver, none) =
      elim (get_elem? driver.distributed_objects message.header.distributed_object_index) [
        | none ↦ (driver, some no_such_object)
        | some object ↦
            elim (add_local_broadcast_tasks fresh driver.my_node_id message
              driver.distributed_objects) [
                | err e ↦ (driver, some e)
                | ok tasks ↦ (record driver { tasks = driver.tasks ++ tasks }, none)
              ]
      ]

  -- A broadcast that starts on another process than 0 goes to process 0 first.
  unfoldable pub send_broadcast : TaskMessage → TaskDriver → Outcome
  send_broadcast message driver =
      if (message.header.destination_process_id ==ℤ driver.my_node_id)
        && (message.header.source_process_id ==ℤ driver.my_node_id)
        && not (driver.my_node_id ==ℤ pos 0)
      then send_message_impl fails (some (addressed (pos 0) message)) driver
      else add_local message (send_to_children fails message driver)

  unfoldable pub send_one : TaskMessage → Outcome → Outcome
  send_one message (driver, some e) = (driver, some e)
  send_one message (driver, none) =
      let type = message_type message.header in
      if is_broadcast message.header
      then send_broadcast message driver
      else if is_broadcast_to message.header || same_type type invoke
      then send_message_impl fails (some message) driver
      else if same_type type reduction || same_type type reduction_over
      then reduce message driver
      else (driver, some unsupported_type)

  unfoldable pub send_batch : List (ℤ × TaskMessage) → Outcome → Outcome
  send_batch [] r = r
  send_batch ((target, message) ∷ rest) r = send_batch rest (send_one message r)

  -- The loop, from `i` on; the first number bounds the rounds. A batch that was taken from the queue is lost with an exception.
  unfoldable pub send_loop : ℕ → ℕ → ℕ → Outcome → Outcome
  send_loop rounds i max_to_send (driver, some e) = (driver, some e)
  send_loop zero i max_to_send (driver, none) = (driver, none)
  send_loop (suc rounds) i max_to_send (driver, none) =
      let limit = if ltb 10 max_to_send then 10 else max_to_send in
      let batch = take limit driver.outgoing_messages in
      let taken : TaskDriver = record driver {
        outgoing_messages = drop limit driver.outgoing_messages;
      } in
      let rest =
        send_loop rounds (i + length batch + 1) max_to_send (send_batch batch (taken, none)) in
      if ltb i max_to_send
      then (if length batch == 0 then (taken, none) else rest)
      else (driver, none)

  -- Each round raises `i`, so there are at most `max_to_send` rounds.
  unfoldable pub initiate_sends : ℤ → TaskDriver → Outcome
  initiate_sends (pos (suc max_to_send)) driver =
      send_loop (suc max_to_send) 0 (suc max_to_send) (driver, none)
  initiate_sends _ driver = (driver, some not_positive)
