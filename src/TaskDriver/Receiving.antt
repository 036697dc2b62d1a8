-- ===== src/TaskDriver/Receiving.antt =====
-- Receiving, `initiate_receives` and `clean_incoming_mpi_messages`. MPI is a parameter, and so is what is done
-- with a message of a reduction. The list of receives is a vector: `std::remove_if` moves the entries that
-- stay to its front, and those behind them are what the moves leave there.
pub mod Removal
pub mod Cleaning
use findus.Base.{
  ℕ, zero, suc, ◌+◌, Bool, true, false, ltb, if◌then◌else◌, not, ◌&&◌, ◌||◌, List, [], ◌∷◌, ◌++◌,
  Option, none, some, length, get_elem?, ◌==◌, map,
}
use findus.Base.Int.{ℤ, pos, negsuc, minus_one, ltb_ℤ, ◌+ℤ◌, ◌==ℤ◌}
use findus.Base.Result.{Result, ok, err, ◌>>=◌}
use findus.Components.{DistributedOjectClassHolder}
use findus.MessageHeader.{
  MessageHeader, MessageType, uninitialized, invoke, broadcast, broadcast_to, reduction,
  reduction_over, other, same_type, message_type, is_broadcast, is_broadcast_to,
}
use findus.MessageBuffer.{word_of}
use findus.Serializer.State.{int_of_size}
use findus.TaskDriver.{
  TaskMessage, DriverError, null_dereference, no_such_object, no_local_objects, too_many_elements,
  unsupported_type, wrong_process, failed_to_get_status, failed_to_probe, failed_to_receive,
  negative_number, negative_size, not_positive, Incoming, TaskDriver, Outcome, send_to_children,
}
use findus.TaskDriver.LocalTasks.{word_at, add_local_broadcast_tasks}

-- An entry whose message was moved out.
abbrev pub emptied : Incoming → Incoming
emptied e = record e { message = none }

-- The loop of `std::remove_if`: the entries that stay are in front, and `gap` holds the places between them and
-- the rest. An entry that stays is moved to the first place of the gap, if there is one, and leaves an emptied
-- entry at its end.
unfoldable pub remove_loop :
    (Incoming → Bool)
    → List Incoming
    → List Incoming
    → List Incoming
    → List Incoming × List Incoming
remove_loop removed front gap [] = (front, gap)
remove_loop removed front [] (e ∷ rest) =
    if removed e
    then remove_loop removed front (e ∷ []) rest
    else remove_loop removed (front ++ e ∷ []) [] rest
remove_loop removed front (g ∷ gap) (e ∷ rest) =
    if removed e
    then remove_loop removed front (g ∷ gap ++ e ∷ []) rest
    else remove_loop removed (front ++ e ∷ []) (gap ++ emptied e ∷ []) rest

-- The number of tasks that a broadcast will make.
unfoldable pub number_of_tasks : TaskDriver → TaskMessage → Result DriverError ℤ
unfolding int_of_size
number_of_tasks driver message =
    elim (get_elem? driver.distributed_objects message.header.distributed_object_index) [
      | none ↦ err no_such_object
      | some object ↦
          if object.number_of_local_objects ==ℤ minus_one
          then err no_local_objects
          else if is_broadcast message.header
          then ok object.number_of_local_objects
          else if not (word_at 0 message == word_of driver.my_node_id)
          then err (wrong_process (word_at 0 message))
          else if ltb (word_of object.number_of_local_objects) (word_at 1 message)
          then err too_many_elements
          else ok (int_of_size (word_at 1 message))
    ]

-- What a loop over the entries has done: the driver, the number of tasks to make, the entries as they are now, and
-- the exception.
pub record Progress : Type 0 where
  pub driver : TaskDriver
  pub number_to_enqueue : ℤ
  pub entries : List Incoming
  pub failure : Option DriverError

abbrev pub after_error : Progress → DriverError → Progress
after_error p e = record p { failure = some e }

abbrev pub after_outcome : Progress → Outcome → Progress
after_outcome p (driver, failure) = record p { driver = driver; failure = failure }

abbrev pub with_entry : Incoming → Progress → Progress
with_entry e p = record p { entries = p.entries ++ e ∷ [] }

-- The sweep number of a message that was received.
abbrev pub note_sweep : ℕ → TaskDriver → TaskDriver
note_sweep number driver =
    let last = driver.last_regular_message_sweep_number in
    record driver { last_regular_message_sweep_number = if ltb number last then last else number }

abbrev pub is_invoke : Incoming → Bool
is_invoke e = elim e.message [ none ↦ false | some m ↦ same_type (message_type m.header) invoke ]

abbrev pub all_messages_are_invoke : List Incoming → Bool
all_messages_are_invoke [] = true
all_messages_are_invoke (e ∷ rest) = is_invoke e && all_messages_are_invoke rest

-- The messages of entries that are all tasks themselves.
abbrev pub messages_of : List Incoming → List TaskMessage
messages_of [] = []
messages_of (e ∷ rest) = elim e.message [ none ↦ messages_of rest | some m ↦ m ∷ messages_of rest ]

module _ (fails : ℕ → Bool) (reduce : TaskMessage → TaskDriver → Outcome) (fresh : ℕ → ℕ) where
  abbrev pub forward : TaskMessage → TaskDriver → Outcome
  forward message driver =
      if is_broadcast message.header then send_to_children fails message driver else (driver, none)

  -- The branches over the type of the message, after it was forwarded.
  unfoldable pub count_message : Incoming → TaskMessage → Progress → Progress
  count_message e message p =
      let type = message_type message.header in
      if same_type type invoke
      then with_entry e (record p { number_to_enqueue = p.number_to_enqueue +ℤ pos 1 })
      else if is_broadcast message.header || is_broadcast_to message.header
      then elim (number_of_tasks p.driver message) [
        | err x ↦ with_entry e (after_error p x)
        | ok n ↦ with_entry e (record p { number_to_enqueue = p.number_to_enqueue +ℤ n })
      ]
      else if same_type type reduction || same_type type reduction_over
      then with_entry (emptied e) (after_outcome p (reduce message p.driver))
      else with_entry e (after_error p unsupported_type)

  -- A round of the loop over what was received, unless an exception has ended it.
  unfoldable pub receive_entry : Incoming → Progress → Progress
  receive_entry e p =
      let counted : TaskDriver = record p.driver {
        local_processed = p.driver.local_processed +ℤ pos 1;
      } in
      elim p.failure [
        | some x ↦ with_entry e p
        | none ↦ elim e.message [
          | none ↦ with_entry e (after_error (record p { driver = counted }) null_dereference)
          | some message ↦
              let noted = note_sweep message.header.quiescence_detection_sweep_number counted in
              let (driver, failure) = forward message noted in
              let p' : Progress = record p { driver = driver; failure = failure } in
              elim failure [ some x ↦ with_entry e p' | none ↦ count_message e message p' ]
        ]
      ]

  unfoldable pub receive_entries : List Incoming → Progress → Progress
  receive_entries [] p = p
  receive_entries (e ∷ rest) p = receive_entries rest (receive_entry e p)

  unfoldable pub tasks_for : TaskDriver → TaskMessage → Result DriverError (List TaskMessage)
  tasks_for driver message =
      if same_type (message_type message.header) invoke
      then ok (message ∷ [])
      else if is_broadcast message.header || is_broadcast_to message.header
      then add_local_broadcast_tasks fresh driver.my_node_id message driver.distributed_objects
      else err unsupported_type

  -- The loop that makes the tasks, with the entries as it leaves them: it skips the emptied ones, and moves the
  -- messages that are tasks themselves.
  unfoldable pub make_tasks :
      TaskDriver → List Incoming → List Incoming × Result DriverError (List TaskMessage)
  make_tasks driver [] = ([], ok [])
  make_tasks driver (e ∷ rest) =
      let (rest', more) = make_tasks driver rest in
      elim e.message [
        | none ↦ (e ∷ rest', more)
        | some message ↦ elim (tasks_for driver message) [
          | err x ↦ (e ∷ rest, err x)
          | ok tasks ↦ (
            (if is_invoke e then emptied e else e) ∷ rest',
            more >>= λ (ms : List TaskMessage). ok (tasks ++ ms),
          )
        ]
      ]

  -- Behind the loop: the tasks go to the threads, and the entries that were received are erased. After an exception
  -- they are still there.
  unfoldable pub enqueue_received : List Incoming → Progress → Outcome
  enqueue_received kept p = elim p.failure [
    | some x ↦ (record p.driver { incoming_mpi_messages = kept ++ p.entries }, some x)
    | none ↦
        if ltb_ℤ p.number_to_enqueue (pos 0)
        then (record p.driver { incoming_mpi_messages = kept ++ p.entries }, some negative_number)
        else (let (entries, made) = make_tasks p.driver p.entries in
            elim (if all_messages_are_invoke p.entries then ok (messages_of p.entries) else made) [
              | err x ↦ (record p.driver { incoming_mpi_messages = kept ++ entries }, some x)
              | ok tasks ↦ (
                record p.driver { tasks = p.driver.tasks ++ tasks; incoming_mpi_messages = kept },
                none,
              )
            ])
  ]

  -- What stays and what was received.
  unfoldable pub handle_received : TaskDriver → List Incoming × List Incoming → Outcome
  handle_received driver (kept, []) = (record driver { incoming_mpi_messages = kept }, none)
  handle_received driver (kept, e ∷ rest) = enqueue_received kept (
      receive_entries (e ∷ rest)
        (record { driver = driver; number_to_enqueue = pos 0; entries = []; failure = none }))

  -- `completed` tells which requests are complete; to ask MPI for it does not fail.
  unfoldable pub clean_incoming_mpi_messages : (ℕ → Bool) → TaskDriver → Outcome
  clean_incoming_mpi_messages completed driver =
      handle_received driver
        (remove_loop (λ (e : Incoming). completed e.request) [] [] driver.incoming_mpi_messages)
