-- ===== src/Tests/Receives.antt =====
-- A process with receives of which some are complete, and a broadcast to a collection.
use findus.Base.{◌+◌, ◌*◌, ◌^◌, ℕ, Bool, false, ltb, List, [], ◌∷◌, none, some, ◌≡◌, refl}
use findus.Base.Int.{pos}
use findus.Base.Result.{ok}
use findus.Components.{collection, DistributedOjectClassHolder}
use findus.ProcessTree.{links}
use findus.MessageHeader.{MessageHeader, message_type, type_of_code, is_broadcast, type_code}
use findus.TaskDriver.{null_dereference, TaskMessage, Incoming, TaskDriver, Outcome}
use findus.TaskDriver.LocalTasks.{add_local_broadcast_tasks}
use findus.TaskDriver.LocalTasks.EachElement.{as_invocation, add_local_broadcast_tasks_lem}
use findus.TaskDriver.Receiving.{clean_incoming_mpi_messages}
use findus.TaskDriver.Receiving.Cleaning.{noted_all, clean_in_order, clean_out_of_order}

-- A header with a type in the bits 60 to 62 of the metadata.
abbrev header_of : ℕ → MessageHeader
header_of code = record {
  member_function_ptr = record { lower = 0; upper = 0 };
  target_collection_index = 0;
  metadata = 200 + code * 2 ^ 60;
  distributed_object_index = 0;
  data_offset = 64;
  source_process_id = pos 0;
  destination_process_id = pos 1;
  quiescence_detection_sweep_number = 3;
}

abbrev invocation : TaskMessage
invocation = record { header = header_of 1; contents = 1 ∷ 2 ∷ [] }

abbrev announcement : TaskMessage
announcement = record { header = header_of 2; contents = 1 ∷ 2 ∷ [] }

abbrev with_received : List Incoming → TaskDriver
with_received incoming = record {
  my_node_id = pos 1;
  number_of_nodes = pos 5;
  parent_and_children = links 1 5;
  tasks = [];
  outgoing_messages = [];
  outgoing_mpi_messages = [];
  sent = [];
  local_sends = pos 7;
  distributed_objects = [];
  incoming_mpi_messages = incoming;
  node_id_for_receive = pos 0;
  local_processed = pos 0;
  last_regular_message_sweep_number = 0;
  local_sweep_number = 0;
  reduction_tables = [];
}

abbrev receive : ℕ → Incoming
receive request = record { request = request; message = some invocation }

abbrev no_reduction : TaskMessage → TaskDriver → Outcome
no_reduction message driver = (driver, none)

-- The request 5 is pending, the others are complete.
abbrev completed : ℕ → Bool
completed request = ltb request 5

clean_in_order_example :
    clean_incoming_mpi_messages
      (λ _. false)
      no_reduction
      (λ _. 0)
      completed
      (with_received (receive 5 ∷ receive 2 ∷ receive 3 ∷ []))
    ≡ (
      record (noted_all
          (invocation ∷ invocation ∷ [])
          (with_received (receive 5 ∷ receive 2 ∷ receive 3 ∷ []))) {
            tasks = invocation ∷ invocation ∷ [];
            incoming_mpi_messages = receive 5 ∷ [];
          },
      none,
    )
unfolding message_type type_of_code
clean_in_order_example =
    clean_in_order (λ _. false) no_reduction (λ _. 0) completed
      (with_received (receive 5 ∷ receive 2 ∷ receive 3 ∷ [])) (receive 5 ∷ [])
      (receive 2 ∷ receive 3 ∷ []) refl (refl, tt) (refl, (refl, tt))
      ((invocation, refl, refl), ((invocation, refl, refl), tt))

clean_out_of_order_example :
    (clean_incoming_mpi_messages
      (λ _. false)
      no_reduction
      (λ _. 0)
      completed
      (with_received (receive 2 ∷ receive 5 ∷ receive 3 ∷ []))).1
    ≡ some null_dereference
unfolding message_type type_of_code
clean_out_of_order_example =
    clean_out_of_order (λ _. false) no_reduction (λ _. 0) completed
      (with_received (receive 2 ∷ receive 5 ∷ receive 3 ∷ [])) [] [] (receive 3 ∷ []) (receive 2)
      (receive 5) refl
      ((invocation, refl, refl), ((invocation, refl, refl), ((invocation, refl, refl), tt))) refl
      refl (refl, tt)

abbrev three_elements : DistributedOjectClassHolder
three_elements = record {
  objects = collection ((7, pos 1) ∷ (3, pos 0) ∷ (8, pos 1) ∷ []);
  ids_per_process = (3 ∷ []) ∷ (7 ∷ 8 ∷ []) ∷ [];
  name = 99 ∷ [];
  number_of_local_objects = pos 2;
}

add_local_broadcast_tasks_example :
    add_local_broadcast_tasks (λ _. 0) (pos 1) announcement (three_elements ∷ [])
    ≡ ok (as_invocation (pos 1) announcement 7 ∷ as_invocation (pos 1) announcement 8 ∷ [])
unfolding is_broadcast message_type type_of_code type_code
add_local_broadcast_tasks_example =
    add_local_broadcast_tasks_lem (pos 1) announcement refl (λ _. 0) (three_elements ∷ [])
      three_elements ((7, pos 1) ∷ (3, pos 0) ∷ (8, pos 1) ∷ []) refl refl refl
