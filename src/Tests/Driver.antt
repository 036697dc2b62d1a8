-- ===== src/Tests/Driver.antt =====
-- Process 1 of a tree of five sends to its children, 3 and 4.
use findus.Base.{ℕ, false, [], ◌∷◌, ◌≡◌, refl, arith}
use findus.Base.Int.{pos}
use findus.ProcessTree.{links}
use findus.MessageHeader.{number_of_bytes_in_message}
use findus.TaskDriver.{TaskMessage, TaskDriver}
use findus.TaskDriver.Children.Everywhere.{count_to, sum_below, sent_by, broadcast_everywhere}

abbrev message : TaskMessage
message = record {
  header = record {
    member_function_ptr = record { lower = 0; upper = 0 };
    target_collection_index = 0;
    metadata = 200;
    distributed_object_index = 0;
    data_offset = 64;
    source_process_id = pos 1;
    destination_process_id = pos 1;
    quiescence_detection_sweep_number = 0;
  };
  contents = 1 ∷ 2 ∷ [];
}

abbrev driver : TaskDriver
driver = record {
  my_node_id = pos 1;
  number_of_nodes = pos 5;
  parent_and_children = links 1 5;
  tasks = [];
  outgoing_messages = [];
  outgoing_mpi_messages = [];
  sent = [];
  local_sends = pos 7;
  distributed_objects = [];
  incoming_mpi_messages = [];
  node_id_for_receive = pos 0;
  local_processed = pos 0;
  last_regular_message_sweep_number = 0;
  local_sweep_number = 0;
  reduction_tables = [];
}

two_hundred : number_of_bytes_in_message message.header ≡ 200
unfolding number_of_bytes_in_message
two_hundred = refl

abbrev each_driver : ℕ → TaskDriver
each_driver p = record driver { my_node_id = pos p; parent_and_children = links p 5 }

broadcast_everywhere_example :
    sum_below
      (λ (p : ℕ). count_to (pos 4) (
        sent_by
          (λ _. false)
          (λ k. refl)
          message
          200
          two_hundred
          (omega arith)
          5
          each_driver
          (λ p h. refl)
          (λ p h. refl)
          (λ p h. refl)
          p))
      5
    ≡ 1
broadcast_everywhere_example =
    broadcast_everywhere (λ _. false) (λ k. refl) message 200 two_hundred (omega arith) 5
      each_driver (λ p h. refl) (λ p h. refl) (λ p h. refl) 4 (omega arith)
