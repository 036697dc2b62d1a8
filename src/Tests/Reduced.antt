-- ===== src/Tests/Reduced.antt =====
-- The messages of one reduction at process 3, whose children are 7 and 8, of `send_reduction_message_impl` in
-- DistributedTaskDriver.cpp.
use findus.Base.{ℕ, false, List, [], ◌∷◌, ◌++◌, some, none, ◌≡◌, refl, arith}
use findus.Base.Int.{ℤ, pos, negsuc}
use findus.ProcessTree.{links}
use findus.MessageHeader.{
  message_type, type_of_code, same_type, broadcast, number_of_bytes_in_message,
}
use findus.Reductions.Interprocess.{ReductionMessage, InterprocessData}
use findus.Reductions.Arrivals.{unused_entry}
use findus.TaskDriver.{TaskMessage, Payload, TaskDriver}
use findus.TaskDriver.Children.{after_sending}
use findus.TaskDriver.Reducing.{send_reductions}
use findus.TaskDriver.Reducing.Upwards.{send_reductions_lem}

-- `metadata` holds the type `reduction`.
abbrev message : ℤ → ℤ → List ℕ → TaskMessage
message source destination contents = record {
  header = record {
    member_function_ptr = record { lower = 0; upper = 0 };
    target_collection_index = 0;
    metadata = 4611686018427387904;
    distributed_object_index = 0;
    data_offset = 128;
    source_process_id = source;
    destination_process_id = destination;
    quiescence_detection_sweep_number = 0;
  };
  contents = contents;
}

-- The expected number of contributions stands before the data.
abbrev decode_contents : List ℕ → ℕ × List ℕ
decode_contents [] = (0, [])
decode_contents (n ∷ values) = (n, values)

abbrev decode_message : TaskMessage → ReductionMessage Payload
decode_message t = record {
  header = t.header;
  id = 9;
  target_process_id = pos 1;
  expected_number_of_contributions = pos (decode_contents t.contents).0;
  expected_number_of_root_contributions = pos 0;
  contributed_metadata = 1;
  payload = record {
    callback = record {
      message_type = broadcast;
      distributed_object_index = 0;
      collection_index = 0;
    };
    values = (decode_contents t.contents).1;
  };
}

abbrev encode_message : ReductionMessage Payload → TaskMessage
encode_message m = record { header = m.header; contents = 0 ∷ m.payload.values }

abbrev joined : Payload → Payload → Payload
joined a b = record a { values = a.values ++ b.values }

abbrev own_message : TaskMessage
own_message = message (pos 3) (negsuc 1) (3 ∷ 20 ∷ [])

abbrev first_child : TaskMessage
first_child = message (pos 7) (pos 3) (0 ∷ 1 ∷ [])

abbrev second_child : TaskMessage
second_child = message (pos 8) (pos 3) (0 ∷ 30 ∷ [])

-- Id 9 meets the entry of id 5.
abbrev entries : List (InterprocessData Payload)
entries =
    unused_entry ∷ record { reduction_id = 5; message = none } ∷ unused_entry ∷ unused_entry ∷ []

abbrev driver : TaskDriver
driver = record {
  my_node_id = pos 3;
  number_of_nodes = pos 9;
  parent_and_children = links 3 9;
  tasks = [];
  outgoing_messages = [];
  outgoing_mpi_messages = [];
  sent = [];
  local_sends = pos 0;
  distributed_objects = [];
  incoming_mpi_messages = [];
  node_id_for_receive = pos 0;
  local_processed = pos 0;
  last_regular_message_sweep_number = 0;
  local_sweep_number = 0;
  reduction_tables = entries ∷ [];
}

no_bytes : number_of_bytes_in_message first_child.header ≡ 0
unfolding number_of_bytes_in_message
no_bytes = refl

send_reductions_example :
    (m : ReductionMessage Payload) × (send_reductions
        (λ _. false)
        (λ _. 0)
        decode_message
        encode_message
        joined
        (first_child ∷ own_message ∷ second_child ∷ [])
        (driver, none)
      ≡ (after_sending 0 (encode_message m ∷ []) driver, none))
    × (some m.payload
        ≡ some (record (decode_message own_message).payload { values = 1 ∷ 20 ∷ 30 ∷ [] }))
    × (m.id ≡ 9)
    × (m.header ≡ record first_child.header {
      source_process_id = pos 3;
      destination_process_id = pos 1;
      quiescence_detection_sweep_number = 0;
    })
unfolding message_type type_of_code findus.MessageHeader.type_code
send_reductions_example =
    send_reductions_lem (λ _. false) (λ _. 0) decode_message encode_message joined 0 (λ k. refl)
      (λ m. refl) 9 (omega arith) driver entries refl 2 1 refl (omega arith)
      (record { reduction_id = 5; message = none }, refl, omega arith, omega arith, refl)
      (first_child ∷ []) (second_child ∷ []) own_message 2 9 1 0 (refl, (refl, (refl, tt)))
      (record { kind = refl; same = refl; source = refl; expected = refl; plain = refl }, tt)
      (record { kind = refl; same = refl; source = refl; expected = refl; plain = refl }, tt)
      (record { kind = refl; same = refl; source = refl; expected = refl; plain = refl }) refl refl
      refl (omega arith) no_bytes (omega arith)
