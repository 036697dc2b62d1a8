-- ===== src/Tests/Rounds.antt =====
-- Rounds of the loop on a process with nothing to do.
use findus.Base.{ℕ, ◌+◌, ◌≤◌, true, false, [], none, ◌≡◌, refl, arith}
use findus.Base.Int.{ℤ, pos, ◌+ℤ◌}
use findus.ProcessTree.{links}
use findus.TaskDriver.{TaskDriver}
use findus.TaskDriver.Receiving.{clean_incoming_mpi_messages, handle_received, remove_loop}
use findus.TaskDriver.Sending.{initiate_sends, send_loop}
use findus.TaskDriver.Running.{
  World, nothing, communicate, nothing_queued, initiate_receives, receive_rounds, receive_round,
  clean_outgoing_mpi_messages, returned, next_round, run_loop,
}
use findus.TaskDriver.Running.Quiet.{run_loop-returned}
use findus.TaskDriver.Running.Idle.{IsStill, asking, run_loop-returns}

abbrev idle : TaskDriver
idle = record {
  my_node_id = pos 0;
  number_of_nodes = pos 1;
  parent_and_children = links 0 1;
  tasks = [];
  outgoing_messages = [];
  outgoing_mpi_messages = [];
  sent = [];
  local_sends = pos 0;
  distributed_objects = [];
  incoming_mpi_messages = [];
  node_id_for_receive = pos 1;
  local_processed = pos 0;
  last_regular_message_sweep_number = 0;
  local_sweep_number = 0;
  reduction_tables = [];
}

abbrev silence : ℕ → World
silence k = record {
  fails = λ _. false;
  probe = λ _ _. nothing;
  reduce = λ message driver. (driver, none);
  fresh = λ _. 0;
  completed = λ _. false;
  finished = λ _. false;
  is_locally_quiescent = true;
  check = true;
}

all-IsStill : (k : ℕ) → IsStill (silence k)
all-IsStill k = record { no_message = λ i p. refl; quiescent = refl; agrees = refl }

-- Three processes, so that the process that is asked next changes in each round.
abbrev one_of_three : TaskDriver
one_of_three = record idle {
  my_node_id = pos 1;
  number_of_nodes = pos 3;
  parent_and_children = links 1 3;
}

run_loop-returns_example :
    (node : ℤ) × (run_loop 60 silence (pos 10) (pos 10) 0 one_of_three
      ≡ returned 10 (asking node one_of_three))
run_loop-returns_example =
    run_loop-returns silence 9 9 all-IsStill one_of_three
      (record { no_incoming = refl; no_outgoing_mpi = refl; no_outgoing = refl }) 60 0 10
      (omega arith) (omega arith)

idle_run : run_loop 60 silence (pos 10) (pos 10) 0 idle ≡ returned 10 (asking (pos 1) idle)
unfolding ◌+ℤ◌ run_loop next_round communicate initiate_receives receive_rounds receive_round
    initiate_sends send_loop clean_incoming_mpi_messages handle_received remove_loop
    clean_outgoing_mpi_messages
idle_run = refl

run_loop-returned_example :
    (nothing_queued idle ≡ true)
    × ((silence 10).is_locally_quiescent ≡ true)
    × ((silence 10).check ≡ true)
    × (10 + 50 ≤ 0 + 60)
run_loop-returned_example =
    run_loop-returned silence (pos 10) (pos 10) 60 0 10 idle (asking (pos 1) idle) idle_run
