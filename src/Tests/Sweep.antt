-- ===== src/Tests/Sweep.antt =====
-- Runs of the global quiescence detection of QuiescenceDetection.cpp on the root of three processes.
use findus.Base.{
  ℕ, ◌<◌, ◌≤◌, Bool, true, false, not, List, [], ◌∷◌, none, some, ◌≡◌, ◌≢◌, refl, arith,
}
use findus.Base.Int.{pos, minus_one, ◌+ℤ◌, ◌-ℤ◌}
use findus.Base.Result.{Result, ok, err}
use findus.GlobalQd.{
  Message, create_message, is_up_message, is_down_message, sweep_number, max_int64, Global,
  create_global, is_leaf, is_root, AccumulationData, accumulated, Net, MpiCall,
}
use findus.GlobalQd.Collect.{receive_all, complete_sweep, check}
use findus.GlobalQd.Packing.{create_message_lem}
use findus.GlobalQd.Accumulate.{add_messages, receive_all_lem}
use findus.GlobalQd.Termination.{complete_sweep-terminate, IsFresh, check-IsFresh}

abbrev no_failure : MpiCall → Bool
no_failure call = false

abbrev all_done : ℕ → Bool
all_done request = true

-- Two messages sent, five processed.
abbrev root : Global
root = record {
  local_sweep_number = 0;
  last_regular_message_sweep_number = 0;
  local_sends = pos 2;
  local_processed = pos 5;
  self_process = pos 0;
  parent_process = minus_one;
  child_left_process = pos 1;
  child_right_process = pos 2;
  down_messages = [];
  max_simultaneous_qds = 1;
  root_down_sweep = 1;
  up_messages = [];
  accum_data = [];
  terminate = pos 0;
  broadcast_left_child_request = none;
  broadcast_right_child_request = none;
}

abbrev net : Net
net = record {
  quiescence_from_parent = [];
  down_from_parent = [];
  up_from = λ p. [];
  sent = [];
  next_request = 7;
  number_of_nodes = 3;
}

create_message_example :
    let m = create_message true 5 (pos 3) in
    (is_up_message m ≡ true)
    × (is_down_message m ≡ not true)
    × (sweep_number m ≡ 5)
    × (m.count ≡ pos 3)
create_message_example = create_message_lem true 5 (pos 3) (omega arith)

abbrev from_left : List Message
from_left = record { direction_and_sweep_number = 9223372036854775809; count = pos 1 } ∷ []

abbrev received : Global
received = record root {
  accum_data =
      (1, record { send_minus_processed = pos 1; number_of_children_received_from = 1 }) ∷ [];
}

receive_all_example :
    (accumulated 1 received.accum_data ≡ add_messages 1 from_left (accumulated 1 root.accum_data))
    × ((accumulated 1 received.accum_data).number_of_children_received_from < 3)
    × (received ≡ record root { accum_data = received.accum_data })
unfolding receive_all accumulated is_up_message findus.GlobalQd.store_accumulated sweep_number
    findus.GlobalQd.safe_add ◌+ℤ◌
receive_all_example =
    receive_all_lem no_failure all_done (pos 1) from_left root received 1 (omega arith) refl

abbrev value_of : {A : Type 0} {E : Type 0} → Result E A → A → A
value_of (ok a) b = a
value_of (err e) b = b

abbrev ended : Global × Net
ended = value_of (complete_sweep no_failure all_done 1 (pos 3) root net) (root, net)

complete_sweep-terminate_example :
    (root.last_regular_message_sweep_number ≤ root.local_sweep_number)
    × (pos 3 ≢ max_int64)
    × ((root.local_sends -ℤ root.local_processed) +ℤ pos 3 ≡ pos 0)
unfolding complete_sweep is_root findus.GlobalQd.safe_add findus.GlobalQd.Collect.local_count ◌-ℤ◌
    ◌+ℤ◌
complete_sweep-terminate_example =
    complete_sweep-terminate no_failure all_done 1 (pos 3) root net ended refl (λ e. ground arith)
      refl refl

abbrev over : Global
over = record root {
  terminate = pos 1;
  broadcast_left_child_request = some 7;
  broadcast_right_child_request = some 8;
}

abbrev checked : Bool × Global × Net
checked = value_of (check no_failure all_done over net) (false, over, net)

check-IsFresh_example : IsFresh checked.1
unfolding check
check-IsFresh_example = check-IsFresh no_failure all_done over net checked refl refl
