-- ===== src/GlobalQd.antt =====
-- qd::Global of QuiescenceDetection.hpp and .cpp: the messages of the sweeps, the state of a process
-- and what of MPI the code uses. Counts are integers that do not wrap; the largest `int64_t` is the
-- one value with a meaning of its own.
pub mod Traverse
pub mod Collect
pub mod Packing
pub mod Accumulate
pub mod Termination
use findus.Base.{
  ℕ, zero, suc, ◌+◌, ◌-◌, ◌*◌, ◌/◌, ◌%◌, ◌^◌, Bool, true, false, ◌==◌, ltb, if◌then◌else◌, not,
  ◌&&◌, ◌||◌, List, [], ◌∷◌, ◌++◌, Option, none, some,
}
use Prim.Native.Nat.{bit_and, bit_or}
use findus.Base.Int.{ℤ, pos, negsuc, minus_one, ◌+ℤ◌, ◌-ℤ◌, ◌==ℤ◌}
use findus.Base.Result.{Result, ok, err, ◌>>=◌}
use findus.ProcessTree.{TreeError, ParentAndChildren, parent_and_children}

pub record Message : Type 0 where
  pub direction_and_sweep_number : ℕ
  pub count : ℤ

abbrev pub direction_bit : ℕ
direction_bit = 1 * 2 ^ 63

unfoldable pub create_message : Bool → ℕ → ℤ → Message
create_message direction_is_up sweep_number in_count = record {
  direction_and_sweep_number =
      if direction_is_up then bit_or sweep_number direction_bit else sweep_number;
  count = in_count;
}

unfoldable pub is_up_message : Message → Bool
is_up_message message = not (bit_and message.direction_and_sweep_number direction_bit == 0)

unfoldable pub is_down_message : Message → Bool
is_down_message message = not (is_up_message message)

unfoldable pub sweep_number : Message → ℕ
sweep_number message = message.direction_and_sweep_number * 2 ^ 1 % 2 ^ 64 / 2 ^ 1

abbrev pub max_int64 : ℤ
max_int64 = pos (2 ^ 63 - 1)

unfoldable pub safe_add : ℤ → ℤ → ℤ
safe_add a b = if a ==ℤ max_int64 || b ==ℤ max_int64 then max_int64 else a +ℤ b

-- A request of MPI is its number.
pub record DownData : Type 0 where
  pub message : Message
  pub child_left_request : ℕ
  pub child_right_request : ℕ

pub record UpData : Type 0 where
  pub message : Message
  pub parent_request : ℕ

pub record AccumulationData : Type 0 where
  pub send_minus_processed : ℤ
  pub number_of_children_received_from : ℕ

abbrev pub no_accumulation : AccumulationData
no_accumulation = record { send_minus_processed = pos 0; number_of_children_received_from = 0 }

-- The `std::map` is a list of pairs in ascending order of the keys.
pub record Global : Type 0 where
  pub local_sweep_number : ℕ
  pub last_regular_message_sweep_number : ℕ
  pub local_sends : ℤ
  pub local_processed : ℤ
  pub self_process : ℤ
  pub parent_process : ℤ
  pub child_left_process : ℤ
  pub child_right_process : ℤ
  pub down_messages : List DownData
  pub max_simultaneous_qds : ℕ
  pub root_down_sweep : ℕ
  pub up_messages : List UpData
  pub accum_data : List (ℕ × AccumulationData)
  pub terminate : ℤ
  pub broadcast_left_child_request : Option ℕ
  pub broadcast_right_child_request : Option ℕ

-- `accum_data_[key]`, which a missing key gives its initial value.
unfoldable pub accumulated : ℕ → List (ℕ × AccumulationData) → AccumulationData
accumulated key [] = no_accumulation
accumulated key ((k, a) ∷ rest) = if k == key then a else accumulated key rest

-- `accum_data_[key] = a`.
unfoldable pub store_accumulated :
    ℕ → AccumulationData → List (ℕ × AccumulationData) → List (ℕ × AccumulationData)
store_accumulated key a [] = (key, a) ∷ []
store_accumulated key a ((k, b) ∷ rest) =
    let others = store_accumulated key a rest in
    if k == key
    then (key, a) ∷ rest
    else if ltb key k
    then (key, a) ∷ (k, b) ∷ rest
    else (k, b) ∷ others

unfoldable pub create_global : ℤ → ℤ → ℕ → Result TreeError Global
create_global my_process total_processes max_qds =
    parent_and_children my_process total_processes >>= λ (pnc : ParentAndChildren). ok (record {
      local_sweep_number = 0;
      last_regular_message_sweep_number = 0;
      local_sends = pos 0;
      local_processed = pos 0;
      self_process = pnc.self_process_id;
      parent_process = pnc.parent_process_id;
      child_left_process = pnc.left_process_id;
      child_right_process = pnc.right_process_id;
      down_messages = [];
      max_simultaneous_qds = max_qds;
      root_down_sweep = 0;
      up_messages = [];
      accum_data = [];
      terminate = pos 0;
      broadcast_left_child_request = none;
      broadcast_right_child_request = none;
    })

unfoldable pub is_leaf : Global → Bool
is_leaf g = g.child_left_process ==ℤ minus_one && g.child_right_process ==ℤ minus_one

unfoldable pub is_root : Global → Bool
is_root g = g.parent_process ==ℤ minus_one

unfoldable pub update_last_regular_message_sweep_number : ℕ → Global → Global
update_last_regular_message_sweep_number number g =
    let last = g.last_regular_message_sweep_number in
    record g { last_regular_message_sweep_number = if ltb number last then last else number }

unfoldable pub increment_sends : Global → Global
increment_sends g = record g { local_sends = g.local_sends +ℤ pos 1 }

unfoldable pub increment_processed_messages : Global → Global
increment_processed_messages g = record g { local_processed = g.local_processed +ℤ pos 1 }

-- What the process hands to MPI, and to whom.
pub data Packet : Type 0 where
  down_to up_to : ℤ → Message → Packet
  quiescence_to : ℤ → ℤ → Packet

-- MPI as seen by the process: the messages that have arrived, in their order, for each tag and
-- sender, what was sent, the number of the next request, and the size of the communicator.
pub record Net : Type 0 where
  pub quiescence_from_parent : List ℤ
  pub down_from_parent : List Message
  pub up_from : ℤ → List Message
  pub sent : List Packet
  pub next_request : ℕ
  pub number_of_nodes : ℕ

pub data MpiCall : Type 0 where
  comm_size : MpiCall
  probe_quiescence recv_quiescence probe_down recv_down probe_up recv_up : ℤ → MpiCall
  send : Packet → MpiCall
  get_status free_request wait_for : ℕ → MpiCall

pub data QdFailure : Type 0 where
  mpi_failed : MpiCall → QdFailure
  expected_down expected_up too_many_up_messages unexpected_termination_value : QdFailure
  not_terminated accumulations_left down_messages_left up_messages_left : QdFailure
  no_left_request no_right_request : QdFailure
