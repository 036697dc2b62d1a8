-- ===== src/GlobalQd/Collect.antt =====
-- The up traversal of qd::Global in QuiescenceDetection.cpp, and `check_impl` and `check`, which drive both
-- traversals. The loop over the up messages that have arrived ends with the list of them.
use findus.Base.{
  ℕ, ◌+◌, ◌%◌, ◌^◌, Bool, true, false, ◌==◌, ltb, if◌then◌else◌, not, ◌&&◌, List, [], ◌∷◌, Option,
  none, some,
}
use findus.Base.Int.{ℤ, pos, minus_one, ltb_ℤ, ◌-ℤ◌, ◌==ℤ◌}
use findus.Base.Result.{Result, ok, err, ◌>>=◌}
use findus.GlobalQd.{
  Message, is_up_message, sweep_number, max_int64, safe_add, AccumulationData, Global, accumulated,
  store_accumulated, is_leaf, is_root, quiescence_to, Net, MpiCall, comm_size, probe_quiescence,
  recv_quiescence, probe_up, recv_up, wait_for, QdFailure, mpi_failed, expected_up,
  too_many_up_messages, unexpected_termination_value, not_terminated, accumulations_left,
  down_messages_left, up_messages_left, no_left_request, no_right_request,
}
use findus.GlobalQd.Traverse.{
  isend, cleanup_up_messages, cleanup_down_messages, send_up, down_traversal,
}

-- Adds one up message to the accumulation of its sweep.
unfoldable pub accumulate : Message → Global → Result QdFailure Global
accumulate message g =
    let key = sweep_number message in
    let old = accumulated key g.accum_data in
    let received = (old.number_of_children_received_from + 1) % 2 ^ 8 in
    if not (is_up_message message)
    then err expected_up
    else if ltb 2 received
    then err too_many_up_messages
    else ok (record g {
      accum_data =
          store_accumulated key
            (record {
              send_minus_processed = safe_add old.send_minus_processed message.count;
              number_of_children_received_from = received;
            })
            g.accum_data;
    })

-- The count that a process adds to those of its children.
unfoldable pub local_count : Global → ℤ
local_count g =
    if ltb g.local_sweep_number g.last_regular_message_sweep_number
    then max_int64
    else g.local_sends -ℤ g.local_processed

unfoldable pub number_of_children : Global → ℕ
number_of_children g =
    (if g.child_left_process ==ℤ minus_one then 0 else 1)
    + (if g.child_right_process ==ℤ minus_one then 0 else 1)

abbrev pub is_empty {ℓ} : {A : Type ℓ} → List A → Bool
is_empty [] = true
is_empty (x ∷ xs) = false

abbrev pub is_none {ℓ} : {A : Type ℓ} → Option A → Bool
is_none none = true
is_none (some a) = false

abbrev pub start_over : Global → Global
start_over g = record g {
  terminate = pos 0;
  broadcast_left_child_request = none;
  broadcast_right_child_request = none;
  local_sweep_number = 0;
  last_regular_message_sweep_number = 0;
  local_sends = pos 0;
  local_processed = pos 0;
  root_down_sweep = 0;
}

unfoldable pub reset_checked : Global → Result QdFailure Global
reset_checked g =
    if not (g.terminate ==ℤ pos 1)
    then err not_terminated
    else if not (is_empty g.accum_data)
    then err accumulations_left
    else if not (is_empty g.down_messages)
    then err down_messages_left
    else if not (is_empty g.up_messages)
    then err up_messages_left
    else if not (g.child_left_process ==ℤ minus_one) && is_none g.broadcast_left_child_request
    then err no_left_request
    else if not (g.child_right_process ==ℤ minus_one) && is_none g.broadcast_right_child_request
    then err no_right_request
    else ok (start_over g)

module _ (fails : MpiCall → Bool) (done : ℕ → Bool) where
  -- The `do` loop for one child.
  unfoldable pub receive_all : ℤ → List Message → Global → Result QdFailure Global
  unfolding accumulate
  receive_all child [] g =
      if fails (probe_up child) then err (mpi_failed (probe_up child)) else ok g
  receive_all child (message ∷ later) g =
      if fails (probe_up child)
      then err (mpi_failed (probe_up child))
      else if fails (recv_up child)
      then err (mpi_failed (recv_up child))
      else (accumulate message g >>= λ (g' : Global). receive_all child later g')

  abbrev pub taken_from : ℤ → Net → Net
  taken_from child net = record net { up_from = λ p. if p ==ℤ child then [] else net.up_from p }

  unfoldable pub receive_up_messages_from : ℤ → Global → Net → Result QdFailure (Global × Net)
  unfolding receive_all
  receive_up_messages_from child g net =
      if ltb_ℤ child (pos 0)
      then ok (g, net)
      else (receive_all child (net.up_from child) g >>= λ (g' : Global).
          ok (g', taken_from child net))

  -- The request to remember for the child.
  unfoldable pub send_quiescence_broadcast_to : ℤ → ℤ → Net → Result QdFailure (Option ℕ × Net)
  unfolding isend
  send_quiescence_broadcast_to child terminate net =
      if child ==ℤ minus_one
      then ok (none, net)
      else (isend fails done (quiescence_to child terminate) net >>= λ (r : ℕ × Net).
          ok (some r.0, r.1))

  unfoldable pub broadcast_quiescence : Global → Net → Result QdFailure (Global × Net)
  unfolding send_quiescence_broadcast_to
  broadcast_quiescence g net =
      send_quiescence_broadcast_to g.child_left_process g.terminate net >>= λ (l : Option ℕ × Net).
      send_quiescence_broadcast_to g.child_right_process g.terminate l.1 >>= λ (r : Option ℕ × Net).
      ok (record g { broadcast_left_child_request = l.0; broadcast_right_child_request = r.0 }, r.1)

  -- All children have sent their count for the sweep.
  unfoldable pub complete_sweep : ℕ → ℤ → Global → Net → Result QdFailure (Global × Net)
  unfolding broadcast_quiescence send_up down_traversal
  complete_sweep sweep children_count g net =
      let global_count = safe_add (local_count g) children_count in
      let swept : Global = record g { local_sweep_number = sweep } in
      if not (is_root g)
      then (send_up fails done sweep global_count g net >>= λ (r : Global × Net).
          ok (record r.0 { local_sweep_number = sweep }, r.1))
      else if global_count ==ℤ pos 0
      then broadcast_quiescence (record swept { terminate = pos 1 }) net
      else down_traversal fails done swept net

  unfoldable pub after_receiving :
      Global → Net → List (ℕ × AccumulationData) → Result QdFailure (Global × Net)
  unfolding complete_sweep number_of_children down_traversal
  after_receiving g net [] = down_traversal fails done g net
  after_receiving g net ((sweep, a) ∷ others) =
      if not (a.number_of_children_received_from == number_of_children g)
      then ok (g, net)
      else complete_sweep sweep a.send_minus_processed (record g { accum_data = others }) net

  unfoldable pub up_traversal : Global → Net → Result QdFailure (Global × Net)
  unfolding cleanup_up_messages after_receiving receive_up_messages_from down_traversal
  up_traversal g₀ net = cleanup_up_messages fails done g₀ >>= λ (g : Global).
      if is_leaf g
      then down_traversal fails done g net
      else (receive_up_messages_from g.child_left_process g net >>= λ (l : Global × Net).
          receive_up_messages_from g.child_right_process l.0 l.1 >>= λ (r : Global × Net).
          after_receiving r.0 r.1 r.0.accum_data)

  -- The termination that the parent sends, if it has arrived.
  unfoldable pub receive_quiescence : List ℤ → Global → Net → Result QdFailure (Bool × Global × Net)
  unfolding broadcast_quiescence up_traversal
  receive_quiescence [] g net =
      up_traversal g net >>= λ (r : Global × Net). ok (r.0.terminate ==ℤ pos 1, r.0, r.1)
  receive_quiescence (value ∷ later) g net =
      if fails (recv_quiescence g.parent_process)
      then err (mpi_failed (recv_quiescence g.parent_process))
      else if not (value ==ℤ pos 1)
      then err unexpected_termination_value
      else (broadcast_quiescence (record g { terminate = value })
            (record net { quiescence_from_parent = later })
          >>= λ (r : Global × Net). ok (true, r.0, r.1))

  unfoldable pub check_impl : Global → Net → Result QdFailure (Bool × Global × Net)
  unfolding receive_quiescence up_traversal
  check_impl g net =
      if fails comm_size
      then err (mpi_failed comm_size)
      else if net.number_of_nodes == 1
      then ok (true, record g { terminate = pos 1 }, net)
      else if g.terminate ==ℤ pos 1
      then ok (true, g, net)
      else if is_root g
      then receive_quiescence [] g net
      else if fails (probe_quiescence g.parent_process)
      then err (mpi_failed (probe_quiescence g.parent_process))
      else receive_quiescence net.quiescence_from_parent g net

  wait_request : Option ℕ → Result QdFailure Bool
  wait_request none = ok true
  wait_request (some r) = if fails (wait_for r) then err (mpi_failed (wait_for r)) else ok true

  unfoldable pub wait_for_broadcast : Global → Result QdFailure Global
  unfolding cleanup_down_messages cleanup_up_messages wait_request
  wait_for_broadcast g = wait_request g.broadcast_left_child_request >>= λ (a : Bool).
      wait_request g.broadcast_right_child_request >>= λ (b : Bool).
      cleanup_down_messages fails done g >>= λ (g' : Global). cleanup_up_messages fails done g'

  -- The `MPI_Barrier` at the end of the reset changes nothing on the process and is left out.
  unfoldable pub safe_reset : Global → Result QdFailure Global
  unfolding wait_for_broadcast reset_checked
  safe_reset g = wait_for_broadcast g >>= λ (g' : Global). reset_checked g'

  unfoldable pub check : Global → Net → Result QdFailure (Bool × Global × Net)
  unfolding check_impl safe_reset
  check g net = check_impl g net >>= λ (r : Bool × Global × Net).
      if r.0 then (safe_reset r.1 >>= λ (g' : Global). ok (true, g', r.2)) else ok (false, r.1, r.2)
