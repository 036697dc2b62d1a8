-- ===== src/GlobalQd/Traverse.antt =====
-- The down and up traversals of qd::Global in QuiescenceDetection.cpp. `fails` says which calls of
-- MPI do not succeed, and `done` which requests are complete.
use findus.Base.{
  ℕ, ◌+◌, Bool, true, false, ltb, if◌then◌else◌, not, ◌&&◌, ◌||◌, List, [], ◌∷◌, ◌++◌,
}
use findus.Base.Int.{ℤ, pos, minus_one, ◌-ℤ◌, ◌==ℤ◌}
use findus.Base.Result.{Result, ok, err, ◌>>=◌}
use findus.GlobalQd.{
  Message, create_message, is_up_message, is_down_message, sweep_number, DownData, UpData, Global,
  is_leaf, is_root, Packet, down_to, up_to, Net, MpiCall, probe_down, recv_down, send, get_status,
  free_request, QdFailure, mpi_failed, expected_down, expected_up,
}

module _ (fails : MpiCall → Bool) (done : ℕ → Bool) where
  abbrev pub mpi {ℓ} : {A : Type ℓ} → MpiCall → A → Result QdFailure A
  mpi call a = if fails call then err (mpi_failed call) else ok a

  -- MPI_Isend, which gives the request.
  unfoldable pub isend : Packet → Net → Result QdFailure (ℕ × Net)
  isend packet net = mpi (send packet) (
    net.next_request,
    record net { sent = net.sent ++ packet ∷ []; next_request = net.next_request + 1 },
  )

  unfoldable pub send_down_to_children : Global → DownData → Net → Result QdFailure (DownData × Net)
  unfolding isend
  send_down_to_children g d net =
      (if g.child_left_process ==ℤ minus_one
        then ok (d, net)
        else isend (down_to g.child_left_process d.message) net >>= λ (r : ℕ × Net).
            ok (record d { child_left_request = r.0 }, r.1))
      >>= λ (l : DownData × Net).
          if g.child_right_process ==ℤ minus_one
          then ok l
          else isend (down_to g.child_right_process d.message) l.1 >>= λ (r : ℕ × Net).
              ok (record l.0 { child_right_request = r.0 }, r.1)

  -- MPI_Request_get_status, and MPI_Request_free, where there is such a neighbour.
  status : Bool → ℕ → Result QdFailure Bool
  status exists request = if exists then mpi (get_status request) (done request) else ok false

  free : Bool → ℕ → Result QdFailure Bool
  free exists request = if exists then mpi (free_request request) true else ok true

  -- Whether `remove_if` takes a down message out.
  unfoldable pub is_down_complete : Global → DownData → Result QdFailure Bool
  unfolding status free
  is_down_complete g d =
      let left = not (g.child_left_process ==ℤ minus_one) in
      let right = not (g.child_right_process ==ℤ minus_one) in
      if not (is_down_message d.message)
      then err expected_down
      else status left d.child_left_request >>= λ (l : Bool).
          status right d.child_right_request >>= λ (r : Bool).
          if (l || not left) && (r || not right)
          then (free left d.child_left_request >>= λ (a : Bool). free right d.child_right_request)
          else ok false

  unfoldable pub is_up_complete : UpData → Result QdFailure Bool
  unfolding status free
  is_up_complete u =
      if not (is_up_message u.message)
      then err expected_up
      else status true u.parent_request >>= λ (p : Bool).
          if p then free true u.parent_request else ok false

  -- `std::remove_if` with a predicate that may throw, and `erase`.
  unfoldable pub remove_if :
      {A : Type 0} → (A → Result QdFailure Bool) → List A → Result QdFailure (List A)
  remove_if f [] = ok []
  remove_if f (x ∷ xs) =
      f x >>= λ (b : Bool). remove_if f xs >>= λ rest. ok (if b then rest else x ∷ rest)

  unfoldable pub cleanup_down_messages : Global → Result QdFailure Global
  unfolding is_down_complete remove_if
  cleanup_down_messages g = remove_if (is_down_complete g) g.down_messages >>= λ left.
      ok (record g { down_messages = left })

  unfoldable pub cleanup_up_messages : Global → Result QdFailure Global
  unfolding is_up_complete remove_if
  cleanup_up_messages g =
      remove_if is_up_complete g.up_messages >>= λ left. ok (record g { up_messages = left })

  -- Sends an up message to the parent and remembers it.
  unfoldable pub send_up : ℕ → ℤ → Global → Net → Result QdFailure (Global × Net)
  unfolding isend
  send_up sweep count g net =
      let message = create_message true sweep count in
      isend (up_to g.parent_process message) net >>= λ (r : ℕ × Net). ok (
        record g {
          up_messages = g.up_messages ++ record { message = message; parent_request = r.0 } ∷ [];
        },
        r.1,
      )

  -- Sends a down message to the children and remembers it.
  unfoldable pub send_down : Message → Global → Net → Result QdFailure (Global × Net)
  unfolding send_down_to_children
  send_down message g net =
      let fresh : DownData = record {
        message = message;
        child_left_request = 0;
        child_right_request = 0;
      } in
      send_down_to_children g fresh net >>= λ (r : DownData × Net).
      ok (record g { down_messages = g.down_messages ++ r.0 ∷ [] }, r.1)

  -- A process that is not the root takes one down message, if there is one.
  unfoldable pub receive_down : List Message → Global → Net → Result QdFailure (Global × Net)
  unfolding send_up send_down
  receive_down [] g net = ok (g, net)
  receive_down (message ∷ later) g net =
      let rest = record net { down_from_parent = later } in
      if fails (recv_down g.parent_process)
      then err (mpi_failed (recv_down g.parent_process))
      else if not (is_down_message message)
      then err expected_down
      else if not (is_leaf g)
      then send_down message g rest
      else send_up (sweep_number message) (g.local_sends -ℤ g.local_processed) g rest

  unfoldable pub down_traversal : Global → Net → Result QdFailure (Global × Net)
  unfolding cleanup_down_messages receive_down send_down
  down_traversal g₀ net = cleanup_down_messages g₀ >>= λ (g : Global).
      if is_root g
      then if ltb g.local_sweep_number g.root_down_sweep
        then ok (g, net)
        else send_down (create_message false (g.local_sweep_number + 1) (pos 0))
            (record g { root_down_sweep = g.local_sweep_number + 1 }) net
      else if fails (probe_down g.parent_process)
      then err (mpi_failed (probe_down g.parent_process))
      else receive_down net.down_from_parent g net
