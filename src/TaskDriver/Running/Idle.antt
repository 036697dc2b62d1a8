-- ===== src/TaskDriver/Running/Idle.antt =====
-- The loop on a process on which nothing happens any more.
use findus.Base.{
  ℕ, zero, suc, ◌+◌, ◌<◌, true, ltb, [], none, ◌≡◌, inl, inr, refl, ap, ◌∙◌, arith, Bool-cases,
}
use findus.Base.Int.{ℤ, pos, ltb_ℤ, ◌+ℤ◌}
use findus.TaskDriver.{TaskDriver}
use findus.TaskDriver.Receiving.{clean_incoming_mpi_messages, handle_received, remove_loop}
use findus.TaskDriver.Sending.{initiate_sends, send_loop}
use findus.TaskDriver.Running.{
  Probed, nothing, receive_round, receive_rounds, initiate_receives, clean_outgoing_mpi_messages,
  World, communicate, nothing_queued, returned, next_round, run_loop,
}

-- Nothing is queued.
pub record IsEmpty (driver : TaskDriver) : Type 0 where
  pub no_incoming : driver.incoming_mpi_messages ≡ []
  pub no_outgoing_mpi : driver.outgoing_mpi_messages ≡ []
  pub no_outgoing : driver.outgoing_messages ≡ []

-- MPI has no message of any process, the threads are locally quiescent, and the global detection says yes.
pub record IsStill (world : World) : Type 0 where
  pub no_message : (k : ℕ) (p : ℤ) → world.probe k p ≡ nothing
  pub quiescent : world.is_locally_quiescent ≡ true
  pub agrees : world.check ≡ true

-- The driver with another process to ask next.
abbrev pub asking : ℤ → TaskDriver → TaskDriver
asking node driver = record driver { node_id_for_receive = node }

receive_round-nothing :
    (probe : ℤ → Probed) (driver : TaskDriver)
    → ((p : ℤ) → probe p ≡ nothing)
    → (node : ℤ) × (receive_round probe driver ≡ (asking node driver, none))
unfolding receive_round
receive_round-nothing probe driver none_there =
    elim (Bool-cases (ltb_ℤ driver.node_id_for_receive driver.number_of_nodes)) [
      | inl t ↦ (
        driver.node_id_for_receive +ℤ pos 1,
        ground (arith, t, none_there driver.node_id_for_receive),
      )
      | inr f ↦ (pos 0 +ℤ pos 1, ground (arith, f, none_there (pos 0)))
    ]

receive_rounds-nothing :
    (probe : ℕ → ℤ → Probed) (left : ℕ) (driver : TaskDriver)
    → ((k : ℕ) (p : ℤ) → probe k p ≡ nothing)
    → (node : ℤ) × (receive_rounds probe left (driver, none) ≡ (asking node driver, none))
unfolding receive_rounds
receive_rounds-nothing probe zero driver none_there = (driver.node_id_for_receive, refl)
receive_rounds-nothing probe (suc left) driver none_there =
    let (node, e) = receive_round-nothing (probe left) driver (none_there left) in
    let (last, f) = receive_rounds-nothing probe left (asking node driver) none_there in
    (last, ap (receive_rounds probe left) e ∙ f)

-- A round of the communication asks for messages and does nothing else.
communicate-nothing :
    (world : World) (r s : ℕ) (driver : TaskDriver)
    → IsEmpty driver
    → IsStill world
    → (node : ℤ) × (communicate world (pos (suc r)) (pos (suc s)) driver
        ≡ (asking node driver, none))
unfolding communicate initiate_receives initiate_sends send_loop clean_incoming_mpi_messages
    handle_received remove_loop clean_outgoing_mpi_messages
communicate-nothing world r s driver empty still =
    let (node, e) = receive_rounds-nothing world.probe (suc r) driver still.no_message in
    (node, ground (arith, e, empty.no_incoming, empty.no_outgoing_mpi, empty.no_outgoing))

module _ (world : ℕ → World) (r s : ℕ) (still : (k : ℕ) → IsStill (world k)) where
  -- A process on which nothing is queued, while MPI has no message, the threads are locally quiescent and the
  -- global detection says yes in every round: with positive numbers of messages to receive and to send, and rounds
  -- enough to count to 50, the loop returns when the counter is 50, with a driver that has changed at most in which
  -- process it asks next.
  pub run_loop-returns :
      (driver : TaskDriver)
      → IsEmpty driver
      → (rounds counter left : ℕ) → counter < 50
      → rounds + counter ≡ 50 + left
      → (node : ℤ) × (run_loop rounds world (pos (suc r)) (pos (suc s)) counter driver
          ≡ returned left (asking node driver))
  unfolding run_loop next_round
  run_loop-returns driver empty zero counter left low h = absurd (omega arith)
  run_loop-returns driver empty (suc rounds) counter left low h =
      let (node, e) = communicate-nothing (world rounds) r s driver empty (still rounds) in
      let empty' : IsEmpty (asking node driver) = record {
        no_incoming = empty.no_incoming;
        no_outgoing_mpi = empty.no_outgoing_mpi;
        no_outgoing = empty.no_outgoing;
      } in
      let none_queued : nothing_queued (asking node driver) ≡ true =
        ground (arith, empty.no_incoming, empty.no_outgoing_mpi, empty.no_outgoing) in
      elim (Bool-cases (ltb (counter + 1) 50)) [
        | inl t ↦
            let (last, f) =
              run_loop-returns (asking node driver) empty' rounds (counter + 1) left
                (ground (arith, t)) (omega (arith, h)) in
            (last, ground (arith, e, none_queued, (still rounds).quiescent, t, f))
        | inr f ↦
            let same : rounds ≡ left = ground (arith, low, f, h) in
            (
              node,
              ground
                  (arith, e, none_queued, (still rounds).quiescent, (still rounds).agrees, f, same),
            )
      ]
