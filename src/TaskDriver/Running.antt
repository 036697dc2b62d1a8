-- ===== src/TaskDriver/Running.antt =====
-- The modes of the driver, `initiate_receives`, `clean_outgoing_mpi_messages` and the loop of `run_to_quiescence`. What
-- MPI and the threads answer in each round of the loop is a parameter.
pub mod Quiet
pub mod Idle
use findus.Base.{
  ℕ, zero, suc, ◌+◌, Bool, true, false, ltb, leb, ◌==◌, if◌then◌else◌, not, ◌&&◌, ◌||◌, List, [],
  ◌∷◌, ◌++◌, Option, none, some, length,
}
use findus.Base.Int.{ℤ, pos, negsuc, ltb_ℤ, ◌+ℤ◌, ◌==ℤ◌}
use findus.TaskDriver.{
  TaskMessage, DriverError, failed_to_probe, failed_to_get_status, negative_size, not_positive,
  Incoming, TaskDriver, Outcome,
}
use findus.TaskDriver.Receiving.{clean_incoming_mpi_messages}
use findus.TaskDriver.Sending.{initiate_sends}

-- What MPI answers when it is asked for a message of a process: there is none, it fails, or there is one of some size,
-- which a request receives.
pub data Probed : Type 0 where
  nothing failed : Probed
  arrived : ℤ → ℕ → TaskMessage → Probed

abbrev pub next_node : TaskDriver → TaskDriver
next_node driver = record driver { node_id_for_receive = driver.node_id_for_receive +ℤ pos 1 }

abbrev pub wrapped : TaskDriver → TaskDriver
wrapped driver =
    if ltb_ℤ driver.node_id_for_receive driver.number_of_nodes
    then driver
    else record driver { node_id_for_receive = pos 0 }

-- One round: the process that is asked is the next after the last one that was asked.
unfoldable pub receive_round : (ℤ → Probed) → TaskDriver → Outcome
receive_round probe driver =
    let asked = wrapped driver in
    if asked.node_id_for_receive ==ℤ asked.my_node_id
    then (next_node asked, none)
    else elim (probe asked.node_id_for_receive) [
      | nothing ↦ (next_node asked, none)
      | failed ↦ (asked, some failed_to_probe)
      | arrived size request message ↦ if ltb_ℤ size (pos 0) then (asked, some negative_size) else (
        next_node (record asked {
          incoming_mpi_messages =
              asked.incoming_mpi_messages
              ++ (record { request = request; message = some message }) ∷ [];
        }),
        none,
      )
    ]

-- The loop; `probe` is given the number of the rounds left.
unfoldable pub receive_rounds : (ℕ → ℤ → Probed) → ℕ → Outcome → Outcome
receive_rounds probe left (driver, some e) = (driver, some e)
receive_rounds probe zero (driver, none) = (driver, none)
receive_rounds probe (suc left) (driver, none) =
    receive_rounds probe left (receive_round (probe left) driver)

unfoldable pub initiate_receives : (ℕ → ℤ → Probed) → ℤ → TaskDriver → Outcome
initiate_receives probe (pos (suc n)) driver = receive_rounds probe (suc n) (driver, none)
initiate_receives probe _ driver = (driver, some not_positive)

-- The messages that stay, in their order; `finished` tells of each, by its place, whether MPI is done with it. Each
-- has a request, since a message is kept with one.
abbrev pub unfinished : (ℕ → Bool) → ℕ → List TaskMessage → List TaskMessage
unfinished finished i [] = []
unfinished finished i (m ∷ ms) =
    if finished i then unfinished finished (suc i) ms else m ∷ unfinished finished (suc i) ms

unfoldable pub clean_outgoing_mpi_messages : (ℕ → Bool) → TaskDriver → TaskDriver
clean_outgoing_mpi_messages finished driver = record driver {
  outgoing_mpi_messages = unfinished finished 0 driver.outgoing_mpi_messages;
}

-- One round of the loop sees this of the world.
pub record World : Type 0 where
  pub fails : ℕ → Bool
  pub probe : ℕ → ℤ → Probed
  pub reduce : TaskMessage → TaskDriver → Outcome
  pub fresh : ℕ → ℕ
  pub completed : ℕ → Bool
  pub finished : ℕ → Bool
  pub is_locally_quiescent : Bool
  pub check : Bool

abbrev pub then_do : Outcome → (TaskDriver → Outcome) → Outcome
then_do (driver, some e) next = (driver, some e)
then_do (driver, none) next = next driver

-- The four calls of a round.
unfoldable pub communicate : World → ℤ → ℤ → TaskDriver → Outcome
communicate world max_to_receive max_to_send driver =
    then_do
      (then_do
        (then_do (initiate_receives world.probe max_to_receive driver)
          (initiate_sends world.fails world.reduce world.fresh max_to_send))
        (clean_incoming_mpi_messages world.fails world.reduce world.fresh world.completed))
      (λ (d : TaskDriver). (clean_outgoing_mpi_messages world.finished d, none))

abbrev pub nothing_queued : TaskDriver → Bool
nothing_queued driver =
    (length driver.incoming_mpi_messages == 0)
    && (length driver.outgoing_mpi_messages == 0)
    && (length driver.outgoing_messages == 0)

abbrev pub local_qd_counts_for_global_qd : ℕ
local_qd_counts_for_global_qd = 50

pub data Ended : Type 0 where
  returned : ℕ → TaskDriver → Ended
  threw : TaskDriver → DriverError → Ended
  running : Ended

-- Behind the calls of a round: the loop ends, or goes on with a counter.
pub data Next : Type 0 where
  stop : Next
  go_on : ℕ → Next

unfoldable pub next_round : World → TaskDriver → ℕ → Next
next_round world driver local_qd_counter =
    if not (nothing_queued driver)
    then go_on local_qd_counter
    else if not world.is_locally_quiescent
    then go_on local_qd_counter
    else if ltb (local_qd_counter + 1) local_qd_counts_for_global_qd
    then go_on (local_qd_counter + 1)
    else if world.check
    then stop
    else go_on 0

-- The loop, for at most so many rounds; the end tells how many were left. `world` is given the number of rounds left.
unfoldable pub run_loop : ℕ → (ℕ → World) → ℤ → ℤ → ℕ → TaskDriver → Ended
run_loop zero world max_to_receive max_to_send local_qd_counter driver = running
run_loop (suc rounds) world max_to_receive max_to_send local_qd_counter driver =
    let done = communicate (world rounds) max_to_receive max_to_send driver in
    elim done.1 [
      | some e ↦ threw done.0 e
      | none ↦ elim (next_round (world rounds) done.0 local_qd_counter) [
        | stop ↦ returned rounds done.0
        | go_on counter ↦ run_loop rounds world max_to_receive max_to_send counter done.0
      ]
    ]

-- What the driver may do: components are inserted until the barrier, and the threads run after their launch.
pub record Mode : Type 0 where
  pub in_insert_mode : Bool
  pub threads_are_active : Bool

pub data ModeError : Type 0 where
  still_inserting already_active no_threads failed_barrier inconsistent : ModeError

unfoldable pub launch_threads : Mode → Mode × Option ModeError
launch_threads mode =
    if mode.in_insert_mode
    then (mode, some still_inserting)
    else if mode.threads_are_active
    then (mode, some already_active)
    else (record mode { threads_are_active = true }, none)

unfoldable pub force_threads_to_stop : Mode → Mode
force_threads_to_stop mode = record mode { threads_are_active = false }

-- `barriers` tells which of the two barriers fails, `agreed` whether the check of the components passes.
unfoldable pub insert_barrier : (ℕ → Bool) → Bool → Bool → Mode → Mode × Option ModeError
insert_barrier barriers agreed check_consistency_across_processes mode =
    if check_consistency_across_processes && barriers 0
    then (mode, some failed_barrier)
    else if check_consistency_across_processes && not agreed
    then (mode, some inconsistent)
    else if barriers 1
    then (mode, some failed_barrier)
    else (record mode { in_insert_mode = false }, none)

unfoldable pub run_to_quiescence :
    ℕ → (ℕ → World) → ℤ → ℤ → Mode → TaskDriver → Option ModeError × Ended
run_to_quiescence rounds world max_to_receive max_to_send mode driver =
    if mode.in_insert_mode
    then (some still_inserting, running)
    else if not mode.threads_are_active
    then (some no_threads, running)
    else (none, run_loop rounds world max_to_receive max_to_send 0 driver)
