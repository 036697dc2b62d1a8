-- ===== src/ThreadPool.antt =====
-- ThreadPool.hpp: the threads of a process, its task queue, and the driver thread, which adds tasks
-- and asks for quiescence. Every access of an atomic counter or of the queue is a step, and the steps
-- of the threads interleave in any order. The queue is third-party code: here a list into which a
-- task goes anywhere it likes to be taken from, so no order is assumed. A task is its number; what
-- its execution does (send tasks, end as invoked, ask for a requeue) is chosen by the environment.
-- Printing is left out, since it touches neither the tasks nor the counters.
pub mod Family
pub mod Flow
pub mod Sound
pub mod Run
pub mod Quiescence
pub mod Idle
use findus.Base.{
  ℕ, zero, suc, ◌+◌, ◌<◌, Bool, true, false, ◌==◌, if◌then◌else◌, List, [], ◌∷◌, ◌++◌, Option, none,
  some, get_elem?, ◌≡◌,
}
use findus.Base.Int.{ℤ, pos, negsuc, minus_one, ◌+ℤ◌, ◌==ℤ◌}
use findus.LocalQd.{
  Local, Check, reading_idle, answered, invalid_phase, check_step, increment_sent,
  increment_processed, increment_idle_thread_count, decrement_idle_thread_count,
}

abbrev pub miss_count_for_idle : ℤ
miss_count_for_idle = pos 20

pub record Shared : Type 0 where
  pub task_queue : List ℕ
  pub local_qd : Local

-- Where a thread stands in `thread_loop`: at the dequeue, before it counts itself as idle, with a
-- task and before it takes itself out of the idle count, in the task, in `add_task` inside the task
-- between the count and the enqueue, and before it counts the task as processed.
pub data Place : Type 0 where
  dequeuing marking_idle finishing stopped : Place
  unmarking_idle executing : ℕ → Place
  adding : ℕ → ℕ → Place

pub record Worker : Type 0 where
  pub miss_count : ℤ
  pub place : Place

-- What is not decided by the thread's own code.
pub data Event : Type 0 where
  proceed nothing_found stop_seen invoked requeue_accepted requeue_refused : Event
  takes sends : ℕ → Event

remove_at : List ℕ → ℕ → List ℕ
remove_at [] i = []
remove_at (x ∷ xs) zero = xs
remove_at (x ∷ xs) (suc i) = x ∷ remove_at xs i

-- try_dequeue gave nothing.
after_miss : ℤ → Worker
after_miss miss_count =
    let missed = if miss_count ==ℤ minus_one then miss_count else miss_count +ℤ pos 1 in
    record {
      miss_count = missed;
      place = if missed ==ℤ miss_count_for_idle then marking_idle else dequeuing;
    }

-- try_dequeue gave the task at some position.
after_dequeue : ℤ → ℕ → Shared → Option (Worker × Shared)
unfolding remove_at
after_dequeue miss_count i s = elim (get_elem? s.task_queue i) [
  | none ↦ none
  | some task ↦ some (
    record {
      miss_count = miss_count;
      place = if miss_count ==ℤ minus_one then unmarking_idle task else executing task;
    },
    record s { task_queue = remove_at s.task_queue i },
  )
]

abbrev counting : (Local → Local) → Shared → Shared
counting f s = record s { local_qd = f s.local_qd }

abbrev enqueue : ℕ → Shared → Shared
enqueue task s = record s { task_queue = s.task_queue ++ task ∷ [] }

unfoldable pub worker_at : Place → Event → ℤ → Shared → Option (Worker × Shared)
unfolding after_miss after_dequeue increment_sent increment_processed increment_idle_thread_count
    decrement_idle_thread_count
worker_at dequeuing nothing_found m s = some (after_miss m, s)
worker_at dequeuing (takes i) m s = after_dequeue m i s
worker_at dequeuing stop_seen m s = some (record { miss_count = m; place = stopped }, s)
worker_at marking_idle proceed m s =
    some
      (record { miss_count = minus_one; place = dequeuing }, counting increment_idle_thread_count s)
worker_at (unmarking_idle task) proceed m s =
    some (
      record { miss_count = pos 0; place = executing task },
      counting decrement_idle_thread_count s,
    )
worker_at (executing task) (sends new) m s =
    some (record { miss_count = m; place = adding task new }, counting increment_sent s)
worker_at (adding task new) proceed m s =
    some (record { miss_count = m; place = executing task }, enqueue new s)
worker_at (executing task) invoked m s = some (record { miss_count = m; place = finishing }, s)
worker_at (executing task) requeue_accepted m s =
    some (record { miss_count = m; place = dequeuing }, enqueue task s)
worker_at (executing task) requeue_refused m s =
    some (record { miss_count = m; place = dequeuing }, s)
worker_at finishing proceed m s =
    some (record { miss_count = m; place = dequeuing }, counting increment_processed s)
worker_at _ _ m s = none

unfoldable pub worker_step : Event → Worker → Shared → Option (Worker × Shared)
unfolding worker_at
worker_step e w s = worker_at w.place e w.miss_count s

-- The driver thread: away from the pool, in `add_task` before the enqueue, or in `is_quiescent`.
pub data Driver : Type 0 where
  away : Driver
  adding_task : ℕ → Driver
  checking : Check → Driver

pub data Call : Type 0 where
  add_task : ℕ → Call
  ask go_on : Call

checked : Check × Local → Shared → Driver × Shared
checked c s = (checking c.0, record s { local_qd = c.1 })

unfoldable pub driver_step : ℕ → Call → Driver → Shared → Option (Driver × Shared)
unfolding checked check_step increment_sent
driver_step total (add_task task) away s = some (adding_task task, counting increment_sent s)
driver_step total ask away s = some (checking reading_idle, s)
driver_step total go_on (adding_task task) s = some (away, enqueue task s)
driver_step total go_on (checking (answered b)) s = some (away, s)
driver_step total go_on (checking c) s = some (checked (check_step total c s.local_qd) s)
driver_step total _ _ s = none

pub record Pool : Type 0 where
  pub driver : Driver
  pub shared : Shared
  pub workers : ℕ → Worker
