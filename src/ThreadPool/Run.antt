-- ===== src/ThreadPool/Run.antt =====
-- The runs of a pool of threads after `launch_threads` of ThreadPool.hpp, in any interleaving.
use findus.Base.{ℕ, ◌<◌, [], some, ◌≡◌}
use findus.Base.Int.{pos}
use findus.LocalQd.{fresh}
use findus.ThreadPool.{
  Shared, dequeuing, Worker, Event, worker_step, Driver, away, Call, driver_step, Pool,
}
use findus.ThreadPool.Family.{update}

-- One step of the pool with `n` threads: a thread or the driver goes on.
pub data Step (n : ℕ) : Pool → Pool → Type 0 where
  work :
      (i : ℕ) (e : Event) (p : Pool) (w : Worker) (s : Shared)
      → i < n
      → worker_step e (p.workers i) p.shared ≡ some (w, s)
      → Step n p (record p { shared = s; workers = update p.workers i w })
  drive :
      (c : Call) (p : Pool) (d : Driver) (s : Shared)
      → driver_step n c p.driver p.shared ≡ some (d, s)
      → Step n p (record p { driver = d; shared = s })

-- What `launch_threads` starts: every thread at its first dequeue, on a queue that holds no task.
abbrev pub launched : Pool
launched = record {
  driver = away;
  shared = record { task_queue = []; local_qd = fresh };
  workers = λ i. record { miss_count = pos 0; place = dequeuing };
}

pub data Reachable (n : ℕ) : Pool → Type 0 where
  start : Reachable n launched
  next : (p q : Pool) → Reachable n p → Step n p q → Reachable n q
