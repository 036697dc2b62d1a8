-- ===== src/ThreadPool/Flow.antt =====
-- What one step of a thread does to the tasks and to the counters of ThreadPool.hpp.
use findus.Base.{
  ℕ, zero, suc, ◌+◌, ◌≤◌, List, [], ◌∷◌, some, get_elem?, length, length-append, ◌≡◌, refl, arith,
  inl, inr, Option-cases, ap,
}
use findus.Base.Int.{ℤ}
use findus.ThreadPool.{
  Shared, Place, dequeuing, marking_idle, finishing, stopped, unmarking_idle, executing, adding,
  Worker, Event, proceed, nothing_found, stop_seen, requeue_accepted, takes, remove_at, worker_at,
  Driver, away, adding_task, checking,
}

-- The tasks that a thread has taken or announced and that are neither queued nor processed.
abbrev pub held : Worker → ℕ
held w = elim w.place [
  | dequeuing ↦ 0
  | marking_idle ↦ 0
  | finishing ↦ 1
  | stopped ↦ 0
  | unmarking_idle _ ↦ 1
  | executing _ ↦ 1
  | adding _ _ ↦ 2
]

length-remove_at :
    (xs : List ℕ) (i x : ℕ) → get_elem? xs i ≡ some x → suc (length (remove_at xs i)) ≡ length xs
unfolding remove_at
length-remove_at [] i x h = cc
length-remove_at (y ∷ xs) zero x h = refl
length-remove_at (y ∷ xs) (suc i) x h = ap suc (length-remove_at xs i x h)

abbrev pub sent : Shared → ℕ
sent s = s.local_qd.number_of_messages_sent

abbrev pub processed : Shared → ℕ
processed s = s.local_qd.number_of_messages_processed

abbrev pub announced : Driver → ℕ
announced d = elim d [ away ↦ 0 | adding_task _ ↦ 1 | checking _ ↦ 0 ]

-- What one step of a thread does to the tasks.
pub record Flow (w : Worker) (s : Shared) (w' : Worker) (s' : Shared) : Type 0 where
  pub balance :
      processed s' + length s'.task_queue + held w' + sent s
      ≤ processed s + length s.task_queue + held w + sent s'
  pub progress : processed s ≤ processed s'
  pub same_phase : s'.local_qd.phase ≡ s.local_qd.phase
  pub same_count : s'.local_qd.previous_count ≡ s.local_qd.previous_count
  pub stays_empty : length s.task_queue + held w ≡ 0 → length s'.task_queue + held w' ≡ 0

pub worker_at-Flow :
    (place : Place) (e : Event) (m : ℤ) (s : Shared) (w' : Worker) (s' : Shared)
    → worker_at place e m s ≡ some (w', s')
    → Flow (record { miss_count = m; place = place }) s w' s'
unfolding worker_at
worker_at-Flow dequeuing nothing_found m s w' s' h = ground arith
worker_at-Flow dequeuing (takes i) m s w' s' h = elim (Option-cases (get_elem? s.task_queue i)) [
  | inl e ↦ ground (arith, e)
  | inr (x, e) ↦ ground (arith, e, length-remove_at s.task_queue i x e)
]
worker_at-Flow dequeuing stop_seen m s w' s' h = ground arith
worker_at-Flow (executing task) requeue_accepted m s w' s' h =
    ground (arith, length-append s.task_queue (task ∷ []))
worker_at-Flow (adding task new) proceed m s w' s' h =
    ground (arith, length-append s.task_queue (new ∷ []))
worker_at-Flow place e m s w' s' h = ground arith
