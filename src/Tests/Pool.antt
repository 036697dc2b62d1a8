-- ===== src/Tests/Pool.antt =====
-- Runs of the thread pool of ThreadPool.hpp and of the quiescence detection of a process.
use findus.Base.{
  ℕ, ◌+◌, ◌<◌, Option, some, none, ◌++◌, replicate, dec_lt, Bool, true, false, ◌==◌, ◌&&◌,
  if◌then◌else◌, List, [], ◌∷◌, ◌≡◌, ◌≢◌, refl, arith,
}
use findus.Base.Int.{pos}
use findus.ThreadPool.{
  Shared, Worker, Pool, Driver, Call, add_task, ask, go_on, worker_step, driver_step, Event,
  proceed, nothing_found, invoked, requeue_accepted, takes, sends,
}
use findus.ThreadPool.Flow.{held}
use findus.ThreadPool.Family.{update}
use findus.ThreadPool.Idle.{number_idle, number_of_idle_threads_lem}
use findus.ThreadPool.Run.{work, drive, launched, Reachable, start, next}
use findus.ThreadPool.Quiescence.{is_quiescent_sound}

data Move : Type 0 where
  thread : ℕ → Event → Move
  driver : Call → Move

-- What a move leads to; a move that the pool refuses changes nothing.
abbrev moved : ℕ → Pool → Option (Worker × Shared) → ℕ → Pool
moved n p (some (w, s)) i = record p { shared = s; workers = update p.workers i w }
moved n p none i = p

abbrev driven : Pool → Option (Driver × Shared) → Pool
driven p (some (d, s)) = record p { driver = d; shared = s }
driven p none = p

move : ℕ → Move → Pool → Pool
move n (thread i e) p = elim (dec_lt i n) [
  | yes h ↦ moved n p (worker_step e (p.workers i) p.shared) i
  | no h ↦ p
]
move n (driver c) p = driven p (driver_step n c p.driver p.shared)

moved-Reachable :
    (n : ℕ) (i : ℕ) (e : Event) (p : Pool) (o : Option (Worker × Shared))
    → i < n
    → worker_step e (p.workers i) p.shared ≡ o
    → Reachable n p
    → Reachable n (moved n p o i)
moved-Reachable n i e p (some (w, s)) h step r = next p _ r (work i e p w s h step)
moved-Reachable n i e p none h step r = r

driven-Reachable :
    (n : ℕ) (c : Call) (p : Pool) (o : Option (Driver × Shared))
    → driver_step n c p.driver p.shared ≡ o
    → Reachable n p
    → Reachable n (driven p o)
driven-Reachable n c p (some (d, s)) step r = next p _ r (drive c p d s step)
driven-Reachable n c p none step r = r

move-Reachable : (n : ℕ) (m : Move) (p : Pool) → Reachable n p → Reachable n (move n m p)
unfolding move
move-Reachable n (thread i e) p r =
    elim (dec_lt i n)
      as (λ d.
        Reachable n
          (elim d [ yes _ ↦ moved n p (worker_step e (p.workers i) p.shared) i | no _ ↦ p ])) [
            | yes h ↦ moved-Reachable n i e p _ h refl r
            | no h ↦ r
          ]
move-Reachable n (driver c) p r = driven-Reachable n c p _ refl r

run : ℕ → List Move → Pool → Pool
run n [] p = p
run n (m ∷ ms) p = run n ms (move n m p)

run-Reachable : (n : ℕ) (ms : List Move) (p : Pool) → Reachable n p → Reachable n (run n ms p)
unfolding run
run-Reachable n [] p r = r
run-Reachable n (m ∷ ms) p r = run-Reachable n ms (move n m p) (move-Reachable n m p r)

-- A task that sends another one, both executed by the one thread, which then goes idle, and three
-- questions of the driver.
abbrev script : List Move
script =
    driver (add_task 7)
      ∷ driver go_on
      ∷ thread 0 (takes 0)
      ∷ driver ask
      ∷ driver go_on
      ∷ driver go_on
      ∷ thread 0 (sends 8)
      ∷ thread 0 proceed
      ∷ thread 0 invoked
      ∷ thread 0 proceed
      ∷ thread 0 (takes 0)
      ∷ thread 0 requeue_accepted
      ∷ thread 0 (takes 0)
      ∷ thread 0 invoked
      ∷ thread 0 proceed
      ∷ replicate 20 (thread 0 nothing_found)
    ++ thread 0 proceed ∷ question
    ++ last_question
  where
    question : List Move
    question = driver ask ∷ driver go_on ∷ driver go_on ∷ driver go_on ∷ driver go_on ∷ []

    last_question : List Move
    last_question = driver ask ∷ driver go_on ∷ driver go_on ∷ driver go_on ∷ []

abbrev finished : Pool
finished = run 1 script launched

is_quiescent_sound_example :
    (finished.shared.task_queue ≡ []) × ((i : ℕ) → i < 1 → held (finished.workers i) ≡ 0)
unfolding run move worker_step driver_step dec_lt findus.Base.Int.◌+ℤ◌ findus.Base.Int.◌-ℤ◌
is_quiescent_sound_example =
    is_quiescent_sound 1 finished (run-Reachable 1 script launched start) refl

number_of_idle_threads_example :
    finished.shared.local_qd.number_of_idle_threads ≡ pos (number_idle 1 finished.workers)
number_of_idle_threads_example =
    number_of_idle_threads_lem 1 finished (run-Reachable 1 script launched start)
