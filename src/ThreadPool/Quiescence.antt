-- ===== src/ThreadPool/Quiescence.antt =====
-- What `is_quiescent` of ThreadPool.hpp means while the threads go on: an answer of yes is right.
use findus.Base.{ℕ, zero, suc, ◌≤◌, ◌<◌, true, List, [], ◌∷◌, length, ◌≡◌, refl, arith, inl}
use findus.Base.Sums.{sum_below}
use findus.Base.Int.{pos}
use findus.LocalQd.{answered}
use findus.ThreadPool.{dequeuing, worker_step, checking, Pool}
use findus.ThreadPool.Family.{sum-update}
use findus.ThreadPool.Flow.{held, worker_at-Flow}
use findus.ThreadPool.Sound.{Sound, worker-Sound, driver_step-Sound}
use findus.ThreadPool.Run.{Step, work, drive, launched, Reachable, start, next}

abbrev holding : ℕ → Pool → ℕ
holding n p = sum_below n (λ j. held (p.workers j))

held-≤-holding : (n : ℕ) (p : Pool) (i : ℕ) → i < n → held (p.workers i) ≤ holding n p
held-≤-holding n p i below =
    omega (
      arith,
      sum-update held n p.workers i (record { miss_count = pos 0; place = dequeuing }) below,
    )

Step-Sound :
    (n : ℕ) (p q : Pool)
    → Step n p q
    → Sound p.driver p.shared (holding n p)
    → Sound q.driver q.shared (holding n q)
unfolding worker_step
Step-Sound n p q (work i e _ w s below h) inv =
    worker-Sound p.driver (p.workers i) w p.shared s (holding n p) (holding n q)
      (worker_at-Flow (p.workers i).place e (p.workers i).miss_count p.shared w s h)
      (sum-update held n p.workers i w below) (held-≤-holding n p i below) inv
Step-Sound n p q (drive c _ d s h) inv =
    driver_step-Sound n c p.driver p.shared d s (holding n p) h inv

holding-launched : (n : ℕ) → holding n launched ≡ 0
unfolding sum_below
holding-launched zero = refl
holding-launched (suc n) = omega (arith, holding-launched n)

Reachable-Sound : (n : ℕ) (p : Pool) → Reachable n p → Sound p.driver p.shared (holding n p)
Reachable-Sound n p start = record {
  covered = omega (arith, holding-launched n);
  phases = inl refl;
  previous = λ two. ground arith;
  compared = λ m at two e. ground arith;
  confirmed = λ at. ground arith;
}
Reachable-Sound n p (next q _ r s) = Step-Sound n q p s (Reachable-Sound n q r)

length-zero : (xs : List ℕ) → length xs ≡ 0 → xs ≡ []
length-zero [] h = refl
length-zero (x ∷ xs) h = absurd (omega arith)

-- When `is_quiescent`, asked by the driver of a launched pool, has answered yes, then the queue is
-- empty and no thread holds or announces a task, however the steps of the threads and of the driver
-- were interleaved.
pub is_quiescent_sound :
    (n : ℕ) (p : Pool)
    → Reachable n p
    → p.driver ≡ checking (answered true)
    → (p.shared.task_queue ≡ []) × ((i : ℕ) → i < n → held (p.workers i) ≡ 0)
is_quiescent_sound n p r answer =
    let inv = Reachable-Sound n p r in
    (
      length-zero p.shared.task_queue (ground (arith, inv.confirmed answer)),
      λ i below. ground (arith, inv.confirmed answer, held-≤-holding n p i below),
    )
