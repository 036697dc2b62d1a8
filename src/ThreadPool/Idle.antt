-- ===== src/ThreadPool/Idle.antt =====
-- The count of idle threads of ThreadPool.hpp.
use findus.Base.{
  ℕ, zero, suc, ◌+◌, ◌≤◌, ◌<◌, Bool, true, false, ◌==◌, some, get_elem?, ◌≡◌, refl, arith, inl, inr,
  Option-cases, Bool-cases, ap, sym, ◌∙◌,
}
use findus.Base.Sums.{bit, sum_below}
use findus.Base.Int.{ℤ, neg_part, pos, minus_one, ◌+ℤ◌, ◌-ℤ◌, ◌==ℤ◌}
use findus.LocalQd.{reading_idle, reading_sent, reading_processed, answered, invalid_phase}
use findus.ThreadPool.{
  Shared, Place, dequeuing, marking_idle, unmarking_idle, Worker, Event, proceed, takes, worker_at,
  worker_step, Driver, away, adding_task, checking, Call, add_task, ask, go_on, driver_step, Pool,
}
use findus.ThreadPool.Family.{update, sum-update}
use findus.ThreadPool.Run.{Step, work, drive, launched, Reachable, start, next}

abbrev pub is_idle : Worker → Bool
is_idle w = w.miss_count ==ℤ minus_one

-- A thread about to count itself as idle is not yet marked, and one about to take itself out is.
record IsMarked (w : Worker) : Type 0 where
  counts : neg_part w.miss_count ≤ 1
  before : w.place ≡ marking_idle → is_idle w ≡ false
  after : (task : ℕ) → w.place ≡ unmarking_idle task → is_idle w ≡ true

abbrev idle_threads : Shared → ℤ
idle_threads s = s.local_qd.number_of_idle_threads

worker_at-IsMarked :
    (place : Place) (e : Event) (m : ℤ) (s : Shared) (w' : Worker) (s' : Shared) (others : ℕ)
    → worker_at place e m s ≡ some (w', s')
    → IsMarked (record { miss_count = m; place = place })
    → idle_threads s ≡ pos (others + bit (m ==ℤ minus_one))
    → IsMarked w' × (idle_threads s' ≡ pos (others + bit (is_idle w')))
unfolding worker_at ◌+ℤ◌ ◌-ℤ◌
worker_at-IsMarked dequeuing (takes i) m s w' s' others h marked count =
    elim (Option-cases (get_elem? s.task_queue i)) [
      | inl e ↦ absurd (ground (arith, e))
      | inr (x, e) ↦ (
        record {
          counts = ground (arith, e, marked.counts);
          before = λ at. ground (arith, e);
          after = λ t at. ground (arith, e);
        },
        ground (arith, e),
      )
    ]
worker_at-IsMarked marking_idle proceed m s w' s' others h marked count =
    let unmarked : (m ==ℤ minus_one) ≡ false = marked.before refl in
    (
      record {
        counts = ground (arith, marked.counts);
        before = λ at. ground arith;
        after = λ t at. ground arith;
      },
      ground (arith, unmarked),
    )
worker_at-IsMarked (unmarking_idle task) proceed m s w' s' others h marked count =
    let marked_idle : (m ==ℤ minus_one) ≡ true = marked.after task refl in
    (
      record {
        counts = ground (arith, marked.counts);
        before = λ at. ground arith;
        after = λ t at. ground arith;
      },
      ground (arith, marked_idle),
    )
worker_at-IsMarked place e m s w' s' others h marked count = (
  record {
    counts = ground (arith, marked.counts);
    before = λ at. ground arith;
    after = λ t at. ground arith;
  },
  ground arith,
)

driver_step-idle_threads :
    (n : ℕ) (c : Call) (d : Driver) (s : Shared) (d' : Driver) (s' : Shared)
    → driver_step n c d s ≡ some (d', s')
    → idle_threads s' ≡ idle_threads s
unfolding driver_step
driver_step-idle_threads n (add_task task) away s d' s' h = ground arith
driver_step-idle_threads n ask away s d' s' h = ground arith
driver_step-idle_threads n go_on (adding_task task) s d' s' h = ground arith
driver_step-idle_threads n go_on (checking (answered b)) s d' s' h = ground arith
driver_step-idle_threads n go_on (checking reading_idle) s d' s' h = ground arith
driver_step-idle_threads n go_on (checking reading_sent) s d' s' h = ground arith
driver_step-idle_threads n go_on (checking (reading_processed m)) s d' s' h = ground arith
driver_step-idle_threads n go_on (checking invalid_phase) s d' s' h = ground arith
driver_step-idle_threads n c d s d' s' h = ground arith

abbrev pub number_idle : ℕ → (ℕ → Worker) → ℕ
number_idle n workers = sum_below n (λ j. bit (is_idle (workers j)))

record Counted (n : ℕ) (p : Pool) : Type 0 where
  marks : (i : ℕ) → i < n → IsMarked (p.workers i)
  total : idle_threads p.shared ≡ pos (number_idle n p.workers)

abbrev busy : Worker
busy = record { miss_count = pos 0; place = dequeuing }

update-IsMarked :
    (workers : ℕ → Worker) (i : ℕ) (w : Worker) (j : ℕ)
    → IsMarked w
    → IsMarked (workers j)
    → IsMarked (update workers i w j)
update-IsMarked workers i w j h k = elim (Bool-cases (i == j)) [ inl e ↦ rw e h | inr e ↦ rw e k ]

Step-Counted : (n : ℕ) (p q : Pool) → Step n p q → Counted n p → Counted n q
unfolding worker_step
Step-Counted n p q (work i e _ w s below h) inv =
    let weight : Worker → ℕ = λ v. bit (is_idle v) in
    let without = sum-update weight n p.workers i busy below in
    let others = number_idle n (update p.workers i busy) in
    let split : number_idle n p.workers ≡ others + weight (p.workers i) = omega (arith, without) in
    let (mark, count) =
      worker_at-IsMarked (p.workers i).place e (p.workers i).miss_count p.shared w s others h
        (inv.marks i below) (inv.total ∙ ap pos split) in
    let joined : others + weight w ≡ number_idle n (update p.workers i w) =
      omega (arith, without, sum-update weight n p.workers i w below) in
    record {
      marks = λ j l. update-IsMarked p.workers i w j mark (inv.marks j l);
      total = count ∙ ap pos joined;
    }
Step-Counted n p q (drive c _ d s h) inv = record {
  marks = inv.marks;
  total = driver_step-idle_threads n c p.driver p.shared d s h ∙ inv.total;
}

number_idle-launched : (n : ℕ) → number_idle n launched.workers ≡ 0
unfolding sum_below
number_idle-launched zero = refl
number_idle-launched (suc n) = omega (arith, number_idle-launched n)

Reachable-Counted : (n : ℕ) (p : Pool) → Reachable n p → Counted n p
Reachable-Counted n p start = record {
  marks = λ i h. record {
    counts = omega arith;
    before = λ at. ground arith;
    after = λ t at. ground arith;
  };
  total = ap pos (sym (number_idle-launched n));
}
Reachable-Counted n p (next q _ r s) = Step-Counted n q p s (Reachable-Counted n q r)

-- However the steps of a launched pool were interleaved, the count of idle threads is the number of
-- the threads that have marked themselves as idle, by a miss count of -1.
pub number_of_idle_threads_lem :
    (n : ℕ) (p : Pool)
    → Reachable n p
    → p.shared.local_qd.number_of_idle_threads ≡ pos (number_idle n p.workers)
number_of_idle_threads_lem n p r = (Reachable-Counted n p r).total
