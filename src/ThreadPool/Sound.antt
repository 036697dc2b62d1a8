-- ===== src/ThreadPool/Sound.antt =====
-- The invariant of the task counters of ThreadPool.hpp, kept by each step of a thread and of the driver.
use findus.Base.{
  ℕ, ◌+◌, ◌≤◌, true, [], ◌∷◌, some, length, length-append, ◌≡◌, refl, arith, ◌⊎◌, inl, inr, sym,
  ◌∙◌,
}
use findus.LocalQd.{reading_idle, reading_sent, reading_processed, answered, invalid_phase}
use findus.ThreadPool.{
  Shared, Worker, Driver, away, adding_task, checking, Call, add_task, ask, go_on, driver_step,
}
use findus.ThreadPool.Flow.{held, announced, sent, processed, Flow}

-- The threads together hold `total` tasks.
pub record Sound (d : Driver) (s : Shared) (total : ℕ) : Type 0 where
  pub covered : processed s + length s.task_queue + total + announced d ≤ sent s
  pub phases : (s.local_qd.phase ≡ 1) ⊎ (s.local_qd.phase ≡ 2)
  pub previous : s.local_qd.phase ≡ 2 → s.local_qd.previous_count ≤ processed s
  pub compared :
      (m : ℕ)
      → d ≡ checking (reading_processed m)
      → s.local_qd.phase ≡ 2
      → s.local_qd.previous_count ≡ m
      → length s.task_queue + total ≡ 0
  pub confirmed : d ≡ checking (answered true) → length s.task_queue + total ≡ 0

pub worker-Sound :
    (d : Driver) (w w' : Worker) (s s' : Shared) (total total' : ℕ)
    → Flow w s w' s'
    → total' + held w ≡ total + held w'
    → held w ≤ total
    → Sound d s total
    → Sound d s' total'
worker-Sound d w w' s s' total total' flow moved within i = record {
  covered = omega arith;
  phases = elim i.phases [ inl e ↦ inl (flow.same_phase ∙ e) | inr e ↦ inr (flow.same_phase ∙ e) ];
  previous = λ two. ground (arith, i.previous (sym flow.same_phase ∙ two));
  compared = λ m at two e. ground (
    arith,
    i.compared m at (sym flow.same_phase ∙ two) (sym flow.same_count ∙ e),
    flow.stays_empty,
  );
  confirmed = λ at. ground (arith, i.confirmed at, flow.stays_empty);
}

-- A change of the driver and its counters under which no question of `compared` or `confirmed` comes up.
silent :
    (d d' : Driver) (s s' : Shared) (total : ℕ)
    → Sound d s total
    → processed s' + length s'.task_queue + announced d' + sent s
      ≤ processed s + length s.task_queue + announced d + sent s'
    → processed s ≡ processed s'
    → (s'.local_qd.phase ≡ 1)
      ⊎ ((s'.local_qd.phase ≡ s.local_qd.phase)
          × (s'.local_qd.previous_count ≡ s.local_qd.previous_count))
      ⊎ (s'.local_qd.phase ≡ 2) × (s'.local_qd.previous_count ≡ processed s')
    → ((m : ℕ) → ¬ d' ≡ checking (reading_processed m))
    → ¬ d' ≡ checking (answered true)
    → Sound d' s' total
silent d d' s s' total i balance same phases not_compared not_confirmed = record {
  covered = omega (arith, i.covered);
  phases = ground (arith, i.phases);
  previous = λ two. ground (arith, i.previous);
  compared = λ m at two e. absurd (not_compared m at);
  confirmed = λ at. absurd (not_confirmed at);
}

pub driver_step-Sound :
    (n : ℕ) (c : Call) (d : Driver) (s : Shared) (d' : Driver) (s' : Shared) (total : ℕ)
    → driver_step n c d s ≡ some (d', s')
    → Sound d s total
    → Sound d' s' total
unfolding driver_step
driver_step-Sound n (add_task task) away s d' s' total h i =
    silent away d' s s' total i (ground arith) (ground arith) (ground arith) (λ m e. ground arith)
      (λ e. ground arith)
driver_step-Sound n ask away s d' s' total h i =
    silent away d' s s' total i (ground arith) (ground arith) (ground arith) (λ m e. ground arith)
      (λ e. ground arith)
driver_step-Sound n go_on (adding_task task) s d' s' total h i =
    silent (adding_task task) d' s s' total i
      (ground (arith, length-append s.task_queue (task ∷ []))) (ground arith) (ground arith)
      (λ m e. ground arith) (λ e. ground arith)
driver_step-Sound n go_on (checking (answered b)) s d' s' total h i =
    silent (checking (answered b)) d' s s' total i (ground arith) (ground arith) (ground arith)
      (λ m e. ground arith) (λ e. ground arith)
driver_step-Sound n go_on (checking reading_idle) s d' s' total h i =
    silent (checking reading_idle) d' s s' total i (ground arith) (ground arith) (ground arith)
      (λ m e. ground arith) (λ e. ground arith)
driver_step-Sound n go_on (checking reading_sent) s d' s' total h i = record {
  covered = ground (arith, i.covered);
  phases = ground (arith, i.phases);
  previous = λ two. ground (arith, i.previous);
  compared = λ m at two e. ground (arith, i.previous, i.covered);
  confirmed = λ at. ground arith;
}
driver_step-Sound n go_on (checking (reading_processed m)) s d' s' total h i = record {
  covered = ground (arith, i.covered);
  phases = ground (arith, i.phases);
  previous = λ two. ground (arith, i.previous);
  compared = λ m at two e. ground (arith);
  confirmed = λ at. ground (arith, i.phases, i.compared m refl);
}
driver_step-Sound n go_on (checking invalid_phase) s d' s' total h i =
    silent (checking invalid_phase) d' s s' total i (ground arith) (ground arith) (ground arith)
      (λ m e. ground arith) (λ e. ground arith)
driver_step-Sound n c d s d' s' total h i = ground arith
