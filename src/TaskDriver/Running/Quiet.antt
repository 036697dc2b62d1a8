-- ===== src/TaskDriver/Running/Quiet.antt =====
-- When the loop ends.
use findus.Base.{ℕ, zero, suc, ◌+◌, ◌≤◌, true, ◌≡◌, ◌⊎◌, inl, inr, refl, arith, Option-cases}
use findus.Base.Int.{ℤ}
use findus.TaskDriver.{TaskDriver}
use findus.TaskDriver.Running.{
  World, communicate, nothing_queued, returned, Next, stop, go_on, next_round, run_loop,
}

Next-cases : (x : Next) → (x ≡ stop) ⊎ ((c : ℕ) × (x ≡ go_on c))
Next-cases stop = inl refl
Next-cases (go_on c) = inr (c, refl)

stops :
    (world : World) (driver : TaskDriver) (counter : ℕ)
    → next_round world driver counter ≡ stop
    → (nothing_queued driver ≡ true)
      × (world.is_locally_quiescent ≡ true)
      × (world.check ≡ true)
      × (50 ≤ counter + 1)
unfolding next_round
stops world driver counter h = ground (arith, h)

-- The counter rises by one at most.
counts :
    (world : World) (driver : TaskDriver) (counter c : ℕ)
    → next_round world driver counter ≡ go_on c
    → c ≤ counter + 1
unfolding next_round
counts world driver counter c h = ground (arith, h)

module _ (world : ℕ → World) (max_to_receive max_to_send : ℤ) where
  -- If the loop returns, then after its last round, whose calls threw no exception, nothing was queued, the threads were
  -- locally quiescent and the global detection had said yes; and since the start it went through at least as many
  -- rounds as the counter lacked of 50.
  pub run_loop-returned :
      (rounds counter left : ℕ) (driver end : TaskDriver)
      → run_loop rounds world max_to_receive max_to_send counter driver ≡ returned left end
      → (nothing_queued end ≡ true)
        × ((world left).is_locally_quiescent ≡ true)
        × ((world left).check ≡ true)
        × (left + 50 ≤ counter + rounds)
  unfolding run_loop
  run_loop-returned zero counter left driver end h = cc
  run_loop-returned (suc rounds) counter left driver end h =
      let done = communicate (world rounds) max_to_receive max_to_send driver in
      elim (Option-cases done.1) [
        | inr (e, thrown) ↦ absurd (ground (arith, thrown, h))
        | inl fine ↦ elim (Next-cases (next_round (world rounds) done.0 counter)) [
          | inl halt ↦
              let last = stops (world rounds) done.0 counter halt in
              ground (arith, fine, halt, h, last)
          | inr (c, go) ↦
              let rest = run_loop-returned rounds c left done.0 end (ground (arith, fine, go, h)) in
              (
                rest.0,
                rest.1,
                rest.2,
                omega (arith, rest.3, counts (world rounds) done.0 counter c go),
              )
        ]
      ]
