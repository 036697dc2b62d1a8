-- ===== src/Tests/Callers.antt =====
-- Two threads that contribute to key 5 at once, in a table of four entries.
use findus.Base.{ℕ, ◌<◌, true, List, [], ◌∷◌, All, ◌≡◌, refl, arith}
use findus.ThreadPool.Family.{update}
use findus.ReductionCounter.{KeyCount, testing, returned, micro_step, free_entry}
use findus.ReductionCounter.Callers.{
  Callers, by_thread, Reachable, start, next, number, is_returned,
}
use findus.ReductionCounter.Stages.{is_last, is_counted}
use findus.ReductionCounter.Together.{increment_together, last_is_last}

abbrev table : List KeyCount
table = free_entry ∷ free_entry ∷ record { key = 2; counter = 7 } ∷ free_entry ∷ []

-- Thread `i` makes its next access.
abbrev goes : ℕ → Callers → Callers
goes i s = record {
  pc_of = update s.pc_of i (micro_step 5 2 (s.pc_of i) s.entries).pc;
  entries = (micro_step 5 2 (s.pc_of i) s.entries).entries;
}

abbrev begun : Callers
begun = record { pc_of = λ _. testing 5; entries = table }

-- Both look at the free entry before the first thread claims it; the second subtracts before the
-- first has added.
abbrev run : List ℕ → Callers → Callers
run [] s = s
run (i ∷ is) s = run is (goes i s)

abbrev order : List ℕ
order = 0 ∷ 1 ∷ 0 ∷ 1 ∷ 0 ∷ 1 ∷ 1 ∷ 0 ∷ 0 ∷ 0 ∷ []

run-Reachable :
    (is : List ℕ) (s : Callers)
    → All (λ i. i < 2) is
    → Reachable 2 5 table s
    → Reachable 2 5 table (run is s)
run-Reachable [] s h r = r
run-Reachable (i ∷ is) s (h, hs) r =
    run-Reachable is (goes i s) hs (next s (goes i s) r (by_thread i h))

reached : Reachable 2 5 table (run order begun)
reached = run-Reachable order begun (omega arith) start

all_returned : (j : ℕ) → j < 2 → is_returned ((run order begun).pc_of j) ≡ true
unfolding micro_step
all_returned j h = ground arith

first_is_last : (run order begun).pc_of 0 ≡ returned true
unfolding micro_step
first_is_last = refl

increment_together_example :
    (number 2 is_last (run order begun).pc_of ≡ 1) × ((run order begun).entries ≡ table)
increment_together_example =
    increment_together 2 5 1 (omega arith) (omega arith) (omega arith) table refl refl
      (run order begun) reached all_returned

last_is_last_example : is_counted ((run order begun).pc_of 1) ≡ true
last_is_last_example =
    last_is_last 2 5 1 (omega arith) (omega arith) (omega arith) table refl refl (run order begun) 0
      1 reached (omega arith) (omega arith) first_is_last
