-- ===== src/Tests/Counter.antt =====
-- Runs of the reduction counter of ReductionCounter.hpp on small tables.
use findus.Base.{ℕ, zero, suc, false, List, [], ◌∷◌, some, get_elem?, ◌≡◌, refl, arith}
use findus.Base.Result.{ok, err}
use findus.ReductionCounter.{KeyCount, free_entry, out_of_fuel, increment}
use findus.ReductionCounter.Defects.{IsFullOfOthers, increment_never_returns, increment_splits}

abbrev entry : ℕ → ℕ → KeyCount
entry k c = record { key = k; counter = c }

abbrev two_keys : List KeyCount
two_keys = free_entry ∷ entry 5 2 ∷ free_entry ∷ entry 3 1 ∷ []

abbrev full_table : List KeyCount
full_table = entry 2 1 ∷ entry 1 1 ∷ []

full_table-IsFullOfOthers : IsFullOfOthers 7 full_table
full_table-IsFullOfOthers zero h = (entry 2 1, refl, omega arith, omega arith)
full_table-IsFullOfOthers (suc zero) h = (entry 1 1, refl, omega arith, omega arith)
full_table-IsFullOfOthers (suc (suc i)) h = absurd (omega arith)

increment_never_returns_example : increment 40 7 3 full_table ≡ err out_of_fuel
increment_never_returns_example =
    increment_never_returns 7 3 1 full_table refl (omega arith) full_table-IsFullOfOthers
      (omega arith) 40

abbrev hole_before : List KeyCount
hole_before = entry 4 1 ∷ free_entry ∷ entry 5 2 ∷ free_entry ∷ []

increment_splits_example :
    (entries' : List KeyCount) × (increment 9 5 3 hole_before ≡ ok (false, entries'))
    × (get_elem? entries' 1 ≡ some (entry 5 2))
    × (get_elem? entries' 2 ≡ some (entry 5 2))
increment_splits_example =
    increment_splits 5 3 2 9 1 2 2 hole_before (omega arith) refl (omega arith) (omega arith)
      (omega arith) (omega arith) refl refl refl
