-- ===== src/Tests/Slots.antt =====
-- Runs of the thread's table of reductions of Reduction.hpp on four entries.
use findus.Base.{ℕ, ◌+◌, List, [], ◌∷◌, some, get_elem?, set, ◌≡◌, refl, arith}
use findus.Base.Result.{Result, ok}
use findus.MessageHeader.{reduction}
use findus.Reductions.{ReductionError, Slot, insert_or_combine, pop}
use findus.Reductions.Slots.{pop-insert_or_combine}

abbrev slot : ℕ → ℕ → Slot ℕ
slot id a = record { reduction_id = id; callback_and_data = a }

abbrev add_five : ℕ → Result ReductionError ℕ
add_five a = ok (a + 5)

-- Id 9 meets the entry of id 5 and settles behind it.
abbrev table : List (Slot ℕ)
table = slot 0 0 ∷ slot 5 20 ∷ slot 0 0 ∷ slot 3 1 ∷ []

pop-insert_or_combine_example :
    (i : ℕ) × (e : Slot ℕ) × (get_elem? table i ≡ some e)
    × (e.reduction_id ≡ 0)
    × (pop 9 (slot 0 0 ∷ slot 5 20 ∷ slot 9 7 ∷ slot 3 1 ∷ []) 0
        ≡ ok (7, set table i (record { reduction_id = 0; callback_and_data = 0 })))
unfolding insert_or_combine findus.MessageHeader.type_code
pop-insert_or_combine_example =
    pop-insert_or_combine 9 (omega arith) (omega arith) add_five 7 table reduction
      (slot 0 0 ∷ slot 5 20 ∷ slot 9 7 ∷ slot 3 1 ∷ []) 0 refl
