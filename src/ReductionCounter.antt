-- ===== src/ReductionCounter.antt =====
-- Detail/ReductionCounter.hpp and .cpp: the table in which the threads of a process count the
-- contributions to a reduction. Each access of an atomic is one step of the calling thread, so that
-- the same steps serve one thread running alone and several threads in turn. A counter is the 32-bit
-- pattern of its `int32_t`.
pub mod Probing
pub mod Contribute
pub mod Lifecycle
pub mod Defects
pub mod Slot
pub mod Stages
pub mod Callers
pub mod Together
use Prim.Native.Nat.{bit_and}
use findus.Base.{
  ℕ, zero, suc, ◌+◌, ◌-◌, ◌%◌, ◌^◌, Bool, true, false, ltb, ◌==◌, if◌then◌else◌, not, ◌&&◌, ◌||◌,
  List, [], ◌∷◌, Option, none, some, length, get_elem?, set, replicate,
}
use findus.Base.Result.{Result, ok, err}

pub data CounterError : Type 0 where
  not_a_power_of_two key_zero container_full : CounterError
  bad_index out_of_fuel : CounterError

pub record KeyCount : Type 0 where
  pub key : ℕ
  pub counter : ℕ

abbrev pub free_entry : KeyCount
free_entry = record { key = 0; counter = 0 }

pub create : ℕ → Result CounterError (List KeyCount)
create max_entries =
    if max_entries == 0
    then err not_a_power_of_two
    else if not (bit_and max_entries (max_entries - 1) == 0)
    then err not_a_power_of_two
    else ok (replicate max_entries free_entry)

abbrev pub fetch_add32 : ℕ → ℕ → ℕ
fetch_add32 c n = (c + n) % 2 ^ 32

abbrev pub fetch_sub32 : ℕ → ℕ → ℕ
fetch_sub32 c n = (c + 2 ^ 32 - n) % 2 ^ 32

-- Where a call of `increment` stands: before the test of its loop, before the load of the key of an
-- entry, the exchange, the addition, the subtraction, or the store that frees the entry.
pub data Pc : Type 0 where
  testing loading exchanging adding subtracting freeing : ℕ → Pc
  returned : Bool → Pc
  threw : CounterError → Pc

pub record Calling : Type 0 where
  pub pc : Pc
  pub entries : List KeyCount

-- The entry at an index, which the mask keeps inside the table.
on_entry : List KeyCount → ℕ → (KeyCount → Calling) → Calling
on_entry entries index f = elim (get_elem? entries index) [
  | none ↦ record { pc = threw bad_index; entries = entries }
  | some e ↦ f e
]

abbrev next_index : ℕ → ℕ
next_index index = (index + 1) % 2 ^ 64

unfoldable pub micro_step : ℕ → ℕ → Pc → List KeyCount → Calling
unfolding on_entry
micro_step hashed_key expected (testing index) entries =
    if index == hashed_key - 1
    then record { pc = threw container_full; entries = entries }
    else record { pc = loading (bit_and index (length entries - 1)); entries = entries }
micro_step hashed_key expected (loading index) entries = on_entry entries index λ e. record {
  pc =
      if e.key == hashed_key
      then subtracting index
      else if not (e.key == 0)
      then testing (next_index index)
      else exchanging index;
  entries = entries;
}
micro_step hashed_key expected (exchanging index) entries = on_entry entries index λ e.
    if e.key == 0
    then record {
      pc = adding index;
      entries = set entries index (record { key = hashed_key; counter = e.counter });
    }
    else if not (e.key == hashed_key)
    then record { pc = testing (next_index index); entries = entries }
    else record { pc = subtracting index; entries = entries }
micro_step hashed_key expected (adding index) entries = on_entry entries index λ e. record {
  pc = subtracting index;
  entries = set entries index (record { key = e.key; counter = fetch_add32 e.counter expected });
}
micro_step hashed_key expected (subtracting index) entries = on_entry entries index λ e. record {
  pc = if e.counter == 1 then freeing index else returned false;
  entries = set entries index (record { key = e.key; counter = fetch_sub32 e.counter 1 });
}
micro_step hashed_key expected (freeing index) entries = on_entry entries index λ e. record {
  pc = returned true;
  entries = set entries index (record { key = 0; counter = e.counter });
}
micro_step hashed_key expected (returned b) entries = record { pc = returned b; entries = entries }
micro_step hashed_key expected (threw e) entries = record { pc = threw e; entries = entries }

-- A call that no other thread interrupts.
unfoldable pub run_alone :
    ℕ → ℕ → ℕ → Pc → List KeyCount → Result CounterError (Bool × List KeyCount)
run_alone zero hashed_key expected pc entries = err out_of_fuel
run_alone (suc fuel) hashed_key expected (returned b) entries = ok (b, entries)
run_alone (suc fuel) hashed_key expected (threw e) entries = err e
run_alone (suc fuel) hashed_key expected pc entries =
    let c = micro_step hashed_key expected pc entries in
    run_alone fuel hashed_key expected c.pc c.entries

-- Two steps for each entry that is probed, and six more, are enough for the calls that end.
pub increment : ℕ → ℕ → ℕ → List KeyCount → Result CounterError (Bool × List KeyCount)
increment fuel hashed_key expected entries =
    if hashed_key == 0
    then err key_zero
    else run_alone fuel hashed_key expected (testing hashed_key) entries
