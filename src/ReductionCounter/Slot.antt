-- ===== src/ReductionCounter/Slot.antt =====
-- One entry of the table while several threads contribute to its key: what a step of `increment` does
-- to the entry that the key belongs to.
use findus.Base.{
  ℕ, ◌-◌, ◌<◌, true, false, ◌==◌, if◌then◌else◌, List, length, set, ◌≡◌, ◌≢◌, ◌⊎◌, refl, ap, arith,
  length-set, get_elem?-set_self, set-set,
}
use Prim.Native.Nat.{bit_and}
use findus.ReductionCounter.{
  KeyCount, Pc, testing, loading, exchanging, adding, subtracting, freeing, returned, threw,
  micro_step, fetch_add32, fetch_sub32,
}

-- A call whose key belongs to the entry at `t` works on that entry alone.
abbrev pub IsAround : ℕ → ℕ → Pc → Type 0
IsAround key t (testing i) = i ≡ key
IsAround key t (loading i) = i ≡ t
IsAround key t (exchanging i) = i ≡ t
IsAround key t (adding i) = i ≡ t
IsAround key t (subtracting i) = i ≡ t
IsAround key t (freeing i) = i ≡ t
IsAround key t (returned b) = Unit {0}
IsAround key t (threw e) = ⊥

-- The step on the entry, where the entry is free or has the key.
unfoldable pub slot_pc : ℕ → ℕ → Pc → KeyCount → Pc
slot_pc key t (testing i) x = loading t
slot_pc key t (loading i) x = if x.key == key then subtracting t else exchanging t
slot_pc key t (exchanging i) x = if x.key == 0 then adding t else subtracting t
slot_pc key t (adding i) x = subtracting t
slot_pc key t (subtracting i) x = if x.counter == 1 then freeing t else returned false
slot_pc key t (freeing i) x = returned true
slot_pc key t (returned b) x = returned b
slot_pc key t (threw e) x = threw e

unfoldable pub slot_entry : ℕ → ℕ → Pc → KeyCount → KeyCount
slot_entry key expected (exchanging i) x =
    if x.key == 0 then record { key = key; counter = x.counter } else x
slot_entry key expected (adding i) x = record {
  key = x.key;
  counter = fetch_add32 x.counter expected;
}
slot_entry key expected (subtracting i) x = record {
  key = x.key;
  counter = fetch_sub32 x.counter 1;
}
slot_entry key expected (freeing i) x = record { key = 0; counter = x.counter }
slot_entry key expected pc x = x

module _ (key expected t : ℕ) (nonzero : key ≢ 0) (entries : List KeyCount)
    (home : bit_and key (length entries - 1) ≡ t) (inside : t < length entries) where
  pub micro_step-slot :
      (pc : Pc) (x : KeyCount)
      → IsAround key t pc
      → (x.key ≡ 0) ⊎ (x.key ≡ key)
      → micro_step key expected pc (set entries t x)
        ≡ record { pc = slot_pc key t pc x; entries = set entries t (slot_entry key expected pc x) }
  unfolding micro_step slot_pc slot_entry
  micro_step-slot (testing i) x here own =
      let masked = ap (λ (n : ℕ). bit_and key (n - 1)) (length-set entries t x) in
      ground (arith, here, masked, home, nonzero)
  micro_step-slot (loading i) x here own =
      ground (arith, here, own, get_elem?-set_self entries t x inside)
  micro_step-slot (exchanging i) x here own = ground (
    arith,
    here,
    own,
    get_elem?-set_self entries t x inside,
    set-set entries t x (record { key = key; counter = x.counter }),
  )
  micro_step-slot (adding i) x here own = ground (
    arith,
    here,
    own,
    get_elem?-set_self entries t x inside,
    set-set entries t x (record { key = x.key; counter = fetch_add32 x.counter expected }),
  )
  micro_step-slot (subtracting i) x here own = ground (
    arith,
    here,
    own,
    get_elem?-set_self entries t x inside,
    set-set entries t x (record { key = x.key; counter = fetch_sub32 x.counter 1 }),
  )
  micro_step-slot (freeing i) x here own = ground (
    arith,
    here,
    own,
    get_elem?-set_self entries t x inside,
    set-set entries t x (record { key = 0; counter = x.counter }),
  )
  micro_step-slot (returned b) x here own = refl
  micro_step-slot (threw e) x here own = elim here [ ]
