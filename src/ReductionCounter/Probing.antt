-- ===== src/ReductionCounter/Probing.antt =====
-- A call that runs alone: along the entries of other keys to the entry that it counts in.
use Prim.Native.Nat.{bit_and}
use findus.Base.{
  ℕ, zero, suc, ◌+◌, ◌-◌, ◌%◌, ◌^◌, ◌<◌, true, false, ◌==◌, if◌then◌else◌, List, some, length,
  get_elem?, set, ◌≡◌, ◌≢◌, refl, ap, ◌∙◌, arith, get_elem?-set_self, eq→==, ==→eq, Bool-cases, inl,
  inr, ap₂, set-set, get_elem?-lt,
}
use findus.Base.Bits.{bit_and-size}
use findus.Base.Result.{ok}
use findus.ReductionCounter.{
  KeyCount, Pc, testing, loading, exchanging, adding, subtracting, freeing, returned, threw,
  Calling, micro_step, run_alone, free_entry,
}

-- From `index` the probing of `key` passes `d` entries of other keys and comes to the entry `target`.
abbrev pub Leads : List KeyCount → ℕ → ℕ → ℕ → ℕ → Type 0
Leads entries key zero index target = (index ≢ key - 1) × (index % length entries ≡ target)
Leads entries key (suc d) index target =
    (index ≢ key - 1)
    × (e : KeyCount) × (get_elem? entries (index % length entries) ≡ some e)
    × (e.key ≢ 0)
    × (e.key ≢ key)
    × Leads entries key d (index % length entries + 1) target

abbrev pub IsRunning : Pc → Type 0
IsRunning (returned b) = ⊥
IsRunning (threw e) = ⊥
IsRunning _ = Unit

abbrev pub with_key : List KeyCount → ℕ → ℕ → ℕ → List KeyCount
with_key entries i key counter = set entries i (record { key = key; counter = counter })

module _ (key expected : ℕ) where
  pub advance :
      (fuel : ℕ) (pc : Pc) (entries : List KeyCount) (c : Calling)
      → IsRunning pc
      → micro_step key expected pc entries ≡ c
      → run_alone (suc fuel) key expected pc entries ≡ run_alone fuel key expected c.pc c.entries
  unfolding run_alone
  advance fuel (testing i) entries c r e = rw e refl
  advance fuel (loading i) entries c r e = rw e refl
  advance fuel (exchanging i) entries c r e = rw e refl
  advance fuel (adding i) entries c r e = rw e refl
  advance fuel (subtracting i) entries c r e = rw e refl
  advance fuel (freeing i) entries c r e = rw e refl
  advance fuel (returned b) entries c r e = absurd r
  advance fuel (threw b) entries c r e = absurd r

  -- The steps at an entry `e`.
  module _ (entries : List KeyCount) (i : ℕ) (e : KeyCount)
      (at : get_elem? entries i ≡ some e) where
    pub load_other :
        e.key ≢ 0
        → e.key ≢ key
        → micro_step key expected (loading i) entries
          ≡ record { pc = testing ((i + 1) % 2 ^ 64); entries = entries }
    unfolding micro_step
    load_other a b = ground arith

    pub load_own :
        e.key ≡ key
        → micro_step key expected (loading i) entries
          ≡ record { pc = subtracting i; entries = entries }
    unfolding micro_step
    load_own a = ground arith

    pub load_free :
        e.key ≡ 0
        → key ≢ 0
        → micro_step key expected (loading i) entries
          ≡ record { pc = exchanging i; entries = entries }
    unfolding micro_step
    load_free a b = ground arith

    pub exchange_free :
        e.key ≡ 0
        → micro_step key expected (exchanging i) entries
          ≡ record { pc = adding i; entries = with_key entries i key e.counter }
    unfolding micro_step
    exchange_free a = ground arith

    pub add_entry : micro_step key expected (adding i) entries ≡ record {
      pc = subtracting i;
      entries = with_key entries i e.key ((e.counter + expected) % 2 ^ 32);
    }
    unfolding micro_step
    add_entry = ground arith

    subtract_entry : micro_step key expected (subtracting i) entries ≡ record {
      pc = if e.counter == 1 then freeing i else returned false;
      entries = with_key entries i e.key ((e.counter + 2 ^ 32 - 1) % 2 ^ 32);
    }
    unfolding micro_step
    subtract_entry = ground arith

    free_own :
        micro_step key expected (freeing i) entries
        ≡ record { pc = returned true; entries = with_key entries i 0 e.counter }
    unfolding micro_step
    free_own = ground arith

  module _ (k : ℕ) (entries : List KeyCount) (size : length entries ≡ 2 ^ k) where
    pub test_goes_on :
        (index : ℕ)
        → index ≢ key - 1
        → micro_step key expected (testing index) entries
          ≡ record { pc = loading (index % length entries); entries = entries }
    unfolding micro_step
    test_goes_on index h =
        let masked : bit_and index (length entries - 1) ≡ index % length entries =
          rw size (bit_and-size k index) in
        ground (arith, masked)

-- The entry after a contribution to an entry that counts `c`.
abbrev pub settled : ℕ → ℕ → KeyCount
settled key c = if c == 1 then free_entry else record { key = key; counter = c - 1 }

module _ (key expected : ℕ) (entries : List KeyCount) (i : ℕ) where
  pub finish :
      (fuel c : ℕ) (e : KeyCount)
      → get_elem? entries i ≡ some e
      → e.key ≡ key
      → e.counter ≡ c
      → 0 < c
      → c < 2 ^ 32
      → run_alone (suc (suc (suc fuel))) key expected (subtracting i) entries
        ≡ ok (c == 1, set entries i (settled key c))
  unfolding run_alone
  finish fuel c e at own count pos small =
      advance key expected (suc (suc fuel)) (subtracting i) entries _ tt
        (subtract_entry key expected entries i e at)
      ∙ elim (Bool-cases (c == 1)) [
        | inl last ↦
            let one : e.counter ≡ 1 = omega (arith, ==→eq _ _ last) in
            let none_left : (e.counter + 2 ^ 32 - 1) % 2 ^ 32 ≡ 0 = omega arith in
            let zeroed : List KeyCount =
              with_key entries i e.key ((e.counter + 2 ^ 32 - 1) % 2 ^ 32) in
            let stored : get_elem? zeroed i
                ≡ some (record { key = e.key; counter = (e.counter + 2 ^ 32 - 1) % 2 ^ 32 }) =
              get_elem?-set_self entries i _ (get_elem?-lt entries i e at) in
            rw (last, eq→== _ _ one)
              (advance key expected (suc fuel) (freeing i) zeroed _ tt
                  (free_own key expected zeroed i _ stored)
                ∙ ap (λ (es : List KeyCount). ok (true, es))
                    (set-set entries i _ _ ∙ ap (λ (n : ℕ). with_key entries i 0 n) none_left))
        | inr more ↦
            let many : (e.counter == 1) ≡ false = ground arith in
            let left : (e.counter + 2 ^ 32 - 1) % 2 ^ 32 ≡ c - 1 = omega arith in
            rw (more, many)
              (ap (λ (es : List KeyCount). ok (false, es)) (ap₂ (with_key entries i) own left))
      ]
