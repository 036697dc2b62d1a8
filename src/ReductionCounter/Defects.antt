-- ===== src/ReductionCounter/Defects.antt =====
-- Where `increment` departs from what its documentation says.
use findus.Base.{
  ℕ, zero, suc, ◌+◌, ◌-◌, ◌%◌, ◌^◌, ◌≤◌, ◌<◌, Bool, false, ◌==◌, List, some, length, get_elem?, set,
  ◌≡◌, ◌≢◌, refl, sym, ap, ◌∙◌, arith, ne→==, get_elem?-set_self, get_elem?-set_ne, get_elem?-lt,
}
use findus.Base.Bits.{two_pow_pos}
use findus.Base.Result.{ok, err}
use findus.ReductionCounter.{
  out_of_fuel, KeyCount, testing, loading, run_alone, free_entry, increment,
}
use findus.ReductionCounter.Probing.{settled, advance, load_other, test_goes_on}
use findus.ReductionCounter.Contribute.{count_new}

-- Every entry is in use by another key.
abbrev pub IsFullOfOthers : ℕ → List KeyCount → Type 0
IsFullOfOthers key entries =
    (i : ℕ)
    → i < length entries
    → (e : KeyCount) × (get_elem? entries i ≡ some e) × (e.key ≢ 0) × (e.key ≢ key)

module _ (key expected k : ℕ) (entries : List KeyCount) (size : length entries ≡ 2 ^ k)
    (fits : length entries < 2 ^ 64) (full : IsFullOfOthers key entries)
    (large : length entries + 1 < key) where
  probes_on :
      (fuel index : ℕ)
      → index ≢ key - 1
      → run_alone fuel key expected (testing index) entries ≡ err out_of_fuel
  unfolding run_alone
  probes_on zero index h = refl
  probes_on (suc zero) index h =
      advance key expected 0 (testing index) entries _ tt
        (test_goes_on key expected k entries size index h)
  probes_on (suc (suc fuel)) index h =
      let inside : index % length entries < length entries = omega (arith, two_pow_pos k) in
      let (e, at, used, other) = full (index % length entries) inside in
      let next : (index % length entries + 1) % 2 ^ 64 ≡ index % length entries + 1 = omega arith in
      advance key expected (suc fuel) (testing index) entries _ tt
        (test_goes_on key expected k entries size index h)
      ∙ advance key expected fuel (loading (index % length entries)) entries _ tt
          (load_other key expected entries (index % length entries) e at used other)
      ∙ ap (λ (i : ℕ). run_alone fuel key expected (testing i) entries) next
      ∙ probes_on fuel (index % length entries + 1) (omega arith)

  -- In a table of a power of two of entries that is full of other keys, a call for a key larger
  -- than the size by two or more never returns and never throws: no number of steps is enough.
  pub increment_never_returns : (fuel : ℕ) → increment fuel key expected entries ≡ err out_of_fuel
  unfolding increment
  increment_never_returns fuel = rw (ne→== key 0 (omega arith)) (probes_on fuel key (omega arith))

-- In a table of a power of two of entries, let a key that is not 0 be counted at some entry while
-- the first entry of its probing is free, and let more than one contribution be expected. Then a
-- call for the key returns `false`, starts a new count in that first entry, and leaves the old
-- count as it was.
pub increment_splits :
    (key expected k fuel home old c : ℕ) (entries : List KeyCount)
    → key ≢ 0
    → length entries ≡ 2 ^ k
    → length entries < 2 ^ 64
    → 7 ≤ fuel
    → 1 < expected
    → expected < 2 ^ 32
    → key % length entries ≡ home
    → get_elem? entries home ≡ some free_entry
    → get_elem? entries old ≡ some (record { key = key; counter = c })
    → (entries' : List KeyCount) × (increment fuel key expected entries ≡ ok (false, entries'))
      × (get_elem? entries' home ≡ some (record { key = key; counter = expected - 1 }))
      × (get_elem? entries' old ≡ some (record { key = key; counter = c }))
unfolding increment
increment_splits key expected k fuel home old c entries nonzero size fits enough many small at free
      counted =
    let waiting : (expected == 1) ≡ false = ground arith in
    let apart : home ≢ old = λ same.
      let equal : some free_entry ≡ some (record { key = key; counter = c }) =
        sym free ∙ ap (get_elem? entries) same ∙ counted in
      nonzero (ground arith) in
    (
      set entries home (settled key expected),
      rw (ne→== key 0 nonzero) (
          count_new key expected nonzero k entries size fits 0 fuel key home enough
            (omega arith, at) free (omega arith) small
          ∙ ap (λ (b : Bool). ok (b, set entries home (settled key expected))) waiting),
      rw waiting (get_elem?-set_self entries home _ (get_elem?-lt entries home free_entry free)),
      get_elem?-set_ne entries home old _ apart ∙ counted,
    )
