-- ===== src/ReductionCounter/Contribute.antt =====
-- One call of `increment` that runs alone: what it returns and the one entry that it changes.
use findus.Base.{
  ℕ, zero, suc, ◌+◌, ◌-◌, ◌*◌, ◌%◌, ◌^◌, ◌≤◌, ◌<◌, ◌==◌, List, some, length, get_elem?, set, ◌≡◌,
  ◌≢◌, refl, ap, ◌∙◌, arith, length-set, get_elem?-set_self, set-set, get_elem?-lt,
}
use findus.Base.Result.{ok}
use findus.ReductionCounter.{KeyCount, testing, loading, exchanging, adding, run_alone, free_entry}
use findus.ReductionCounter.Probing.{
  Leads, with_key, settled, advance, load_other, load_own, load_free, exchange_free, add_entry,
  test_goes_on, finish,
}

module _ (key expected : ℕ) (nonzero : key ≢ 0) (k : ℕ) (entries : List KeyCount)
    (size : length entries ≡ 2 ^ k) (fits : length entries < 2 ^ 64) where
  arrive :
      (d g fuel index target : ℕ)
      → g ≡ 2 * d + suc fuel
      → Leads entries key d index target
      → run_alone g key expected (testing index) entries
        ≡ run_alone fuel key expected (loading target) entries
  arrive zero g fuel index target e (go, here) = rw (let e' : g ≡ suc fuel = omega arith in e') (
      advance key expected fuel (testing index) entries _ tt
        (test_goes_on key expected k entries size index go)
      ∙ rw here)
  arrive (suc d) g fuel index target e (go, entry, at, used, other, rest) =
      let inside = get_elem?-lt entries (index % length entries) entry at in
      let next : (index % length entries + 1) % 2 ^ 64 ≡ index % length entries + 1 = omega arith in
      rw (let e' : g ≡ suc (suc (2 * d + suc fuel)) = omega arith in e') (
        advance key expected (suc (2 * d + suc fuel)) (testing index) entries _ tt
          (test_goes_on key expected k entries size index go)
        ∙ advance key expected (2 * d + suc fuel) (loading (index % length entries)) entries _ tt
            (load_other key expected entries (index % length entries) entry at used other)
        ∙ rw next (arrive d (2 * d + suc fuel) fuel (index % length entries + 1) target refl rest))

  -- A contribution to a key that has an entry.
  pub count_known :
      (d fuel index target c : ℕ)
      → 2 * d + 7 ≤ fuel
      → Leads entries key d index target
      → get_elem? entries target ≡ some (record { key = key; counter = c })
      → 0 < c
      → c < 2 ^ 32
      → run_alone fuel key expected (testing index) entries
        ≡ ok (c == 1, set entries target (settled key c))
  count_known d fuel index target c enough leads at pos small =
      let left : ℕ = fuel - (2 * d + 5) in
      arrive d fuel (suc (suc (suc (suc left)))) index target (omega arith) leads
      ∙ advance key expected (suc (suc (suc left))) (loading target) entries _ tt
          (load_own key expected entries target _ at refl)
      ∙ finish key expected entries target left c _ at refl refl pos small

  -- The first contribution to a key takes the free entry that the probing leads to.
  pub count_new :
      (d fuel index target : ℕ)
      → 2 * d + 7 ≤ fuel
      → Leads entries key d index target
      → get_elem? entries target ≡ some free_entry
      → 0 < expected
      → expected < 2 ^ 32
      → run_alone fuel key expected (testing index) entries
        ≡ ok (expected == 1, set entries target (settled key expected))
  count_new d fuel index target enough leads at pos small =
      let left : ℕ = fuel - (2 * d + 7) in
      let inside = get_elem?-lt entries target free_entry at in
      let claimed : List KeyCount = with_key entries target key 0 in
      let claimed_at : get_elem? claimed target ≡ some (record { key = key; counter = 0 }) =
        get_elem?-set_self entries target _ inside in
      let added : List KeyCount = with_key claimed target key ((0 + expected) % 2 ^ 32) in
      let added_at : get_elem? added target
          ≡ some (record { key = key; counter = (0 + expected) % 2 ^ 32 }) =
        get_elem?-set_self claimed target _
          (omega (arith, length-set entries target (record { key = key; counter = 0 }))) in
      arrive d fuel (suc (suc (suc (suc (suc (suc left)))))) index target (omega arith) leads
      ∙ advance key expected _ (loading target) entries _ tt
          (load_free key expected entries target _ at refl nonzero)
      ∙ advance key expected _ (exchanging target) entries _ tt
          (exchange_free key expected entries target _ at refl)
      ∙ advance key expected _ (adding target) claimed _ tt
          (add_entry key expected claimed target _ claimed_at)
      ∙ finish key expected added target left expected _ added_at refl (omega arith) pos small
      ∙ ap (λ (es : List KeyCount). ok (expected == 1, es))
          (set-set claimed target _ _ ∙ set-set entries target _ _)
