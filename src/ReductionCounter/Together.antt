-- ===== src/ReductionCounter/Together.antt =====
-- Several threads contribute to one key at once: their calls of `increment` interleave.
use findus.Base.{
  ℕ, ◌-◌, ◌^◌, ◌≤◌, ◌<◌, Bool, true, false, ◌==◌, List, some, length, get_elem?, set, ◌≡◌, ◌≢◌, ◌⊎◌,
  inl, inr, refl, sym, ap, ◌∙◌, arith, Bool-cases, get_elem?-lt, set-get_elem?,
}
use mathlib.Core.Path.{subst}
use Prim.Native.Nat.{bit_and}
use findus.Base.Sums.{bit, sum_below_congr, sum_below_zero, sum_below_le}
use findus.ThreadPool.Family.{update, sum-update}
use findus.ReductionCounter.{
  KeyCount, Pc, testing, loading, exchanging, adding, subtracting, freeing, returned, threw,
  micro_step, free_entry,
}
use findus.ReductionCounter.Callers.{
  Callers, Step, by_thread, Reachable, start, next, number, is_returned, bit-le, sum_ones,
  number-update, number-split, others-lt,
}
use findus.ReductionCounter.Slot.{IsAround, slot_pc, slot_entry, micro_step-slot}
use findus.ReductionCounter.Stages.{
  is_adding, is_subtracting, is_counted, is_freeing, is_last, Stage, unclaimed, claimed, counting,
  complete, freed, StageWith, slot-Stage, Stage-counts,
}

module _ (n key t : ℕ) (nonzero : key ≢ 0) (some_threads : 0 < n) (small : n < 2 ^ 32)
    (entries : List KeyCount) (home : bit_and key (length entries - 1) ≡ t)
    (free : get_elem? entries t ≡ some free_entry) where
  record IsGoing (s : Callers) : Type 0 where
    entry : KeyCount
    table : s.entries ≡ set entries t entry
    around : (j : ℕ) → j < n → IsAround key t (s.pc_of j)
    stage :
        Stage n key entry
          (number n is_adding s.pc_of)
          (number n is_subtracting s.pc_of)
          (number n is_counted s.pc_of)
          (number n is_freeing s.pc_of)
          (number n is_last s.pc_of)

  key_of : {x : KeyCount} {a s c f l : ℕ} → Stage n key x a s c f l → (x.key ≡ 0) ⊎ (x.key ≡ key)
  key_of (unclaimed k z e) = inl k
  key_of (claimed k a b d e) = inr k
  key_of (counting k b d e) = inr k
  key_of (complete k b d e z) = inr k
  key_of (freed k b d e z) = inl k

  slot-IsAround : (pc : Pc) (x : KeyCount) → IsAround key t pc → IsAround key t (slot_pc key t pc x)
  unfolding slot_pc
  slot-IsAround (testing i) x h = refl
  slot-IsAround (loading i) x h = elim (Bool-cases (x.key == key)) [
    | inl e ↦ rw e refl
    | inr e ↦ rw e refl
  ]
  slot-IsAround (exchanging i) x h = elim (Bool-cases (x.key == 0)) [
    | inl e ↦ rw e refl
    | inr e ↦ rw e refl
  ]
  slot-IsAround (adding i) x h = refl
  slot-IsAround (subtracting i) x h = elim (Bool-cases (x.counter == 1)) [
    | inl e ↦ rw e refl
    | inr e ↦ rw e tt
  ]
  slot-IsAround (freeing i) x h = tt
  slot-IsAround (returned b) x h = tt
  slot-IsAround (threw e) x h = h

  start-IsGoing : IsGoing (record { pc_of = λ _. testing key; entries = entries })
  start-IsGoing = record {
    entry = free_entry;
    table = sym (set-get_elem? entries t free_entry free);
    around = λ j l. refl;
    stage =
        let none_yet = sum_below_zero n (λ j. bit false) (λ j l. refl) in
        unclaimed refl refl (omega (arith, none_yet));
  }

  Step-IsGoing : (s u : Callers) → Step n key s u → IsGoing s → IsGoing u
  Step-IsGoing s u (by_thread i below) g =
      let pc = s.pc_of i in
      let x = g.entry in
      let others = update s.pc_of i (testing key) in
      let made =
        micro_step-slot key n t nonzero entries home (get_elem?-lt entries t free_entry free) pc x
          (g.around i below) (key_of g.stage) in
      let step : micro_step key n pc s.entries
          ≡ record { pc = slot_pc key t pc x; entries = set entries t (slot_entry key n pc x) } =
        ap (micro_step key n pc) g.table ∙ made in
      let pc' = (micro_step key n pc s.entries).pc in
      let same : pc' ≡ slot_pc key t pc x = ap (λ c. c.pc) step in
      let before : StageWith n key x pc (number n is_adding others) (number n is_subtracting others)
          (number n is_counted others) (number n is_freeing others) (number n is_last others) =
        Stage-counts n key x _ _ _ _ _ _ _ _ _ _ (number-split n is_adding s.pc_of i key below refl)
          (number-split n is_subtracting s.pc_of i key below refl)
          (number-split n is_counted s.pc_of i key below refl)
          (number-split n is_freeing s.pc_of i key below refl)
          (number-split n is_last s.pc_of i key below refl) g.stage in
      let after =
        slot-Stage n key t nonzero small x _ _ _ _ _ (others-lt n s.pc_of i key below) pc
          (g.around i below) before in
      record {
        entry = slot_entry key n pc x;
        table = ap (λ c. c.entries) step;
        around = λ j l. elim (Bool-cases (i == j)) [
          | inl e ↦ rw e (subst (IsAround key t) (sym same) (slot-IsAround pc x (g.around i below)))
          | inr e ↦ rw e (g.around j l)
        ];
        stage =
            let renamed =
              subst
                (λ (p : Pc).
                  StageWith n key (slot_entry key n pc x) p (number n is_adding others)
                    (number n is_subtracting others) (number n is_counted others)
                    (number n is_freeing others) (number n is_last others))
                (sym same) after in
            Stage-counts n key (slot_entry key n pc x) _ _ _ _ _ _ _ _ _ _
              (sym (number-update n is_adding s.pc_of i key pc' below refl))
              (sym (number-update n is_subtracting s.pc_of i key pc' below refl))
              (sym (number-update n is_counted s.pc_of i key pc' below refl))
              (sym (number-update n is_freeing s.pc_of i key pc' below refl))
              (sym (number-update n is_last s.pc_of i key pc' below refl)) renamed;
      }

  going : (s : Callers) → Reachable n key entries s → IsGoing s
  going s start = start-IsGoing
  going s (next r _ reach step) = Step-IsGoing r s step (going r reach)

  number_all :
      (test : Pc → Bool) (pcs : ℕ → Pc)
      → ((j : ℕ) → j < n → test (pcs j) ≡ true)
      → number n test pcs ≡ n
  number_all test pcs h =
      sum_below_congr n (λ j. bit (test (pcs j))) (λ _. 1) (λ j l. ap bit (h j l)) ∙ sum_ones n

  returned-counts :
      (pc : Pc) → is_returned pc ≡ true → (is_counted pc ≡ true) × (is_freeing pc ≡ false)
  returned-counts (returned b) h = (refl, refl)
  returned-counts pc h = absurd (ground (arith, h))

  restored : (x : KeyCount) → x.key ≡ 0 → x.counter ≡ 0 → set entries t x ≡ entries
  restored x k z =
      ap (set entries t) (let e : x ≡ free_entry = ground (arith, k, z) in e)
      ∙ set-get_elem? entries t free_entry free

  -- `n` threads each call `increment` once for a key other than 0, all with `n` as the expected
  -- number of contributions, which is below 2 ^ 32, and the entry at which the probing for the key
  -- begins is free. In every interleaving of their accesses of the table: when all calls have returned,
  -- exactly one of them has returned `true`, and the table is as it was before.
  pub increment_together :
      (s : Callers)
      → Reachable n key entries s
      → ((j : ℕ) → j < n → is_returned (s.pc_of j) ≡ true)
      → (number n is_last s.pc_of ≡ 1) × (s.entries ≡ entries)
  increment_together s reach all =
      let g = going s reach in
      let counted =
        number_all is_counted s.pc_of (λ j l. (returned-counts (s.pc_of j) (all j l)).0) in
      let none_frees : number n is_freeing s.pc_of ≡ 0 =
        sum_below_zero n (λ j. bit (is_freeing (s.pc_of j)))
          (λ j l. ap bit (returned-counts (s.pc_of j) (all j l)).1) in
      elim g.stage [
        | unclaimed k z e ↦ absurd (omega (arith, e, counted))
        | claimed k a b d e ↦ absurd (omega (arith, d, counted))
        | counting k b d e ↦ absurd (omega (arith, d, counted))
        | complete k b d e z ↦ absurd (omega (arith, d, none_frees))
        | freed k b d e z ↦ (d, g.table ∙ restored g.entry k z)
      ]

  -- In every such interleaving: once a call has returned `true`, the calls of all threads have
  -- subtracted their contribution.
  pub last_is_last :
      (s : Callers) (i j : ℕ)
      → Reachable n key entries s
      → i < n
      → j < n
      → s.pc_of i ≡ returned true
      → is_counted (s.pc_of j) ≡ true
  last_is_last s i j reach hi hj at =
      let g = going s reach in
      let some_last : 1 ≤ number n is_last s.pc_of =
        omega (arith, number-split n is_last s.pc_of i key hi refl, ap (λ p. bit (is_last p)) at) in
      let all_counted : number n is_counted s.pc_of ≡ n = elim g.stage [
        | unclaimed k z e ↦ absurd (omega (arith, e, some_last))
        | claimed k a b d e ↦ absurd (omega (arith, b, some_last))
        | counting k b d e ↦ absurd (omega (arith, b, some_last))
        | complete k b d e z ↦ absurd (omega (arith, b, some_last))
        | freed k b d e z ↦ e
      ] in
      elim (Bool-cases (is_counted (s.pc_of j))) [
        | inl e ↦ e
        | inr e ↦
            let others =
              sum_below_le n (λ r. bit (is_counted (update s.pc_of j (returned true) r)))
                (λ r. bit-le (is_counted (update s.pc_of j (returned true) r))) in
            absurd (
              omega (
                arith,
                all_counted,
                others,
                ap bit e,
                sum-update (λ (p : Pc). bit (is_counted p)) n s.pc_of j (returned true) hj,
              ))
      ]
