-- ===== src/ReductionCounter/Lifecycle.antt =====
-- The life of a reduction's entry when the calls do not overlap.
use findus.Base.{
  ℕ, zero, suc, ◌+◌, ◌-◌, ◌*◌, ◌%◌, ◌^◌, ◌≤◌, ◌<◌, Bool, true, false, ◌==◌, List, [], ◌∷◌, ◌++◌,
  some, length, get_elem?, set, replicate, ◌≡◌, ◌≢◌, refl, sym, ap, ◌∙◌, arith, length-set,
  get_elem?-set_self, get_elem?-set_ne, set-set, get_elem?-lt, set-get_elem?, ◌⊎◌, inl, inr, ne→==,
}
use findus.Base.Result.{Result, ok, ◌>>=◌}
use findus.ReductionCounter.{CounterError, KeyCount, free_entry, increment}
use findus.ReductionCounter.Probing.{Leads, settled}
use findus.ReductionCounter.Contribute.{count_known, count_new}

-- `calls` calls of `increment` for one key, one after another: what they return, and the table.
pub contribute : ℕ → ℕ → ℕ → ℕ → List KeyCount → Result CounterError (List Bool × List KeyCount)
contribute zero fuel key expected entries = ok ([], entries)
contribute (suc calls) fuel key expected entries =
    increment fuel key expected entries >>= λ (r : Bool × List KeyCount).
    contribute calls fuel key expected r.1 >>= λ (rs : List Bool × List KeyCount).
    ok (r.0 ∷ rs.0, rs.1)

-- `last_true n` is `false` n times, then `true`.
abbrev pub last_true : ℕ → List Bool
last_true n = replicate n false ++ true ∷ []

-- A change of an entry that is free or holds the key leaves the way to it as it was.
Leads-set :
    (key d index target : ℕ) (entries : List KeyCount) (old new : KeyCount)
    → get_elem? entries target ≡ some old
    → (old.key ≡ 0) ⊎ (old.key ≡ key)
    → Leads entries key d index target
    → Leads (set entries target new) key d index target
Leads-set key zero index target entries old new at h (go, here) =
    (go, rw (length-set entries target new) here)
Leads-set key (suc d) index target entries old new at h (go, e, found, used, other, rest) =
    let apart : target ≢ index % length entries = λ same.
      let equal : some old ≡ some e = sym at ∙ ap (get_elem? entries) same ∙ found in differ (cc) in
    rw (length-set entries target new) (
      go,
      e,
      get_elem?-set_ne entries target _ new apart ∙ found,
      used,
      other,
      Leads-set key d _ target entries old new at h rest,
    )
  where
    differ : old ≡ e → ⊥
    differ same = elim h [
      | inl z ↦ used (ap (λ (x : KeyCount). x.key) (sym same) ∙ z)
      | inr o ↦ other (ap (λ (x : KeyCount). x.key) (sym same) ∙ o)
    ]

contribute_step :
    (calls fuel key expected : ℕ) (entries : List KeyCount) (b : Bool) (es : List KeyCount)
    (bs : List Bool) (es' : List KeyCount)
    → increment fuel key expected entries ≡ ok (b, es)
    → contribute calls fuel key expected es ≡ ok (bs, es')
    → contribute (suc calls) fuel key expected entries ≡ ok (b ∷ bs, es')
unfolding contribute
contribute_step calls fuel key expected entries b es bs es' first rest = rw first (rw rest refl)

module _ (key : ℕ) (nonzero : key ≢ 0) (expected fuel d target k : ℕ) (entries : List KeyCount)
    (size : length entries ≡ 2 ^ k) (fits : length entries < 2 ^ 64) (enough : 2 * d + 7 ≤ fuel)
    (leads : Leads entries key d key target)
    (unused : get_elem? entries target ≡ some free_entry) where
  counting : ℕ → List KeyCount
  counting c = set entries target (record { key = key; counter = c })

  one_more :
      (c : ℕ)
      → 0 < c
      → c < 2 ^ 32
      → increment fuel key expected (counting c) ≡ ok (c == 1, set entries target (settled key c))
  unfolding counting increment
  one_more c pos small =
      let zero_test = ne→== key 0 nonzero in
      let inside = get_elem?-lt entries target free_entry unused in
      let changed : KeyCount = record { key = key; counter = c } in
      let same_size = length-set entries target changed in
      rw zero_test (
        count_known key expected nonzero k (counting c) (same_size ∙ size) (rw same_size fits) d
          fuel key target c enough
          (Leads-set key d key target entries free_entry changed unused (inl refl) leads)
          (get_elem?-set_self entries target changed inside) pos small
        ∙ ap (λ (es : List KeyCount). ok (c == 1, es)) (set-set entries target _ _))

  goes_on :
      (n : ℕ)
      → ◌≡◌ {A = Result CounterError (Bool × List KeyCount)}
          (ok (suc (suc n) == 1, set entries target (settled key (suc (suc n)))))
          (ok (false, counting (suc n)))
  unfolding counting
  goes_on n =
      let many : (suc (suc n) == 1) ≡ false = ground arith in
      let left : suc (suc n) - 1 ≡ suc n = omega arith in rw many (rw left refl)

  rest_of_calls :
      (n : ℕ)
      → suc n < 2 ^ 32
      → contribute (suc n) fuel key expected (counting (suc n)) ≡ ok (last_true n, entries)
  unfolding contribute
  rest_of_calls zero small =
      contribute_step 0 fuel key expected (counting 1) true _ [] entries
        (one_more 1 (omega arith) small)
        (ap (λ (es : List KeyCount). ok ([], es)) (set-get_elem? entries target free_entry unused))
  rest_of_calls (suc n) small =
      contribute_step (suc n) fuel key expected (counting (suc (suc n))) false (counting (suc n)) _
        entries (one_more (suc (suc n)) (omega arith) small ∙ goes_on n)
        (rest_of_calls n (omega arith))

  outcome : ℕ → Result CounterError (Bool × List KeyCount)
  outcome c = ok (c == 1, set entries target (settled key c))

  contribute_first :
      (n : ℕ)
      → expected ≡ suc n
      → suc n < 2 ^ 32
      → increment fuel key expected entries
        ≡ ok (expected == 1, set entries target (settled key expected))
      → contribute expected fuel key expected entries ≡ ok (last_true n, entries)
  unfolding contribute outcome
  contribute_first zero e small first =
      ap (λ (m : ℕ). contribute m fuel key expected entries) e
      ∙ contribute_step 0 fuel key expected entries true _ [] entries (first ∙ ap outcome e) (
          ap (λ (es : List KeyCount). ok ([], es)) (set-get_elem? entries target free_entry unused))
  contribute_first (suc n) e small first =
      ap (λ (m : ℕ). contribute m fuel key expected entries) e
      ∙ contribute_step (suc n) fuel key expected entries false (counting (suc n)) _ entries
          (first ∙ ap outcome e ∙ goes_on n) (rest_of_calls n (omega arith))

  -- In a table of a power of two of entries, let the probing for a key that is not 0 come to a
  -- free entry past entries of other keys. Then `expected` calls for the key, one after another,
  -- with `expected` from 1 to 2 ^ 32 - 1, return `true` once, at the last call, and leave the
  -- table as it was before the first.
  pub contribute_lem :
      (n : ℕ)
      → expected ≡ suc n
      → suc n < 2 ^ 32
      → contribute expected fuel key expected entries ≡ ok (last_true n, entries)
  unfolding increment
  contribute_lem n e small = contribute_first n e small (
      rw (ne→== key 0 nonzero) (
        count_new key expected nonzero k entries size fits d fuel key target enough leads unused
          (omega arith) (omega arith)))
