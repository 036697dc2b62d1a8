-- ===== src/ReductionCounter/Callers.antt =====
-- The calls of several threads for one key, each access a step of one of them, and how many of them
-- stand where.
use findus.Base.{ℕ, zero, suc, ◌+◌, ◌≤◌, ◌<◌, Bool, true, false, List, ◌≡◌, refl, ap, arith}
use findus.Base.Sums.{bit, sum_below, sum_below_add, sum_below_le}
use findus.ThreadPool.Family.{update, sum-update}
use findus.ReductionCounter.{
  KeyCount, Pc, testing, loading, exchanging, adding, subtracting, freeing, returned, threw,
  micro_step,
}
use findus.ReductionCounter.Stages.{is_adding, is_counted}

-- Where the call of each thread stands, and the table.
pub record Callers : Type 0 where
  pub pc_of : ℕ → Pc
  pub entries : List KeyCount

-- One of the `n` threads, each of which contributes to `key` once, makes an access.
pub data Step (n key : ℕ) (s : Callers) : Callers → Type 0 where
  by_thread :
      (i : ℕ)
      → i < n
      → Step n key s (record {
        pc_of = update s.pc_of i (micro_step key n (s.pc_of i) s.entries).pc;
        entries = (micro_step key n (s.pc_of i) s.entries).entries;
      })

pub data Reachable (n key : ℕ) (entries : List KeyCount) : Callers → Type 0 where
  start : Reachable n key entries (record { pc_of = λ _. testing key; entries = entries })
  next : (s u : Callers) → Reachable n key entries s → Step n key s u → Reachable n key entries u

abbrev pub number : ℕ → (Pc → Bool) → (ℕ → Pc) → ℕ
number n test pcs = sum_below n (λ j. bit (test (pcs j)))

abbrev pub is_returned : Pc → Bool
is_returned (returned b) = true
is_returned _ = false

pub bit-le : (b : Bool) → bit b ≤ 1
bit-le true = omega arith
bit-le false = omega arith

pub sum_ones : (n : ℕ) → sum_below n (λ _. 1) ≡ n
unfolding sum_below
sum_ones zero = refl
sum_ones (suc n) = omega (arith, sum_ones n)

-- The counts of the other threads, by giving the one at `i` a place that counts for nothing.
pub number-update :
    (n : ℕ) (test : Pc → Bool) (pcs : ℕ → Pc) (i key : ℕ) (pc : Pc)
    → i < n
    → test (testing key) ≡ false
    → number n test (update pcs i pc) ≡ number n test (update pcs i (testing key)) + bit (test pc)
number-update n test pcs i key pc below none =
    let weight : Pc → ℕ = λ p. bit (test p) in
    omega (
      arith,
      sum-update weight n pcs i pc below,
      sum-update weight n pcs i (testing key) below,
      ap bit none,
    )

pub number-split :
    (n : ℕ) (test : Pc → Bool) (pcs : ℕ → Pc) (i key : ℕ)
    → i < n
    → test (testing key) ≡ false
    → number n test pcs ≡ number n test (update pcs i (testing key)) + bit (test (pcs i))
number-split n test pcs i key below none =
    let weight : Pc → ℕ = λ p. bit (test p) in
    omega (arith, sum-update weight n pcs i (testing key) below, ap bit none)

apart : (pc : Pc) → bit (is_adding pc) + bit (is_counted pc) ≤ 1
apart (testing i) = omega arith
apart (loading i) = omega arith
apart (exchanging i) = omega arith
apart (adding i) = omega arith
apart (subtracting i) = omega arith
apart (freeing i) = omega arith
apart (returned b) = omega arith
apart (threw e) = omega arith

pub others-lt :
    (n : ℕ) (pcs : ℕ → Pc) (i key : ℕ)
    → i < n
    → number n is_adding (update pcs i (testing key))
        + number n is_counted (update pcs i (testing key))
      < n
others-lt n pcs i key below =
    let weight : Pc → ℕ = λ p. bit (is_adding p) + bit (is_counted p) in
    let g = update pcs i (testing key) in
    let both = sum_below_add n (λ j. bit (is_adding (g j))) (λ j. bit (is_counted (g j))) in
    let most =
      sum_below_le n (λ j. weight (update pcs i (returned true) j))
        (λ j. apart (update pcs i (returned true) j)) in
    omega (
      arith,
      both,
      most,
      sum-update weight n pcs i (returned true) below,
      sum-update weight n pcs i (testing key) below,
    )
