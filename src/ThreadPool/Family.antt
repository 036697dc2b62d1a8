-- ===== src/ThreadPool/Family.antt =====
-- Families of threads: change of one member, and sums over all.
use findus.Base.{ℕ, zero, suc, ◌+◌, ◌<◌, ◌==◌, if◌then◌else◌, ◌≡◌, arith, dec_lt}
use findus.Base.Sums.{sum_below, sum_below_congr}

abbrev pub update {ℓ} : {A : Type ℓ} → (ℕ → A) → ℕ → A → ℕ → A
update f i a j = if i == j then a else f j

module _ {ℓ} {A : Type ℓ} (w : A → ℕ) where
  pub sum-update :
      (n : ℕ) (f : ℕ → A) (i : ℕ) (a : A)
      → i < n
      → sum_below n (λ j. w (update f i a j)) + w (f i) ≡ sum_below n (λ j. w (f j)) + w a
  unfolding sum_below
  sum-update zero f i a h = absurd (omega arith)
  sum-update (suc n) f i a h = elim (dec_lt i n) [
    | yes below ↦ ground (arith, sum-update n f i a below)
    | no last ↦
        ground
          (arith, sum_below_congr n (λ j. w (update f i a j)) (λ j. w (f j)) (λ j l. ground arith))
  ]
