-- ===== src/ProcessTree/Size.antt =====
-- The number of processes in a subtree: the measure of the walks of the parent module.
use findus.Base.{ℕ, ◌+◌, ◌*◌, ◌≤◌, ◌<◌, Bool, false, ◌==◌, ◌≡◌, refl, arith}
use findus.Base.Sums.{
  bit, sum_below, sum_below_congr, sum_below_add, sum_below_zero, sum_below_single, sum_below_le,
}
use findus.ProcessTree.Climb.{clear, clear_below, clear_children}

-- `r` is `q` or a descendant of `q`.
abbrev pub in_subtree : ℕ → ℕ → Bool
in_subtree = clear (λ _. false)

module _ (n : ℕ) where
  pub subtree_size : ℕ → ℕ
  subtree_size q = sum_below n (λ r. bit (in_subtree q r))

  pub subtree_size_children :
      (q : ℕ) → q < n → subtree_size q ≡ 1 + subtree_size (2 * q + 1) + subtree_size (2 * q + 2)
  unfolding subtree_size
  subtree_size_children q h =
      let left : ℕ → ℕ = λ r. bit (in_subtree (2 * q + 1) r) in
      let right : ℕ → ℕ = λ r. bit (in_subtree (2 * q + 2) r) in
      let split = sum_below_congr n _ _ (λ r l. clear_children (λ _. false) q r refl) in
      omega (
        arith,
        split,
        sum_below_add n (λ r. bit (r == q) + left r) right,
        sum_below_add n (λ r. bit (r == q)) left,
        sum_below_single n q h,
      )

  pub subtree_size_outside : (q : ℕ) → n ≤ q → subtree_size q ≡ 0
  unfolding subtree_size
  subtree_size_outside q h =
      sum_below_zero n _ (λ r l. ground (arith, clear_below (λ _. false) q r (omega arith)))

  pub subtree_size-le : (q : ℕ) → subtree_size q ≤ n
  unfolding subtree_size
  subtree_size-le q = sum_below_le n _ (λ r. ground arith)
