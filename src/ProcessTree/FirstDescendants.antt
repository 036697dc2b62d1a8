-- ===== src/ProcessTree/FirstDescendants.antt =====
-- `count_first_descendants` counts the processes that satisfy the predicate and have no other such
-- process on the way up to the root of the search.
use findus.Base.{
  ℕ, zero, suc, ◌+◌, ◌*◌, ◌≤◌, ◌<◌, Bool, true, false, ◌==◌, ◌&&◌, ◌≡◌, arith, Bool-cases, inl, inr,
  List, [], ◌∷◌, map, All, ap, ◌∙◌, ==→eq,
}
use findus.Base.Sums.{
  bit, sum_below, sum_below_congr, sum_below_add, sum_below_zero, sum_below_single, sum_of,
}
use findus.ProcessTree.Size.{
  subtree_size, subtree_size_children, subtree_size_outside, subtree_size-le,
}
use findus.Base.Int.{ℤ, pos}
use findus.Base.Result.{ok}
use findus.ProcessTree.{count_loop, count_first_descendants}
use findus.ProcessTree.Links.{
  parent_and_children_ok, push_both, push_child-links, push_both-All, sum_of-push_both,
}
use findus.ProcessTree.Climb.{clear, clear_below, clear_stop, clear_children}

module _ (stop : ℕ → Bool) (n : ℕ) where
  -- The processes at or below `q` where a walk down from `q` stops.
  unfoldable pub first_hits : ℕ → ℕ
  first_hits q = sum_below n (λ r. bit (stop r && clear stop q r))

  first_hits_stop : (q : ℕ) → q < n → stop q ≡ true → first_hits q ≡ 1
  unfolding first_hits
  first_hits_stop q h s =
      sum_below_congr n _ (λ r. bit (r == q)) (λ r l. here r) ∙ sum_below_single n q h
    where
      here : (r : ℕ) → bit (stop r && clear stop q r) ≡ bit (r == q)
      here r = elim (Bool-cases (r == q)) [
        | inl e ↦
            let e' : r ≡ q = ==→eq _ _ e in
            let s' : stop r ≡ true = rw e' s in ground (arith, clear_stop stop q r s)
        | inr e ↦ ground (arith, clear_stop stop q r s)
      ]

  pub first_hits_children :
      (q : ℕ) → stop q ≡ false → first_hits q ≡ first_hits (2 * q + 1) + first_hits (2 * q + 2)
  unfolding first_hits
  first_hits_children q s = sum_below_congr n _ _ (λ r l. here r) ∙ sum_below_add n _ _
    where
      here :
          (r : ℕ)
          → bit (stop r && clear stop q r)
            ≡ bit (stop r && clear stop (2 * q + 1) r) + bit (stop r && clear stop (2 * q + 2) r)
      here r = elim (Bool-cases (r == q)) [
        | inl e ↦
            let e' : r ≡ q = ==→eq _ _ e in let s' : stop r ≡ false = rw e' s in ground (arith, s')
        | inr e ↦ ground (arith, clear_children stop q r s)
      ]

  pub first_hits_outside : (q : ℕ) → n ≤ q → first_hits q ≡ 0
  unfolding first_hits
  first_hits_outside q h =
      sum_below_zero n _ (λ r l. ground (arith, clear_below stop q r (omega arith)))

module _ (n : ℕ) (predicate : ℤ → Bool) where
  abbrev stops : ℕ → Bool
  stops q = predicate (pos q)

  sizes :
      (q : ℕ) (stack : List ℕ)
      → sum_of (subtree_size n) (push_both n q stack)
        ≡ subtree_size n (2 * q + 1) + subtree_size n (2 * q + 2) + sum_of (subtree_size n) stack
  sizes q stack =
      sum_of-push_both (subtree_size n) n q stack (subtree_size_outside n _)
        (subtree_size_outside n _)

  hits :
      (q : ℕ) (stack : List ℕ)
      → sum_of (first_hits stops n) (push_both n q stack)
        ≡ first_hits stops n (2 * q + 1)
          + first_hits stops n (2 * q + 2)
          + sum_of (first_hits stops n) stack
  hits q stack =
      sum_of-push_both (first_hits stops n) n q stack (first_hits_outside stops n _)
        (first_hits_outside stops n _)

  -- The loop adds up the hits of the processes on its stack.
  count_loop_lem :
      (fuel : ℕ) (stack : List ℕ) (count : ℕ)
      → All (λ q. q < n) stack
      → sum_of (subtree_size n) stack < fuel
      → count_loop fuel (map pos stack) (pos n) predicate count
        ≡ ok (count + sum_of (first_hits stops n) stack)
  unfolding count_loop sum_of
  count_loop_lem zero stack count all enough = absurd (omega arith)
  count_loop_lem (suc fuel) [] count all enough = ap ok (omega arith)
  count_loop_lem (suc fuel) (q ∷ stack) count all enough = elim (Bool-cases (predicate (pos q))) [
    | inl e ↦ rw e (
        count_loop_lem fuel stack (count + 1) all.1 (omega (arith, subtree_size_children n q all.0))
        ∙ ap ok (omega (arith, first_hits_stop stops n q all.0 e)))
    | inr e ↦
        rw (e, parent_and_children_ok q n all.0, push_child-links n q stack)
          (count_loop_lem fuel (push_both n q stack) count (push_both-All n q stack all.1)
              (omega (arith, subtree_size_children n q all.0, sizes q stack))
            ∙ ap ok (omega (arith, first_hits_children stops n q e, hits q stack)))
  ]

  pub count_first_descendants_lem :
      (q : ℕ)
      → q < n
      → count_first_descendants (pos q) (pos n) predicate
        ≡ ok (first_hits stops n (2 * q + 1) + first_hits stops n (2 * q + 2))
  unfolding count_first_descendants sum_of
  count_first_descendants_lem q h =
      rw (parent_and_children_ok q n h, push_child-links n q [])
        (count_loop_lem (n + 1) (push_both n q []) 0 (push_both-All n q [] tt)
            (omega (arith, subtree_size_children n q h, subtree_size-le n q, sizes q []))
          ∙ ap ok (omega (arith, hits q [])))
