-- ===== src/ProcessTree/Counting.antt =====
-- The two walks of a reduction agree: what `count_first_descendants` makes a process wait for is
-- what `find_first_parent` makes the other processes send to it.
use findus.Base.{ℕ, ◌+◌, ◌*◌, ◌<◌, Bool, true, false, ◌&&◌, ◌≡◌, sym, arith, ap, ◌∙◌}
use findus.Base.Sums.{bit, sum_below, sum_below_congr, sum_below_add}
use findus.Base.Int.{ℤ, pos, minus_one, ◌==ℤ◌}
use findus.Base.Result.{Result, ok, err}
use findus.ProcessTree.{TreeError, find_first_parent, count_first_descendants}
use findus.ProcessTree.Climb.{clear, clear_children}
use findus.ProcessTree.FirstDescendants.{first_hits, count_first_descendants_lem}
use findus.ProcessTree.FirstParent.{nearest_children, nearest_none, find_first_parent_lem}

abbrev pub is_ok_with : Result TreeError ℤ → ℤ → Bool
is_ok_with (ok t) target = t ==ℤ target
is_ok_with (err e) target = false

module _ (n : ℕ) (predicate : ℤ → Bool) where
  -- Process `r` takes part, and its result goes to `target`.
  abbrev pub reports_to : ℤ → ℕ → Bool
  reports_to target r =
      predicate (pos r) && is_ok_with (find_first_parent (pos r) (pos n) predicate) target

  -- A participating process `p` of the tree waits for exactly as many processes as there are
  -- participating processes that have it as their first parent.
  pub count-find_first_parent :
      (p : ℕ)
      → p < n
      → predicate (pos p) ≡ true
      → count_first_descendants (pos p) (pos n) predicate
        ≡ ok (sum_below n (λ r. bit (reports_to (pos p) r)))
  unfolding first_hits
  count-find_first_parent p h s =
      count_first_descendants_lem n predicate p h
      ∙ ap ok (sym (sum_below_congr n _ _ split ∙ sum_below_add n _ _))
    where
      stop : ℕ → Bool
      stop q = predicate (pos q)

      split :
          (r : ℕ)
          → r < n
          → bit (reports_to (pos p) r)
            ≡ bit (stop r && clear stop (2 * p + 1) r) + bit (stop r && clear stop (2 * p + 2) r)
      split r l =
          rw (find_first_parent_lem n predicate r l) (ground (arith, nearest_children stop p r s))

  -- Where the root of a tree does not take part, it waits for exactly as many processes as there
  -- are participating processes that have no first parent.
  pub count-find_first_parent_root :
      0 < n
      → predicate (pos 0) ≡ false
      → count_first_descendants (pos 0) (pos n) predicate
        ≡ ok (sum_below n (λ r. bit (reports_to minus_one r)))
  unfolding first_hits
  count-find_first_parent_root h s =
      count_first_descendants_lem n predicate 0 h
      ∙ ap ok (sym (sum_below_congr n _ _ split ∙ sum_below_add n _ _))
    where
      stop : ℕ → Bool
      stop q = predicate (pos q)

      absent : (r : ℕ) → r ≡ 0 → stop r ≡ false
      absent r e = rw e s

      split :
          (r : ℕ)
          → r < n
          → bit (reports_to minus_one r)
            ≡ bit (stop r && clear stop 1 r) + bit (stop r && clear stop 2 r)
      split r l =
          rw (find_first_parent_lem n predicate r l)
            (ground (arith, nearest_none stop r s, clear_children stop 0 r s, absent r))
