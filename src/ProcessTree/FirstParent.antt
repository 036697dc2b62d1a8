-- ===== src/ProcessTree/FirstParent.antt =====
-- `find_first_parent` climbs to the nearest ancestor that satisfies the predicate.
use findus.Base.{
  ℕ, zero, suc, ◌+◌, ◌*◌, ◌≤◌, ◌<◌, Bool, true, false, ◌==◌, if◌then◌else◌, ◌≡◌, refl, arith,
  Bool-cases, inl, inr, ==→eq,
}
use findus.Base.Sums.{bit}
use findus.Base.Int.{ℤ, pos, minus_one, ◌==ℤ◌}
use findus.Base.Result.{ok}
use findus.ProcessTree.{links, parent_loop, find_first_parent}
use findus.ProcessTree.Links.{parent_and_children_ok}
use findus.ProcessTree.Climb.{up, clear, clear_step}

module _ (stop : ℕ → Bool) where
  nearest_within : ℕ → ℕ → ℤ
  nearest_within zero r = minus_one
  nearest_within (suc fuel) r =
      if r == 0 then minus_one else if stop (up r) then pos (up r) else nearest_within fuel (up r)

  pub nearest : ℕ → ℤ
  nearest r = nearest_within r r

  nearest_fuel : (f g r : ℕ) → r ≤ f → r ≤ g → nearest_within f r ≡ nearest_within g r
  unfolding nearest_within
  nearest_fuel zero zero r h k = refl
  nearest_fuel zero (suc g) r h k = ground arith
  nearest_fuel (suc f) zero r h k = ground arith
  nearest_fuel (suc f) (suc g) r h k = elim (Bool-cases (r == 0)) [
    | inl e ↦ ground arith
    | inr e ↦ ground (arith, nearest_fuel f g (up r))
  ]

  nearest_step :
      (r : ℕ)
      → nearest r
        ≡ (if r == 0 then minus_one else if stop (up r) then pos (up r) else nearest (up r))
  unfolding nearest nearest_within
  nearest_step zero = refl
  nearest_step (suc r) = ground (arith, nearest_fuel r (up (suc r)) (up (suc r)))

  nearest_children_fuel :
      (f p r : ℕ)
      → r ≤ f
      → stop p ≡ true
      → bit (nearest r ==ℤ pos p) ≡ bit (clear stop (2 * p + 1) r) + bit (clear stop (2 * p + 2) r)
  nearest_children_fuel zero p r h s =
      ground (arith, nearest_step r, clear_step stop (2 * p + 1) r, clear_step stop (2 * p + 2) r)
  nearest_children_fuel (suc f) p r h s = elim (Bool-cases (up r == p)) [
    | inl e ↦
        let e' : up r ≡ p = ==→eq _ _ e in
        let s' : stop (up r) ≡ true = rw e' s in
        ground (arith, nearest_step r, clear_step stop (2 * p + 1) r, clear_step stop (2 * p + 2) r)
    | inr e ↦ ground (
      arith,
      nearest_step r,
      clear_step stop (2 * p + 1) r,
      clear_step stop (2 * p + 2) r,
      nearest_children_fuel f p (up r) (omega arith) s,
    )
  ]

  -- The nearest ancestor is `p` exactly for the processes that climb to a child of `p`.
  pub nearest_children :
      (p r : ℕ)
      → stop p ≡ true
      → bit (nearest r ==ℤ pos p) ≡ bit (clear stop (2 * p + 1) r) + bit (clear stop (2 * p + 2) r)
  nearest_children p r s = nearest_children_fuel r p r (omega arith) s

  nearest_none_fuel :
      (f r : ℕ) → r ≤ f → stop 0 ≡ false → bit (nearest r ==ℤ minus_one) ≡ bit (clear stop 0 r)
  nearest_none_fuel zero r h s = ground (arith, nearest_step r, clear_step stop 0 r)
  nearest_none_fuel (suc f) r h s =
      ground (arith, nearest_step r, clear_step stop 0 r, nearest_none_fuel f (up r))

  -- There is none exactly for the processes that climb to the root.
  pub nearest_none : (r : ℕ) → stop 0 ≡ false → bit (nearest r ==ℤ minus_one) ≡ bit (clear stop 0 r)
  nearest_none r s = nearest_none_fuel r r (omega arith) s

module _ (n : ℕ) (predicate : ℤ → Bool) where
  abbrev pub stops : ℕ → Bool
  stops q = predicate (pos q)

  parent_loop_lem :
      (fuel r : ℕ)
      → r < n
      → r + 1 < fuel
      → parent_loop fuel (pos r) (pos n) predicate ≡ ok (nearest stops r)
  unfolding parent_loop links
  parent_loop_lem zero r h k = absurd (omega arith)
  parent_loop_lem (suc zero) r h k = absurd (omega arith)
  parent_loop_lem (suc (suc fuel)) r h k =
      ground (
        arith,
        parent_and_children_ok r n h,
        nearest_step stops r,
        parent_loop_lem (suc fuel) (up r),
      )

  -- For a process of the tree `find_first_parent` returns the nearest of its proper ancestors that
  -- satisfies the predicate, and -1 if there is none.
  pub find_first_parent_lem :
      (r : ℕ) → r < n → find_first_parent (pos r) (pos n) predicate ≡ ok (nearest stops r)
  unfolding find_first_parent
  find_first_parent_lem r h = parent_loop_lem (r + 2) r h (omega arith)
