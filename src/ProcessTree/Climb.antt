-- ===== src/ProcessTree/Climb.antt =====
-- The tree by arithmetic: `clear stop q r` climbs from `r` to `q` and asks that no process it meets
-- above `r`, `q` included, satisfies `stop`. The specification of the walks of the parent module.
use findus.Base.{
  ℕ, zero, suc, ◌+◌, ◌-◌, ◌*◌, ◌/◌, ◌≤◌, ◌<◌, Bool, true, false, ltb, ◌==◌, not, ◌&&◌, ◌||◌, ◌≡◌,
  refl, arith, Bool-cases, ==→eq, inl, inr,
}
use findus.Base.Sums.{bit}

abbrev pub up : ℕ → ℕ
up r = (r - 1) / 2

module _ (stop : ℕ → Bool) where
  climb : ℕ → ℕ → ℕ → Bool
  climb zero q r = r == q
  climb (suc fuel) q r = r == q || (ltb 0 r && not (stop (up r)) && climb fuel q (up r))

  pub clear : ℕ → ℕ → Bool
  clear q r = climb r q r

  climb_fuel : (f g q r : ℕ) → r ≤ f → r ≤ g → climb f q r ≡ climb g q r
  unfolding climb
  climb_fuel zero zero q r h k = refl
  climb_fuel zero (suc g) q r h k = ground arith
  climb_fuel (suc f) zero q r h k = ground arith
  climb_fuel (suc f) (suc g) q r h k = elim (Bool-cases (ltb 0 r)) [
    | inl e ↦ ground (arith, climb_fuel f g q (up r))
    | inr e ↦ ground arith
  ]

  pub clear_step :
      (q r : ℕ) → clear q r ≡ (r == q || (ltb 0 r && not (stop (up r)) && clear q (up r)))
  unfolding clear climb
  clear_step q zero = ground arith
  clear_step q (suc r) = ground (arith, climb_fuel r (up (suc r)) q (up (suc r)))

  pub clear_self : (q : ℕ) → clear q q ≡ true
  clear_self q = ground (arith, clear_step q q)

  clear_below_fuel : (f q r : ℕ) → r ≤ f → r < q → clear q r ≡ false
  clear_below_fuel zero q r h k = ground (arith, clear_step q r)
  clear_below_fuel (suc f) q r h k = ground (arith, clear_step q r, clear_below_fuel f q (up r))

  -- Climbing never meets a process with a larger id.
  pub clear_below : (q r : ℕ) → r < q → clear q r ≡ false
  clear_below q r h = clear_below_fuel r q r (omega arith) h

  -- A process that stops the climb is reached from itself only.
  clear_stop_fuel : (f q r : ℕ) → r ≤ f → stop q ≡ true → clear q r ≡ (r == q)
  clear_stop_fuel zero q r h s = ground (arith, clear_step q r)
  clear_stop_fuel (suc f) q r h s = elim (Bool-cases (up r == q)) [
    | inl e ↦
        let e' : up r ≡ q = ==→eq _ _ e in
        let s' : stop (up r) ≡ true = rw e' s in ground (arith, clear_step q r, s')
    | inr e ↦ ground (arith, clear_step q r, clear_stop_fuel f q (up r))
  ]

  pub clear_stop : (q r : ℕ) → stop q ≡ true → clear q r ≡ (r == q)
  clear_stop q r s = clear_stop_fuel r q r (omega arith) s

  -- Below a process that does not stop the climb lie the two subtrees of its children, apart.
  clear_children_fuel :
      (f q r : ℕ)
      → r ≤ f
      → stop q ≡ false
      → bit (clear q r) ≡ bit (r == q) + bit (clear (2 * q + 1) r) + bit (clear (2 * q + 2) r)
  clear_children_fuel zero q r h s =
      ground (arith, clear_step q r, clear_step (2 * q + 1) r, clear_step (2 * q + 2) r)
  clear_children_fuel (suc f) q r h s = elim (Bool-cases (up r == q)) [
    | inl e ↦
        let e' : up r ≡ q = ==→eq _ _ e in
        let s' : stop (up r) ≡ false = rw e' s in
        let top : clear q (up r) ≡ true = rw e' (clear_self q) in
        let left : clear (2 * q + 1) (up r) ≡ false = clear_below _ _ (omega arith) in
        let right : clear (2 * q + 2) (up r) ≡ false = clear_below _ _ (omega arith) in
        ground (arith, clear_step q r, clear_step (2 * q + 1) r, clear_step (2 * q + 2) r)
    | inr e ↦ ground (
      arith,
      clear_step q r,
      clear_step (2 * q + 1) r,
      clear_step (2 * q + 2) r,
      clear_children_fuel f q (up r) (omega arith) s,
      clear_below (2 * q + 1) r,
      clear_below (2 * q + 2) r,
    )
  ]

  pub clear_children :
      (q r : ℕ)
      → stop q ≡ false
      → bit (clear q r) ≡ bit (r == q) + bit (clear (2 * q + 1) r) + bit (clear (2 * q + 2) r)
  clear_children q r s = clear_children_fuel r q r (omega arith) s
