-- ===== src/Base/Sums.antt =====
-- Sums over the numbers below a bound, and a Boolean as the number 0 or 1.
use Prim.Native.Nat.{ℕ, zero, suc, ◌+◌, ◌≤◌, ◌<◌}
use mathlib.Core.Path.{◌≡◌, refl}
use mathlib.Core.Bool.{Bool, true, false}
use mathlib.Core.List.{List, [], ◌∷◌, ◌++◌}
use native.Mathlib.Omega.{arith}
use native.Mathlib.Decide.{dec_lt}
use findus.Base.Tests.{◌==◌}

abbrev pub bit : Bool → ℕ
bit true = 1
bit false = 0

unfoldable pub sum_below : ℕ → (ℕ → ℕ) → ℕ
sum_below zero f = 0
sum_below (suc n) f = sum_below n f + f n

pub sum_below_congr :
    (n : ℕ) (f g : ℕ → ℕ) → ((r : ℕ) → r < n → f r ≡ g r) → sum_below n f ≡ sum_below n g
unfolding sum_below
sum_below_congr zero f g h = refl
sum_below_congr (suc n) f g h =
    omega (arith, h n (omega arith), sum_below_congr n f g (λ r l. h r (omega arith)))

pub sum_below_add :
    (n : ℕ) (f g : ℕ → ℕ) → sum_below n (λ r. f r + g r) ≡ sum_below n f + sum_below n g
unfolding sum_below
sum_below_add zero f g = omega arith
sum_below_add (suc n) f g = omega (arith, sum_below_add n f g)

pub sum_below_zero : (n : ℕ) (f : ℕ → ℕ) → ((r : ℕ) → r < n → f r ≡ 0) → sum_below n f ≡ 0
unfolding sum_below
sum_below_zero zero f h = refl
sum_below_zero (suc n) f h =
    omega (arith, h n (omega arith), sum_below_zero n f (λ r l. h r (omega arith)))

pub sum_below_single : (n q : ℕ) → q < n → sum_below n (λ r. bit (r == q)) ≡ 1
unfolding sum_below
sum_below_single zero q h = absurd (omega arith)
sum_below_single (suc n) q h = elim (dec_lt q n) [
  | yes l ↦ ground (arith, sum_below_single n q l)
  | no l ↦ ground (arith, sum_below_zero n (λ r. bit (r == q)) (λ r k. ground arith))
]

-- A list of numbers measured by a weight, and the number of times that `a` stands in it.
unfoldable pub sum_of {ℓ} : {A : Type ℓ} → (A → ℕ) → List A → ℕ
sum_of w [] = 0
sum_of w (x ∷ xs) = w x + sum_of w xs

pub sum_of-append {ℓ} :
    {A : Type ℓ} (w : A → ℕ) (xs ys : List A) → sum_of w (xs ++ ys) ≡ sum_of w xs + sum_of w ys
unfolding sum_of
sum_of-append w [] ys = omega arith
sum_of-append w (x ∷ xs) ys = omega (arith, sum_of-append w xs ys)

pub sum_of_congr {ℓ} :
    {A : Type ℓ} (v w : A → ℕ) (xs : List A) → ((a : A) → v a ≡ w a) → sum_of v xs ≡ sum_of w xs
unfolding sum_of
sum_of_congr v w [] h = refl
sum_of_congr v w (x ∷ xs) h = omega (arith, h x, sum_of_congr v w xs h)

abbrev pub count : ℕ → List ℕ → ℕ
count a = sum_of (λ b. bit (a == b))

pub sum_below_le : (n : ℕ) (f : ℕ → ℕ) → ((r : ℕ) → f r ≤ 1) → sum_below n f ≤ n
unfolding sum_below
sum_below_le zero f h = omega arith
sum_below_le (suc n) f h = omega (arith, h n, sum_below_le n f h)
