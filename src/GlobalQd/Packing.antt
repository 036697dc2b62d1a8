-- ===== src/GlobalQd/Packing.antt =====
-- The messages of the global quiescence detection, and the process that they travel between.
use findus.Base.{ℕ, ◌+◌, ◌*◌, ◌^◌, ◌<◌, Bool, true, false, ◌==◌, ltb, not, ◌≡◌, refl, arith, ap₂}
use Prim.Native.Nat.{bit_and, bit_or}
use findus.Base.Bits.{bit_or_split, bit_and_split, bit_or-zero, bit_and-zero}
use findus.Base.Int.{ℤ, pos}
use findus.Base.Result.{ok}
use findus.ProcessTree.{links}
use findus.ProcessTree.Links.{parent_and_children_ok}
use findus.GlobalQd.{
  direction_bit, create_message, is_up_message, is_down_message, sweep_number, Global,
  create_global, is_leaf, is_root,
}

with_direction : (s : ℕ) → s < 2 ^ 63 → bit_or s direction_bit ≡ 2 ^ 63 + s
with_direction s h =
    let low : 0 * 2 ^ 63 + s ≡ s = omega arith in
    let high : 1 * 2 ^ 63 + 0 ≡ direction_bit = refl in
    omega (arith, ap₂ bit_or low high, bit_or_split 63 0 1 s 0 h (omega arith), bit_or-zero s)

direction_of_up : (s : ℕ) → s < 2 ^ 63 → bit_and (2 ^ 63 + s) direction_bit ≡ 2 ^ 63
direction_of_up s h =
    let whole : 1 * 2 ^ 63 + s ≡ 2 ^ 63 + s = omega arith in
    let high : 1 * 2 ^ 63 + 0 ≡ direction_bit = refl in
    omega (arith, ap₂ bit_and whole high, bit_and_split 63 1 1 s 0 h (omega arith), bit_and-zero s)

direction_of_down : (s : ℕ) → s < 2 ^ 63 → bit_and s direction_bit ≡ 0
direction_of_down s h =
    let low : 0 * 2 ^ 63 + s ≡ s = omega arith in
    let high : 1 * 2 ^ 63 + 0 ≡ direction_bit = refl in
    omega (arith, ap₂ bit_and low high, bit_and_split 63 0 1 s 0 h (omega arith), bit_and-zero s)

-- A message that was made with a sweep number below 2 ^ 63 tells the direction, the sweep number
-- and the count that it was made with.
pub create_message_lem :
    (up : Bool) (s : ℕ) (c : ℤ)
    → s < 2 ^ 63
    → let m = create_message up s c in
      (is_up_message m ≡ up) × (is_down_message m ≡ not up) × (sweep_number m ≡ s) × (m.count ≡ c)
unfolding create_message is_up_message is_down_message sweep_number
create_message_lem true s c h = (
  ground (arith, with_direction s h, direction_of_up s h),
  ground (arith, with_direction s h, direction_of_up s h),
  ground (arith, with_direction s h),
  refl,
)
create_message_lem false s c h = (
  ground (arith, direction_of_down s h),
  ground (arith, direction_of_down s h),
  ground arith,
  refl,
)

-- A process of the tree gets the state whose root is process 0 and whose leaves are the processes
-- without a left child.
pub create_global_lem :
    (p n max_qds : ℕ)
    → p < n
    → (g : Global) × (create_global (pos p) (pos n) max_qds ≡ ok g)
      × (is_root g ≡ (p == 0))
      × (is_leaf g ≡ not (ltb (2 * p + 1) n))
unfolding create_global is_root is_leaf links
create_global_lem p n max_qds h =
    rw (parent_and_children_ok p n h) (_, refl, ground arith, ground arith)
