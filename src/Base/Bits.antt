-- ===== src/Base/Bits.antt =====
-- The bitwise operations on words, at fields of bits: masks become remainders and quotients.
use Prim.Native.Nat.{
  ℕ, zero, suc, ◌+◌, ◌-◌, ◌*◌, ◌/◌, ◌%◌, ◌^◌, ◌≤◌, ◌<◌, min, max, bit_and, bit_or, digits,
  bit_and-bitwise, bit_or-bitwise,
}
use mathlib.Core.Path.{◌≡◌, refl, ap, ap₂, ◌∙◌, sym}
use native.Mathlib.Omega.{arith}
use native.Mathlib.Nat.{pow-suc, div-add-mod}

-- Fuel beyond the first word makes no difference to either operation.
digits_fuel :
    (rest : ℕ → ℕ) (op : ℕ → ℕ → ℕ) (n m x y : ℕ)
    → x ≤ n
    → x ≤ m
    → digits rest op n x y ≡ digits rest op m x y
digits_fuel rest op zero zero x y p q = refl
digits_fuel rest op zero (suc m) zero y p q = refl
digits_fuel rest op (suc n) zero zero y p q = refl
digits_fuel rest op (suc n) (suc m) zero y p q = refl
digits_fuel rest op zero (suc m) (suc x) y p q = absurd (omega arith)
digits_fuel rest op (suc n) zero (suc x) y p q = absurd (omega arith)
digits_fuel rest op (suc n) (suc m) (suc x) y p q =
    let half : suc x / 2 ≤ n = omega arith in
    let half' : suc x / 2 ≤ m = omega arith in
    omega (arith, digits_fuel rest op n m (suc x / 2) (y / 2) half half')

pub zero-bit_and : (y : ℕ) → bit_and 0 y ≡ 0
zero-bit_and = bit_and-bitwise 0

pub zero-bit_or : (y : ℕ) → bit_or 0 y ≡ y
zero-bit_or = bit_or-bitwise 0

module _ (y : ℕ) where
  -- The last digit apart from the others.
  bit_and_step : (x : ℕ) → bit_and x y ≡ min (x % 2) (y % 2) + 2 * bit_and (x / 2) (y / 2)
  bit_and_step zero = omega (arith, zero-bit_and y, zero-bit_and (y / 2))
  bit_and_step (suc x) =
      let fuel = digits_fuel (λ b. zero) min x (suc x / 2) (suc x / 2) (y / 2) in
      omega (
        arith,
        fuel (omega arith) (omega arith),
        bit_and-bitwise (suc x / 2) (y / 2),
        bit_and-bitwise (suc x) y,
      )

  bit_or_step : (x : ℕ) → bit_or x y ≡ max (x % 2) (y % 2) + 2 * bit_or (x / 2) (y / 2)
  bit_or_step zero = omega (arith, zero-bit_or y, zero-bit_or (y / 2))
  bit_or_step (suc x) =
      let fuel = digits_fuel (λ b. b) max x (suc x / 2) (suc x / 2) (y / 2) in
      omega (
        arith,
        fuel (omega arith) (omega arith),
        bit_or-bitwise (suc x / 2) (y / 2),
        bit_or-bitwise (suc x) y,
      )

pub two_pow_suc : (k : ℕ) → 2 ^ suc k ≡ 2 * 2 ^ k
two_pow_suc k = omega (arith, pow-suc 2 k)

pub two_pow_pos : (k : ℕ) → 0 < 2 ^ k
two_pow_pos zero = omega arith
two_pow_pos (suc k) = omega (arith, two_pow_suc k, two_pow_pos k)

halve : (k a c : ℕ) → (a * 2 ^ suc k + c) / 2 ≡ a * 2 ^ k + c / 2
halve k a c = omega (arith, ap (λ (t : ℕ). a * t) (two_pow_suc k))

halve_rest : (k a c : ℕ) → (a * 2 ^ suc k + c) % 2 ≡ c % 2
halve_rest k a c = omega (arith, ap (λ (t : ℕ). a * t) (two_pow_suc k))

-- A word cut at bit `k`: the two parts do not meet.
pub bit_and_split :
    (k a b c d : ℕ)
    → c < 2 ^ k
    → d < 2 ^ k
    → bit_and (a * 2 ^ k + c) (b * 2 ^ k + d) ≡ bit_and a b * 2 ^ k + bit_and c d
bit_and_split zero a b c d h k =
    let c0 : c ≡ 0 = omega arith in
    let d0 : d ≡ 0 = omega arith in
    let x : a * 1 + c ≡ a = omega arith in
    let y : b * 1 + d ≡ b = omega arith in
    omega (arith, ap₂ bit_and x y, ap₂ bit_and c0 d0, zero-bit_and 0)
bit_and_split (suc j) a b c d h k =
    let ih =
      bit_and_split j a b (c / 2) (d / 2) (omega (arith, two_pow_suc j))
        (omega (arith, two_pow_suc j)) in
    omega (
      arith,
      bit_and_step (b * 2 ^ suc j + d) (a * 2 ^ suc j + c),
      ap₂ bit_and (halve j a c) (halve j b d),
      ap₂ min (halve_rest j a c) (halve_rest j b d),
      ih,
      bit_and_step d c,
      ap (λ (t : ℕ). bit_and a b * t) (two_pow_suc j),
    )

pub bit_or_split :
    (k a b c d : ℕ)
    → c < 2 ^ k
    → d < 2 ^ k
    → bit_or (a * 2 ^ k + c) (b * 2 ^ k + d) ≡ bit_or a b * 2 ^ k + bit_or c d
bit_or_split zero a b c d h k =
    let c0 : c ≡ 0 = omega arith in
    let d0 : d ≡ 0 = omega arith in
    let x : a * 1 + c ≡ a = omega arith in
    let y : b * 1 + d ≡ b = omega arith in
    omega (arith, ap₂ bit_or x y, ap₂ bit_or c0 d0, zero-bit_or 0)
bit_or_split (suc j) a b c d h k =
    let ih =
      bit_or_split j a b (c / 2) (d / 2) (omega (arith, two_pow_suc j))
        (omega (arith, two_pow_suc j)) in
    omega (
      arith,
      bit_or_step (b * 2 ^ suc j + d) (a * 2 ^ suc j + c),
      ap₂ bit_or (halve j a c) (halve j b d),
      ap₂ max (halve_rest j a c) (halve_rest j b d),
      ih,
      bit_or_step d c,
      ap (λ (t : ℕ). bit_or a b * t) (two_pow_suc j),
    )

bit_and-zero_within : (n a : ℕ) → a ≤ n → bit_and a 0 ≡ 0
bit_and-zero_within n zero h = zero-bit_and 0
bit_and-zero_within zero (suc a) h = absurd (omega arith)
bit_and-zero_within (suc n) (suc a) h =
    omega (arith, bit_and_step 0 (suc a), bit_and-zero_within n (suc a / 2) (omega arith))

pub bit_and-zero : (a : ℕ) → bit_and a 0 ≡ 0
bit_and-zero a = bit_and-zero_within a a (omega arith)

bit_or-zero_within : (n a : ℕ) → a ≤ n → bit_or a 0 ≡ a
bit_or-zero_within n zero h = zero-bit_or 0
bit_or-zero_within zero (suc a) h = absurd (omega arith)
bit_or-zero_within (suc n) (suc a) h =
    omega (arith, bit_or_step 0 (suc a), bit_or-zero_within n (suc a / 2) (omega arith))

pub bit_or-zero : (a : ℕ) → bit_or a 0 ≡ a
bit_or-zero a = bit_or-zero_within a a (omega arith)

-- A mask of `k` ones keeps a word of `k` bits.
pub ones-bit_and : (k x : ℕ) → x < 2 ^ k → bit_and (2 ^ k - 1) x ≡ x
ones-bit_and zero x h = omega (arith, zero-bit_and x)
ones-bit_and (suc j) x h =
    let half : (2 ^ suc j - 1) / 2 ≡ 2 ^ j - 1 = omega (arith, two_pow_suc j, two_pow_pos j) in
    omega (
      arith,
      bit_and_step x (2 ^ suc j - 1),
      ap (λ (t : ℕ). bit_and t (x / 2)) half,
      ones-bit_and j (x / 2) (omega (arith, two_pow_suc j)),
      two_pow_suc j,
      two_pow_pos j,
    )

-- The masks of a word in three fields `x * 2 ^ (k + j) + y * 2 ^ k + z`.
pub mask_low : (k a z : ℕ) → z < 2 ^ k → bit_and (2 ^ k - 1) (a * 2 ^ k + z) ≡ z
mask_low k a z h =
    let front : 0 * 2 ^ k + (2 ^ k - 1) ≡ 2 ^ k - 1 = omega arith in
    omega (
      arith,
      ap (λ (t : ℕ). bit_and t (a * 2 ^ k + z)) front,
      bit_and_split k 0 a (2 ^ k - 1) z (omega (arith, two_pow_pos k)) h,
      ap (λ (t : ℕ). t * 2 ^ k) (zero-bit_and a),
      ones-bit_and k z h,
    )

pub mask_field :
    (k m y z : ℕ) → z < 2 ^ k → bit_and (m * 2 ^ k) (y * 2 ^ k + z) ≡ bit_and m y * 2 ^ k
mask_field k m y z h =
    let front : m * 2 ^ k + 0 ≡ m * 2 ^ k = omega arith in
    omega (
      arith,
      ap (λ (t : ℕ). bit_and t (y * 2 ^ k + z)) front,
      bit_and_split k m y 0 z (two_pow_pos k) h,
      zero-bit_and z,
    )

pub or_field :
    (k m y z : ℕ) → z < 2 ^ k → bit_or (m * 2 ^ k) (y * 2 ^ k + z) ≡ bit_or m y * 2 ^ k + z
or_field k m y z h =
    let front : m * 2 ^ k + 0 ≡ m * 2 ^ k = omega arith in
    omega (
      arith,
      ap (λ (t : ℕ). bit_or t (y * 2 ^ k + z)) front,
      bit_or_split k m y 0 z (two_pow_pos k) h,
      zero-bit_or z,
    )

pub or_low : (k a z : ℕ) → z < 2 ^ k → bit_or (a * 2 ^ k) z ≡ a * 2 ^ k + z
or_low k a z h =
    let front : 0 * 2 ^ k + z ≡ z = omega arith in
    omega (
      arith,
      ap (bit_or (a * 2 ^ k)) front,
      or_field k a 0 z h,
      ap (λ (t : ℕ). t * 2 ^ k) (bit_or-zero a),
    )

-- A word as `(a * 2 ^ j + v) * 2 ^ k + z`: reading the field `v`, clearing it, and writing it.
pub read_field :
    (j k a v z : ℕ)
    → v < 2 ^ j
    → z < 2 ^ k
    → bit_and ((2 ^ j - 1) * 2 ^ k) ((a * 2 ^ j + v) * 2 ^ k + z) ≡ v * 2 ^ k
read_field j k a v z h g =
    mask_field k (2 ^ j - 1) (a * 2 ^ j + v) z g ∙ ap (λ (t : ℕ). t * 2 ^ k) (mask_low j a v h)

pub clear_field :
    (i j k a v z : ℕ)
    → a < 2 ^ i
    → v < 2 ^ j
    → z < 2 ^ k
    → bit_and ((2 ^ i - 1) * 2 ^ j * 2 ^ k + (2 ^ k - 1)) ((a * 2 ^ j + v) * 2 ^ k + z)
      ≡ a * 2 ^ j * 2 ^ k + z
clear_field i j k a v z f h g =
    let above : bit_and ((2 ^ i - 1) * 2 ^ j) (a * 2 ^ j + v) ≡ a * 2 ^ j =
      mask_field j (2 ^ i - 1) a v h ∙ ap (λ (t : ℕ). t * 2 ^ j) (ones-bit_and i a f) in
    bit_and_split k ((2 ^ i - 1) * 2 ^ j) (a * 2 ^ j + v) (2 ^ k - 1) z
      (omega (arith, two_pow_pos k)) g
    ∙ ap₂ ◌+◌ (ap (λ (t : ℕ). t * 2 ^ k) above) (ones-bit_and k z g)

pub write_field :
    (j k a v z : ℕ)
    → v < 2 ^ j
    → z < 2 ^ k
    → bit_or (v * 2 ^ k) (a * 2 ^ j * 2 ^ k + z) ≡ (a * 2 ^ j + v) * 2 ^ k + z
write_field j k a v z h g =
    let low : 0 * 2 ^ j + v ≡ v = omega arith in
    let high : a * 2 ^ j + 0 ≡ a * 2 ^ j = omega arith in
    let joined : bit_or v (a * 2 ^ j) ≡ a * 2 ^ j + v = omega (
      arith,
      ap₂ bit_or low high,
      bit_or_split j 0 a v 0 h (two_pow_pos j),
      ap (λ (t : ℕ). t * 2 ^ j) (zero-bit_or a),
      bit_or-zero v,
    ) in
    or_field k v (a * 2 ^ j) z g ∙ ap (λ (t : ℕ). t * 2 ^ k + z) joined

bit_and_comm_within : (n a b : ℕ) → a ≤ n → bit_and a b ≡ bit_and b a
bit_and_comm_within n zero b h = omega (arith, zero-bit_and b, bit_and-zero b)
bit_and_comm_within zero (suc a) b h = absurd (omega arith)
bit_and_comm_within (suc n) (suc a) b h = omega (
  arith,
  bit_and_step (suc a) b,
  bit_and_step b (suc a),
  bit_and_comm_within n (suc a / 2) (b / 2) (omega arith),
)

pub bit_and_comm : (a b : ℕ) → bit_and a b ≡ bit_and b a
bit_and_comm a b = bit_and_comm_within a a b (omega arith)

-- `x bitand (size - 1)` for a size that is a power of two.
pub bit_and-size : (k x : ℕ) → bit_and x (2 ^ k - 1) ≡ x % 2 ^ k
bit_and-size k x =
    let pos = two_pow_pos k in
    let rest : x % 2 ^ k < 2 ^ k = omega (arith, pos) in
    let cut : x / 2 ^ k * 2 ^ k + x % 2 ^ k ≡ x = grind (arith, div-add-mod) in
    bit_and_comm x (2 ^ k - 1)
    ∙ ap (bit_and (2 ^ k - 1)) (sym cut)
    ∙ mask_low k (x / 2 ^ k) (x % 2 ^ k) rest
