-- ===== src/MessageHeader/Pointers.antt =====
-- MemberFunctionPtr.hpp: two words added and subtracted as one 128-bit number.
use findus.Base.{ℕ, ◌+◌, ◌-◌, ◌*◌, ◌%◌, ◌^◌, ◌<◌, ◌≡◌, arith}
use findus.MessageHeader.{MemberFunctionPtr, ptr_add, ptr_sub}

abbrev pub value128 : MemberFunctionPtr → ℕ
value128 p = p.upper * 2 ^ 64 + p.lower

pub record IsWords (p : MemberFunctionPtr) : Type 0 where
  pub lower_lt : p.lower < 2 ^ 64
  pub upper_lt : p.upper < 2 ^ 64

-- Addition and subtraction on pointers of two 64-bit words are those of the 128-bit numbers,
-- modulo 2 ^ 128, and the results are again two words.
pub ptr_arithmetic :
    (a b : MemberFunctionPtr)
    → IsWords a
    → IsWords b
    → (value128 (ptr_add a b) ≡ (value128 a + value128 b) % 2 ^ 128)
      × (value128 (ptr_sub a b) ≡ (value128 a + 2 ^ 128 - value128 b) % 2 ^ 128)
      × IsWords (ptr_add a b)
      × IsWords (ptr_sub a b)
unfolding ptr_add ptr_sub
ptr_arithmetic a b p q = (ground arith, ground arith, ground arith, ground arith)
