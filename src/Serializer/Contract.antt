-- ===== src/Serializer/Contract.antt =====
-- What an `operator|` promises: every object has its bytes, which are counted, written and read back.
use findus.Base.{ℕ, ◌^◌, ◌≤◌, ◌<◌, true, List, ◌++◌, length, ◌≡◌, inr, refl, sym, arith}
use mathlib.Core.Path.{subst}
use findus.Base.Result.{ok}
use findus.Serializer.State.{
  Action, unpacking, Serializer, for_sizing, for_packing, for_unpacking, Pipe,
}
use findus.Serializer.Memory.{
  after, after_by, HoldsAt, is_writing, write-outside, write-HoldsAt, HoldsAt-append,
}

abbrev pub Holds : Serializer → List ℕ → Type 0
Holds s bs = HoldsAt s.memory s.current_pointer bs

-- The count of bytes is a `size_t`.
abbrev pub Writing : Serializer → Type 0
Writing s = (is_writing s.action ≡ true) × (s.number_of_bytes < 2 ^ 64)

abbrev pub Reading : Serializer → Type 0
Reading s = (s.action ≡ unpacking) × (s.number_of_bytes < 2 ^ 64)

-- Sizing, packing and footprinting leave an object with its value and pass its bytes through the
-- serializer; unpacking from memory with these bytes makes a new object with the value and passes
-- over them.
pub record Refines {T V : Type 0} (pipe : Pipe T) (blank : T) (value : T → V) (encode : T → List ℕ)
    (IsSmall : T → Type 0) : Type 0 where
  pub writes :
      (s : Serializer) (t : T) → IsSmall t → Writing s → pipe s t ≡ ok (t, after s (encode t))
  pub reads :
      (s : Serializer) (t : T)
      → IsSmall t
      → Reading s
      → Holds s (encode t)
      → (t' : T) × (pipe s blank ≡ ok (t', after s (encode t))) × (value t' ≡ value t)

-- Two reads or writes after one another.
pub Holds-append :
    (s : Serializer) (xs ys : List ℕ)
    → Reading s
    → Holds s (xs ++ ys)
    → Holds s xs × Holds (after s xs) ys
Holds-append s xs ys (e, _) h =
    let (p, q) = HoldsAt-append s.memory s.current_pointer xs ys h in
    (p, subst (λ (a : Action). Holds (after_by a s xs) ys) (sym e) q)

-- For an operator that keeps the contract `Refines`, and a small object whose bytes are less
-- than 2 ^ 64: packing it into a buffer fills as many bytes from the start as sizing counted and
-- changes none of the others, and unpacking a new object from the packed buffer gives it the
-- value of the first and reads exactly the packed bytes.
pub round_trip :
    {T V : Type 0} {pipe : Pipe T} {blank : T} {value : T → V} {encode : T → List ℕ}
    {IsSmall : T → Type 0}
    → Refines pipe blank value encode IsSmall
    → (t : T) (buffer : ℕ → ℕ) (extra_info a : ℕ) → IsSmall t
    → length (encode t) < 2 ^ 64
    → length (encode t) ≤ a
    → (sized : Serializer) × (packed : Serializer) × (unpacked : Serializer) × (t' : T) × (pipe
          (for_sizing extra_info)
          t
        ≡ ok (t, sized))
      × (pipe (for_packing buffer sized.number_of_bytes extra_info) t ≡ ok (t, packed))
      × (packed.current_pointer ≡ packed.end_pointer)
      × (packed.end_pointer ≡ length (encode t))
      × (packed.memory a ≡ buffer a)
      × (pipe (for_unpacking packed.memory sized.number_of_bytes extra_info) blank
          ≡ ok (t', unpacked))
      × (unpacked.current_pointer ≡ unpacked.end_pointer)
      × (value t' ≡ value t)
round_trip {encode} r t buffer extra_info a small short far =
    let n = length (encode t) in
    let s1 = after (for_sizing extra_info) (encode t) in
    let size : s1.number_of_bytes ≡ n = omega arith in
    let k = s1.number_of_bytes in
    let s2 = after (for_packing buffer k extra_info) (encode t) in
    let (t', e, same) =
      r.reads (for_unpacking s2.memory k extra_info) t small (refl, omega arith)
        (write-HoldsAt buffer 0 (encode t)) in
    (
      s1,
      s2,
      after (for_unpacking s2.memory k extra_info) (encode t),
      t',
      r.writes (for_sizing extra_info) t small (refl, omega arith),
      r.writes (for_packing buffer k extra_info) t small (refl, omega arith),
      omega (arith, size),
      omega (arith, size),
      write-outside buffer 0 (encode t) a (inr (omega (arith, size))),
      e,
      omega (arith, size),
      same,
    )
