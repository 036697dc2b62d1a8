-- ===== src/Serializer/Memory.antt =====
-- What a serializer holds after some bytes went through it.
use findus.Base.{
  ℕ, ◌+◌, ◌≤◌, ◌<◌, Bool, true, false, ◌==◌, if◌then◌else◌, List, [], ◌∷◌, ◌++◌, length, ◌≡◌, ◌⊎◌,
  inl, inr, refl, sym, ap, ◌∙◌, arith, length-append,
}
use mathlib.Core.Path.{subst}
use findus.Serializer.State.{
  Action, sizing, packing, unpacking, memory_footprinting, Serializer, add_size, write, read,
}

-- Bytes that go through the serializer in one of the actions.
abbrev pub after_by : Action → Serializer → List ℕ → Serializer
after_by packing s bs = record s {
  number_of_bytes = add_size s.number_of_bytes (length bs);
  memory = write s.memory s.current_pointer bs;
  current_pointer = s.current_pointer + length bs;
}
after_by unpacking s bs = record s {
  number_of_bytes = add_size s.number_of_bytes (length bs);
  current_pointer = s.current_pointer + length bs;
}
after_by memory_footprinting s bs = record s {
  number_of_bytes = add_size (add_size s.number_of_bytes (length bs)) (length bs);
}
after_by other s bs = record s { number_of_bytes = add_size s.number_of_bytes (length bs) }

abbrev pub after : Serializer → List ℕ → Serializer
after s bs = after_by s.action s bs

-- The bytes lie in the memory from an address on.
abbrev pub HoldsAt : (ℕ → ℕ) → ℕ → List ℕ → Type 0
HoldsAt memory at [] = Unit {0}
HoldsAt memory at (b ∷ bs) = (memory at ≡ b) × HoldsAt memory (at + 1) bs

abbrev pub is_writing : Action → Bool
is_writing sizing = true
is_writing packing = true
is_writing memory_footprinting = true
is_writing _ = false

action-after_by : (a : Action) (s : Serializer) (bs : List ℕ) → (after_by a s bs).action ≡ s.action
action-after_by packing s bs = refl
action-after_by unpacking s bs = refl
action-after_by memory_footprinting s bs = refl
action-after_by other s bs = refl

pub action-after : (s : Serializer) (bs : List ℕ) → (after s bs).action ≡ s.action
action-after s bs = action-after_by s.action s bs

pub write-append :
    (memory : ℕ → ℕ) (at : ℕ) (xs ys : List ℕ)
    → write memory at (xs ++ ys) ≡ write (write memory at xs) (at + length xs) ys
write-append memory at [] ys = ap (λ (n : ℕ). write memory n ys) (omega arith)
write-append memory at (x ∷ xs) ys =
    write-append (λ (a : ℕ). if a == at then x else memory a) (at + 1) xs ys
    ∙ ap (λ (n : ℕ). write (write (λ (a : ℕ). if a == at then x else memory a) (at + 1) xs) n ys)
        (omega arith)

-- A write leaves the addresses outside of it alone.
pub write-outside :
    (memory : ℕ → ℕ) (at : ℕ) (xs : List ℕ) (a : ℕ)
    → (a < at) ⊎ (at + length xs ≤ a)
    → write memory at xs a ≡ memory a
write-outside memory at [] a h = refl
write-outside memory at (x ∷ xs) a h =
    write-outside (λ (b : ℕ). if b == at then x else memory b) (at + 1) xs a
      (elim h [ inl p ↦ inl (omega arith) | inr p ↦ inr (omega arith) ])
    ∙ ground (arith, h)

pub write-HoldsAt : (memory : ℕ → ℕ) (at : ℕ) (xs : List ℕ) → HoldsAt (write memory at xs) at xs
write-HoldsAt memory at [] = tt
write-HoldsAt memory at (x ∷ xs) =
    let m = λ (b : ℕ). if b == at then x else memory b in
    (write-outside m (at + 1) xs at (inl (omega arith)) ∙ ground arith, write-HoldsAt m (at + 1) xs)

pub HoldsAt-append :
    (memory : ℕ → ℕ) (at : ℕ) (xs ys : List ℕ)
    → HoldsAt memory at (xs ++ ys)
    → HoldsAt memory at xs × HoldsAt memory (at + length xs) ys
HoldsAt-append memory at [] ys h = (tt, subst (λ (n : ℕ). HoldsAt memory n ys) (omega arith) h)
HoldsAt-append memory at (x ∷ xs) ys (e, h) =
    let (p, q) = HoldsAt-append memory (at + 1) xs ys h in
    ((e, p), subst (λ (n : ℕ). HoldsAt memory n ys) (omega arith) q)

pub HoldsAt-read :
    (memory : ℕ → ℕ) (at : ℕ) (xs : List ℕ) → HoldsAt memory at xs → read memory at (length xs) ≡ xs
HoldsAt-read memory at [] h = refl
HoldsAt-read memory at (x ∷ xs) (e, h) = ground (arith, e, HoldsAt-read memory (at + 1) xs h)

after_by-append :
    (a : Action) (s : Serializer) (xs ys : List ℕ)
    → after_by a s (xs ++ ys) ≡ after_by a (after_by a s xs) ys
after_by-append packing s xs ys =
    ground (arith, length-append xs ys, write-append s.memory s.current_pointer xs ys)
after_by-append unpacking s xs ys = ground (arith, length-append xs ys)
after_by-append memory_footprinting s xs ys = ground (arith, length-append xs ys)
after_by-append other s xs ys = ground (arith, length-append xs ys)

pub after-append : (s : Serializer) (xs ys : List ℕ) → after s (xs ++ ys) ≡ after (after s xs) ys
after-append s xs ys =
    after_by-append s.action s xs ys
    ∙ ap (λ (a : Action). after_by a (after s xs) ys) (sym (action-after s xs))
