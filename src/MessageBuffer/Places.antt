-- ===== src/MessageBuffer/Places.antt =====
-- Numbers at fixed places of a message: a write to one place is read there and nowhere else.
use findus.Base.{
  ℕ, zero, suc, ◌+◌, ◌≤◌, ◌<◌, List, [], ◌∷◌, ◌++◌, length, ◌≡◌, ◌⊎◌, inl, inr, refl, sym, ap, ap₂,
  ◌∙◌, arith,
}
use mathlib.Core.Path.{subst}
use findus.Serializer.State.{write, read}
use findus.Serializer.Memory.{write-outside, write-HoldsAt, HoldsAt-read}
use findus.MessageBuffer.Metadata.{MessageBytes}

-- A read that does not meet what was written.
read-write_far :
    (m : MessageBytes) (at : ℕ) (bs : List ℕ) (from n : ℕ)
    → (from + n ≤ at) ⊎ (at + length bs ≤ from)
    → read (write m at bs) from n ≡ read m from n
read-write_far m at bs from zero h = refl
read-write_far m at bs from (suc n) h =
    let here : (from < at) ⊎ (at + length bs ≤ from) = elim h [
      | inl p ↦ inl (omega arith)
      | inr p ↦ inr p
    ] in
    let later : (from + 1 + n ≤ at) ⊎ (at + length bs ≤ from + 1) = elim h [
      | inl p ↦ inl (omega arith)
      | inr p ↦ inr (omega arith)
    ] in
    ap₂ ◌∷◌ (write-outside m at bs from here) (read-write_far m at bs (from + 1) n later)

-- The pieces, each by its place and its size, and their bytes.
abbrev pub Apart : ℕ → ℕ → List (ℕ × ℕ) → Type 0
Apart at n [] = Unit {0}
Apart at n ((from, size) ∷ pieces) = ((from + size ≤ at) ⊎ (at + n ≤ from)) × Apart at n pieces

abbrev pub reads : MessageBytes → List (ℕ × ℕ) → List (List ℕ)
reads m [] = []
reads m ((from, size) ∷ pieces) = read m from size ∷ reads m pieces

reads-write_far :
    (m : MessageBytes) (at : ℕ) (bs : List ℕ) (pieces : List (ℕ × ℕ))
    → Apart at (length bs) pieces
    → reads (write m at bs) pieces ≡ reads m pieces
reads-write_far m at bs [] h = refl
reads-write_far m at bs ((from, size) ∷ pieces) (h, hs) =
    ap₂ ◌∷◌ (read-write_far m at bs from size h) (reads-write_far m at bs pieces hs)

pub reads-write :
    (m : MessageBytes) (at n : ℕ) (bs : List ℕ) (before after : List (ℕ × ℕ))
    → length bs ≡ n
    → Apart at n before
    → Apart at n after
    → reads (write m at bs) (before ++ (at, n) ∷ after) ≡ reads m before ++ bs ∷ reads m after
reads-write m at n bs [] after size h k =
    let whole : read (write m at bs) at n ≡ bs =
      ap (read (write m at bs) at) (sym size)
      ∙ HoldsAt-read (write m at bs) at bs (write-HoldsAt m at bs) in
    ap₂ ◌∷◌ whole (reads-write_far m at bs after (subst (λ (l : ℕ). Apart at l after) (sym size) k))
reads-write m at n bs (p ∷ before) after size (h, hs) k =
    ap₂ ◌∷◌
      (read-write_far m at bs p.0 p.1
        (subst (λ (l : ℕ). (p.0 + p.1 ≤ at) ⊎ (at + l ≤ p.0)) (sym size) h))
      (reads-write m at n bs before after size hs k)
