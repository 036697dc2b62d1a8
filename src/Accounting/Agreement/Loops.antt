-- ===== src/Accounting/Agreement/Loops.antt =====
-- The loops over names, elements and collections.
use findus.Base.{
  ℕ, ◌^◌, ◌<◌, true, ◌==◌, List, [], ◌∷◌, ◌++◌, length, All, ◌≡◌, inl, refl, ap, ap₂, ◌∙◌, arith,
}
use mathlib.Core.List.{append_assoc}
use findus.Base.Int.{ℤ, pos, negsuc}
use findus.Base.Result.{◌>>=◌}
use findus.Serializer.State.{int_of_size}
use findus.Accounting.{
  regular_name_differs, element_id_differs, process_id_differs, to_bytes, word_of_int, name_bytes,
  element_bytes, Pointers, compare_values, same_int, compare_regular, compare_elements,
}
use findus.Accounting.Reading.{
  IsVerdict, IsVerdict-bind, IsVerdict-of, compare_values_lem, compare_names_lem,
}

-- Lengths fit 32 bits.
abbrev pub IsShort : List ℕ → Type 0
IsShort name = length name < 2 ^ 32

abbrev pub names_bytes : List (List ℕ) → List ℕ
names_bytes [] = []
names_bytes (name ∷ names) = name_bytes name ++ names_bytes names

pub cons_injective : {A : Type 0} {x y : A} {xs ys : List A} → x ∷ xs ≡ y ∷ ys → (x ≡ y) × (xs ≡ ys)
cons_injective h = ground (arith, h)

pub cons_cong : {A : Type 0} {x y : A} {xs ys : List A} → (x ≡ y) × (xs ≡ ys) → x ∷ xs ≡ y ∷ ys
cons_cong h = ap₂ ◌∷◌ h.0 h.1

pub compare_regular_lem :
    (xs ys : List (List ℕ)) (rest_a rest_b : List ℕ)
    → length xs ≡ length ys
    → All IsShort xs
    → All IsShort ys
    → IsVerdict
        (xs ≡ ys)
        (rest_a, rest_b)
        (compare_regular (length xs) (names_bytes xs ++ rest_a, names_bytes ys ++ rest_b))
unfolding compare_regular
compare_regular_lem [] [] rest_a rest_b l h k = inl (refl, refl)
compare_regular_lem [] (b ∷ ys) rest_a rest_b l h k = absurd (omega arith)
compare_regular_lem (a ∷ xs) [] rest_a rest_b l h k = absurd (omega arith)
compare_regular_lem (a ∷ xs) (b ∷ ys) rest_a rest_b l h k =
    rw
      (
        append_assoc (name_bytes a) (names_bytes xs) rest_a,
        append_assoc (name_bytes b) (names_bytes ys) rest_b,
      )
      (IsVerdict-of cons_cong cons_injective (
        IsVerdict-bind (compare_regular (length xs))
          (compare_names_lem regular_name_differs a b (names_bytes xs ++ rest_a)
            (names_bytes ys ++ rest_b) (λ e. ground (arith, e)) h.0 k.0)
          (λ same. compare_regular_lem xs ys rest_a rest_b (omega arith) h.1 k.1)))

-- An index of 64 bits and a process that is an `int`.
abbrev pub IsElement : ℕ × ℤ → Type 0
IsElement (index, pos p) = (index < 2 ^ 64) × (p < 2 ^ 31)
IsElement (index, negsuc p) = (index < 2 ^ 64) × (p < 2 ^ 31)

index_bound : (e : ℕ × ℤ) → IsElement e → e.0 < 256 ^ 8
index_bound (i, pos p) h = omega arith
index_bound (i, negsuc p) h = omega arith

word_bound : (z : ℤ) → word_of_int z < 256 ^ 4
word_bound (pos n) = omega arith
word_bound (negsuc n) = omega arith

int-word : (e : ℕ × ℤ) → IsElement e → int_of_size (word_of_int e.1) ≡ e.1
unfolding int_of_size
int-word (i, pos p) h = ground arith
int-word (i, negsuc p) h = ground arith

element_of :
    (a b : ℕ × ℤ)
    → IsElement a
    → IsElement b
    → ((a.0 == b.0) ≡ true) × (same_int (word_of_int a.1) (word_of_int b.1) ≡ true)
    → a ≡ b
unfolding same_int
element_of a b h k e = ground (arith, int-word a h, int-word b k, e)

of_element :
    (a b : ℕ × ℤ)
    → a ≡ b
    → ((a.0 == b.0) ≡ true) × (same_int (word_of_int a.1) (word_of_int b.1) ≡ true)
unfolding same_int
of_element a b e = ground (arith, e)

element_append :
    (i : ℕ) (p : ℤ) (more rest : List ℕ)
    → (to_bytes 8 i ++ to_bytes 4 (word_of_int p) ++ more) ++ rest
      ≡ to_bytes 8 i ++ to_bytes 4 (word_of_int p) ++ more ++ rest
element_append i p more rest =
    append_assoc (to_bytes 8 i) (to_bytes 4 (word_of_int p) ++ more) rest
    ∙ ap (λ (t : List ℕ). to_bytes 8 i ++ t) (append_assoc (to_bytes 4 (word_of_int p)) more rest)

pub compare_elements_lem :
    (xs ys : List (ℕ × ℤ)) (rest_a rest_b : List ℕ)
    → length xs ≡ length ys
    → All IsElement xs
    → All IsElement ys
    → IsVerdict
        (xs ≡ ys)
        (rest_a, rest_b)
        (compare_elements (length xs) (element_bytes xs ++ rest_a, element_bytes ys ++ rest_b))
unfolding compare_elements element_bytes
compare_elements_lem [] [] rest_a rest_b l h k = inl (refl, refl)
compare_elements_lem [] (b ∷ ys) rest_a rest_b l h k = absurd (omega arith)
compare_elements_lem (a ∷ xs) [] rest_a rest_b l h k = absurd (omega arith)
compare_elements_lem ((i, p) ∷ xs) ((j, q) ∷ ys) rest_a rest_b l h k =
    rw (element_append i p (element_bytes xs) rest_a, element_append j q (element_bytes ys) rest_b)
      (IsVerdict-of (λ e. cons_cong (element_of (i, p) (j, q) h.0 k.0 (e.0, e.1.0), e.1.1))
        (λ e.
          let same = of_element (i, p) (j, q) (cons_injective e).0 in
          (same.0, (same.1, (cons_injective e).1)))
        (IsVerdict-bind
          (λ (id : ℕ × Pointers).
            compare_values process_id_differs 4 same_int id.1 >>= λ (process : ℕ × Pointers).
            compare_elements (length xs) process.1)
          (compare_values_lem element_id_differs 8 (λ a b. a == b) i j
            (to_bytes 4 (word_of_int p) ++ element_bytes xs ++ rest_a)
            (to_bytes 4 (word_of_int q) ++ element_bytes ys ++ rest_b) (λ e. ground (arith, e))
            (index_bound (i, p) h.0) (index_bound (j, q) k.0))
          (λ same.
            IsVerdict-bind (λ (process : ℕ × Pointers). compare_elements (length xs) process.1)
              (compare_values_lem process_id_differs 4 same_int (word_of_int p) (word_of_int q)
                (element_bytes xs ++ rest_a) (element_bytes ys ++ rest_b) (λ e. ground (arith, e))
                (word_bound p) (word_bound q))
              (λ same'. compare_elements_lem xs ys rest_a rest_b (omega arith) h.1 k.1))))
