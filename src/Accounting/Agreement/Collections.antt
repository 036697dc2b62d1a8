-- ===== src/Accounting/Agreement/Collections.antt =====
-- The loop over the collections.
use findus.Base.{
  ℕ, ◌^◌, ◌<◌, true, ◌==◌, List, [], ◌∷◌, ◌++◌, length, All, ◌≡◌, inl, refl, ap, ap₂, arith,
}
use mathlib.Core.List.{append_assoc}
use findus.Base.Int.{ℤ}
use findus.Base.Result.{◌>>=◌}
use findus.Accounting.{
  collection_name_differs, number_of_elements_differs, to_bytes, name_bytes, element_bytes,
  Pointers, compare_values, compare_elements, rounds, compare_collections,
}
use findus.Accounting.Reading.{
  IsVerdict, IsVerdict-bind, IsVerdict-of, compare_values_lem, compare_names_lem,
}
use findus.Accounting.Agreement.Loops.{
  IsShort, IsElement, cons_injective, cons_cong, compare_elements_lem,
}

-- A name, and the elements of a collection.
abbrev pub Named : Type 0
Named = List ℕ × List (ℕ × ℤ)

abbrev pub named_bytes : Named → List ℕ
named_bytes (name, elements) =
    name_bytes name ++ to_bytes 8 (length elements) ++ element_bytes elements

abbrev pub collections_bytes : List Named → List ℕ
collections_bytes [] = []
collections_bytes (c ∷ cs) = named_bytes c ++ collections_bytes cs

abbrev pub IsNamed : Named → Type 0
IsNamed (name, elements) = IsShort name × (length elements < 2 ^ 32) × All IsElement elements

named_append :
    (c : Named) (more rest : List ℕ)
    → (named_bytes c ++ more) ++ rest
      ≡ name_bytes c.0 ++ (to_bytes 8 (length c.1) ++ (element_bytes c.1 ++ (more ++ rest)))
named_append c more rest = simp append_assoc

pub same_number : (m n : ℕ) → (m == n) ≡ true → m ≡ n
same_number m n h = ground arith

pub number_same : (m n : ℕ) → m ≡ n → (m == n) ≡ true
number_same m n h = ground arith

rounds_all : (n : ℕ) (ptr : List ℕ) → n < 2 ^ 32 → rounds n ptr ≡ n
rounds_all n ptr h = ground arith

pub compare_collections_lem :
    (xs ys : List Named) (rest_a rest_b : List ℕ)
    → length xs ≡ length ys
    → All IsNamed xs
    → All IsNamed ys
    → IsVerdict
        (xs ≡ ys)
        (rest_a, rest_b)
        (compare_collections
          (length xs)
          (collections_bytes xs ++ rest_a, collections_bytes ys ++ rest_b))
unfolding compare_collections
compare_collections_lem [] [] rest_a rest_b l h k = inl (refl, refl)
compare_collections_lem [] (b ∷ ys) rest_a rest_b l h k = absurd (omega arith)
compare_collections_lem (a ∷ xs) [] rest_a rest_b l h k = absurd (omega arith)
compare_collections_lem ((m, es) ∷ xs) ((n, fs) ∷ ys) rest_a rest_b l h k =
    let after_a = collections_bytes xs ++ rest_a in
    let after_b = collections_bytes ys ++ rest_b in
    rw
      (
        named_append (m, es) (collections_bytes xs) rest_a,
        named_append (n, fs) (collections_bytes ys) rest_b,
      )
      (IsVerdict-of
        (λ (e : (m ≡ n) × (((length es == length fs) ≡ true) × ((es ≡ fs) × (xs ≡ ys)))).
          cons_cong (ap₂ (λ (x : List ℕ) (y : List (ℕ × ℤ)). (x, y)) e.0 e.1.1.0, e.1.1.1))
        (λ e.
          let (c, cs) = cons_injective e in
          (
            ap (λ (x : Named). x.0) c,
            (number_same _ _ (ap (λ (x : Named). length x.1) c), (ap (λ (x : Named). x.1) c, cs)),
          ))
        (IsVerdict-bind
          (λ (named : Pointers).
            compare_values number_of_elements_differs 8 (λ a b. a == b) named
            >>= λ (counted : ℕ × Pointers).
                compare_elements (rounds counted.0 counted.1.0) counted.1
                >>= compare_collections (length xs))
          (compare_names_lem collection_name_differs m n
            (to_bytes 8 (length es) ++ element_bytes es ++ after_a)
            (to_bytes 8 (length fs) ++ element_bytes fs ++ after_b) (λ e. ground (arith, e)) h.0.0
            k.0.0)
          (λ same.
            IsVerdict-bind
              (λ (counted : ℕ × Pointers).
                compare_elements (rounds counted.0 counted.1.0) counted.1
                >>= compare_collections (length xs))
              (compare_values_lem number_of_elements_differs 8 (λ a b. a == b) (length es)
                (length fs) (element_bytes es ++ after_a) (element_bytes fs ++ after_b)
                (λ e. ground (arith, e)) (omega (arith, h.0.1)) (omega (arith, k.0.1)))
              (λ counts. rw (rounds_all (length es) (element_bytes es ++ after_a) h.0.1) (
                IsVerdict-bind (compare_collections (length xs))
                  (compare_elements_lem es fs after_a after_b
                    (same_number (length es) (length fs) counts) h.0.2 k.0.2)
                  (λ same'. compare_collections_lem xs ys rest_a rest_b (omega arith) h.1 k.1))))))
