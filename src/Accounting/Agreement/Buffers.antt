-- ===== src/Accounting/Agreement/Buffers.antt =====
-- The buffers as a whole.
use findus.Base.{ℕ, ◌^◌, ◌<◌, true, ◌==◌, List, [], ◌++◌, length, All, ◌≡◌, ap, arith}
use mathlib.Core.List.{append_assoc, append-nil}
use findus.Base.Result.{◌>>=◌}
use findus.Components.{DistributedOjectClassHolder}
use findus.Accounting.{
  regular_components_differ, collection_components_differ, to_bytes, serialize_component_accounting,
  Pointers, compare_values, compare_regular, compare_collections,
  compare_component_accounting_buffers,
}
use findus.Accounting.Reading.{IsVerdict, IsVerdict-bind, IsVerdict-of, compare_values_lem}
use findus.Accounting.Agreement.Loops.{IsShort, names_bytes, compare_regular_lem}
use findus.Accounting.Agreement.Collections.{
  Named, collections_bytes, IsNamed, same_number, number_same, compare_collections_lem,
}
use findus.Accounting.Agreement.Inserted.{
  regular_names, collections, sorted, IsInserted, IsAgreed, regular_bytes_lem, collection_bytes_lem,
  count-regular_le, count-collection_le, names-IsShort, collections-IsValid, sorted-IsNamed,
  of_same, IsSame-of,
}

written : List (List ℕ) → List Named → List ℕ
written names cs =
    to_bytes 4 (length names)
    ++ (to_bytes 4 (length cs) ++ (names_bytes names ++ (collections_bytes cs ++ [])))

serialize_lem :
    (xs : List DistributedOjectClassHolder)
    → serialize_component_accounting xs ≡ written (regular_names xs) (sorted (collections xs))
unfolding serialize_component_accounting written
serialize_lem xs =
    let r = regular_bytes_lem xs in
    let c = collection_bytes_lem xs in rw (r.0, r.1, c.0, c.1) (simp (append_assoc, append-nil))

written-IsVerdict :
    (xs ys : List (List ℕ)) (cs ds : List Named)
    → length xs < 2 ^ 32
    → length ys < 2 ^ 32
    → length cs < 2 ^ 32
    → length ds < 2 ^ 32
    → All IsShort xs
    → All IsShort ys
    → All IsNamed cs
    → All IsNamed ds
    → IsVerdict
        ((xs ≡ ys) × (cs ≡ ds))
        ([], [])
        (compare_component_accounting_buffers (written xs cs) (written ys ds))
unfolding written compare_component_accounting_buffers
written-IsVerdict xs ys cs ds lx ly lc ld hx hy hc hd =
    let regulars_a = names_bytes xs ++ (collections_bytes cs ++ []) in
    let regulars_b = names_bytes ys ++ (collections_bytes ds ++ []) in
    IsVerdict-of
      (λ (e : ((length xs == length ys) ≡ true)
          × (((length cs == length ds) ≡ true) × ((xs ≡ ys) × (cs ≡ ds)))).
        (e.1.1.0, e.1.1.1))
      (λ e. (number_same _ _ (ap length e.0), (number_same _ _ (ap length e.1), (e.0, e.1))))
      (IsVerdict-bind
        (λ (regulars : ℕ × Pointers).
          compare_values collection_components_differ 4 (λ a b. a == b) regulars.1
          >>= λ (colls : ℕ × Pointers).
              compare_regular regulars.0 colls.1 >>= compare_collections colls.0)
        (compare_values_lem regular_components_differ 4 (λ a b. a == b) (length xs) (length ys)
          (to_bytes 4 (length cs) ++ regulars_a) (to_bytes 4 (length ds) ++ regulars_b)
          (λ e. ground (arith, e)) lx ly)
        (λ same.
          IsVerdict-bind
            (λ (colls : ℕ × Pointers).
              compare_regular (length xs) colls.1 >>= compare_collections colls.0)
            (compare_values_lem collection_components_differ 4 (λ a b. a == b) (length cs)
              (length ds) regulars_a regulars_b (λ e. ground (arith, e)) lc ld)
            (λ same'.
              IsVerdict-bind (compare_collections (length cs))
                (compare_regular_lem xs ys (collections_bytes cs ++ []) (collections_bytes ds ++ [])
                  (same_number _ _ same) hx hy)
                (λ same''. compare_collections_lem cs ds [] [] (same_number _ _ same') hc hd))))

-- For the buffers of two processes, with less than 2 ^ 32 components, names of less than 2 ^ 32 bytes and
-- maps of less than 2 ^ 32 elements: the comparison reads both buffers to their ends when the two
-- sequences of the names of regular components are the same, and so are the two sequences of collections, by
-- name, elements and their processes, whatever the order of their maps and however the two kinds follow on one
-- another; else it ends with an exception. It never reads past the end of a buffer.
pub compare-serialize :
    (xs ys : List DistributedOjectClassHolder)
    → length xs < 2 ^ 32
    → length ys < 2 ^ 32
    → All IsInserted xs
    → All IsInserted ys
    → IsVerdict
        (IsAgreed xs ys)
        ([], [])
        (compare_component_accounting_buffers
          (serialize_component_accounting xs)
          (serialize_component_accounting ys))
compare-serialize xs ys lx ly hx hy =
    let valid = collections-IsValid xs hx in
    let named = sorted-IsNamed (collections xs) valid in
    let named' = sorted-IsNamed (collections ys) (collections-IsValid ys hy) in
    rw (serialize_lem xs, serialize_lem ys)
      (IsVerdict-of (λ e. (e.0, IsSame-of (collections xs) (collections ys) valid e.1))
        (λ e. (e.0, of_same (collections xs) (collections ys) valid e.1))
        (written-IsVerdict (regular_names xs) (regular_names ys) (sorted (collections xs))
          (sorted (collections ys)) (omega (arith, count-regular_le xs))
          (omega (arith, count-regular_le ys)) (omega (arith, count-collection_le xs))
          (omega (arith, count-collection_le ys)) (names-IsShort xs hx) (names-IsShort ys hy) named
          named'))
