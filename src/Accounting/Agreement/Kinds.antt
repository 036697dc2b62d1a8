-- ===== src/Accounting/Agreement/Kinds.antt =====
-- What the buffer of a process does not tell: how regular components and collections follow on one another.
use findus.Base.{ℕ, List, [], ◌∷◌, ◌++◌, ◌≡◌, refl, arith}
use findus.Base.Int.{ℤ}
use findus.Components.{regular, collection, DistributedOjectClassHolder}
use findus.Accounting.{
  regular_bytes, collection_bytes, count_regular, count_collection, serialize_component_accounting,
}

module _ (x y : DistributedOjectClassHolder) (elements : List (ℕ × ℤ)) (a : x.objects ≡ regular)
    (b : y.objects ≡ collection elements) where
  regular_bytes-swap :
      (xs ys : List DistributedOjectClassHolder)
      → (regular_bytes (xs ++ x ∷ y ∷ ys) ≡ regular_bytes (xs ++ y ∷ x ∷ ys))
        × (count_regular (xs ++ x ∷ y ∷ ys) ≡ count_regular (xs ++ y ∷ x ∷ ys))
  unfolding regular_bytes
  regular_bytes-swap [] ys = ground (arith, a, b)
  regular_bytes-swap (z ∷ xs) ys = ground (arith, regular_bytes-swap xs ys)

  collection_bytes-swap :
      (xs ys : List DistributedOjectClassHolder)
      → (collection_bytes (xs ++ x ∷ y ∷ ys) ≡ collection_bytes (xs ++ y ∷ x ∷ ys))
        × (count_collection (xs ++ x ∷ y ∷ ys) ≡ count_collection (xs ++ y ∷ x ∷ ys))
  unfolding collection_bytes
  collection_bytes-swap [] ys = ground (arith, a, b)
  collection_bytes-swap (z ∷ xs) ys = ground (arith, collection_bytes-swap xs ys)

  -- A regular component and a collection that change places in the order of insertion leave the buffer
  -- as it is, so that the comparison of buffers cannot tell the two orders apart.
  serialize-swap :
      (xs ys : List DistributedOjectClassHolder)
      → serialize_component_accounting (xs ++ x ∷ y ∷ ys)
        ≡ serialize_component_accounting (xs ++ y ∷ x ∷ ys)
  unfolding serialize_component_accounting
  serialize-swap xs ys =
      let r = regular_bytes-swap xs ys in
      let c = collection_bytes-swap xs ys in rw (r.0, r.1, c.0, c.1) refl
