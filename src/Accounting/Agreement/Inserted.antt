-- ===== src/Accounting/Agreement/Inserted.antt =====
-- What a process has inserted, apart from the order of its maps and of the two kinds of components, and what it writes of it.
use findus.Base.{
  ℕ, ◌^◌, ◌≤◌, ◌<◌, List, [], ◌∷◌, ◌++◌, length, All, ◌≡◌, inl, inr, refl, ap, ap₂, arith,
}
use mathlib.Core.List.{Perm}
use findus.Base.Int.{ℤ}
use findus.Components.{
  Objects-cases, IsMap, Objects, regular, collection, DistributedOjectClassHolder,
}
use findus.Accounting.{
  to_bytes, count_regular, count_collection, sort_elements, name_bytes, element_bytes,
  regular_bytes, collection_bytes,
}
use findus.Accounting.Sorting.{sort_elements_iff, All-sort_elements, length-sort_elements}
use findus.Accounting.Agreement.Loops.{IsShort, IsElement, names_bytes, cons_injective, cons_cong}
use findus.Accounting.Agreement.Collections.{Named, named_bytes, collections_bytes, IsNamed}

-- The names of the components of each kind, in the order of insertion, with the maps of the collections.
abbrev pub regular_names : List DistributedOjectClassHolder → List (List ℕ)
regular_names [] = []
regular_names (object ∷ rest) = elim object.objects [
  | regular ↦ object.name ∷ regular_names rest
  | collection elements ↦ regular_names rest
]

abbrev pub collections : List DistributedOjectClassHolder → List Named
collections [] = []
collections (object ∷ rest) = elim object.objects [
  | regular ↦ collections rest
  | collection elements ↦ (object.name, elements) ∷ collections rest
]

abbrev pub sorted : List Named → List Named
sorted [] = []
sorted ((name, elements) ∷ cs) = (name, sort_elements elements) ∷ sorted cs

-- Collections with the same names and the same elements on the same processes, whatever the order of
-- their maps.
abbrev pub IsSame : List Named → List Named → Type 0
IsSame [] [] = Unit
IsSame ((m, es) ∷ xs) ((n, fs) ∷ ys) = (m ≡ n) × Perm es fs × IsSame xs ys
IsSame _ _ = ⊥

-- What the types of the source guarantee, for names and collections of less than 2 ^ 32 items.
abbrev pub IsInserted : DistributedOjectClassHolder → Type 0
IsInserted object = IsShort object.name × elim object.objects [
  | regular ↦ Unit {0}
  | collection elements ↦ (length elements < 2 ^ 32) × IsMap elements × All IsElement elements
]

pub regular_bytes_lem :
    (xs : List DistributedOjectClassHolder)
    → (regular_bytes xs ≡ names_bytes (regular_names xs))
      × (count_regular xs ≡ length (regular_names xs))
unfolding regular_bytes
regular_bytes_lem [] = (refl, refl)
regular_bytes_lem (x ∷ xs) = ground (arith, regular_bytes_lem xs)

collection_shape :
    (name more : List ℕ) (es : List (ℕ × ℤ))
    → name_bytes name ++ to_bytes 8 (length es) ++ element_bytes (sort_elements es) ++ more
      ≡ named_bytes (name, sort_elements es) ++ more
collection_shape name more es = rw (length-sort_elements es) refl

pub collection_bytes_lem :
    (xs : List DistributedOjectClassHolder)
    → (collection_bytes xs ≡ collections_bytes (sorted (collections xs)))
      × (count_collection xs ≡ length (sorted (collections xs)))
unfolding collection_bytes
collection_bytes_lem [] = (refl, refl)
collection_bytes_lem (x ∷ xs) = elim (Objects-cases x.objects) [
  | inl e ↦ ground (arith, e, collection_bytes_lem xs)
  | inr (es, e) ↦
      ground (arith, e, collection_bytes_lem xs, collection_shape x.name (collection_bytes xs) es)
]

pub count-regular_le :
    (xs : List DistributedOjectClassHolder) → length (regular_names xs) ≤ length xs
count-regular_le [] = omega arith
count-regular_le (x ∷ xs) = ground (arith, count-regular_le xs)

pub count-collection_le :
    (xs : List DistributedOjectClassHolder) → length (sorted (collections xs)) ≤ length xs
count-collection_le [] = omega arith
count-collection_le (x ∷ xs) = ground (arith, count-collection_le xs)

pub names-IsShort :
    (xs : List DistributedOjectClassHolder) → All IsInserted xs → All IsShort (regular_names xs)
names-IsShort [] h = tt
names-IsShort (x ∷ xs) h = elim (Objects-cases x.objects) [
  | inl e ↦ ground (arith, e, h.0, names-IsShort xs h.1)
  | inr (es, e) ↦ ground (arith, e, names-IsShort xs h.1)
]

abbrev pub IsValid : Named → Type 0
IsValid (name, es) = IsShort name × (length es < 2 ^ 32) × IsMap es × All IsElement es

IsValid-cons :
    (o : Objects) (ids : List (List ℕ)) (name : List ℕ) (k : ℤ)
    (xs : List DistributedOjectClassHolder)
    → IsInserted
        (record { objects = o; ids_per_process = ids; name = name; number_of_local_objects = k })
    → All IsValid (collections xs)
    → All IsValid (
        collections (
          record { objects = o; ids_per_process = ids; name = name; number_of_local_objects = k }
          ∷ xs))
IsValid-cons regular ids name k xs h rest = rest
IsValid-cons (collection es) ids name k xs h rest = ((h.0, h.1.0, h.1.1, h.1.2), rest)

pub collections-IsValid :
    (xs : List DistributedOjectClassHolder) → All IsInserted xs → All IsValid (collections xs)
collections-IsValid [] h = tt
collections-IsValid (x ∷ xs) h =
    IsValid-cons x.objects x.ids_per_process x.name x.number_of_local_objects xs h.0
      (collections-IsValid xs h.1)

pub sorted-IsNamed : (cs : List Named) → All IsValid cs → All IsNamed (sorted cs)
sorted-IsNamed [] h = tt
sorted-IsNamed ((name, es) ∷ cs) h = (
  (h.0.0, omega (arith, length-sort_elements es, h.0.1), All-sort_elements IsElement es h.0.3),
  sorted-IsNamed cs h.1,
)

pub of_same : (cs ds : List Named) → All IsValid cs → IsSame cs ds → sorted cs ≡ sorted ds
of_same [] [] h e = refl
of_same [] (d ∷ ds) h e = absurd e
of_same (c ∷ cs) [] h e = absurd e
of_same ((m, es) ∷ cs) ((n, fs) ∷ ds) h e = cons_cong (
  ap₂ (λ (x : List ℕ) (y : List (ℕ × ℤ)). (x, y)) e.0 ((sort_elements_iff es fs h.0.2).0 e.1),
  of_same cs ds h.1 e.2,
)

pub IsSame-of : (cs ds : List Named) → All IsValid cs → sorted cs ≡ sorted ds → IsSame cs ds
IsSame-of [] [] h e = tt
IsSame-of [] (d ∷ ds) h e = cc
IsSame-of (c ∷ cs) [] h e = cc
IsSame-of ((m, es) ∷ cs) ((n, fs) ∷ ds) h e =
    let (p, q) = cons_injective e in
    (
      ap (λ (c : Named). c.0) p,
      (sort_elements_iff es fs h.0.2).1 (ap (λ (c : Named). c.1) p),
      IsSame-of cs ds h.1 q,
    )

-- The two processes agree on their regular components, by name and in order, and on their collections, by name
-- and in order, with the same elements on the same processes. How regular components and collections
-- follow on one another is not part of it.
abbrev pub IsAgreed : List DistributedOjectClassHolder → List DistributedOjectClassHolder → Type 0
IsAgreed xs ys = (regular_names xs ≡ regular_names ys) × IsSame (collections xs) (collections ys)
