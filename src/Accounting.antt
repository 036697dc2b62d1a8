-- ===== src/Accounting.antt =====
-- The check of DistributedTaskDriver.cpp that all processes have inserted the same components: each
-- process writes what it has into a buffer, and the buffers of two processes are compared. Reading
-- past the end of a buffer, which the language leaves undefined, is an error of its own. An
-- exception is told by its kind.
pub mod Reading
pub mod Sorting
pub mod Agreement
pub mod Consistency
use findus.Base.{
  ℕ, zero, suc, ◌+◌, ◌-◌, ◌*◌, ◌/◌, ◌%◌, ◌^◌, Bool, true, false, ltb, ◌==◌, if◌then◌else◌, not,
  ◌&&◌, List, [], ◌∷◌, ◌++◌, length,
}
use findus.Base.Int.{ℤ, pos, negsuc, ◌==ℤ◌}
use findus.Base.Result.{Result, ok, err, ◌>>=◌}
use findus.Components.{Objects, regular, collection, DistributedOjectClassHolder}
use findus.Serializer.State.{int_of_size}

pub data AccountingError : Type 0 where
  has_none regular_components_differ collection_components_differ : AccountingError
  regular_name_differs collection_name_differs number_of_elements_differs : AccountingError
  element_id_differs process_id_differs past_the_end : AccountingError

-- The object representation of an unsigned integer of some bytes, and of an `int`.
abbrev pub to_bytes : ℕ → ℕ → List ℕ
to_bytes zero x = []
to_bytes (suc size) x = x % 256 ∷ to_bytes size (x / 256)

abbrev pub of_bytes : List ℕ → ℕ
of_bytes [] = 0
of_bytes (b ∷ bs) = b + 256 * of_bytes bs

abbrev pub word_of_int : ℤ → ℕ
word_of_int (pos n) = n % 2 ^ 32
word_of_int (negsuc n) = 2 ^ 32 - 1 - n % 2 ^ 32

abbrev pub count_regular : List DistributedOjectClassHolder → ℕ
count_regular [] = 0
count_regular (object ∷ rest) = elim object.objects [
  | regular ↦ suc (count_regular rest)
  | collection elements ↦ count_regular rest
]

abbrev pub count_collection : List DistributedOjectClassHolder → ℕ
count_collection [] = 0
count_collection (object ∷ rest) = elim object.objects [
  | regular ↦ count_collection rest
  | collection elements ↦ suc (count_collection rest)
]

-- `std::sort` by the collection index.
unfoldable pub insert_element : ℕ × ℤ → List (ℕ × ℤ) → List (ℕ × ℤ)
insert_element e [] = e ∷ []
insert_element e (x ∷ xs) = if ltb e.0 x.0 then e ∷ x ∷ xs else x ∷ insert_element e xs

unfoldable pub sort_elements : List (ℕ × ℤ) → List (ℕ × ℤ)
sort_elements [] = []
sort_elements (x ∷ xs) = insert_element x (sort_elements xs)

unfoldable pub name_bytes : List ℕ → List ℕ
name_bytes name = to_bytes 4 (length name) ++ name

unfoldable pub element_bytes : List (ℕ × ℤ) → List ℕ
element_bytes [] = []
element_bytes ((collection_index, process_id) ∷ rest) =
    to_bytes 8 collection_index ++ to_bytes 4 (word_of_int process_id) ++ element_bytes rest

unfoldable pub regular_bytes : List DistributedOjectClassHolder → List ℕ
regular_bytes [] = []
regular_bytes (object ∷ rest) = elim object.objects [
  | regular ↦ name_bytes object.name ++ regular_bytes rest
  | collection elements ↦ regular_bytes rest
]

unfoldable pub collection_bytes : List DistributedOjectClassHolder → List ℕ
collection_bytes [] = []
collection_bytes (object ∷ rest) = elim object.objects [
  | regular ↦ collection_bytes rest
  | collection elements ↦
      name_bytes object.name
      ++ to_bytes 8 (length elements)
      ++ element_bytes (sort_elements elements)
      ++ collection_bytes rest
]

-- The counts are cut to the first four bytes of a `size_t`.
unfoldable pub serialize_component_accounting : List DistributedOjectClassHolder → List ℕ
serialize_component_accounting distributed_objects =
    to_bytes 4 (count_regular distributed_objects)
    ++ to_bytes 4 (count_collection distributed_objects)
    ++ regular_bytes distributed_objects
    ++ collection_bytes distributed_objects

-- A pointer into a buffer is what is left of it.
abbrev pub Read : Type 0 → Type 0
Read A = Result AccountingError (A × List ℕ)

unfoldable pub read_string_and_advance : List ℕ → ℕ → Read (List ℕ)
read_string_and_advance ptr zero = ok ([], ptr)
read_string_and_advance [] (suc length) = err past_the_end
read_string_and_advance (b ∷ ptr) (suc length) =
    read_string_and_advance ptr length >>= λ (r : List ℕ × List ℕ). ok (b ∷ r.0, r.1)

unfoldable pub read_and_advance : ℕ → List ℕ → Read ℕ
read_and_advance size ptr =
    read_string_and_advance ptr size >>= λ (r : List ℕ × List ℕ). ok (of_bytes r.0, r.1)

unfoldable pub same_bytes : List ℕ → List ℕ → Bool
same_bytes [] [] = true
same_bytes (x ∷ xs) (y ∷ ys) = (x == y) && same_bytes xs ys
same_bytes _ _ = false

abbrev pub Pointers : Type 0
Pointers = List ℕ × List ℕ

-- The same object is read from both buffers and must be the same, by some test.
unfoldable pub compare_values :
    AccountingError → ℕ → (ℕ → ℕ → Bool) → Pointers → Result AccountingError (ℕ × Pointers)
compare_values differs size same (ptr_a, ptr_b) =
    read_and_advance size ptr_a >>= λ (a : ℕ × List ℕ).
    read_and_advance size ptr_b >>= λ (b : ℕ × List ℕ).
    if same a.0 b.0 then ok (a.0, (a.1, b.1)) else err differs

unfoldable pub compare_names : AccountingError → Pointers → Result AccountingError Pointers
compare_names differs (ptr_a, ptr_b) = read_and_advance 4 ptr_a >>= λ (length_a : ℕ × List ℕ).
    read_and_advance 4 ptr_b >>= λ (length_b : ℕ × List ℕ).
    read_string_and_advance length_a.1 length_a.0 >>= λ (name_a : List ℕ × List ℕ).
    read_string_and_advance length_b.1 length_b.0 >>= λ (name_b : List ℕ × List ℕ).
    if same_bytes name_a.0 name_b.0 then ok (name_a.1, name_b.1) else err differs

unfoldable pub compare_regular : ℕ → Pointers → Result AccountingError Pointers
compare_regular zero ptrs = ok ptrs
compare_regular (suc n) ptrs = compare_names regular_name_differs ptrs >>= compare_regular n

unfoldable pub same_int : ℕ → ℕ → Bool
same_int a b = int_of_size a ==ℤ int_of_size b

unfoldable pub compare_elements : ℕ → Pointers → Result AccountingError Pointers
unfolding same_int
compare_elements zero ptrs = ok ptrs
compare_elements (suc n) ptrs =
    compare_values element_id_differs 8 (λ a b. a == b) ptrs >>= λ (id : ℕ × Pointers).
    compare_values process_id_differs 4 same_int id.1 >>= λ (process : ℕ × Pointers).
    compare_elements n process.1

-- The counter of the elements is 32 bits wide: with 2 ^ 32 elements and more the loop reads on until
-- the buffer ends.
abbrev pub rounds : ℕ → List ℕ → ℕ
rounds number_of_elements ptr =
    if ltb number_of_elements (2 ^ 32) then number_of_elements else suc (length ptr)

unfoldable pub compare_collections : ℕ → Pointers → Result AccountingError Pointers
compare_collections zero ptrs = ok ptrs
compare_collections (suc n) ptrs =
    compare_names collection_name_differs ptrs >>= λ (named : Pointers).
    compare_values number_of_elements_differs 8 (λ a b. a == b) named
    >>= λ (counted : ℕ × Pointers).
        compare_elements (rounds counted.0 counted.1.0) counted.1 >>= compare_collections n

abbrev pub is_empty : List ℕ → Bool
is_empty [] = true
is_empty (_ ∷ _) = false

unfoldable pub compare_component_accounting_buffers :
    List ℕ → List ℕ → Result AccountingError Pointers
compare_component_accounting_buffers buffer_a buffer_b =
    if is_empty buffer_a && not (is_empty buffer_b)
    then err has_none
    else if is_empty buffer_b && not (is_empty buffer_a)
    then err has_none
    else compare_values regular_components_differ 4 (λ a b. a == b) (buffer_a, buffer_b)
      >>= λ (regulars : ℕ × Pointers).
          compare_values collection_components_differ 4 (λ a b. a == b) regulars.1
          >>= λ (collections : ℕ × Pointers).
              compare_regular regulars.0 collections.1 >>= compare_collections collections.0
