-- ===== src/Tests/Insertions.antt =====
-- Two processes that insert the same components, with their maps in different orders.
use findus.Base.{ℕ, zero, suc, ◌<◌, true, List, [], ◌∷◌, All, ◌≡◌, refl, arith}
use findus.Base.Int.{pos}
use findus.Base.Result.{ok}
use findus.Components.{regular, collection, DistributedOjectClassHolder}
use findus.Components.Consistent.{IsConsistent}
use findus.Components.History.{
  insert_component, place_element, remove_element_of, perform_all, perform_all-IsConsistent,
}
use findus.ProcessTree.{links}
use findus.Serializer.State.{int_of_size}
use findus.Accounting.{
  serialize_component_accounting, compare_component_accounting_buffers, insert_element,
  sort_elements, name_bytes, element_bytes, regular_bytes, collection_bytes,
  read_string_and_advance, read_and_advance, same_bytes, compare_values, compare_names,
  compare_regular, same_int, compare_elements, compare_collections,
}
use findus.Accounting.Reading.{IsVerdict}
use findus.Accounting.Agreement.Inserted.{IsInserted, IsAgreed}
use findus.Accounting.Agreement.Buffers.{compare-serialize}
use findus.Accounting.Consistency.{
  receive_and_compare, sent_to_parent, check_component_accounting_consistency,
}
use findus.Accounting.Consistency.Everywhere.{check_at, IsBounded, consistent_everywhere}

abbrev plain : DistributedOjectClassHolder
plain = record {
  objects = regular;
  ids_per_process = [];
  name = 97 ∷ [];
  number_of_local_objects = pos 1;
}

abbrev first_objects : List DistributedOjectClassHolder
first_objects =
    plain
    ∷ (record {
      objects = collection ((7, pos 0) ∷ (3, pos 1) ∷ []);
      ids_per_process = (7 ∷ []) ∷ (3 ∷ []) ∷ [];
      name = 99 ∷ [];
      number_of_local_objects = pos 1;
    })
    ∷ []

abbrev second_objects : List DistributedOjectClassHolder
second_objects =
    plain
    ∷ (record {
      objects = collection ((3, pos 1) ∷ (7, pos 0) ∷ []);
      ids_per_process = (7 ∷ []) ∷ (3 ∷ []) ∷ [];
      name = 99 ∷ [];
      number_of_local_objects = pos 1;
    })
    ∷ []

first-IsInserted : All IsInserted first_objects
first-IsInserted = ground arith

second-IsInserted : All IsInserted second_objects
second-IsInserted = ground arith

compare-serialize_example :
    IsVerdict
      (IsAgreed first_objects second_objects)
      ([], [])
      (compare_component_accounting_buffers
        (serialize_component_accounting first_objects)
        (serialize_component_accounting second_objects))
compare-serialize_example =
    compare-serialize first_objects second_objects (omega arith) (omega arith) first-IsInserted
      second-IsInserted

abbrev on_process : ℕ → List DistributedOjectClassHolder
on_process zero = first_objects
on_process (suc p) = second_objects

bounded : (p : ℕ) → p < 2 → IsBounded 2 on_process p
unfolding serialize_component_accounting regular_bytes collection_bytes name_bytes element_bytes
    sort_elements insert_element
bounded zero h = (omega arith, first-IsInserted, omega arith)
bounded (suc p) h = (omega arith, second-IsInserted, omega arith)

passes_at_root : (check_at 2 on_process 0).1 ≡ ok tt
unfolding check_component_accounting_consistency receive_and_compare sent_to_parent links
    int_of_size serialize_component_accounting regular_bytes collection_bytes name_bytes
    element_bytes sort_elements insert_element compare_component_accounting_buffers compare_values
    compare_names compare_regular compare_elements same_int compare_collections read_and_advance
    read_string_and_advance same_bytes
passes_at_root = refl

passes_at_leaf : (check_at 2 on_process 1).1 ≡ ok tt
unfolding check_component_accounting_consistency receive_and_compare sent_to_parent links
    int_of_size serialize_component_accounting regular_bytes collection_bytes name_bytes
    element_bytes sort_elements insert_element
passes_at_leaf = refl

passed : (p : ℕ) → p < 2 → (check_at 2 on_process p).1 ≡ ok tt
passed zero h = passes_at_root
passed (suc zero) h = passes_at_leaf
passed (suc (suc p)) h = absurd (omega arith)

consistent_everywhere_example : IsAgreed (on_process 0) (on_process 1)
consistent_everywhere_example = consistent_everywhere 2 on_process bounded passed 1 (omega arith)

perform_all-IsConsistent_example : IsConsistent (
    perform_all
      (insert_component 0 (97 ∷ [])
        ∷ place_element 1 (99 ∷ []) 7 (pos 0)
        ∷ place_element 1 (99 ∷ []) 3 (pos 1)
        ∷ place_element 1 (99 ∷ []) 3 (pos 0)
        ∷ remove_element_of 1 7
        ∷ [])
      (record {
        my_node_id = pos 0;
        number_of_nodes = 2;
        in_insert_mode = true;
        distributed_objects = [];
      }))
perform_all-IsConsistent_example =
    perform_all-IsConsistent
      (insert_component 0 (97 ∷ [])
        ∷ place_element 1 (99 ∷ []) 7 (pos 0)
        ∷ place_element 1 (99 ∷ []) 3 (pos 1)
        ∷ place_element 1 (99 ∷ []) 3 (pos 0)
        ∷ remove_element_of 1 7
        ∷ [])
      (pos 0) 2 true
