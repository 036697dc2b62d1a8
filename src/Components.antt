-- ===== src/Components.antt =====
-- The parallel components of a process, as `distributed_objects_` of the driver holds them: one
-- entry for each component, in the order of insertion; with the functions of
-- DistributedTaskDriver.hpp that insert and remove them. The index and the name of a component are
-- parameters: the first is computed from its type. A call returns the state and the exception, if there is one; access
-- outside of a vector is an exception of its own.
pub mod Counting
pub mod Consistent
pub mod History
use findus.Base.{
  ℕ, zero, suc, ◌+◌, ◌<◌, Bool, true, false, ltb, ◌==◌, if◌then◌else◌, not, List, [], ◌∷◌, ◌++◌,
  Option, none, some, length, get_elem?, set, replicate, All, ◌≢◌, ◌≡◌, ◌⊎◌, inl, inr, refl,
}
use findus.Base.Int.{ℤ, pos, negsuc, ltb_ℤ, pos_part, ◌+ℤ◌, ◌-ℤ◌, ◌==ℤ◌}

-- The objects of a component: one for each process, or a map from collection indices to elements,
-- each on one process, in the order in which the map is iterated.
pub data Objects : Type 0 where
  regular : Objects
  collection : List (ℕ × ℤ) → Objects

-- Names are bytes; what the objects do is not modelled.
pub record DistributedOjectClassHolder : Type 0 where
  pub objects : Objects
  pub ids_per_process : List (List ℕ)
  pub name : List ℕ
  pub number_of_local_objects : ℤ

pub data InsertionError : Type 0 where
  already_inserted wrong_index negative_process existing_index no_such_process : InsertionError
  never_inserted not_a_collection unable_to_remove bad_variant_access out_of_range : InsertionError

pub record Inserted : Type 0 where
  pub my_node_id : ℤ
  pub number_of_nodes : ℕ
  pub in_insert_mode : Bool
  pub distributed_objects : List DistributedOjectClassHolder

abbrev pub Insertion : Type 0
Insertion = Inserted × Option InsertionError

abbrev pub in_insertion : Inserted → Inserted
in_insertion s = record s { in_insert_mode = true }

unfoldable pub push_back : DistributedOjectClassHolder → Inserted → Inserted
push_back object s = record s { distributed_objects = s.distributed_objects ++ object ∷ [] }

unfoldable pub insert_parallel_component : ℕ → List ℕ → Inserted → Insertion
insert_parallel_component index name s =
    let pushed =
      push_back
        (record {
          objects = regular;
          ids_per_process = [];
          name = name;
          number_of_local_objects = pos 1;
        })
        (in_insertion s) in
    if ltb index (length s.distributed_objects)
    then (in_insertion s, some already_inserted)
    else if not (index + 1 == length pushed.distributed_objects)
    then (pushed, some wrong_index)
    else (pushed, none)

-- `find` of a map.
abbrev pub find : ℕ → List (ℕ × ℤ) → Option ℤ
find collection_index [] = none
find collection_index (e ∷ rest) =
    if e.0 == collection_index then some e.1 else find collection_index rest

-- The entry of a component is replaced.
abbrev pub with_object : ℕ → DistributedOjectClassHolder → Inserted → Inserted
with_object index object s = record s {
  distributed_objects = set s.distributed_objects index object;
}

-- The list of one process is changed.
unfoldable pub change_ids : (List ℕ → List ℕ) → ℕ → List (List ℕ) → List (List ℕ)
change_ids change process lists = elim (get_elem? lists process) [
  | none ↦ lists
  | some ids ↦ set lists process (change ids)
]

-- An element is added to a collection; on its own process it is counted.
unfoldable pub add_element :
    ℤ → ℕ → ℕ → List (ℕ × ℤ) → DistributedOjectClassHolder → DistributedOjectClassHolder
add_element my_node_id collection_index node elements object = record object {
  objects = collection (elements ++ (collection_index, pos node) ∷ []);
  number_of_local_objects =
      if pos node ==ℤ my_node_id
      then object.number_of_local_objects +ℤ pos 1
      else object.number_of_local_objects;
  ids_per_process =
      change_ids (λ (ids : List ℕ). ids ++ collection_index ∷ []) node object.ids_per_process;
}

-- Behind the insertion of the collection itself.
unfoldable pub emplace_element : ℕ → ℕ → ℤ → Inserted → Insertion
emplace_element index collection_index node_to_insert_on s =
    elim (get_elem? s.distributed_objects index) [
      | none ↦ (s, some out_of_range)
      | some object ↦ elim object.objects [
        | regular ↦ (s, some bad_variant_access)
        | collection elements ↦ elim (find collection_index elements) [
          | some p ↦ (s, some existing_index)
          | none ↦
              if not (ltb_ℤ node_to_insert_on (pos s.number_of_nodes))
              then (s, some no_such_process)
              else (
                with_object index
                    (add_element s.my_node_id collection_index (pos_part node_to_insert_on) elements
                      object)
                    s,
                none,
              )
        ]
      ]
    ]

abbrev pub new_collection : List ℕ → ℕ → DistributedOjectClassHolder
new_collection name number_of_nodes = record {
  objects = collection [];
  ids_per_process = replicate number_of_nodes [];
  name = name;
  number_of_local_objects = pos 0;
}

-- The check that the index of a new collection is that of its entry cannot fail, and is left out.
unfoldable pub insert_parallel_component_collection : ℕ → List ℕ → ℕ → ℤ → Inserted → Insertion
insert_parallel_component_collection index name collection_index node_to_insert_on s =
    let s' = in_insertion s in
    if ltb_ℤ node_to_insert_on (pos 0)
    then (s, some negative_process)
    else emplace_element index collection_index node_to_insert_on (
        if index == length s.distributed_objects
        then push_back (new_collection name s.number_of_nodes) s'
        else s')

abbrev pub erase_element : ℕ → List (ℕ × ℤ) → List (ℕ × ℤ)
erase_element collection_index [] = []
erase_element collection_index (e ∷ rest) =
    if e.0 == collection_index then rest else e ∷ erase_element collection_index rest

-- `erase` at what `std::find` gives; to erase the end is undefined, and changes nothing here.
abbrev pub erase_id : ℕ → List ℕ → List ℕ
erase_id collection_index [] = []
erase_id collection_index (i ∷ rest) =
    if i == collection_index then rest else i ∷ erase_id collection_index rest

unfoldable pub remove_element :
    ℤ → ℕ → ℤ → List (ℕ × ℤ) → DistributedOjectClassHolder → DistributedOjectClassHolder
remove_element my_node_id collection_index process_id elements object = record object {
  objects = collection (erase_element collection_index elements);
  number_of_local_objects =
      if process_id ==ℤ my_node_id
      then object.number_of_local_objects -ℤ pos 1
      else object.number_of_local_objects;
  ids_per_process =
      change_ids (erase_id collection_index) (pos_part process_id) object.ids_per_process;
}

unfoldable pub remove_parallel_component_collection : ℕ → ℕ → Inserted → Insertion
remove_parallel_component_collection index collection_index s =
    let s' = in_insertion s in
    elim (get_elem? s.distributed_objects index) [
      | none ↦ (s', some never_inserted)
      | some object ↦ elim object.objects [
        | regular ↦ (s', some not_a_collection)
        | collection elements ↦ elim (find collection_index elements) [
          | none ↦ (s', some unable_to_remove)
          | some p ↦ (
            with_object index (remove_element s.my_node_id collection_index p elements object) s',
            none,
          )
        ]
      ]
    ]

-- The indices of the elements on a process, in the order of the map.
abbrev pub local_ids : ℤ → List (ℕ × ℤ) → List ℕ
local_ids p [] = []
local_ids p ((index, process) ∷ rest) =
    if process ==ℤ p then index ∷ local_ids p rest else local_ids p rest

-- The keys of a map differ.
abbrev pub IsMap : List (ℕ × ℤ) → Type 0
IsMap [] = Unit
IsMap (x ∷ xs) = All (λ (y : ℕ × ℤ). x.0 ≢ y.0) xs × IsMap xs

pub Objects-cases : (o : Objects) → (o ≡ regular) ⊎ ((es : List (ℕ × ℤ)) × (o ≡ collection es))
Objects-cases regular = inl refl
Objects-cases (collection es) = inr (es, refl)
