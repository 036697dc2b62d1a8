-- ===== src/Components/Consistent.antt =====
-- Every insertion and removal, those that end with an exception too, leaves consistent components.
use findus.Base.{
  ℕ, ◌+◌, ◌<◌, ltb, ◌==◌, if◌then◌else◌, not, List, [], ◌∷◌, ◌++◌, none, some, length, get_elem?,
  set, All, All-append, All-set, All-get_elem?, ◌≡◌, inl, inr, refl, ap, sym, ◌∙◌, arith,
  Bool-cases, Option-cases,
}
use mathlib.Core.Path.{subst}
use findus.Base.Int.{ℤ, pos, negsuc, ◌+ℤ◌, ◌-ℤ◌, ◌==ℤ◌}
use findus.Components.{
  negative_process, no_such_process, out_of_range, bad_variant_access, existing_index,
  never_inserted, not_a_collection, unable_to_remove, change_ids, erase_id, erase_element, Objects,
  Objects-cases, regular, collection, DistributedOjectClassHolder, Inserted, Insertion,
  in_insertion, push_back, insert_parallel_component, find, with_object, add_element,
  emplace_element, new_collection, insert_parallel_component_collection, remove_element,
  remove_parallel_component_collection,
}
use findus.Components.Counting.{IsCount, add-IsCount, remove-IsCount, find-IsPlaced, none-IsCount}

abbrev pub IsCounted : ℤ → ℕ → Objects → ℤ → List (List ℕ) → Type 0
IsCounted my_node_id n regular number ids = number ≡ pos 1
IsCounted my_node_id n (collection es) number ids = IsCount my_node_id n es number ids

abbrev pub IsComponent : ℤ → ℕ → DistributedOjectClassHolder → Type 0
IsComponent my_node_id n o =
    IsCounted my_node_id n o.objects o.number_of_local_objects o.ids_per_process

-- A component that is not a collection counts one object. A collection has each index once, each element on a
-- process of the program, as many local objects as elements on this process, and for each process the indices of the elements
-- there.
abbrev pub IsConsistent : Inserted → Type 0
IsConsistent s = All (IsComponent s.my_node_id s.number_of_nodes) s.distributed_objects

push_back-IsConsistent :
    (object : DistributedOjectClassHolder) (s : Inserted)
    → IsConsistent s
    → IsComponent s.my_node_id s.number_of_nodes object
    → IsConsistent (push_back object s)
unfolding push_back
push_back-IsConsistent object s h p =
    All-append (IsComponent s.my_node_id s.number_of_nodes) s.distributed_objects (object ∷ []) h
      (p, tt)

pub insert_parallel_component-IsConsistent :
    (index : ℕ) (name : List ℕ) (s : Inserted)
    → IsConsistent s
    → IsConsistent (insert_parallel_component index name s).0
unfolding insert_parallel_component
insert_parallel_component-IsConsistent index name s h =
    let object : DistributedOjectClassHolder = record {
      objects = regular;
      ids_per_process = [];
      name = name;
      number_of_local_objects = pos 1;
    } in
    let pushed = push_back-IsConsistent object (in_insertion s) h refl in
    elim (Bool-cases (ltb index (length s.distributed_objects))) [
      | inl t ↦ rw t h
      | inr f ↦
          rw f
            (elim (Bool-cases
              (not (index + 1 == length (push_back object (in_insertion s)).distributed_objects))) [
                | inl t ↦ rw t pushed
                | inr f ↦ rw f pushed
              ])
    ]

with_object-IsConsistent :
    (index : ℕ) (object : DistributedOjectClassHolder) (s : Inserted)
    → IsConsistent s
    → IsComponent s.my_node_id s.number_of_nodes object
    → IsConsistent (with_object index object s)
with_object-IsConsistent index object s h p =
    All-set (IsComponent s.my_node_id s.number_of_nodes) s.distributed_objects index object h p

-- The component at an index, if it is a collection.
component_at :
    (s : Inserted) (index : ℕ) (object : DistributedOjectClassHolder) (es : List (ℕ × ℤ))
    → IsConsistent s
    → get_elem? s.distributed_objects index ≡ some object
    → object.objects ≡ collection es
    → IsCount s.my_node_id s.number_of_nodes es object.number_of_local_objects
        object.ids_per_process
component_at s index object es h found kind =
    subst
      (λ (o : Objects).
        IsCounted s.my_node_id s.number_of_nodes o object.number_of_local_objects
          object.ids_per_process)
      kind
      (All-get_elem? (IsComponent s.my_node_id s.number_of_nodes) s.distributed_objects index object
        h found)

change_ids-some :
    (change : List ℕ → List ℕ) (process : ℕ) (lists : List (List ℕ)) (ids : List ℕ)
    → get_elem? lists process ≡ some ids
    → set lists process (change ids) ≡ change_ids change process lists
unfolding change_ids
change_ids-some change process lists ids e = ground (arith, e)

add_element-IsComponent :
    (my : ℤ) (n i q : ℕ) (es : List (ℕ × ℤ)) (object : DistributedOjectClassHolder)
    → IsCount my n es object.number_of_local_objects object.ids_per_process
    → find i es ≡ none
    → q < n
    → IsComponent my n (add_element my i q es object)
unfolding add_element
add_element-IsComponent my n i q es object c new inside =
    subst
      (λ (lists : List (List ℕ)).
        IsCount my n (es ++ (i, pos q) ∷ [])
          (if pos q ==ℤ my
            then object.number_of_local_objects +ℤ pos 1
            else object.number_of_local_objects)
          lists)
      (change_ids-some (λ (ids : List ℕ). ids ++ i ∷ []) q object.ids_per_process _
        (c.listed q inside))
      (add-IsCount my n es i q object.number_of_local_objects object.ids_per_process c new inside)

remove_element-IsComponent :
    (my : ℤ) (n i q : ℕ) (es : List (ℕ × ℤ)) (object : DistributedOjectClassHolder)
    → IsCount my n es object.number_of_local_objects object.ids_per_process
    → find i es ≡ some (pos q)
    → q < n
    → IsComponent my n (remove_element my i (pos q) es object)
unfolding remove_element
remove_element-IsComponent my n i q es object c found inside =
    subst
      (λ (lists : List (List ℕ)).
        IsCount my n (erase_element i es)
          (if pos q ==ℤ my
            then object.number_of_local_objects -ℤ pos 1
            else object.number_of_local_objects)
          lists)
      (change_ids-some (erase_id i) q object.ids_per_process _ (c.listed q inside))
      (remove-IsCount my n es i q object.number_of_local_objects object.ids_per_process c found
        inside)

-- A call that leaves this state.
leaves : (r t : Insertion) → r ≡ t → IsConsistent t.0 → IsConsistent r.0
leaves r t e h = subst (λ (u : Insertion). IsConsistent u.0) (sym e) h

emplace_into :
    (index i q : ℕ) (s : Inserted) (object : DistributedOjectClassHolder) (es : List (ℕ × ℤ))
    → IsConsistent s
    → get_elem? s.distributed_objects index ≡ some object
    → object.objects ≡ collection es
    → find i es ≡ none
    → IsConsistent (emplace_element index i (pos q) s).0
unfolding emplace_element
emplace_into index i q s object es h found kind new = elim (Bool-cases (ltb q s.number_of_nodes)) [
  | inl t ↦
      leaves (emplace_element index i (pos q) s)
        (with_object index (add_element s.my_node_id i q es object) s, none)
        (ground (arith, found, kind, new, t))
        (with_object-IsConsistent index (add_element s.my_node_id i q es object) s h (
          add_element-IsComponent s.my_node_id s.number_of_nodes i q es object
            (component_at s index object es h found kind) new (ground (arith, t))))
  | inr f ↦
      leaves (emplace_element index i (pos q) s) (s, some no_such_process)
        (ground (arith, found, kind, new, f)) h
]

emplace_element-IsConsistent :
    (index i q : ℕ) (s : Inserted)
    → IsConsistent s
    → IsConsistent (emplace_element index i (pos q) s).0
unfolding emplace_element
emplace_element-IsConsistent index i q s h =
    elim (Option-cases (get_elem? s.distributed_objects index)) [
      | inl e ↦
          leaves (emplace_element index i (pos q) s) (s, some out_of_range) (ground (arith, e)) h
      | inr (object, found) ↦ elim (Objects-cases object.objects) [
        | inl e ↦
            leaves (emplace_element index i (pos q) s) (s, some bad_variant_access)
              (ground (arith, found, e)) h
        | inr (es, kind) ↦ elim (Option-cases (find i es)) [
          | inl new ↦ emplace_into index i q s object es h found kind new
          | inr (p, old) ↦
              leaves (emplace_element index i (pos q) s) (s, some existing_index)
                (ground (arith, found, kind, old)) h
        ]
      ]
    ]

pub insert_parallel_component_collection-IsConsistent :
    (index : ℕ) (name : List ℕ) (i : ℕ) (node : ℤ) (s : Inserted)
    → IsConsistent s
    → IsConsistent (insert_parallel_component_collection index name i node s).0
unfolding insert_parallel_component_collection
insert_parallel_component_collection-IsConsistent index name i (negsuc q) s h =
    leaves (insert_parallel_component_collection index name i (negsuc q) s)
      (s, some negative_process) (ground arith) h
insert_parallel_component_collection-IsConsistent index name i (pos q) s h =
    elim (Bool-cases (index == length s.distributed_objects)) [
      | inl t ↦
          let s' = push_back (new_collection name s.number_of_nodes) (in_insertion s) in
          leaves (insert_parallel_component_collection index name i (pos q) s)
            (emplace_element index i (pos q) s') (ground (arith, t))
            (emplace_element-IsConsistent index i q s' (
              push_back-IsConsistent (new_collection name s.number_of_nodes) (in_insertion s) h
                (none-IsCount s.my_node_id s.number_of_nodes)))
      | inr f ↦
          leaves (insert_parallel_component_collection index name i (pos q) s)
            (emplace_element index i (pos q) (in_insertion s)) (ground (arith, f))
            (emplace_element-IsConsistent index i q (in_insertion s) h)
    ]

remove_from :
    (index i : ℕ) (s : Inserted) (object : DistributedOjectClassHolder) (es : List (ℕ × ℤ)) (p : ℤ)
    → IsConsistent s
    → get_elem? s.distributed_objects index ≡ some object
    → object.objects ≡ collection es
    → find i es ≡ some p
    → IsConsistent (remove_parallel_component_collection index i s).0
unfolding remove_parallel_component_collection
remove_from index i s object es p h found kind old =
    let c = component_at s index object es h found kind in
    let (q, at_q, inside) = find-IsPlaced s.my_node_id s.number_of_nodes i es p old c.placed in
    leaves (remove_parallel_component_collection index i s)
      (with_object index (remove_element s.my_node_id i (pos q) es object) (in_insertion s), none)
      (ground (arith, found, kind, old, at_q))
      (with_object-IsConsistent index (remove_element s.my_node_id i (pos q) es object)
        (in_insertion s) h
        (remove_element-IsComponent s.my_node_id s.number_of_nodes i q es object c
          (old ∙ ap some at_q) inside))

pub remove_parallel_component_collection-IsConsistent :
    (index i : ℕ) (s : Inserted)
    → IsConsistent s
    → IsConsistent (remove_parallel_component_collection index i s).0
unfolding remove_parallel_component_collection
remove_parallel_component_collection-IsConsistent index i s h =
    elim (Option-cases (get_elem? s.distributed_objects index)) [
      | inl e ↦
          leaves (remove_parallel_component_collection index i s)
            (in_insertion s, some never_inserted) (ground (arith, e)) h
      | inr (object, found) ↦ elim (Objects-cases object.objects) [
        | inl e ↦
            leaves (remove_parallel_component_collection index i s)
              (in_insertion s, some not_a_collection) (ground (arith, found, e)) h
        | inr (es, kind) ↦ elim (Option-cases (find i es)) [
          | inl new ↦
              leaves (remove_parallel_component_collection index i s)
                (in_insertion s, some unable_to_remove) (ground (arith, found, kind, new)) h
          | inr (p, old) ↦ remove_from index i s object es p h found kind old
        ]
      ]
    ]
