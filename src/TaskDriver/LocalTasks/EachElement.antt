-- ===== src/TaskDriver/LocalTasks/EachElement.antt =====
-- A broadcast to a collection: each element on the process gets one invocation.
use findus.Base.{
  ℕ, zero, suc, ◌≤◌, true, List, [], ◌∷◌, some, length, map, get_elem?, ◌≡◌, refl, ap, sym, arith,
  inl, inr, Bool-cases,
}
use findus.Base.Int.{ℤ, pos, ◌==ℤ◌, ◌-ℤ◌, int_laws}
use findus.Base.Result.{ok}
use findus.Components.{collection, local_ids, DistributedOjectClassHolder}
use findus.MessageHeader.{
  invoke, set_message_type, is_broadcast, change_destination_process_id,
  convert_broadcast_to_invoke,
}
use findus.TaskDriver.{TaskMessage}
use findus.TaskDriver.LocalTasks.{local_copy, copy_to_elements, add_local_broadcast_tasks}

-- The message with another type, target and destination, and nothing else changed.
abbrev pub as_invocation : ℤ → TaskMessage → ℕ → TaskMessage
as_invocation p message index = record message {
  header = record message.header {
    metadata = set_message_type message.header.metadata invoke;
    target_collection_index = index;
    destination_process_id = p;
  };
}

module _ (p : ℤ) (message : TaskMessage) (broadcasts : is_broadcast message.header ≡ true) where
  local_copy_lem : (index : ℕ) → local_copy p message index ≡ ok (as_invocation p message index)
  unfolding local_copy convert_broadcast_to_invoke change_destination_process_id
  local_copy_lem index = ground (arith, broadcasts)

  less_one : (n : ℕ) → pos (suc n) -ℤ pos 1 ≡ pos n
  less_one n = omega int_laws

  nil_of_length : (ids : List ℕ) → length ids ≤ 0 → ids ≡ []
  nil_of_length [] h = refl
  nil_of_length (i ∷ ids) h = absurd (omega arith)

  copy_to_elements_lem :
      (objects : List (ℕ × ℤ)) (left : ℕ)
      → length (local_ids p objects) ≤ left
      → copy_to_elements p message (pos left) objects
        ≡ ok (map (as_invocation p message) (local_ids p objects))
  unfolding copy_to_elements
  copy_to_elements_lem [] left h = refl
  copy_to_elements_lem ((index, process) ∷ rest) zero h =
      ap (λ (ids : List ℕ). ok (map (as_invocation p message) ids))
        (sym (nil_of_length (local_ids p ((index, process) ∷ rest)) h))
  copy_to_elements_lem ((index, process) ∷ rest) (suc left) h = elim (Bool-cases (process ==ℤ p)) [
    | inl e ↦ ground (
      arith,
      e,
      h,
      local_copy_lem index,
      less_one left,
      copy_to_elements_lem rest left (ground (arith, e, h)),
    )
    | inr e ↦ ground (arith, e, h, copy_to_elements_lem rest (suc left) (ground (arith, e, h)))
  ]

  -- A broadcast to a collection that has counted its local elements: the tasks are one copy of the message for each element
  -- of the process, in the order of the map, which is an invocation of that element, addressed to the
  -- process, with the contents and all other fields of the message.
  pub add_local_broadcast_tasks_lem :
      (fresh : ℕ → ℕ) (distributed_objects : List DistributedOjectClassHolder)
      (object : DistributedOjectClassHolder) (objects : List (ℕ × ℤ))
      → get_elem? distributed_objects message.header.distributed_object_index ≡ some object
      → object.objects ≡ collection objects
      → object.number_of_local_objects ≡ pos (length (local_ids p objects))
      → add_local_broadcast_tasks fresh p message distributed_objects
        ≡ ok (map (as_invocation p message) (local_ids p objects))
  unfolding add_local_broadcast_tasks
  add_local_broadcast_tasks_lem fresh distributed_objects object objects found kind number =
      ground (
        arith,
        found,
        kind,
        number,
        broadcasts,
        copy_to_elements_lem objects (length (local_ids p objects)) (omega arith),
      )
