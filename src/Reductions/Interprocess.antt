-- ===== src/Reductions/Interprocess.antt =====
-- Reductions between processes, Handler of Reduction.hpp and Reduction.cpp: a message of a reduction with its
-- metadata, the table of a process, and how a message from the process itself or from another one is
-- added to it. The binary operation does not throw. An `int32_t` count is an integer.
use findus.Base.{
  ℕ, zero, suc, ◌+◌, ◌-◌, ◌%◌, ◌^◌, Bool, false, ◌==◌, if◌then◌else◌, not, ◌&&◌, ◌||◌, List, [],
  ◌∷◌, Option, none, some, get_elem?, length, set,
}
use Prim.Native.Nat.{bit_and, bit_or}
use findus.Base.Int.{ℤ, pos, minus_one, ltb_ℤ, ◌+ℤ◌, ◌-ℤ◌, ◌==ℤ◌}
use findus.Base.Result.{Result, ok, err, ◌>>=◌}
use findus.ProcessTree.{TreeError, find_first_parent, count_first_descendants}
use findus.MessageHeader.{
  MessageHeader, message_type, same_type, reduction, reduction_over, change_source_process_id,
  change_destination_process_id,
}

-- The header, the metadata behind it, and the data.
pub record ReductionMessage (A : Type 0) : Type 0 where
  pub header : MessageHeader
  pub id : ℕ
  pub target_process_id : ℤ
  pub expected_number_of_contributions : ℤ
  pub expected_number_of_root_contributions : ℤ
  pub contributed_metadata : ℕ
  pub payload : A

pub data InterprocessError : Type 0 where
  not_a_reduction ids_differ no_message no_entry : InterprocessError

-- A message that was moved out is `none`.
pub record InterprocessData (A : Type 0) : Type 0 where
  pub reduction_id : ℕ
  pub message : Option (ReductionMessage A)

-- Where the probing ends: at an entry for the id, at a free one, or behind the last one probed.
pub data Probe : Type 0 where
  same_id free_slot exhausted : ℕ → Probe

-- The message that leaves the table, if one does, and the table.
abbrev pub Outcome : Type 0 → Type 0
Outcome A = Result InterprocessError (Option (ReductionMessage A) × List (InterprocessData A))

-- `std::any_of`.
abbrev pub any_of : (ℕ → Bool) → List ℕ → Bool
any_of p [] = false
any_of p (x ∷ xs) = p x || any_of p xs

-- Whether a process with a smaller id contributes, in any order of the ids.
unfoldable pub any_below : ℕ → (ℕ → Bool) → Bool
any_below zero p = false
any_below (suc n) p = any_below n p || p n

unfoldable pub count_ids : (ℕ → Bool) → List ℕ → ℕ
count_ids p [] = 0
count_ids p (id ∷ ids) = (if p id then 1 else 0) + count_ids p ids

unfoldable pub count_elements : (ℕ → Bool) → List (List ℕ) → ℕ
unfolding count_ids
count_elements p [] = 0
count_elements p (ids ∷ ids_per_process) = count_ids p ids + count_elements p ids_per_process

module _ {A : Type 0} where
  -- The `for` loop: `rounds` is the size less `counter`.
  unfoldable pub locate : ℕ → ℕ → ℕ → List (InterprocessData A) → Probe
  locate zero index id entries = exhausted index
  locate (suc rounds) index id entries =
      let masked = bit_and index (length entries - 1) in
      let rest = locate rounds ((masked + 1) % 2 ^ 64) id entries in
      elim (get_elem? entries masked) [
        | none ↦ exhausted masked
        | some e ↦
            if e.reduction_id == id
            then same_id masked
            else if not (e.reduction_id == 0)
            then rest
            else free_slot masked
      ]

  -- `detail::combine`, with the data of both messages not serialized.
  unfoldable pub combine :
      (A → A → A)
      → ReductionMessage A
      → ReductionMessage A
      → Result InterprocessError (ReductionMessage A)
  combine op message0 message1 =
      if not (message0.id == message1.id)
      then err ids_differ
      else ok (record message0 { payload = op message0.payload message1.payload })

  -- What a message adds to the one in the table.
  unfoldable pub add_contribution :
      (A → A → A)
      → ℤ
      → ReductionMessage A
      → ReductionMessage A
      → Result InterprocessError (ReductionMessage A)
  unfolding combine
  add_contribution op self message old =
      let counted : ReductionMessage A = record old {
        expected_number_of_contributions =
            old.expected_number_of_contributions
            +ℤ message.expected_number_of_contributions
            -ℤ pos 1;
      } in
      let informed : ReductionMessage A =
        if message.header.source_process_id ==ℤ self
        then record counted {
          target_process_id = message.target_process_id;
          expected_number_of_root_contributions = message.expected_number_of_root_contributions;
        }
        else counted in
      combine op informed message

  -- The first message of a reduction.
  unfoldable pub first_contribution : ReductionMessage A → ReductionMessage A
  first_contribution message = record message {
    expected_number_of_contributions =
        if message.header.destination_process_id ==ℤ pos 0
          && not (message.expected_number_of_root_contributions ==ℤ pos 0)
        then message.expected_number_of_root_contributions -ℤ pos 1
        else message.expected_number_of_contributions -ℤ pos 1;
  }

  -- Behind the loop: a reduction that expects nothing more leaves the table.
  unfoldable pub take_complete : ℤ → ℕ → List (InterprocessData A) → Outcome A
  unfolding change_destination_process_id change_source_process_id
  take_complete self index entries = elim (get_elem? entries index) [
    | none ↦ err no_entry
    | some e ↦ elim e.message [
      | none ↦ err no_message
      | some m ↦
          if m.expected_number_of_contributions ==ℤ pos 0
          then ok (
            some (record m {
              header =
                  change_source_process_id self
                    (change_destination_process_id m.target_process_id m.header);
            }),
            set entries index (record { reduction_id = 0; message = none }),
          )
          else ok (none, entries)
    ]
  ]

  unfoldable pub store_first :
      ReductionMessage A → ℕ → List (InterprocessData A) → List (InterprocessData A)
  unfolding first_contribution
  store_first message index entries =
      set entries index
        (record { reduction_id = message.id; message = some (first_contribution message) })

  unfoldable pub store_next :
      (A → A → A)
      → ℤ
      → ReductionMessage A
      → ℕ
      → List (InterprocessData A)
      → Result InterprocessError (List (InterprocessData A))
  unfolding add_contribution
  store_next op self message index entries = elim (get_elem? entries index) [
    | none ↦ err no_entry
    | some e ↦ elim e.message [
      | none ↦ err no_message
      | some old ↦ add_contribution op self message old >>= λ (m : ReductionMessage A).
          ok (set entries index (record e { message = some m }))
    ]
  ]

  unfoldable pub combine_inter_process :
      (A → A → A) → ℤ → ReductionMessage A → List (InterprocessData A) → Outcome A
  unfolding locate store_first store_next take_complete
  combine_inter_process op self message entries =
      let type = message_type message.header in
      if not (same_type type reduction) && not (same_type type reduction_over)
      then err not_a_reduction
      else (elim (locate (length entries) message.id message.id entries) [
        | same_id i ↦ store_next op self message i entries >>= λ (es : List (InterprocessData A)).
            take_complete self i es
        | free_slot i ↦ take_complete self i (store_first message i entries)
        | exhausted i ↦ take_complete self i entries
      ])

  -- What a process writes into its own message before it is added: the process to send to, the
  -- number of messages to wait for, its own included, and, where the root takes no part, the number
  -- that the root waits for.
  unfoldable pub set_process_info :
      ℤ → ℤ → (ℤ → Bool) → ReductionMessage A → Result TreeError (ReductionMessage A)
  unfolding change_source_process_id
  set_process_info process_id total predicate message =
      (if process_id ==ℤ pos 0 then ok minus_one else find_first_parent process_id total predicate)
      >>= λ (parent : ℤ). count_first_descendants process_id total predicate >>= λ (below : ℕ).
          (if not (process_id ==ℤ pos 0)
              && (parent ==ℤ pos 0 || parent ==ℤ minus_one)
              && not (predicate (pos 0))
            then (count_first_descendants (pos 0) total predicate >>= λ (c : ℕ). ok (pos c))
            else ok message.expected_number_of_root_contributions)
          >>= λ (root : ℤ). ok (record message {
            target_process_id = if ltb_ℤ parent (pos 0) then pos 0 else parent;
            expected_number_of_contributions = pos (below + 1);
            expected_number_of_root_contributions = root;
            header = change_source_process_id process_id message.header;
          })

  -- The overload with a predicate on processes: only the process itself is marked as contributing.
  unfoldable pub set_interprocess_message_info :
      ℤ → ℤ → (ℤ → Bool) → ReductionMessage A → Result TreeError (ReductionMessage A)
  unfolding set_process_info
  set_interprocess_message_info process_id total predicate message =
      set_process_info process_id total predicate message >>= λ (m : ReductionMessage A).
      ok (record m { contributed_metadata = bit_or 0 0b1 })

  -- The overload with the elements of each process, which leaves the marks alone.
  unfoldable pub set_interprocess_message_info_of_elements :
      ℤ → ℤ → (ℤ → List ℕ) → (ℕ → Bool) → ReductionMessage A → Result TreeError (ReductionMessage A)
  unfolding set_process_info
  set_interprocess_message_info_of_elements process_id total elements_on_pid element_predicate
        message =
      set_process_info process_id total (λ pid. any_of element_predicate (elements_on_pid pid))
        message

-- The number of elements that a broadcast goes to is left to the first process that contributes.
unfoldable pub size_for_broadcast_to : ℕ → (ℕ → Bool) → List (List ℕ) → (ℕ → Bool) → ℕ
unfolding any_below count_elements
size_for_broadcast_to process_id reduction_predicate ids_per_process broadcast_to_predicate =
    if any_below process_id reduction_predicate
    then 0
    else count_elements broadcast_to_predicate ids_per_process
