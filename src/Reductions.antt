-- ===== src/Reductions.antt =====
-- The thread's own table of reductions, DataHandler of Reduction.hpp and Reduction.cpp. Data, callback and
-- message of a reduction are a value of any type; `combine` is the reduction's binary operation. The
-- handler of a thread is written by one thread only, so its operations are run one after another.
pub mod Slots
pub mod Interprocess
pub mod Arrivals
pub mod Absorb
pub mod Completion
use findus.Base.{
  ℕ, zero, suc, ◌+◌, ◌-◌, ◌%◌, ◌^◌, Bool, true, false, ◌==◌, if◌then◌else◌, not, ◌&&◌, List, [],
  ◌∷◌, Option, none, some, get_elem?, length, set, replicate,
}
use Prim.Native.Nat.{bit_and}
use findus.Base.Result.{Result, ok, err, ◌>>=◌}
use findus.MessageHeader.{MessageType, reduction, reduction_over, same_type}

pub data InsertAction : Type 0 where
  insert combine_action complete at_capacity : InsertAction

pub data ReductionError : Type 0 where
  zero_id wrong_message_type wrong_data not_found bad_index : ReductionError

-- An entry that is not in use has the id 0; `callback_and_data` may be left from an earlier use.
pub record Slot (A : Type 0) : Type 0 where
  pub reduction_id : ℕ
  pub callback_and_data : A

module _ {A : Type 0} where
  unfoldable pub create_data_handler : ℕ → A → List (Slot A)
  create_data_handler max_simultaneous_reductions empty =
      replicate max_simultaneous_reductions (record { reduction_id = 0; callback_and_data = empty })

  -- The loop of `index_of`: `rounds` is the size less `counter`.
  unfoldable pub index_loop : ℕ → ℕ → ℕ → List (Slot A) → Option ℕ
  index_loop zero index id entries = none
  index_loop (suc rounds) index id entries =
      let masked = bit_and index (length entries - 1) in
      let rest = index_loop rounds ((masked + 1) % 2 ^ 64) id entries in
      elim (get_elem? entries masked) [
        | none ↦ none
        | some e ↦ if e.reduction_id == id then some masked else rest
      ]

  unfoldable pub index_of : ℕ → List (Slot A) → Option ℕ
  unfolding index_loop
  index_of id entries = index_loop (length entries) id id entries

  unfoldable pub pop : ℕ → List (Slot A) → A → Result ReductionError (A × List (Slot A))
  unfolding index_of
  pop id entries moved_from = elim (index_of id entries) [
    | none ↦ err not_found
    | some i ↦ elim (get_elem? entries i) [
      | none ↦ err bad_index
      | some e ↦ ok (
        e.callback_and_data,
        set entries i (record { reduction_id = 0; callback_and_data = moved_from }),
      )
    ]
  ]

  -- The loop of `insert_or_combine`: `combined` adds the contribution to the data found, which
  -- fails if that is not data of the type, and `fresh` is the message for the first contribution.
  unfoldable pub insert_loop :
      ℕ
      → ℕ
      → ℕ
      → (A → Result ReductionError A)
      → A
      → List (Slot A)
      → Result ReductionError (InsertAction × List (Slot A))
  insert_loop zero index id combined fresh entries = ok (at_capacity, entries)
  insert_loop (suc rounds) index id combined fresh entries =
      let masked = bit_and index (length entries - 1) in
      let rest = insert_loop rounds ((masked + 1) % 2 ^ 64) id combined fresh entries in
      elim (get_elem? entries masked) [
        | none ↦ err bad_index
        | some e ↦
            if e.reduction_id == id
            then (combined e.callback_and_data >>= λ (a : A). ok (
              combine_action,
              set entries masked (record { reduction_id = e.reduction_id; callback_and_data = a }),
            ))
            else if not (e.reduction_id == 0)
            then rest
            else ok (
              insert,
              set entries masked (record {
                reduction_id = (e.reduction_id + id) % 2 ^ 64;
                callback_and_data = fresh;
              }),
            )
      ]

  unfoldable pub insert_or_combine :
      MessageType
      → ℕ
      → (A → Result ReductionError A)
      → A
      → List (Slot A)
      → Result ReductionError (InsertAction × List (Slot A))
  unfolding insert_loop
  insert_or_combine type id combined fresh entries =
      if id == 0
      then err zero_id
      else if not (same_type type reduction) && not (same_type type reduction_over)
      then err wrong_message_type
      else insert_loop (length entries) id id combined fresh entries
