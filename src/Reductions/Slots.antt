-- ===== src/Reductions/Slots.antt =====
-- What a contribution to a reduction leaves in the table of a thread, and `pop` takes out.
use Prim.Native.Nat.{bit_and}
use findus.Base.{
  ℕ, zero, suc, ◌+◌, ◌-◌, ◌%◌, ◌^◌, ◌<◌, true, false, ◌==◌, List, some, get_elem?, length, set, ◌≡◌,
  ◌≢◌, arith, ap, ◌∙◌, length-set, get_elem?-set_self, get_elem?-set_ne, get_elem?-lt, set-set, inl,
  inr, Bool-cases, Option-cases, ==→eq,
}
use findus.Base.Result.{Result, ok, Result-cases}
use findus.MessageHeader.{MessageType}
use findus.Reductions.{
  ReductionError, insert, Slot, index_loop, index_of, pop, insert_loop, insert_or_combine,
}

module _ {A : Type 0} (id : ℕ) (es : List (Slot A)) (rounds index m : ℕ) (e : Slot A)
    (here : bit_and index (length es - 1) ≡ m) (at : get_elem? es m ≡ some e) where
  index_found : (e.reduction_id == id) ≡ true → index_loop (suc rounds) index id es ≡ some m
  unfolding index_loop
  index_found same = ground (arith, here, at, same)

  index_skips :
      (e.reduction_id == id) ≡ false
      → index_loop (suc rounds) index id es ≡ index_loop rounds ((m + 1) % 2 ^ 64) id es
  unfolding index_loop
  index_skips other = ground (arith, here, at, other)

module _ {A : Type 0} (id : ℕ) (nonzero : id ≢ 0) (word : id < 2 ^ 64)
    (combined : A → Result ReductionError A) (fresh : A) (entries : List (Slot A)) where
  abbrev slot : A → Slot A
  slot a = record { reduction_id = id; callback_and_data = a }

  -- A call that inserts writes to a free entry, and the probing for the id then ends there.
  abbrev Inserted : ℕ → ℕ → List (Slot A) → Type 0
  Inserted rounds index es =
      (i : ℕ) × (e : Slot A) × (get_elem? entries i ≡ some e)
      × (e.reduction_id ≡ 0)
      × (es ≡ set entries i (slot fresh))
      × (index_loop rounds index id es ≡ some i)

  insert_loop_lem :
      (rounds index : ℕ) (es : List (Slot A))
      → insert_loop rounds index id combined fresh entries ≡ ok (insert, es)
      → Inserted rounds index es
  unfolding insert_loop
  insert_loop_lem zero index es h = absurd (ground arith)
  insert_loop_lem (suc rounds) index es h =
      elim (Option-cases (get_elem? entries (bit_and index (length entries - 1)))) [
        | inl missing ↦ absurd (ground (arith, missing))
        | inr (e, at) ↦ elim (Bool-cases (e.reduction_id == id)) [
          | inl same ↦ elim (Result-cases (combined e.callback_and_data)) [
            | inl (a, c) ↦ absurd (ground (arith, at, same, c))
            | inr (q, c) ↦ absurd (ground (arith, at, same, c))
          ]
          | inr other ↦ elim (Bool-cases (e.reduction_id == 0)) [
            | inl free ↦
                let m = bit_and index (length entries - 1) in
                let zero_id : e.reduction_id ≡ 0 = ==→eq _ _ free in
                let own : (e.reduction_id + id) % 2 ^ 64 ≡ id = omega arith in
                let written : es ≡ set entries m (slot fresh) =
                  ground (arith, at, other, free)
                  ∙ ap
                      (λ (n : ℕ).
                        set entries m (record { reduction_id = n; callback_and_data = fresh }))
                      own in
                let size : length es ≡ length entries =
                  ap length written ∙ length-set entries m (slot fresh) in
                let found : get_elem? es m ≡ some (slot fresh) =
                  ap (λ (xs : List (Slot A)). get_elem? xs m) written
                  ∙ get_elem?-set_self entries m _ (get_elem?-lt entries m e at) in
                (
                  m,
                  e,
                  at,
                  zero_id,
                  written,
                  index_found id es rounds index m (slot fresh)
                      (ap (λ (n : ℕ). bit_and index (n - 1)) size) found (ground arith),
                )
            | inr used ↦
                let m = bit_and index (length entries - 1) in
                let goes_on : insert_loop rounds ((m + 1) % 2 ^ 64) id combined fresh entries
                    ≡ ok (insert, es) =
                  ground (arith, at, other, used) in
                let (i, e', at', free', written, found) =
                  insert_loop_lem rounds ((m + 1) % 2 ^ 64) es goes_on in
                let apart : i ≢ m = λ same. ground (arith, at, at', ap (get_elem? entries) same) in
                let size : length es ≡ length entries =
                  ap length written ∙ length-set entries i (slot fresh) in
                let kept : get_elem? es m ≡ some e =
                  ap (λ (xs : List (Slot A)). get_elem? xs m) written
                  ∙ get_elem?-set_ne entries i m _ apart
                  ∙ at in
                (
                  i,
                  e',
                  at',
                  free',
                  written,
                  index_skips id es rounds index m e (ap (λ (n : ℕ). bit_and index (n - 1)) size)
                        kept other
                      ∙ found,
                )
          ]
        ]
      ]

  -- After a call for an id that is not 0 and below 2 ^ 64 has inserted a first contribution, `pop`
  -- gives the message that was stored, and frees the entry that was free before; no other entry
  -- changes.
  pub pop-insert_or_combine :
      (type : MessageType) (es : List (Slot A)) (moved_from : A)
      → insert_or_combine type id combined fresh entries ≡ ok (insert, es)
      → (i : ℕ) × (e : Slot A) × (get_elem? entries i ≡ some e)
        × (e.reduction_id ≡ 0)
        × (pop id es moved_from
            ≡ ok (
              fresh,
              set entries i (record { reduction_id = 0; callback_and_data = moved_from }),
            ))
  unfolding insert_or_combine pop index_of
  pop-insert_or_combine type es moved_from h =
      let inserted : insert_loop (length entries) id id combined fresh entries ≡ ok (insert, es) =
        ground arith in
      let (i, e, at, free, written, found) = insert_loop_lem (length entries) id es inserted in
      let size : length es ≡ length entries =
        ap length written ∙ length-set entries i (slot fresh) in
      let indexed : index_loop (length es) id id es ≡ some i =
        ap (λ (n : ℕ). index_loop n id id es) size ∙ found in
      let stored : get_elem? es i ≡ some (slot fresh) =
        ap (λ (xs : List (Slot A)). get_elem? xs i) written
        ∙ get_elem?-set_self entries i _ (get_elem?-lt entries i e at) in
      let freed : Slot A = record { reduction_id = 0; callback_and_data = moved_from } in
      (
        i,
        e,
        at,
        free,
        ground (arith, indexed, stored)
            ∙ ap (λ (xs : List (Slot A)). ok (fresh, xs))
                (ap (λ (xs : List (Slot A)). set xs i freed) written ∙ set-set entries i _ freed),
      )
