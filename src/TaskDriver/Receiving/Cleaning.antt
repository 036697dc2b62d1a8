-- ===== src/TaskDriver/Receiving/Cleaning.antt =====
-- What `clean_incoming_mpi_messages` does with what MPI has brought.
use findus.Base.{
  ℕ, suc, Bool, true, false, List, [], ◌∷◌, ◌++◌, none, some, length, All, ◌≡◌, ◌⊎◌, refl, ap, ◌∙◌,
  arith, inl, inr,
}
use mathlib.Core.Path.{subst}
use mathlib.Core.List.{append_assoc, append-nil}
use findus.Base.Int.{ℤ, pos, ltb_ℤ, ◌+ℤ◌, int_laws}
use findus.MessageHeader.{invoke, message_type, is_broadcast, type_code}
use findus.TaskDriver.{TaskMessage, Incoming, TaskDriver, Outcome, null_dereference}
use findus.TaskDriver.Receiving.{
  handle_received, emptied, remove_loop, Progress, note_sweep, count_message, receive_entry,
  receive_entries, all_messages_are_invoke, messages_of, enqueue_received,
  clean_incoming_mpi_messages,
}
use findus.TaskDriver.Receiving.Removal.{
  IsRemoved, IsKept, All-left_behind, remove_loop_in_order, remove_loop_out_of_order,
}

abbrev IsNull : Progress → Type 0
IsNull p = p.failure ≡ some null_dereference

abbrev pub IsInvoke : Incoming → Type 0
IsInvoke e = (m : TaskMessage) × (e.message ≡ some m) × (message_type m.header ≡ invoke)

abbrev IsInvokeOrEmpty : Incoming → Type 0
IsInvokeOrEmpty e = IsInvoke e ⊎ (e.message ≡ none)

invoke_or_empty : (xs : List Incoming) → All IsInvoke xs → All IsInvokeOrEmpty xs
invoke_or_empty [] h = tt
invoke_or_empty (x ∷ xs) h = (inl h.0, invoke_or_empty xs h.1)

front_part : (P : Incoming → Type 0) (xs ys : List Incoming) → All P (xs ++ ys) → All P xs
front_part P [] ys h = tt
front_part P (x ∷ xs) ys h = (h.0, front_part P xs ys h.1)

-- A message that was received is counted, and its sweep number noted.
abbrev noted : TaskMessage → TaskDriver → TaskDriver
noted m driver =
    note_sweep m.header.quiescence_detection_sweep_number
      (record driver { local_processed = driver.local_processed +ℤ pos 1 })

abbrev pub noted_all : List TaskMessage → TaskDriver → TaskDriver
noted_all [] driver = driver
noted_all (m ∷ ms) driver = noted_all ms (noted m driver)

module _ (fails : ℕ → Bool) (reduce : TaskMessage → TaskDriver → Outcome) (fresh : ℕ → ℕ) where
  receive_entries-append :
      (xs ys : List Incoming) (p : Progress)
      → receive_entries fails reduce fresh (xs ++ ys) p
        ≡ receive_entries fails reduce fresh ys (receive_entries fails reduce fresh xs p)
  unfolding receive_entries
  receive_entries-append [] ys p = refl
  receive_entries-append (x ∷ xs) ys p =
      receive_entries-append xs ys (receive_entry fails reduce fresh x p)

  -- Once a null pointer was read, nothing else happens.
  receive_entries-IsNull :
      (es : List Incoming) (p : Progress)
      → IsNull p
      → IsNull (receive_entries fails reduce fresh es p)
  unfolding receive_entries receive_entry
  receive_entries-IsNull [] p h = h
  receive_entries-IsNull (e ∷ es) p h =
      receive_entries-IsNull es (receive_entry fails reduce fresh e p) (ground (arith, h))

  emptied-IsNull :
      (e : Incoming) (p : Progress)
      → e.message ≡ none
      → p.failure ≡ none
      → IsNull (receive_entry fails reduce fresh e p)
  unfolding receive_entry
  emptied-IsNull e p empty fine = ground (arith, empty, fine)

  abbrev start : TaskDriver → Progress
  start driver = record { driver = driver; number_to_enqueue = pos 0; entries = []; failure = none }

  receive_invoke :
      (e : Incoming) (p : Progress) (m : TaskMessage)
      → e.message ≡ some m
      → message_type m.header ≡ invoke
      → p.failure ≡ none
      → receive_entry fails reduce fresh e p ≡ record {
        driver = noted m p.driver;
        number_to_enqueue = p.number_to_enqueue +ℤ pos 1;
        entries = p.entries ++ e ∷ [];
        failure = none;
      }
  unfolding receive_entry count_message is_broadcast type_code
  receive_invoke e p m some_message kind fine = ground (arith, some_message, kind, fine)

  -- Among invocations, the first emptied entry is read through a null pointer.
  reads-IsNull :
      (before after : List Incoming) (e : Incoming) (p : Progress)
      → All IsInvokeOrEmpty before
      → e.message ≡ none
      → p.failure ≡ none
      → IsNull (receive_entries fails reduce fresh (before ++ e ∷ after) p)
  unfolding receive_entries
  reads-IsNull [] after e p h empty fine =
      receive_entries-IsNull after (receive_entry fails reduce fresh e p)
        (emptied-IsNull e p empty fine)
  reads-IsNull (b ∷ before) after e p h empty fine = elim h.0 [
    | inl (m, some_message, kind) ↦
        reads-IsNull before after e (receive_entry fails reduce fresh b p) h.1 empty
          (ap (λ (q : Progress). q.failure) (receive_invoke b p m some_message kind fine))
    | inr none_left ↦
        receive_entries-IsNull (before ++ e ∷ after) (receive_entry fails reduce fresh b p)
          (emptied-IsNull b p none_left fine)
  ]

  handle_emptied :
      (driver : TaskDriver) (kept before : List Incoming) (e : Incoming) (after : List Incoming)
      → All IsInvokeOrEmpty before
      → (handle_received fails reduce fresh driver (kept, before ++ emptied e ∷ after)).1
        ≡ some null_dereference
  unfolding handle_received enqueue_received
  handle_emptied driver kept [] e after h =
      let null = reads-IsNull [] after (emptied e) (start driver) tt refl refl in
      ground (arith, null)
  handle_emptied driver kept (b ∷ before) e after h =
      let null = reads-IsNull (b ∷ before) after (emptied e) (start driver) h refl refl in
      ground (arith, null)

  plus_zero : (n : ℤ) → n +ℤ pos 0 ≡ n
  plus_zero n = omega int_laws

  one_more : (n : ℤ) (k : ℕ) → n +ℤ pos 1 +ℤ pos k ≡ n +ℤ pos (suc k)
  one_more n k = omega int_laws

  receive_invokes :
      (es : List Incoming) (driver : TaskDriver) (number : ℤ) (entries : List Incoming)
      → All IsInvoke es
      → receive_entries fails reduce fresh es (record {
        driver = driver;
        number_to_enqueue = number;
        entries = entries;
        failure = none;
      })
        ≡ record {
          driver = noted_all (messages_of es) driver;
          number_to_enqueue = number +ℤ pos (length es);
          entries = entries ++ es;
          failure = none;
        }
  unfolding receive_entries
  receive_invokes [] driver number entries h = ground (arith, append-nil entries, plus_zero number)
  receive_invokes (e ∷ es) driver number entries h =
      let (m, some_message, kind) = h.0 in
      ap (receive_entries fails reduce fresh es) (
        receive_invoke e
          (record {
            driver = driver;
            number_to_enqueue = number;
            entries = entries;
            failure = none;
          })
          m some_message kind refl)
      ∙ receive_invokes es (noted m driver) (number +ℤ pos 1) (entries ++ e ∷ []) h.1
      ∙ ground (arith, some_message, one_more number (length es), append_assoc entries (e ∷ []) es)

  noted_all-tasks :
      (ms : List TaskMessage) (driver : TaskDriver) → (noted_all ms driver).tasks ≡ driver.tasks
  noted_all-tasks [] driver = refl
  noted_all-tasks (m ∷ ms) driver = noted_all-tasks ms (noted m driver)

  invokes_are_invoke : (es : List Incoming) → All IsInvoke es → all_messages_are_invoke es ≡ true
  unfolding type_code
  invokes_are_invoke [] h = refl
  invokes_are_invoke (e ∷ es) h = ground (arith, invokes_are_invoke es h.1, h.0.1, h.0.2)

  not_negative : (n : ℕ) → ltb_ℤ (pos 0 +ℤ pos n) (pos 0) ≡ false
  unfolding ◌+ℤ◌
  not_negative n = ground arith

  handle_invokes :
      (driver : TaskDriver) (kept done : List Incoming)
      → All IsInvoke done
      → handle_received fails reduce fresh driver (kept, done) ≡ (
        record (noted_all (messages_of done) driver) {
          tasks = driver.tasks ++ messages_of done;
          incoming_mpi_messages = kept;
        },
        none,
      )
  unfolding handle_received enqueue_received
  handle_invokes driver kept [] h = ground (arith, append-nil driver.tasks)
  handle_invokes driver kept (e ∷ es) h =
      ap (enqueue_received fails reduce fresh kept) (receive_invokes (e ∷ es) driver (pos 0) [] h)
      ∙ ground (
        arith,
        invokes_are_invoke (e ∷ es) h,
        not_negative (suc (length es)),
        noted_all-tasks (messages_of (e ∷ es)) driver,
      )

  module _ (completed : ℕ → Bool) where
    abbrev pub is_complete : Incoming → Bool
    is_complete e = completed e.request

    -- Receives of invocations, of which one is complete and before one in the list that is not, the last
    -- such: the call reads a message through a null pointer, where its behaviour is undefined.
    pub clean_out_of_order :
        (driver : TaskDriver) (xs ys zs : List Incoming) (d e : Incoming)
        → driver.incoming_mpi_messages ≡ (xs ++ d ∷ ys) ++ e ∷ zs
        → All IsInvoke driver.incoming_mpi_messages
        → is_complete d ≡ true
        → is_complete e ≡ false
        → All (IsRemoved is_complete) zs
        → (clean_incoming_mpi_messages fails reduce fresh completed driver).1
          ≡ some null_dereference
    unfolding clean_incoming_mpi_messages
    clean_out_of_order driver xs ys zs d e list invokes done pending rest =
        let (kept, before, left) =
          remove_loop_out_of_order is_complete xs ys zs d e done pending rest in
        let whole = ap (remove_loop is_complete [] []) list ∙ left in
        let behind : All IsInvokeOrEmpty (before ++ emptied e ∷ zs) =
          subst (λ (r : List Incoming × List Incoming). All IsInvokeOrEmpty r.1) whole
            (All-left_behind is_complete IsInvokeOrEmpty (λ x. inr refl)
              driver.incoming_mpi_messages [] []
              (invoke_or_empty driver.incoming_mpi_messages invokes) tt) in
        ap (λ (r : List Incoming × List Incoming). (handle_received fails reduce fresh driver r).1)
          whole
        ∙ handle_emptied driver kept before e zs
            (front_part IsInvokeOrEmpty before (emptied e ∷ zs) behind)

    -- Receives that are complete behind those that are not, all of them invocations: their messages become tasks in
    -- the order of arrival, each is counted as processed and its sweep number noted, the others stay, and nothing
    -- else changes.
    pub clean_in_order :
        (driver : TaskDriver) (kept done : List Incoming)
        → driver.incoming_mpi_messages ≡ kept ++ done
        → All (IsKept is_complete) kept
        → All (IsRemoved is_complete) done
        → All IsInvoke done
        → clean_incoming_mpi_messages fails reduce fresh completed driver ≡ (
          record (noted_all (messages_of done) driver) {
            tasks = driver.tasks ++ messages_of done;
            incoming_mpi_messages = kept;
          },
          none,
        )
    unfolding clean_incoming_mpi_messages
    clean_in_order driver kept done list h k invokes =
        ap (handle_received fails reduce fresh driver)
          (ap (remove_loop is_complete [] []) list ∙ remove_loop_in_order is_complete kept done h k)
        ∙ handle_invokes driver kept done invokes
