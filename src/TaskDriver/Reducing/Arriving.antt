-- ===== src/TaskDriver/Reducing/Arriving.antt =====
-- All messages of a reduction, in any order of arrival.
use findus.Base.{
  ℕ, zero, suc, ◌+◌, ◌<◌, Bool, true, false, List, [], ◌∷◌, ◌++◌, Option, none, some, length,
  get_elem?, set, map, replicate, All, ◌≡◌, ◌≢◌, inl, inr, refl, ap, ap₂, ◌∙◌, arith,
  get_elem?-set_self, get_elem?-lt, set-set, set-get_elem?, map-++,
}
use findus.MessageHeader.{change_source_process_id, change_destination_process_id}
use findus.Base.Result.{ok, Result-cases}
use findus.Reductions.Interprocess.{ReductionMessage, InterprocessData, combine_inter_process}
use findus.Reductions.Absorb.{IsArrival, total}
use findus.Reductions.Arrivals.{arrivals, unused_entry, Probes}
use findus.Reductions.Completion.{first_header, arrivals-header}
use findus.TaskDriver.{TaskMessage, Payload, TaskDriver, Outcome}
use findus.TaskDriver.Reducing.{
  with_table, pass_on, pass_on_any, send_reduction_message_impl, send_reductions,
}

module _ (fails : ℕ → Bool) (fresh : ℕ → ℕ) (decode : TaskMessage → ReductionMessage Payload)
    (encode : ReductionMessage Payload → TaskMessage) (op : Payload → Payload → Payload)
    (index : ℕ) where
  abbrev pub IsFor : TaskMessage → Type 0
  IsFor t = t.header.distributed_object_index ≡ index

  one_step :
      (t : TaskMessage) (driver : TaskDriver) (table : List (InterprocessData Payload))
      (r : Option (ReductionMessage Payload) × List (InterprocessData Payload))
      → IsFor t
      → get_elem? driver.reduction_tables index ≡ some table
      → combine_inter_process op driver.my_node_id (decode t) table ≡ ok r
      → send_reduction_message_impl fails fresh decode encode op t driver
        ≡ pass_on_any fails fresh decode encode op r.0
            (with_table fails fresh decode encode op index r.1 driver)
  unfolding send_reduction_message_impl
  one_step t driver table r at_index found combined = ground (arith, at_index, found, combined)

  -- The results of the calls one by one.
  waiting :
      (t : TaskMessage) (ts : List TaskMessage) (driver : TaskDriver)
      (table : List (InterprocessData Payload)) (outs : List (Option (ReductionMessage Payload)))
      (last : List (InterprocessData Payload))
      → arrivals op driver.my_node_id (map decode (t ∷ ts)) table ≡ ok (outs, last)
      → (r : Option (ReductionMessage Payload) × List (InterprocessData Payload)) × (rest : List
          (Option (ReductionMessage Payload)))
        × (combine_inter_process op driver.my_node_id (decode t) table ≡ ok r)
        × (arrivals op driver.my_node_id (map decode ts) r.1 ≡ ok (rest, last))
        × (outs ≡ r.0 ∷ rest)
  unfolding arrivals
  waiting t ts driver table outs last h =
      elim (Result-cases (combine_inter_process op driver.my_node_id (decode t) table)) [
        | inr (e, failed) ↦ absurd (ground (arith, failed, h))
        | inl (r, combined) ↦
            elim (Result-cases (arrivals op driver.my_node_id (map decode ts) r.1)) [
              | inr (e, failed) ↦ absurd (ground (arith, combined, failed, h))
              | inl (rs, later) ↦ (
                r,
                rs.0,
                combined,
                ground (arith, combined, later, h),
                ground (arith, combined, later, h),
              )
            ]
      ]

  abbrev run_all : List TaskMessage → Outcome → Outcome
  run_all = send_reductions fails fresh decode encode op

  abbrev let_out : ReductionMessage Payload → List (InterprocessData Payload) → TaskDriver → Outcome
  let_out m last driver =
      pass_on fails fresh decode encode op m
        (with_table fails fresh decode encode op index last driver)

  run_all-nil : (r : Outcome) → run_all [] r ≡ r
  unfolding send_reductions
  run_all-nil (driver, none) = refl
  run_all-nil (driver, some e) = refl

  nothing_left :
      (ts : List TaskMessage) (driver : TaskDriver) (table last : List (InterprocessData Payload))
      → arrivals op driver.my_node_id (map decode ts) table ≡ ok ([], last)
      → (ts ≡ []) × (table ≡ last)
  unfolding arrivals
  nothing_left [] driver table last h = (refl, ground (arith, h))
  nothing_left (t ∷ ts) driver table last h =
      let (r, rest, combined, later, shape) = waiting t ts driver table [] last h in
      absurd (ground (arith, shape))

  table_set :
      (driver : TaskDriver) (table new : List (InterprocessData Payload))
      → get_elem? driver.reduction_tables index ≡ some table
      → get_elem? (set driver.reduction_tables index new) index ≡ some new
  table_set driver table new found =
      get_elem?-set_self driver.reduction_tables index new
        (get_elem?-lt driver.reduction_tables index table found)

  set_twice :
      (m : ReductionMessage Payload) (driver : TaskDriver) (a b : List (InterprocessData Payload))
      → let_out m b (with_table fails fresh decode encode op index a driver) ≡ let_out m b driver
  set_twice m driver a b =
      ap
        (λ (tables : List (List (InterprocessData Payload))).
          pass_on fails fresh decode encode op m (record driver { reduction_tables = tables }))
        (set-set driver.reduction_tables index a b)

  run_all_lem :
      (n : ℕ) (ts : List TaskMessage) (driver : TaskDriver)
      (table last : List (InterprocessData Payload)) (m : ReductionMessage Payload)
      → All IsFor ts
      → get_elem? driver.reduction_tables index ≡ some table
      → arrivals op driver.my_node_id (map decode ts) table
        ≡ ok (replicate n none ++ some m ∷ [], last)
      → run_all ts (driver, none) ≡ let_out m last driver
  unfolding send_reductions arrivals
  run_all_lem zero [] driver table last m h found e = absurd (ground (arith, e))
  run_all_lem (suc n) [] driver table last m h found e = absurd (ground (arith, e))
  run_all_lem zero (t ∷ ts) driver table last m h found e =
      let (r, rest, combined, later, shape) = waiting t ts driver table (some m ∷ []) last e in
      let out : r.0 ≡ some m = ground (arith, shape) in
      let none_left =
        nothing_left ts driver r.1 last
          (later ∙ ap (λ (o : _). ok (o, last)) (ground (arith, shape))) in
      ap (run_all ts) (one_step t driver table r h.0 found combined)
      ∙ ap
          (λ (xs : List TaskMessage). run_all xs (
            pass_on_any fails fresh decode encode op r.0
              (with_table fails fresh decode encode op index r.1 driver)))
          none_left.0
      ∙ run_all-nil _
      ∙ ap₂
          (λ (o : Option (ReductionMessage Payload)) (entries : List (InterprocessData Payload)).
            pass_on_any fails fresh decode encode op o
              (with_table fails fresh decode encode op index entries driver))
          out none_left.1
  run_all_lem (suc n) (t ∷ ts) driver table last m h found e =
      let (r, rest, combined, later, shape) = waiting t ts driver table _ last e in
      let out : r.0 ≡ none = ground (arith, shape) in
      let next = with_table fails fresh decode encode op index r.1 driver in
      ap (run_all ts) (one_step t driver table r h.0 found combined)
      ∙ ap
          (λ (o : Option (ReductionMessage Payload)).
            run_all ts (pass_on_any fails fresh decode encode op o next))
          out
      ∙ run_all_lem n ts next r.1 last m h.1 (table_set driver table r.1 found) (
          later
          ∙ ap (λ (o : List (Option (ReductionMessage Payload))). ok (o, last))
              (ground (arith, shape)))
      ∙ set_twice m driver r.1 last

  -- All but the last message are kept, and at the last the combination of all is passed on, with the tables as
  -- before.
  pub passes_one_on :
      (id : ℕ) (nonzero : id ≢ 0) (driver : TaskDriver) (table : List (InterprocessData Payload))
      (found : get_elem? driver.reduction_tables index ≡ some table) (i d : ℕ)
      (unused : get_elem? table i ≡ some unused_entry) (near : d < length table)
      (leads : Probes id table d id i) (before after : List TaskMessage) (local : TaskMessage)
      → All IsFor (before ++ local ∷ after)
      → All (IsArrival id driver.my_node_id false 0) (map decode before)
      → All (IsArrival id driver.my_node_id false 0) (map decode after)
      → IsArrival id driver.my_node_id true
          (length (map decode before ++ map decode after) + 1)
          (decode local)
      → (m : ReductionMessage Payload) × (run_all (before ++ local ∷ after) (driver, none)
          ≡ pass_on fails fresh decode encode op m driver)
        × (some m.payload ≡ total op (map decode before ++ decode local ∷ map decode after))
        × (m.id ≡ id)
        × (m.header
            ≡ change_source_process_id driver.my_node_id (
                change_destination_process_id
                  (decode local).target_process_id
                  (first_header (map decode before) (decode local))))
  passes_one_on id nonzero driver table found i d unused near leads before after local all_for hb ha
        l =
      let ((m, all_out, whole, same, target, source), header) =
        arrivals-header op driver.my_node_id id nonzero table i d unused near leads
          (map decode before) (map decode after) (decode local) hb ha l in
      (
        m,
        run_all_lem (length (map decode before ++ map decode after)) (before ++ local ∷ after)
              driver table table m all_for found
              (ap (λ (ms : List (ReductionMessage Payload)). arrivals op driver.my_node_id ms table)
                  (map-++ decode before (local ∷ after))
                ∙ all_out)
            ∙ ap
                (λ (tables : List (List (InterprocessData Payload))).
                  pass_on fails fresh decode encode op m
                    (record driver { reduction_tables = tables }))
                (set-get_elem? driver.reduction_tables index table found),
        whole,
        same,
        header,
      )
