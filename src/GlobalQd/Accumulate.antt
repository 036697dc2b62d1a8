-- ===== src/GlobalQd/Accumulate.antt =====
-- What a process has accumulated from its children after the up messages that have arrived.
use findus.Base.{
  ℕ, ◌+◌, ◌%◌, ◌^◌, ◌<◌, Bool, true, ◌==◌, if◌then◌else◌, List, [], ◌∷◌, ◌≡◌, refl, arith, ap, ◌∙◌,
  Bool-cases, inl, inr, ==→eq,
}
use findus.Base.Int.{ℤ}
use findus.Base.Result.{ok, Result-cases}
use findus.GlobalQd.{
  Message, sweep_number, safe_add, AccumulationData, Global, accumulated, store_accumulated,
  MpiCall,
}
use findus.GlobalQd.Collect.{accumulate, receive_all}

accumulated-store_accumulated :
    (key other : ℕ) (a : AccumulationData) (ds : List (ℕ × AccumulationData))
    → accumulated key (store_accumulated other a ds)
      ≡ (if other == key then a else accumulated key ds)
unfolding accumulated store_accumulated
accumulated-store_accumulated key other a [] = refl
accumulated-store_accumulated key other a ((k, b) ∷ rest) =
    ground (arith, accumulated-store_accumulated key other a rest)

abbrev pub add_message : ℕ → Message → AccumulationData → AccumulationData
add_message key m a =
    if sweep_number m == key
    then record {
      send_minus_processed = safe_add a.send_minus_processed m.count;
      number_of_children_received_from = a.number_of_children_received_from + 1;
    }
    else a

accumulate_lem :
    (key : ℕ) (m : Message) (g g' : Global)
    → (accumulated key g.accum_data).number_of_children_received_from < 3
    → accumulate m g ≡ ok g'
    → (accumulated key g'.accum_data ≡ add_message key m (accumulated key g.accum_data))
      × (accumulated key g'.accum_data).number_of_children_received_from < 3
unfolding accumulate
accumulate_lem key m g g' few h =
    let old = accumulated (sweep_number m) g.accum_data in
    let stored =
      accumulated-store_accumulated key (sweep_number m)
        (record {
          send_minus_processed = safe_add old.send_minus_processed m.count;
          number_of_children_received_from = (old.number_of_children_received_from + 1) % 2 ^ 8;
        })
        g.accum_data in
    let same : sweep_number m ≡ key → old ≡ accumulated key g.accum_data =
      λ e. ap (λ (k : ℕ). accumulated k g.accum_data) e in
    let decided : ((sweep_number m == key) ≡ true) → sweep_number m ≡ key = λ e. ==→eq _ _ e in
    elim (Bool-cases (sweep_number m == key)) [
      | inl e ↦ (ground (arith, stored, same (decided e)), ground (arith, stored, same (decided e)))
      | inr e ↦ (ground (arith, stored), ground (arith, stored))
    ]

accumulate-parts :
    (m : Message) (g g' : Global)
    → accumulate m g ≡ ok g'
    → g' ≡ record g { accum_data = g'.accum_data }
unfolding accumulate
accumulate-parts m g g' h = ground (arith, h)

-- The messages of one sweep, added up in the order of their arrival.
abbrev pub add_messages : ℕ → List Message → AccumulationData → AccumulationData
add_messages key [] a = a
add_messages key (m ∷ ms) a = add_messages key ms (add_message key m a)

module _ (fails : MpiCall → Bool) (done : ℕ → Bool) where
  -- When the loop over the up messages of a child returns, a sweep that had less than three
  -- messages before has got its own of these messages added, in their order, and no others,
  -- and still has less than three; and nothing but the accumulations has changed.
  pub receive_all_lem :
      (child : ℤ) (ms : List Message) (g g' : Global) (key : ℕ)
      → (accumulated key g.accum_data).number_of_children_received_from < 3
      → receive_all fails done child ms g ≡ ok g'
      → (accumulated key g'.accum_data ≡ add_messages key ms (accumulated key g.accum_data))
        × ((accumulated key g'.accum_data).number_of_children_received_from < 3)
        × (g' ≡ record g { accum_data = g'.accum_data })
  unfolding receive_all
  receive_all_lem child [] g g' key few h = (ground arith, ground arith, ground (arith, h))
  receive_all_lem child (m ∷ ms) g g' key few h = elim (Result-cases (accumulate m g)) [
    | inl (g1, e) ↦
        let first = accumulate_lem key m g g1 few e in
        let later : receive_all fails done child ms g1 ≡ ok g' = ground (arith, e) in
        let rest = receive_all_lem child ms g1 g' key first.1 later in
        (
          rest.0 ∙ ap (add_messages key ms) first.0,
          rest.1,
          rest.2
              ∙ ap (λ (x : Global). record x { accum_data = g'.accum_data })
                  (accumulate-parts m g g1 e),
        )
    | inr (f, e) ↦ absurd (ground (arith, e))
  ]
