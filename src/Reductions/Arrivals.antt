-- ===== src/Reductions/Arrivals.antt =====
-- The messages of one reduction at one process, in any order: all but the last are kept, and the
-- last one sends on what all of them contributed.
use findus.Base.{
  ℕ, zero, suc, ◌+◌, ◌-◌, ◌%◌, ◌^◌, ◌<◌, Bool, true, ◌==◌, if◌then◌else◌, ◌||◌, List, [], ◌∷◌,
  Option, none, some, get_elem?, length, set, ◌≡◌, ◌≢◌, refl, sym, ap, ◌∙◌, arith, ◌⊎◌, inl, inr,
  length-set, get_elem?-set_self, get_elem?-set_ne, get_elem?-lt, set-set, set-get_elem?,
}
use Prim.Native.Nat.{bit_and}
use findus.Base.Int.{ℤ, pos, ◌+ℤ◌, ◌-ℤ◌, ◌==ℤ◌}
use findus.Base.Result.{Result, ok, ◌>>=◌}
use findus.MessageHeader.{
  message_type, same_type, reduction, reduction_over, change_source_process_id,
  change_destination_process_id,
}
use findus.Reductions.Interprocess.{
  ReductionMessage, InterprocessError, InterprocessData, Probe, same_id, free_slot, locate, combine,
  add_contribution, first_contribution, Outcome, take_complete, store_first, store_next,
  combine_inter_process,
}

abbrev pub unused_entry : {A : Type 0} → InterprocessData A
unused_entry = record { reduction_id = 0; message = none }

abbrev pub is_reduction : {A : Type 0} → ReductionMessage A → Bool
is_reduction m =
    same_type (message_type m.header) reduction || same_type (message_type m.header) reduction_over

-- The messages one after another: what leaves the table at each of them, and the table at the end.
unfoldable pub arrivals :
    {A : Type 0}
    → (A → A → A)
    → ℤ
    → List (ReductionMessage A)
    → List (InterprocessData A)
    → Result InterprocessError (List (Option (ReductionMessage A)) × List (InterprocessData A))
arrivals op self [] entries = ok ([], entries)
arrivals {A} op self (m ∷ ms) entries =
    combine_inter_process op self m entries
    >>= λ (r : Option (ReductionMessage A) × List (InterprocessData A)).
        arrivals op self ms r.1
        >>= λ (rs : List (Option (ReductionMessage A)) × List (InterprocessData A)).
            ok (r.0 ∷ rs.0, rs.1)

-- From `index` the probing for `id` passes `d` entries of other reductions and comes to `target`.
abbrev pub Probes : {A : Type 0} → ℕ → List (InterprocessData A) → ℕ → ℕ → ℕ → Type 0
Probes id entries zero index target = bit_and index (length entries - 1) ≡ target
Probes {A} id entries (suc d) index target =
    (e : InterprocessData A) × (get_elem? entries (bit_and index (length entries - 1)) ≡ some e)
    × (e.reduction_id ≢ 0)
    × (e.reduction_id ≢ id)
    × Probes id entries d ((bit_and index (length entries - 1) + 1) % 2 ^ 64) target

module _ {A : Type 0} (id : ℕ) (nonzero : id ≢ 0) (entries : List (InterprocessData A)) (i : ℕ)
    (unused : get_elem? entries i ≡ some unused_entry) where
  abbrev with : InterprocessData A → List (InterprocessData A)
  with x = set entries i x

  inside : i < length entries
  inside = get_elem?-lt entries i unused_entry unused

  abbrev probed : InterprocessData A → Probe
  probed x = if x.reduction_id == id then same_id i else free_slot i

  locate-with :
      (x : InterprocessData A) (d rounds index : ℕ)
      → (x.reduction_id ≡ id) ⊎ (x.reduction_id ≡ 0)
      → d < rounds
      → Probes id entries d index i
      → locate rounds index id (with x) ≡ probed x
  unfolding locate
  locate-with x d zero index own more leads = absurd (omega arith)
  locate-with x zero (suc rounds) index own more here =
      let size = length-set entries i x in
      let masked : bit_and index (length (with x) - 1) ≡ i =
        ap (λ (n : ℕ). bit_and index (n - 1)) size ∙ here in
      let at = get_elem?-set_self entries i x inside in ground (arith, masked, at, own)
  locate-with x (suc d) (suc rounds) index own more (e, at, used, other, rest) =
      let m = bit_and index (length entries - 1) in
      let apart : i ≢ m = λ same. ground (arith, at, unused, ap (get_elem? entries) same) in
      let masked : bit_and index (length (with x) - 1) ≡ m =
        ap (λ (n : ℕ). bit_and index (n - 1)) (length-set entries i x) in
      let kept = get_elem?-set_ne entries i m x apart ∙ at in
      let later = locate-with x d rounds ((m + 1) % 2 ^ 64) own (omega arith) rest in
      ground (arith, masked, kept, later)

-- The message in the table after `message` was added to `old`.
abbrev pub absorb :
    {A : Type 0} → (A → A → A) → ℤ → ReductionMessage A → ReductionMessage A → ReductionMessage A
absorb op self message old =
    let own = message.header.source_process_id ==ℤ self in
    record old {
      target_process_id = if own then message.target_process_id else old.target_process_id;
      expected_number_of_contributions =
          old.expected_number_of_contributions +ℤ message.expected_number_of_contributions -ℤ pos 1;
      expected_number_of_root_contributions =
          if own
          then message.expected_number_of_root_contributions
          else old.expected_number_of_root_contributions;
      payload = op old.payload message.payload;
    }

combine-free_slot :
    {A : Type 0} (op : A → A → A) (self : ℤ) (m : ReductionMessage A)
    (es : List (InterprocessData A)) (i : ℕ)
    → is_reduction m ≡ true
    → locate (length es) m.id m.id es ≡ free_slot i
    → combine_inter_process op self m es ≡ take_complete self i (store_first m i es)
unfolding combine_inter_process
combine-free_slot op self m es i kind found = ground (arith, kind, found)

combine-same_id :
    {A : Type 0} (op : A → A → A) (self : ℤ) (m old : ReductionMessage A)
    (es : List (InterprocessData A)) (i n : ℕ)
    → is_reduction m ≡ true
    → locate (length es) m.id m.id es ≡ same_id i
    → get_elem? es i ≡ some (record { reduction_id = n; message = some old })
    → m.id ≡ old.id
    → combine_inter_process op self m es
      ≡ take_complete self i
          (set es i (record { reduction_id = n; message = some (absorb op self m old) }))
unfolding combine_inter_process store_next add_contribution combine
combine-same_id op self m old es i n kind found at same =
    let agree : (old.id == m.id) ≡ true = ground (arith, same) in
    ground (arith, kind, found, at, agree)

abbrev pub sent_on : {A : Type 0} → ℤ → ReductionMessage A → ReductionMessage A
sent_on self m = record m {
  header =
      change_source_process_id self (change_destination_process_id m.target_process_id m.header);
}

module _ {A : Type 0} (op : A → A → A) (self : ℤ) (id : ℕ) (nonzero : id ≢ 0)
    (entries : List (InterprocessData A)) (i d : ℕ)
    (unused : get_elem? entries i ≡ some unused_entry) (near : d < length entries)
    (leads : Probes id entries d id i) where
  pub holding : ReductionMessage A → List (InterprocessData A)
  holding m = set entries i (record { reduction_id = id; message = some m })

  -- What `take_complete` makes of the message in the table.
  unfoldable pub settle : ReductionMessage A → Outcome A
  settle m =
      if m.expected_number_of_contributions ==ℤ pos 0
      then ok (some (sent_on self m), entries)
      else ok (none, holding m)

  take_complete-holding : (m : ReductionMessage A) → take_complete self i (holding m) ≡ settle m
  unfolding take_complete holding settle
  take_complete-holding m =
      let at =
        get_elem?-set_self entries i (record { reduction_id = id; message = some m })
          (inside id nonzero entries i unused) in
      let back : set (holding m) i unused_entry ≡ entries =
        set-set entries i _ unused_entry ∙ set-get_elem? entries i unused_entry unused in
      ground (arith, at, back)

  pub combine-first :
      (m : ReductionMessage A)
      → is_reduction m ≡ true
      → m.id ≡ id
      → combine_inter_process op self m entries ≡ settle (first_contribution m)
  unfolding store_first holding
  combine-first m kind own =
      let start : set entries i unused_entry ≡ entries =
        set-get_elem? entries i unused_entry unused in
      let probe : locate (length entries) id id (set entries i unused_entry) ≡ free_slot i =
        ground (
          arith,
          locate-with id nonzero entries i unused unused_entry d (length entries) id (inr refl) near
              leads,
        ) in
      let found : locate (length entries) m.id m.id entries ≡ free_slot i =
        ap (λ (n : ℕ). locate (length entries) n n entries) own
        ∙ ap (locate (length entries) id id) (sym start)
        ∙ probe in
      combine-free_slot op self m entries i kind found
      ∙ ap
          (λ (n : ℕ).
            take_complete self i
              (set entries i (record { reduction_id = n; message = some (first_contribution m) })))
          own
      ∙ take_complete-holding (first_contribution m)

  pub combine-next :
      (m old : ReductionMessage A)
      → is_reduction m ≡ true
      → m.id ≡ id
      → old.id ≡ id
      → combine_inter_process op self m (holding old) ≡ settle (absorb op self m old)
  unfolding holding
  combine-next m old kind own same =
      let entry : InterprocessData A = record { reduction_id = id; message = some old } in
      let size = length-set entries i entry in
      let probe : locate (length entries) id id (holding old) ≡ same_id i = ground (
        arith,
        locate-with id nonzero entries i unused entry d (length entries) id (inl refl) near leads,
      ) in
      let found : locate (length (holding old)) m.id m.id (holding old) ≡ same_id i =
        ap (λ (n : ℕ). locate (length (holding old)) n n (holding old)) own
        ∙ ap (λ (n : ℕ). locate n id id (holding old)) size
        ∙ probe in
      combine-same_id op self m old (holding old) i id kind found
        (get_elem?-set_self entries i entry (inside id nonzero entries i unused)) (own ∙ sym same)
      ∙ ap (take_complete self i) (set-set entries i entry _)
      ∙ take_complete-holding (absorb op self m old)
