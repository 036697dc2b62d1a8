-- ===== src/Reductions/Completion.antt =====
-- When a reduction between processes is complete at a process, and what it then sends on.
use findus.Base.{
  ℕ, suc, ◌+◌, ◌<◌, true, false, List, [], ◌∷◌, ◌++◌, Option, none, some, get_elem?, length,
  replicate, All, ◌≡◌, ◌≢◌, refl, ap, ap₂, ◌∙◌, arith,
}
use findus.Base.Int.{ℤ, pos, negsuc, ◌+ℤ◌, ◌-ℤ◌, ◌==ℤ◌}
use findus.Base.Result.{Result, ok, ◌>>=◌}
use findus.MessageHeader.{MessageHeader, change_source_process_id, change_destination_process_id}
use findus.Reductions.Interprocess.{
  ReductionMessage, InterprocessError, InterprocessData, first_contribution, Outcome,
}
use findus.Reductions.Absorb.{
  absorb_all, total, IsArrival, id-absorb_all, header-absorb_all, payload-absorb_all,
  target-absorb_all, target-absorb_all-own,
}
use findus.Reductions.Arrivals.{
  unused_entry, is_reduction, arrivals, Probes, absorb, sent_on, holding, settle, combine-first,
  combine-next,
}

-- The header of the first of some messages that are followed by the process's own.
abbrev pub first_header :
    {A : Type 0} → List (ReductionMessage A) → ReductionMessage A → MessageHeader
first_header [] local = local.header
first_header (c ∷ cs) local = c.header

module _ {A : Type 0} (op : A → A → A) (self : ℤ) (id : ℕ) (nonzero : id ≢ 0)
    (entries : List (InterprocessData A)) (i d : ℕ)
    (unused : get_elem? entries i ≡ some unused_entry) (near : d < length entries)
    (leads : Probes id entries d id i) where
  abbrev settled : ReductionMessage A → Outcome A
  settled = settle op self id nonzero entries i d unused near leads

  abbrev held : ReductionMessage A → List (InterprocessData A)
  held = holding op self id nonzero entries i d unused near leads

  abbrev Log : Type 0
  Log = Result InterprocessError (List (Option (ReductionMessage A)) × List (InterprocessData A))

  goes_on : ReductionMessage A → List (ReductionMessage A) → Log
  goes_on m ms = settled m >>= λ (r : Option (ReductionMessage A) × List (InterprocessData A)).
      arrivals op self ms r.1
      >>= λ (rs : List (Option (ReductionMessage A)) × List (InterprocessData A)).
          ok (r.0 ∷ rs.0, rs.1)

  -- All but the last message are kept; the last one lets the result out and frees the entry.
  abbrev pub completed : ℕ → ReductionMessage A → Log
  completed n m = ok (replicate n none ++ some (sent_on self m) ∷ [], entries)

  arrivals-held :
      (x m : ReductionMessage A) (xs : List (ReductionMessage A))
      → is_reduction x ≡ true
      → x.id ≡ id
      → m.id ≡ id
      → arrivals op self (x ∷ xs) (held m) ≡ goes_on (absorb op self x m) xs
  unfolding arrivals goes_on
  arrivals-held x m xs kind own same =
      rw (combine-next op self id nonzero entries i d unused near leads x m kind own same) refl

  -- While more is expected, a message is kept.
  goes_on-waiting :
      (x m : ReductionMessage A) (xs : List (ReductionMessage A)) (n : ℕ)
      (last : ReductionMessage A)
      → is_reduction x ≡ true
      → x.id ≡ id
      → m.id ≡ id
      → (m.expected_number_of_contributions ==ℤ pos 0) ≡ false
      → goes_on (absorb op self x m) xs ≡ completed n last
      → goes_on m (x ∷ xs) ≡ completed (suc n) last
  unfolding goes_on settle
  goes_on-waiting x m xs n last kind own same waits later =
      let step : arrivals op self (x ∷ xs) (held m) ≡ completed n last =
        arrivals-held x m xs kind own same ∙ later in
      rw waits (rw step refl)

  -- All that is missing comes from other processes.
  goes_on-children :
      (ms : List (ReductionMessage A)) (m : ReductionMessage A)
      → m.id ≡ id
      → All (IsArrival id self false 0) ms
      → m.expected_number_of_contributions ≡ pos (length ms)
      → goes_on m ms ≡ completed (length ms) (absorb_all op self m ms)
  unfolding ◌+ℤ◌ ◌-ℤ◌ goes_on settle arrivals
  goes_on-children [] m own h e = ground (arith, e)
  goes_on-children (x ∷ xs) m own (h, hs) e =
      goes_on-waiting x m xs (length xs) _ h.kind h.same own (ground (arith, e))
        (goes_on-children xs (absorb op self x m) own hs (ground (arith, e, h.expected)))

  -- The process's own message is still to come.
  goes_on-own :
      (cs ms : List (ReductionMessage A)) (x m : ReductionMessage A) (a : ℕ)
      → m.id ≡ id
      → All (IsArrival id self false 0) cs
      → All (IsArrival id self false 0) ms
      → IsArrival id self true (a + length (cs ++ ms) + 2) x
      → m.expected_number_of_contributions ≡ negsuc a
      → goes_on m (cs ++ x ∷ ms)
        ≡ completed (suc (length (cs ++ ms))) (absorb_all op self m (cs ++ x ∷ ms))
  unfolding ◌+ℤ◌ ◌-ℤ◌
  goes_on-own [] ms x m a own h k l e =
      goes_on-waiting x m ms (length ms) _ l.kind l.same own (ground (arith, e))
        (goes_on-children ms (absorb op self x m) own k (ground (arith, e, l.expected)))
  goes_on-own (c ∷ cs) ms x m a own (h, hs) k l e =
      goes_on-waiting c m (cs ++ x ∷ ms) (suc (length (cs ++ ms))) _ h.kind h.same own
        (ground (arith, e))
        (goes_on-own cs ms x (absorb op self c m) (suc a) own hs k
          (record {
            kind = l.kind;
            same = l.same;
            source = l.source;
            plain = l.plain;
            expected = l.expected ∙ ap pos (omega arith);
          })
          (ground (arith, e, h.expected)))

  arrivals-first :
      (x : ReductionMessage A) (xs : List (ReductionMessage A))
      → is_reduction x ≡ true
      → x.id ≡ id
      → arrivals op self (x ∷ xs) entries ≡ goes_on (first_contribution x) xs
  unfolding arrivals goes_on
  arrivals-first x xs kind own =
      rw (combine-first op self id nonzero entries i d unused near leads x kind own) refl

  -- The message that leaves is the sum of all, addressed to the process that the process's own
  -- message names.
  abbrev pub Delivers : List (ReductionMessage A) → ReductionMessage A → ℕ → Type 0
  Delivers ms local n =
      (m : ReductionMessage A) × (arrivals op self ms entries
        ≡ ok (replicate n none ++ some m ∷ [], entries))
      × (some m.payload ≡ total op ms)
      × (m.id ≡ id)
      × (m.header.destination_process_id ≡ local.target_process_id)
      × (m.header.source_process_id ≡ self)

  -- `Delivers`, and the whole header of the message that leaves.
  pub arrivals-header :
      (before after : List (ReductionMessage A)) (local : ReductionMessage A)
      → All (IsArrival id self false 0) before
      → All (IsArrival id self false 0) after
      → IsArrival id self true (length (before ++ after) + 1) local
      → (delivery : Delivers (before ++ local ∷ after) local (length (before ++ after)))
        × (delivery.0.header
            ≡ change_source_process_id self
                (change_destination_process_id local.target_process_id (first_header before local)))
  unfolding first_contribution ◌+ℤ◌ ◌-ℤ◌ change_source_process_id change_destination_process_id
  arrivals-header [] after local hb ha l =
      let m = absorb_all op self (first_contribution local) after in
      let target = target-absorb_all op self id after (first_contribution local) ha in
      let header = header-absorb_all op self after (first_contribution local) in
      (
        (
          sent_on self m,
          arrivals-first local after l.kind l.same
              ∙ goes_on-children after (first_contribution local) l.same ha
                  (ground (arith, l.expected, l.plain)),
          ap some (payload-absorb_all op self after (first_contribution local)),
          id-absorb_all op self after (first_contribution local) ∙ l.same,
          target,
          refl,
        ),
        ap₂
            (λ (t : ℤ) (h : MessageHeader).
              change_source_process_id self (change_destination_process_id t h))
            target header,
      )
  arrivals-header (c ∷ cs) after local (h, hs) ha l =
      let first = first_contribution c in
      let rest = cs ++ local ∷ after in
      let m = absorb_all op self first rest in
      let target = target-absorb_all-own op self id _ cs after local first ha l in
      let header = header-absorb_all op self rest first in
      (
        (
          sent_on self m,
          arrivals-first c rest h.kind h.same
              ∙ goes_on-own cs after local first 0 h.same hs ha
                  (record {
                    kind = l.kind;
                    same = l.same;
                    source = l.source;
                    plain = l.plain;
                    expected = l.expected ∙ ap pos (omega arith);
                  })
                  (ground (arith, h.expected, h.plain)),
          ap some (payload-absorb_all op self rest first),
          id-absorb_all op self rest first ∙ h.same,
          target,
          refl,
        ),
        ap₂
            (λ (t : ℤ) (h : MessageHeader).
              change_source_process_id self (change_destination_process_id t h))
            target header,
      )

  -- On a table whose probing for a reduction leads to a free entry, the messages of that
  -- reduction arrive at a process: any number from other processes, which expect nothing
  -- themselves, and among them, at any place, the process's own, which says that one message
  -- more than those of the others is to come. None of them brings the root, as its destination,
  -- a number of messages to wait for. Each but the last is kept; the last one lets out one
  -- message with the combination of all their data, in the order of the arrival, addressed to
  -- the process that the own message names and sent by this one, and leaves the table as it was
  -- before the first.
  pub arrivals_lem :
      (before after : List (ReductionMessage A)) (local : ReductionMessage A)
      → All (IsArrival id self false 0) before
      → All (IsArrival id self false 0) after
      → IsArrival id self true (length (before ++ after) + 1) local
      → Delivers (before ++ local ∷ after) local (length (before ++ after))
  arrivals_lem before after local hb ha l = (arrivals-header before after local hb ha l).0
