-- ===== src/GlobalQd/Termination.antt =====
-- When qd::Global ends the detection, and what a new one starts from.
use findus.Base.{
  ℕ, ◌+◌, ◌≤◌, Bool, true, false, ltb, List, [], ◌∷◌, none, ◌≡◌, ◌≢◌, refl, arith, ap, ◌∙◌, sym,
  Bool-cases, inl, inr,
}
use mathlib.Core.Path.{subst}
use findus.Base.Int.{ℤ, pos, ◌+ℤ◌, ◌-ℤ◌, ◌==ℤ◌, ==ℤ→eq}
use findus.Base.Result.{ok, Result-cases}
use findus.GlobalQd.{
  Message, safe_add, max_int64, create_message, Global, DownData, is_root, Net, MpiCall,
}
use findus.GlobalQd.Traverse.{
  cleanup_down_messages, send_down, send_down_to_children, down_traversal, remove_if,
  is_down_complete,
}
use findus.GlobalQd.Collect.{
  local_count, complete_sweep, reset_checked, is_empty, safe_reset, check, check_impl,
  wait_for_broadcast,
}

-- The sum of two counts is zero only if neither of them is the largest one.
pub safe_add-zero :
    (a b : ℤ) → safe_add a b ≡ pos 0 → (a ≢ max_int64) × (b ≢ max_int64) × (a +ℤ b ≡ pos 0)
unfolding safe_add
safe_add-zero a b h = (λ e. ground arith, λ e. ground arith, ground arith)

is_empty→[] : {A : Type 0} (xs : List A) → is_empty xs ≡ true → xs ≡ []
is_empty→[] [] h = refl
is_empty→[] (x ∷ xs) h = absurd (ground arith)

-- Nothing under way, and nothing counted.
pub record IsFresh (g : Global) : Type 0 where
  pub not_ended : g.terminate ≡ pos 0
  pub no_sends : g.local_sends ≡ pos 0
  pub no_processed : g.local_processed ≡ pos 0
  pub no_accumulation_left : g.accum_data ≡ []
  pub no_down_message : g.down_messages ≡ []
  pub no_up_message : g.up_messages ≡ []
  pub no_sweep : (g.root_down_sweep ≡ 0) × (g.local_sweep_number ≡ 0)
  pub no_regular_message : g.last_regular_message_sweep_number ≡ 0
  pub no_request :
      (g.broadcast_left_child_request ≡ none) × (g.broadcast_right_child_request ≡ none)

reset_checked_lem : (g g' : Global) → reset_checked g ≡ ok g' → (g.terminate ≡ pos 1) × IsFresh g'
unfolding reset_checked
reset_checked_lem g g' h =
    let accum = is_empty→[] g.accum_data in
    let down = is_empty→[] g.down_messages in
    let up = is_empty→[] g.up_messages in
    (
      ground arith,
      record {
        not_ended = ground arith;
        no_sends = ground arith;
        no_processed = ground arith;
        no_accumulation_left = ground (arith, accum);
        no_down_message = ground (arith, down);
        no_up_message = ground (arith, up);
        no_sweep = (ground arith, ground arith);
        no_regular_message = ground arith;
        no_request = (ground arith, ground arith);
      },
    )

module _ (fails : MpiCall → Bool) (done : ℕ → Bool) where
  cleanup_down_messages-parts :
      (g g' : Global)
      → cleanup_down_messages fails done g ≡ ok g'
      → record g { down_messages = g'.down_messages } ≡ g'
  unfolding cleanup_down_messages
  cleanup_down_messages-parts g g' h =
      elim (Result-cases (remove_if fails done (is_down_complete fails done g) g.down_messages)) [
        | inl (ds, e) ↦ ground (arith, e)
        | inr (f, e) ↦ absurd (ground (arith, e))
      ]

  send_down-terminate :
      (m : Message) (g : Global) (net : Net) (r : Global × Net)
      → send_down fails done m g net ≡ ok r
      → r.0.terminate ≡ g.terminate
  unfolding send_down
  send_down-terminate m g net r h =
      let fresh : DownData = record {
        message = m;
        child_left_request = 0;
        child_right_request = 0;
      } in
      elim (Result-cases (send_down_to_children fails done g fresh net)) [
        | inl (x, e) ↦ ground (arith, e)
        | inr (f, e) ↦ absurd (ground (arith, e))
      ]

  down_traversal-terminate :
      (g : Global) (net : Net) (r : Global × Net)
      → is_root g ≡ true
      → down_traversal fails done g net ≡ ok r
      → r.0.terminate ≡ g.terminate
  unfolding down_traversal is_root
  down_traversal-terminate g net r root h =
      elim (Result-cases (cleanup_down_messages fails done g)) [
        | inl (g1, e) ↦
            let parts = cleanup_down_messages-parts g g1 e in
            let message = create_message false (g1.local_sweep_number + 1) (pos 0) in
            let next : Global = record g1 { root_down_sweep = g1.local_sweep_number + 1 } in
            let same : g1.terminate ≡ g.terminate = ap (λ (x : Global). x.terminate) (sym parts) in
            let same_parent : g1.parent_process ≡ g.parent_process =
              ap (λ (x : Global). x.parent_process) (sym parts) in
            elim (Bool-cases (ltb g1.local_sweep_number g1.root_down_sweep)) [
              | inl c ↦ ground (arith, e, c, same, same_parent)
              | inr c ↦
                  let sends : send_down fails done message next net ≡ ok r =
                    ground (arith, e, c, same_parent) in
                  send_down-terminate message next net r sends ∙ same
            ]
        | inr (f, e) ↦ absurd (ground (arith, e))
      ]

  -- When the root, which had not ended the detection, completes a sweep and ends it, then it has
  -- received no regular message of a later sweep than its last one, the count of its children is
  -- not the largest one, and that count and its own sends less its processed messages make zero.
  pub complete_sweep-terminate :
      (sweep : ℕ) (children_count : ℤ) (g : Global) (net : Net) (r : Global × Net)
      → is_root g ≡ true
      → g.terminate ≢ pos 1
      → complete_sweep fails done sweep children_count g net ≡ ok r
      → r.0.terminate ≡ pos 1
      → (g.last_regular_message_sweep_number ≤ g.local_sweep_number)
        × (children_count ≢ max_int64)
        × ((g.local_sends -ℤ g.local_processed) +ℤ children_count ≡ pos 0)
  unfolding complete_sweep local_count is_root
  complete_sweep-terminate sweep children_count g net r root before h after =
      elim (Bool-cases (safe_add (local_count g) children_count ==ℤ pos 0)) [
        | inl e ↦
            let zero_sum = safe_add-zero (local_count g) children_count (==ℤ→eq _ _ e) in
            ground (arith, zero_sum.0, zero_sum.1, zero_sum.2)
        | inr e ↦
            let swept : Global = record g { local_sweep_number = sweep } in
            let goes_on : down_traversal fails done swept net ≡ ok r = ground (arith, e) in
            absurd (before (sym (down_traversal-terminate swept net r root goes_on) ∙ after))
      ]

  -- When `check` answers yes, the process is ready for a new detection: it has not ended, its
  -- counts, its own sweep numbers and that of the last regular message are zero, and no message,
  -- accumulation or request for a broadcast of the old one is left.
  pub check-IsFresh :
      (g : Global) (net : Net) (r : Bool × Global × Net)
      → check fails done g net ≡ ok r
      → r.0 ≡ true
      → IsFresh r.1
  unfolding check safe_reset
  check-IsFresh g net r h answer = elim (Result-cases (check_impl fails done g net)) [
    | inl (x, e) ↦ elim (Result-cases (wait_for_broadcast fails done x.1)) [
      | inl (g1, f) ↦ elim (Result-cases (reset_checked g1)) [
        | inl (g2, c) ↦
            let same : (x.0 ≡ true) × (g2 ≡ r.1) = ground (arith, e, f, c) in
            subst IsFresh same.1 (reset_checked_lem g1 g2 c).1
        | inr (q, c) ↦ absurd (ground (arith, e, f, c))
      ]
      | inr (q, f) ↦ absurd (ground (arith, e, f))
    ]
    | inr (q, e) ↦ absurd (ground (arith, e))
  ]
