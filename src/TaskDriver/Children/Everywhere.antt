-- ===== src/TaskDriver/Children/Everywhere.antt =====
-- A broadcast on the whole tree: each process sends to its children once.
use findus.Base.{
  ℕ, zero, suc, ◌+◌, ◌-◌, ◌/◌, ◌^◌, ◌<◌, Bool, false, ◌==◌, if◌then◌else◌, not, ◌&&◌, List, [], ◌∷◌,
  ◌++◌, map, ◌≡◌, refl, ap, ◌∙◌, arith, ltb,
}
use findus.Base.Int.{ℤ, pos, ◌==ℤ◌}
use findus.ProcessTree.{ParentAndChildren, links}
use findus.MessageHeader.{number_of_bytes_in_message, change_destination_process_id}
use findus.TaskDriver.{Outcome, TaskMessage, Sent, TaskDriver, addressed, send_to_children}
use findus.TaskDriver.Children.{children_of, send_to_children_lem}

-- How many of the messages that MPI was given go to a process.
abbrev pub count_to : ℤ → List Sent → ℕ
count_to z [] = 0
count_to z (s ∷ rest) = (if s.destination ==ℤ z then 1 else 0) + count_to z rest

-- The messages for a process over the processes below `k`.
abbrev pub sum_below : (ℕ → ℕ) → ℕ → ℕ
sum_below f zero = 0
sum_below f (suc k) = sum_below f k + f k

sum_of_one :
    (f : ℕ → ℕ) (q k : ℕ)
    → ((p : ℕ) → p < k → f p ≡ (if p == q then 1 else 0))
    → sum_below f k ≡ (if ltb q k then 1 else 0)
sum_of_one f q zero h = ground arith
sum_of_one f q (suc k) h =
    ground (arith, h k (omega arith), sum_of_one f q k (λ p below. h p (omega arith)))

sum_of_none : (f : ℕ → ℕ) (k : ℕ) → ((p : ℕ) → p < k → f p ≡ 0) → sum_below f k ≡ 0
sum_of_none f zero h = refl
sum_of_none f (suc k) h =
    omega (arith, h k (omega arith), sum_of_none f k (λ p below. h p (omega arith)))

-- The children of a process by their numbers.
count_children :
    (message : TaskMessage) (size p c n : ℕ) (pac : ParentAndChildren)
    → c < n
    → pac ≡ links p n
    → count_to (pos c) (
        map
          (λ (m : TaskMessage). record {
            num_bytes = pos size;
            destination = m.header.destination_process_id;
            message = m;
          })
          (map (λ (z : ℤ). addressed z message) (children_of pac)))
      ≡ (if not (c == 0) && ((c - 1) / 2 == p) then 1 else 0)
unfolding links addressed change_destination_process_id
count_children message size p c n pac h e = ground (arith, e)

module _ (fails : ℕ → Bool) (works : (k : ℕ) → fails k ≡ false) (message : TaskMessage) (size : ℕ)
    (bytes_of : number_of_bytes_in_message message.header ≡ size) (small : size < 2 ^ 31) (n : ℕ)
    (driver : ℕ → TaskDriver) (nodes : (p : ℕ) → p < n → (driver p).number_of_nodes ≡ pos n)
    (tree : (p : ℕ) → p < n → (driver p).parent_and_children ≡ links p n)
    (fresh : (p : ℕ) → p < n → (driver p).sent ≡ []) where
  abbrev pub sent_by : ℕ → List Sent
  sent_by p = (send_to_children fails message (driver p)).0.sent

  -- One message for each child, none for any other process.
  sent_by_lem :
      (p c : ℕ)
      → p < n
      → c < n
      → count_to (pos c) (sent_by p) ≡ (if not (c == 0) && ((c - 1) / 2 == p) then 1 else 0)
  unfolding change_destination_process_id
  sent_by_lem p c h k =
      ap (λ (r : Outcome). count_to (pos c) r.0.sent)
        (send_to_children_lem fails works message size bytes_of small p n (driver p) h (nodes p h)
          (tree p h))
      ∙ ap
          (λ (before : List Sent). count_to (pos c) (
            before
            ++ map
                (λ (m : TaskMessage). record {
                  num_bytes = pos size;
                  destination = m.header.destination_process_id;
                  message = m;
                })
                (map (λ (z : ℤ). addressed z message)
                  (children_of (driver p).parent_and_children))))
          (fresh p h)
      ∙ count_children message size p c n (driver p).parent_and_children k (tree p h)

  root_gets_none : (p : ℕ) → p < n → count_to (pos 0) (sent_by p) ≡ 0
  root_gets_none p h = ground (arith, sent_by_lem p 0 h (omega arith))

  others_get_one :
      (c p : ℕ)
      → suc c < n
      → p < n
      → count_to (pos (suc c)) (sent_by p) ≡ (if p == c / 2 then 1 else 0)
  others_get_one c p k h = ground (arith, sent_by_lem p (suc c) h k)

  -- On a tree of `n` processes which have sent nothing yet, with a message of less than 2 ^ 31 bytes and an MPI that does not
  -- fail, each process sends the message to its children: then MPI has been given exactly one message for each
  -- process but 0, and none for 0.
  pub broadcast_everywhere :
      (c : ℕ)
      → c < n
      → sum_below (λ (p : ℕ). count_to (pos c) (sent_by p)) n ≡ (if c == 0 then 0 else 1)
  broadcast_everywhere zero h =
      sum_of_none (λ (p : ℕ). count_to (pos 0) (sent_by p)) n root_gets_none
  broadcast_everywhere (suc c) h = ground (
    arith,
    sum_of_one (λ (p : ℕ). count_to (pos (suc c)) (sent_by p)) (c / 2) n
        (λ p below. others_get_one c p h below),
    h,
  )
