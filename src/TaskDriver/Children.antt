-- ===== src/TaskDriver/Children.antt =====
-- Sending to the children of a process of the tree.
pub mod Everywhere
use findus.Base.{
  ℕ, ◌+◌, ◌*◌, ◌^◌, ◌≤◌, ◌<◌, Bool, false, if◌then◌else◌, List, [], ◌∷◌, ◌++◌, none, length, map,
  ◌≡◌, ◌≢◌, refl, ap, ◌∙◌, arith, dec_lt,
}
use mathlib.Core.List.{append-nil, append_assoc}
use findus.Base.Int.{ℤ, pos, minus_one, ◌+ℤ◌, ◌==ℤ◌, int_laws}
use findus.ProcessTree.{ParentAndChildren, links}
use findus.MessageHeader.{number_of_bytes_in_message, change_destination_process_id}
use findus.Serializer.State.{int_of_size}
use findus.TaskDriver.{
  TaskMessage, TaskDriver, hand_over, send_message_impl, addressed, send_to_child, send_to_children,
}

-- The driver after some messages of `size` bytes were given to MPI.
abbrev pub after_sending : ℕ → List TaskMessage → TaskDriver → TaskDriver
after_sending size ms driver = record driver {
  outgoing_mpi_messages = driver.outgoing_mpi_messages ++ ms;
  sent =
      driver.sent
      ++ map
          (λ (m : TaskMessage). record {
            num_bytes = pos size;
            destination = m.header.destination_process_id;
            message = m;
          })
          ms;
  local_sends = driver.local_sends +ℤ pos (length ms);
}

pub links-left : (p n : ℕ) → 2 * p + 1 < n → (links p n).left_process_id ≡ pos (2 * p + 1)
unfolding links
links-left p n h = ground arith

pub links-right : (p n : ℕ) → 2 * p + 2 < n → (links p n).right_process_id ≡ pos (2 * p + 2)
unfolding links
links-right p n h = ground arith

pub links-left_none : (p n : ℕ) → n ≤ 2 * p + 1 → (links p n).left_process_id ≡ minus_one
unfolding links
links-left_none p n h = ground arith

pub links-right_none : (p n : ℕ) → n ≤ 2 * p + 2 → (links p n).right_process_id ≡ minus_one
unfolding links
links-right_none p n h = ground arith

abbrev pub children_of : ParentAndChildren → List ℤ
children_of pac =
    (if pac.left_process_id ==ℤ minus_one then [] else pac.left_process_id ∷ [])
    ++ (if pac.right_process_id ==ℤ minus_one then [] else pac.right_process_id ∷ [])

module _ (fails : ℕ → Bool) (works : (k : ℕ) → fails k ≡ false) (message : TaskMessage) (size : ℕ)
    (bytes_of : number_of_bytes_in_message message.header ≡ size) (small : size < 2 ^ 31) where
  send_to_child-sends :
      (c n : ℕ) (driver : TaskDriver)
      → driver.number_of_nodes ≡ pos n
      → c < n
      → send_to_child fails message (pos c) (driver, none)
        ≡ (after_sending size (addressed (pos c) message ∷ []) driver, none)
  unfolding send_to_child send_message_impl hand_over addressed change_destination_process_id
      number_of_bytes_in_message int_of_size
  send_to_child-sends c n driver nodes below = ground (arith, works (length driver.sent), bytes_of)

  plus_zero : (z : ℤ) → z +ℤ pos 0 ≡ z
  plus_zero z = omega int_laws

  plus_two : (z : ℤ) → (z +ℤ pos 1) +ℤ pos 1 ≡ z +ℤ pos 2
  plus_two z = omega int_laws

  after_none : (driver : TaskDriver) → after_sending size [] driver ≡ driver
  after_none driver = ground (
    arith,
    append-nil driver.outgoing_mpi_messages,
    append-nil driver.sent,
    plus_zero driver.local_sends,
  )

  after_two :
      (a b : TaskMessage) (driver : TaskDriver)
      → after_sending size (b ∷ []) (after_sending size (a ∷ []) driver)
        ≡ after_sending size (a ∷ b ∷ []) driver
  after_two a b driver = ground (
    arith,
    append_assoc driver.outgoing_mpi_messages (a ∷ []) (b ∷ []),
    append_assoc driver.sent
        (record { num_bytes = pos size; destination = a.header.destination_process_id; message = a }
          ∷ [])
        (record { num_bytes = pos size; destination = b.header.destination_process_id; message = b }
          ∷ []),
    plus_two driver.local_sends,
  )

  skip :
      (driver : TaskDriver) → send_to_child fails message minus_one (driver, none) ≡ (driver, none)
  unfolding send_to_child
  skip driver = refl

  -- What the function does, by the children that there are.
  abbrev IsDelivered : TaskDriver → Type 0
  IsDelivered driver = send_to_children fails message driver ≡ (
    after_sending size
        (map (λ (c : ℤ). addressed c message) (children_of driver.parent_and_children)) driver,
    none,
  )

  sends_none :
      (driver : TaskDriver)
      → driver.parent_and_children.left_process_id ≡ minus_one
      → driver.parent_and_children.right_process_id ≡ minus_one
      → IsDelivered driver
  unfolding send_to_children
  sends_none driver left right = ground (arith, left, right, skip driver, after_none driver)

  sends_one :
      (l n : ℕ) (driver : TaskDriver)
      → driver.number_of_nodes ≡ pos n
      → l < n
      → driver.parent_and_children.left_process_id ≡ pos l
      → driver.parent_and_children.right_process_id ≡ minus_one
      → IsDelivered driver
  unfolding send_to_children
  sends_one l n driver nodes below left right = ground (
    arith,
    left,
    right,
    send_to_child-sends l n driver nodes below,
    skip (after_sending size (addressed (pos l) message ∷ []) driver),
  )

  sends_two :
      (l r n : ℕ) (driver : TaskDriver)
      → driver.number_of_nodes ≡ pos n
      → l < n
      → r < n
      → l ≢ r
      → driver.parent_and_children.left_process_id ≡ pos l
      → driver.parent_and_children.right_process_id ≡ pos r
      → IsDelivered driver
  unfolding send_to_children
  sends_two l r n driver nodes below below' differ left right =
      let first = after_sending size (addressed (pos l) message ∷ []) driver in
      ground (
        arith,
        left,
        right,
        send_to_child-sends l n driver nodes below,
        send_to_child-sends r n first nodes below',
        after_two (addressed (pos l) message) (addressed (pos r) message) driver,
      )

  -- At process `p` of a tree of `n` processes, with a message of less than 2 ^ 31 bytes and an MPI that
  -- does not fail: each child gets one copy, whose header differs from the message's in its
  -- destination alone, the left child first; MPI gets the size of the message; each copy is
  -- kept, counted as sent, and nothing else changes.
  pub send_to_children_lem :
      (p n : ℕ) (driver : TaskDriver)
      → p < n
      → driver.number_of_nodes ≡ pos n
      → driver.parent_and_children ≡ links p n
      → send_to_children fails message driver ≡ (
        after_sending size
            (map (λ (c : ℤ). addressed c message) (children_of driver.parent_and_children))
            driver,
        none,
      )
  send_to_children_lem p n driver inside nodes tree = elim (dec_lt (2 * p + 1) n) [
    | no l ↦
        sends_none driver (ap (λ a. a.left_process_id) tree ∙ links-left_none p n (omega arith))
          (ap (λ a. a.right_process_id) tree ∙ links-right_none p n (omega arith))
    | yes l ↦ elim (dec_lt (2 * p + 2) n) [
      | no r ↦
          sends_one (2 * p + 1) n driver nodes l
            (ap (λ a. a.left_process_id) tree ∙ links-left p n l)
            (ap (λ a. a.right_process_id) tree ∙ links-right_none p n (omega arith))
      | yes r ↦
          sends_two (2 * p + 1) (2 * p + 2) n driver nodes l r (omega arith)
            (ap (λ a. a.left_process_id) tree ∙ links-left p n l)
            (ap (λ a. a.right_process_id) tree ∙ links-right p n r)
    ]
  ]
