-- ===== src/Accounting/Consistency.antt =====
-- The check of one process: its buffer goes to its parent, and the buffers of its children are compared
-- with its own. MPI is a parameter: whether the send fails, and what comes from a child, if it does not fail.
pub mod Everywhere
use findus.Base.{ℕ, Bool, true, false, if◌then◌else◌, not, ◌&&◌, List, Option, none, some, length}
use findus.Base.Int.{ℤ, pos, minus_one, ltb_ℤ, ◌==ℤ◌}
use findus.Base.Result.{Result, ok, err, ◌>>=◌}
use findus.Components.{DistributedOjectClassHolder}
use findus.ProcessTree.{ParentAndChildren}
use findus.Serializer.State.{int_of_size}
use findus.Accounting.{
  AccountingError, serialize_component_accounting, compare_component_accounting_buffers,
}

pub data ConsistencyError : Type 0 where
  failed_to_send failed_to_receive : ConsistencyError
  insertion_error : AccountingError → ConsistencyError

abbrev pub reported : {A : Type 0} → Result AccountingError A → Result ConsistencyError (Unit {0})
reported (ok a) = ok tt
reported (err e) = err (insertion_error e)

unfoldable pub receive_and_compare :
    (ℤ → Option (List ℕ)) → List ℕ → ℤ → Result ConsistencyError (Unit {0})
receive_and_compare receive local_buffer child_id =
    if child_id ==ℤ minus_one then ok tt else elim (receive child_id) [
      | none ↦ err failed_to_receive
      | some child_buffer ↦
          reported (compare_component_accounting_buffers local_buffer child_buffer)
    ]

-- What the process gives to MPI: the destination and the buffer.
unfoldable pub sent_to_parent : ParentAndChildren → List ℕ → Option (ℤ × List ℕ)
unfolding int_of_size
sent_to_parent tree local_buffer =
    if not (tree.parent_process_id ==ℤ minus_one)
      && ltb_ℤ (pos 0) (int_of_size (length local_buffer))
    then some (tree.parent_process_id, local_buffer)
    else none

unfoldable pub check_component_accounting_consistency :
    Bool
    → (ℤ → Option (List ℕ))
    → ParentAndChildren
    → List DistributedOjectClassHolder
    → Option (ℤ × List ℕ) × Result ConsistencyError (Unit {0})
check_component_accounting_consistency send_fails receive tree distributed_objects =
    let local_buffer = serialize_component_accounting distributed_objects in
    let sent = sent_to_parent tree local_buffer in
    let compared : Result ConsistencyError (Unit {0}) =
      receive_and_compare receive local_buffer tree.left_process_id >>= λ (_ : Unit {0}).
      receive_and_compare receive local_buffer tree.right_process_id in
    elim sent [
      | none ↦ (none, compared)
      | some message ↦
          if send_fails then (some message, err failed_to_send) else (some message, compared)
    ]
