-- ===== src/ProcessTree.antt =====
-- ParentAndChildren.hpp and ParentAndChildren.cpp: the implicit binary tree of processes.
-- Process ids are the program's `int`s as integers, with -1 for "no such process". The sums
-- `2 * i + 2` stay inside an `int` as long as there are at most 2 ^ 30 processes.
pub mod Climb
pub mod Size
pub mod Links
pub mod FirstDescendants
pub mod FirstParent
pub mod Subtree
pub mod Counting
use findus.Base.{
  ℕ, zero, suc, ◌+◌, ◌-◌, ◌*◌, ◌/◌, ◌%◌, Bool, true, false, ltb, ◌==◌, if◌then◌else◌, not, ◌&&◌,
  ◌||◌, List, [], ◌∷◌, ◌++◌, none, some, length, get_elem?,
}
use findus.Base.Int.{ℤ, pos, negsuc, minus_one, pos_part, ◌==ℤ◌}
use findus.Base.Result.{Result, ok, err, ◌>>=◌}

-- The exceptions, a read past the end of a vector, and a model loop that stopped early.
pub data TreeError : Type 0 where
  negative_process_id negative_total id_out_of_range : TreeError
  bad_index out_of_fuel : TreeError

pub record ParentAndChildren : Type 0 where
  pub self_process_id : ℤ
  pub parent_process_id : ℤ
  pub left_process_id : ℤ
  pub right_process_id : ℤ

pub pac_eq : ParentAndChildren → ParentAndChildren → Bool
pac_eq lhs rhs =
    lhs.self_process_id ==ℤ rhs.self_process_id
    && lhs.parent_process_id ==ℤ rhs.parent_process_id
    && lhs.left_process_id ==ℤ rhs.left_process_id
    && lhs.right_process_id ==ℤ rhs.right_process_id

pub pac_ne : ParentAndChildren → ParentAndChildren → Bool
unfolding pac_eq
pac_ne lhs rhs = not (pac_eq lhs rhs)

-- The part of `parent_and_children` below its checks.
unfoldable pub links : ℕ → ℕ → ParentAndChildren
links process_id total = record {
  self_process_id = pos process_id;
  parent_process_id =
      if process_id == 0
      then minus_one
      else if process_id % 2 == 0
      then pos ((process_id - 2) / 2)
      else pos ((process_id - 1) / 2);
  left_process_id = if ltb (2 * process_id + 1) total then pos (2 * process_id + 1) else minus_one;
  right_process_id = if ltb (2 * process_id + 2) total then pos (2 * process_id + 2) else minus_one;
}

unfoldable pub parent_and_children : ℤ → ℤ → Result TreeError ParentAndChildren
parent_and_children (negsuc _) total = err negative_process_id
parent_and_children (pos p) (negsuc _) = err negative_total
parent_and_children (pos p) (pos n) = if ltb n (p + 1) then err id_out_of_range else ok (links p n)

-- `result.push_back(id)` unless there is no such child.
pub push_back_child : ℤ → List ℤ → List ℤ
push_back_child id result = if id ==ℤ minus_one then result else result ++ id ∷ []

-- The inner `for` loop: `rounds` is `end - i`.
scan_level : ℕ → ℕ → ℤ → List ℤ → Bool → Result TreeError (List ℤ × Bool)
unfolding push_back_child
scan_level zero i total result some_added = ok (result, some_added)
scan_level (suc rounds) i total result some_added = elim (get_elem? result i) [
  | none ↦ err bad_index
  | some id ↦ parent_and_children id total >>= λ pc.
      scan_level rounds (i + 1) total
        (push_back_child pc.right_process_id (push_back_child pc.left_process_id result))
        (some_added
          || not (pc.left_process_id ==ℤ minus_one)
          || not (pc.right_process_id ==ℤ minus_one))
]

-- The `while (true)` loop.
scan_levels : ℕ → ℕ → ℕ → ℤ → List ℤ → Result TreeError (List ℤ)
scan_levels zero start end total result = err out_of_fuel
scan_levels (suc fuel) start end total result =
    scan_level (end - start) start total result false >>= λ (r : List ℤ × Bool). elim r.1 [
      | true ↦ scan_levels fuel end (length r.0) total r.0
      | false ↦ ok r.0
    ]

pub children_in_subtree : ℤ → ℤ → Result TreeError (List ℤ)
unfolding push_back_child
children_in_subtree process_id total = parent_and_children process_id total >>= λ pc.
    let result = push_back_child pc.right_process_id (push_back_child pc.left_process_id []) in
    scan_levels (pos_part total + 1) 0 (length result) total result

-- `stack.push(id)` unless there is no such child; the top of the stack is the head of the list.
pub push_child : ℤ → List ℤ → List ℤ
push_child id stack = if id ==ℤ minus_one then stack else id ∷ stack

count_loop : ℕ → List ℤ → ℤ → (ℤ → Bool) → ℕ → Result TreeError ℕ
unfolding push_child
count_loop zero stack total predicate count = err out_of_fuel
count_loop (suc fuel) [] total predicate count = ok count
count_loop (suc fuel) (current ∷ stack) total predicate count = elim (predicate current) [
  | true ↦ count_loop fuel stack total predicate (count + 1)
  | false ↦ parent_and_children current total >>= λ pc.
      count_loop fuel (push_child pc.right_process_id (push_child pc.left_process_id stack)) total
        predicate count
]

pub count_first_descendants : ℤ → ℤ → (ℤ → Bool) → Result TreeError ℕ
unfolding push_child
count_first_descendants process_id total predicate = parent_and_children process_id total >>= λ pc.
    count_loop (pos_part total + 1)
      (push_child pc.right_process_id (push_child pc.left_process_id [])) total predicate 0

parent_loop : ℕ → ℤ → ℤ → (ℤ → Bool) → Result TreeError ℤ
parent_loop zero pid total predicate = err out_of_fuel
parent_loop (suc fuel) pid total predicate = elim (pid ==ℤ minus_one) [
  | true ↦ ok pid
  | false ↦ parent_and_children pid total >>= λ pc.
      elim (not (pc.parent_process_id ==ℤ minus_one) && predicate pc.parent_process_id) [
        | true ↦ ok pc.parent_process_id
        | false ↦ parent_loop fuel pc.parent_process_id total predicate
      ]
]

pub find_first_parent : ℤ → ℤ → (ℤ → Bool) → Result TreeError ℤ
find_first_parent process_id total predicate =
    parent_loop (pos_part process_id + 2) process_id total predicate
