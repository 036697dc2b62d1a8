-- ===== src/Tests/Tree.antt =====
-- Runs of the process tree of ParentAndChildren.hpp with seven processes.
use findus.Base.{
  ℕ, ◌%◌, Bool, true, false, ◌==◌, ◌&&◌, not, ltb, List, map, ◌≡◌, refl, arith, ◌⊎◌, ◌↔◌,
}
use findus.Base.Sums.{bit, sum_below, count}
use findus.Base.Int.{ℤ, pos, negsuc, minus_one}
use findus.Base.Result.{ok, err}
use findus.ProcessTree.{
  TreeError, ParentAndChildren, links, parent_and_children, children_in_subtree,
  count_first_descendants, find_first_parent,
}
use findus.ProcessTree.Size.{in_subtree}
use findus.ProcessTree.Counting.{reports_to, count-find_first_parent, count-find_first_parent_root}
use findus.ProcessTree.FirstParent.{nearest, stops, find_first_parent_lem}
use findus.ProcessTree.Links.{
  parent_and_children_inverse, parent_and_children_total, is_process, IsIdOrNone,
}
use findus.ProcessTree.Subtree.{children_in_subtree_lem}

-- The processes with an odd id take part.
abbrev is_odd : ℤ → Bool
is_odd (pos p) = p % 2 == 1
is_odd (negsuc p) = false

count-find_first_parent_example :
    count_first_descendants (pos 1) (pos 7) is_odd
    ≡ ok (sum_below 7 (λ r. bit (reports_to 7 is_odd (pos 1) r)))
count-find_first_parent_example = count-find_first_parent 7 is_odd 1 (omega arith) refl

count-find_first_parent_root_example :
    count_first_descendants (pos 0) (pos 7) is_odd
    ≡ ok (sum_below 7 (λ r. bit (reports_to 7 is_odd minus_one r)))
count-find_first_parent_root_example = count-find_first_parent_root 7 is_odd (omega arith) refl

find_first_parent_example :
    find_first_parent (pos 5) (pos 7) is_odd ≡ ok (nearest (stops 7 is_odd) 5)
find_first_parent_example = find_first_parent_lem 7 is_odd 5 (omega arith)

children_in_subtree_example :
    (ids : List ℕ) × (children_in_subtree (pos 1) (pos 7) ≡ ok (map pos ids))
    × ((r : ℕ) → count r ids ≡ bit (ltb r 7 && not (r == 1) && in_subtree 1 r))
children_in_subtree_example = children_in_subtree_lem 1 7 (omega arith)

parent_and_children_inverse_example :
    ((links 3 7).parent_process_id ≡ pos 1)
    ↔ (((links 1 7).left_process_id ≡ pos 3) ⊎ ((links 1 7).right_process_id ≡ pos 3))
unfolding links parent_and_children
parent_and_children_inverse_example =
    parent_and_children_inverse 1 3 7 (links 1 7) (links 3 7) refl refl

parent_and_children_total_example :
    ((is_process (pos 3) (pos 7) ≡ false)
      × (e : TreeError) × (parent_and_children (pos 3) (pos 7) ≡ err e))
    ⊎ ((is_process (pos 3) (pos 7) ≡ true)
        × (n : ℕ) × (pac : ParentAndChildren) × (pos 7 ≡ pos n)
        × (parent_and_children (pos 3) (pos 7) ≡ ok pac)
        × (pac.self_process_id ≡ pos 3)
        × IsIdOrNone n pac.parent_process_id
        × IsIdOrNone n pac.left_process_id
        × IsIdOrNone n pac.right_process_id)
parent_and_children_total_example = parent_and_children_total (pos 3) (pos 7)
