-- ===== src/ProcessTree/Links.antt =====
-- `parent_and_children` in terms of the processes that exist.
use findus.Base.{
  ℕ, ◌+◌, ◌*◌, ◌≤◌, ◌<◌, Bool, true, false, ltb, ◌≡◌, refl, arith, List, ◌∷◌, map, All, dec_lt, ◌↔◌,
  ◌⊎◌, inl, inr,
}
use mathlib.Core.Path.{subst}
use findus.Base.Sums.{sum_of}
use findus.Base.Int.{ℤ, pos, negsuc}
use findus.Base.Result.{ok, err}
use findus.ProcessTree.{
  TreeError, negative_process_id, negative_total, id_out_of_range, ParentAndChildren, links,
  parent_and_children, push_child,
}

pub parent_and_children_ok :
    (q n : ℕ) → q < n → parent_and_children (pos q) (pos n) ≡ ok (links q n)
unfolding parent_and_children
parent_and_children_ok q n h = ground arith

abbrev pub push_if : Bool → ℕ → List ℕ → List ℕ
push_if true q qs = q ∷ qs
push_if false q qs = qs

-- The stack after both children of `q` have been pushed.
abbrev pub push_both : ℕ → ℕ → List ℕ → List ℕ
push_both n q stack =
    push_if (ltb (2 * q + 2) n) (2 * q + 2) (push_if (ltb (2 * q + 1) n) (2 * q + 1) stack)

pub push_child-links :
    (n q : ℕ) (stack : List ℕ)
    → push_child
        (links q n).right_process_id
        (push_child (links q n).left_process_id (map pos stack))
      ≡ map pos (push_both n q stack)
unfolding push_child links
push_child-links n q stack = ground arith

pub push_both-All :
    (n q : ℕ) (stack : List ℕ) → All (λ r. r < n) stack → All (λ r. r < n) (push_both n q stack)
push_both-All n q stack all = ground arith

-- A weight that is 0 outside of the tree adds up over the children.
pub sum_of-push_both :
    (w : ℕ → ℕ) (n q : ℕ) (stack : List ℕ)
    → (n ≤ 2 * q + 1 → w (2 * q + 1) ≡ 0)
    → (n ≤ 2 * q + 2 → w (2 * q + 2) ≡ 0)
    → sum_of w (push_both n q stack) ≡ w (2 * q + 1) + w (2 * q + 2) + sum_of w stack
unfolding sum_of
sum_of-push_both w n q stack left right = ground arith

links_inverse :
    (p q n : ℕ)
    → q < n
    → ((links q n).parent_process_id ≡ pos p)
      ↔ (((links p n).left_process_id ≡ pos q) ⊎ ((links p n).right_process_id ≡ pos q))
unfolding links
links_inverse p q n h = (λ e. ground arith, λ e. ground arith)

-- The ids returned for two processes agree: `q`'s parent is `p` exactly when `p` has `q` as its left
-- or its right child.
pub parent_and_children_inverse :
    (p q n : ℕ) (of_p of_q : ParentAndChildren)
    → parent_and_children (pos p) (pos n) ≡ ok of_p
    → parent_and_children (pos q) (pos n) ≡ ok of_q
    → (of_q.parent_process_id ≡ pos p)
      ↔ ((of_p.left_process_id ≡ pos q) ⊎ (of_p.right_process_id ≡ pos q))
unfolding parent_and_children
parent_and_children_inverse p q n of_p of_q hp hq =
    let below : q < n = ground arith in
    let eq_p : links p n ≡ of_p = ground arith in
    let eq_q : links q n ≡ of_q = ground arith in
    subst
      (λ (b : ParentAndChildren).
        (b.parent_process_id ≡ pos p)
        ↔ ((of_p.left_process_id ≡ pos q) ⊎ (of_p.right_process_id ≡ pos q)))
      eq_q
      (subst
        (λ (a : ParentAndChildren).
          ((links q n).parent_process_id ≡ pos p)
          ↔ ((a.left_process_id ≡ pos q) ⊎ (a.right_process_id ≡ pos q)))
        eq_p (links_inverse p q n below))

-- An id of the tree of `n` processes, or -1.
abbrev pub IsIdOrNone : ℕ → ℤ → Type 0
IsIdOrNone n (pos q) = q < n
IsIdOrNone n (negsuc k) = k ≡ 0

abbrev pub is_process : ℤ → ℤ → Bool
is_process (pos p) (pos n) = ltb p n
is_process _ _ = false

links-ids :
    (p n : ℕ)
    → p < n
    → IsIdOrNone n (links p n).parent_process_id
      × IsIdOrNone n (links p n).left_process_id
      × IsIdOrNone n (links p n).right_process_id
unfolding links
links-ids p n h = ground arith

-- The function returns exactly for the ids from 0 to the total less one. It then returns the id
-- itself and three ids that are -1 or ids of the tree.
pub parent_and_children_total :
    (id total : ℤ)
    → ((is_process id total ≡ false) × (e : TreeError) × (parent_and_children id total ≡ err e))
      ⊎ ((is_process id total ≡ true)
          × (n : ℕ) × (pac : ParentAndChildren) × (total ≡ pos n)
          × (parent_and_children id total ≡ ok pac)
          × (pac.self_process_id ≡ id)
          × IsIdOrNone n pac.parent_process_id
          × IsIdOrNone n pac.left_process_id
          × IsIdOrNone n pac.right_process_id)
unfolding parent_and_children links
parent_and_children_total (negsuc p) total = inl (refl, negative_process_id, refl)
parent_and_children_total (pos p) (negsuc n) = inl (refl, negative_total, refl)
parent_and_children_total (pos p) (pos n) = elim (dec_lt p n) [
  | yes h ↦
      let ids = links-ids p n h in
      inr (ground arith, n, links p n, refl, ground arith, refl, ids.0, ids.1, ids.2)
  | no h ↦ inl (ground arith, id_out_of_range, ground arith)
]
