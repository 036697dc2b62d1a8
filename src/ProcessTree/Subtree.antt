-- ===== src/ProcessTree/Subtree.antt =====
-- `children_in_subtree` lists every descendant once.
use findus.Base.{
  ℕ, zero, suc, ◌+◌, ◌-◌, ◌*◌, ◌≤◌, ◌<◌, Bool, true, false, ltb, ◌==◌, ◌||◌, not, ◌≡◌, refl, arith,
  ap, ◌∙◌, inl, inr, Bool-cases, List, [], ◌∷◌, ◌++◌, map, some, All, All-append, ◌&&◌, dec_lt,
  length, length-map, length-append, get_elem?,
}
use mathlib.Core.List.{append-nil, append_assoc, map-append}
use findus.Base.Sums.{bit, sum_of, sum_of-append, count}
use findus.Base.Int.{ℤ, pos, minus_one, ◌==ℤ◌}
use findus.Base.Result.{Result, ok}
use findus.ProcessTree.{
  TreeError, links, push_back_child, scan_level, scan_levels, children_in_subtree,
}
use findus.ProcessTree.Climb.{clear_below, clear_children}
use findus.ProcessTree.Size.{in_subtree}
use findus.ProcessTree.Links.{parent_and_children_ok}

abbrev take_if : Bool → ℕ → List ℕ
take_if true q = q ∷ []
take_if false q = []

-- The children of `q`, left one first.
abbrev kids : ℕ → ℕ → List ℕ
kids n q = take_if (ltb (2 * q + 1) n) (2 * q + 1) ++ take_if (ltb (2 * q + 2) n) (2 * q + 2)

-- The level below the processes of `level`.
next_level : ℕ → List ℕ → List ℕ
next_level n [] = []
next_level n (q ∷ qs) = kids n q ++ next_level n qs

abbrev non_empty : List ℕ → Bool
non_empty [] = false
non_empty (q ∷ qs) = true

push_back_child-links :
    (n q : ℕ) (r : List ℕ)
    → push_back_child
        (links q n).right_process_id
        (push_back_child (links q n).left_process_id (map pos r))
      ≡ map pos (r ++ kids n q)
unfolding push_back_child links
push_back_child-links n q r = ground (
  arith,
  map-append pos r (kids n q),
  append-nil (map pos r),
  append_assoc (map pos r) (pos (2 * q + 1) ∷ []) (pos (2 * q + 2) ∷ []),
)

added-links :
    (n q : ℕ) (some_added : Bool) (rest : List ℕ)
    → (some_added
        || not ((links q n).left_process_id ==ℤ minus_one)
        || not ((links q n).right_process_id ==ℤ minus_one)
        || non_empty rest)
      ≡ (some_added || non_empty (kids n q ++ rest))
unfolding links
added-links n q some_added rest = ground arith

get_elem?-middle :
    (pre : List ℕ) (q : ℕ) (post : List ℕ)
    → get_elem? (map pos (pre ++ q ∷ post)) (length pre) ≡ some (pos q)
get_elem?-middle [] q post = refl
get_elem?-middle (x ∷ pre) q post = get_elem?-middle pre q post

scan_level_step :
    (n q rounds i : ℕ) (v : List ℕ) (some_added : Bool)
    → q < n
    → get_elem? (map pos v) i ≡ some (pos q)
    → scan_level (suc rounds) i (pos n) (map pos v) some_added
      ≡ scan_level rounds (i + 1) (pos n) (map pos (v ++ kids n q)) (
          some_added
          || not ((links q n).left_process_id ==ℤ minus_one)
          || not ((links q n).right_process_id ==ℤ minus_one))
unfolding scan_level
scan_level_step n q rounds i v added h found =
    rw (found, scan_level)
      (rw (parent_and_children_ok q n h) (rw (push_back_child-links n q v) refl))

-- One pass of the inner loop over the level `level` appends the level below it.
scan_level_lem :
    (n : ℕ) (level pre acc v : List ℕ) (i : ℕ) (some_added : Bool)
    → All (λ q. q < n) level
    → v ≡ pre ++ (level ++ acc)
    → i ≡ length pre
    → scan_level (length level) i (pos n) (map pos v) some_added
      ≡ ok (map pos (v ++ next_level n level), some_added || non_empty (next_level n level))
unfolding scan_level next_level
scan_level_lem n [] pre acc v i added all e k = rw append-nil (ground arith)
scan_level_lem n (q ∷ level) pre acc v i added all e k =
    let found : get_elem? (map pos v) i ≡ some (pos q) =
      rw (e, k) (get_elem?-middle pre q (level ++ acc)) in
    scan_level_step n q (length level) i v added all.0 found
    ∙ (scan_level_lem n level (pre ++ q ∷ []) (acc ++ kids n q) (v ++ kids n q) (i + 1) _ all.1
          (rw e (simp append_assoc)) (omega (arith, length-append pre (q ∷ [])))
        ∙ rw (
          append_assoc v (kids n q) (next_level n level),
          added-links n q added (next_level n level),
        ))

-- The levels below one another, measured by a weight that is 0 outside of the tree.
next_level-weight :
    (n r : ℕ) (level : List ℕ)
    → r < n
    → sum_of (λ q. bit (in_subtree q r)) level
      ≡ count r level + sum_of (λ q. bit (in_subtree q r)) (next_level n level)
unfolding next_level sum_of
next_level-weight n r [] h = omega arith
next_level-weight n r (q ∷ level) h = ground (
  arith,
  next_level-weight n r level h,
  clear_children (λ _. false) q r refl,
  clear_below (λ _. false) (2 * q + 1) r,
  clear_below (λ _. false) (2 * q + 2) r,
)

next_level-lt : (n : ℕ) (level : List ℕ) → All (λ q. q < n) (next_level n level)
unfolding next_level
next_level-lt n [] = tt
next_level-lt n (q ∷ level) = ground (arith, next_level-lt n level)

next_level-le :
    (n k : ℕ) (level : List ℕ) → All (λ q. k ≤ q) level → All (λ q. k + 1 ≤ q) (next_level n level)
unfolding next_level
next_level-le n k [] h = tt
next_level-le n k (q ∷ level) h = ground (arith, next_level-le n k level h.1)

room :
    (n k : ℕ) (level : List ℕ)
    → All (λ q. q < n) level
    → All (λ q. k ≤ q) level
    → non_empty level ≡ true
    → k < n
room n k [] h l e = cc
room n k (q ∷ level) h l e = omega arith

none_left :
    (n r : ℕ) (level : List ℕ)
    → non_empty level ≡ false
    → sum_of (λ q. bit (in_subtree q r)) level ≡ count r level
unfolding sum_of
none_left n r [] e = refl
none_left n r (q ∷ level) e = cc

-- What the outer loop returns: the vector it starts from and the levels below.
record Levels (n : ℕ) (level v : List ℕ) (result : Result TreeError (List ℤ)) : Type 0 where
  rest : List ℕ
  returned : result ≡ ok (map pos (v ++ rest))
  inside : All (λ q. q < n) rest
  counted :
      (r : ℕ) → r < n → sum_of (λ q. bit (in_subtree q r)) level ≡ count r level + count r rest

scan_levels_lem :
    (fuel n k : ℕ) (pre level v : List ℕ) (start end : ℕ)
    → 0 < fuel
    → n < fuel + k
    → All (λ q. q < n) level
    → All (λ q. k ≤ q) level
    → v ≡ pre ++ level
    → start ≡ length pre
    → end ≡ start + length level
    → Levels n level v (scan_levels fuel start end (pos n) (map pos v))
unfolding scan_levels
scan_levels_lem zero n k pre level v start end f h below above e s t = absurd (omega arith)
scan_levels_lem (suc fuel) n k pre level v start end f h below above e s t =
    let next = next_level n level in
    let scanned : scan_level (end - start) start (pos n) (map pos v) false
        ≡ ok (map pos (v ++ next), non_empty next) =
      let rounds : end - start ≡ length level = omega arith in
      rw rounds (scan_level_lem n level pre [] v start false below (rw append-nil e) s) in
    elim (Bool-cases (non_empty next)) [
      | inl more ↦
          let step : scan_levels (suc fuel) start end (pos n) (map pos v)
              ≡ scan_levels fuel end (length (map pos (v ++ next))) (pos n) (map pos (v ++ next)) =
            rw scanned (rw more refl) in
          let under : All (λ q. k + 1 ≤ q) next = next_level-le n k level above in
          let space : k + 1 < n = room n (k + 1) next (next_level-lt n level) under more in
          let below' =
            scan_levels_lem fuel n (k + 1) v next (v ++ next) end (length (map pos (v ++ next)))
              (omega arith) (omega arith) (next_level-lt n level) under refl
              (omega (arith, ap length e, length-append pre level))
              (omega (
                arith,
                length-map pos (v ++ next),
                length-append v next,
                ap length e,
                length-append pre level,
              )) in
          record {
            rest = next ++ below'.rest;
            returned = step ∙ below'.returned ∙ rw (append_assoc v next below'.rest);
            inside = All-append (λ q. q < n) next _ (next_level-lt n level) below'.inside;
            counted = λ r l. omega (
              arith,
              next_level-weight n r level l,
              below'.counted r l,
              sum_of-append (λ b. bit (r == b)) next below'.rest,
            );
          }
      | inr done ↦ record {
        rest = next;
        returned = rw scanned (rw done refl);
        inside = next_level-lt n level;
        counted = λ r l. omega (arith, next_level-weight n r level l, none_left n r next done);
      }
    ]

count_outside : (n r : ℕ) (qs : List ℕ) → n ≤ r → All (λ q. q < n) qs → count r qs ≡ 0
unfolding sum_of
count_outside n r [] h all = refl
count_outside n r (q ∷ qs) h all = ground (arith, count_outside n r qs h all.1)

kids-lt : (n p : ℕ) → All (λ q. q < n) (kids n p)
kids-lt n p = ground arith

kids-weight :
    (n p r : ℕ)
    → r < n
    → sum_of (λ q. bit (in_subtree q r)) (kids n p)
      ≡ bit (in_subtree (2 * p + 1) r) + bit (in_subtree (2 * p + 2) r)
unfolding sum_of
kids-weight n p r h =
    ground (arith, clear_below (λ _. false) (2 * p + 1) r, clear_below (λ _. false) (2 * p + 2) r)

children_in_subtree-Levels :
    (p n : ℕ) → p < n → Levels n (kids n p) (kids n p) (children_in_subtree (pos p) (pos n))
unfolding children_in_subtree
children_in_subtree-Levels p n h =
    rw (parent_and_children_ok p n h, push_back_child-links n p [])
      (scan_levels_lem (n + 1) n 0 [] (kids n p) (kids n p) 0 (length (map pos (kids n p)))
        (omega arith) (omega arith) (kids-lt n p) (ground arith) refl refl
        (omega (arith, length-map pos (kids n p))))

-- For a process of the tree `children_in_subtree` returns, and its result holds each process from
-- which the climb over parents reaches `p`, other than `p`, exactly once, and no other number.
pub children_in_subtree_lem :
    (p n : ℕ)
    → p < n
    → (ids : List ℕ) × (children_in_subtree (pos p) (pos n) ≡ ok (map pos ids))
      × ((r : ℕ) → count r ids ≡ bit (ltb r n && not (r == p) && in_subtree p r))
children_in_subtree_lem p n h =
    let found = children_in_subtree-Levels p n h in
    (
      kids n p ++ found.rest,
      found.returned,
      λ r. elim (dec_lt r n) [
        | yes l ↦ ground (
          arith,
          sum_of-append (λ b. bit (r == b)) (kids n p) found.rest,
          found.counted r l,
          kids-weight n p r l,
          clear_children (λ _. false) p r refl,
        )
        | no l ↦ ground (
          arith,
          count_outside n r (kids n p ++ found.rest) (omega arith)
              (All-append (λ q. q < n) (kids n p) found.rest (kids-lt n p) found.inside),
        )
      ],
    )
