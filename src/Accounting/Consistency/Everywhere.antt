-- ===== src/Accounting/Consistency/Everywhere.antt =====
-- The check on all processes of the tree.
use findus.Base.{
  ℕ, zero, suc, ◌+◌, ◌-◌, ◌*◌, ◌/◌, ◌%◌, ◌^◌, ◌<◌, false, if◌then◌else◌, List, Option, none, some,
  length, All, ◌≡◌, inl, inr, refl, sym, ◌∙◌, arith, Option-cases, ◌⊎◌, ℕ_discrete,
}
use mathlib.Core.Path.{subst}
use findus.Base.Int.{ℤ, pos, negsuc, ◌==ℤ◌}
use findus.Base.Result.{Result, ok, err, ◌>>=◌}
use findus.Components.{DistributedOjectClassHolder}
use findus.ProcessTree.{links}
use findus.TaskDriver.Children.{links-left, links-right}
use findus.Serializer.State.{int_of_size}
use findus.Accounting.{AccountingError, serialize_component_accounting}
use findus.Accounting.Reading.{IsVerdict}
use findus.Accounting.Consistency.{
  ConsistencyError, reported, receive_and_compare, sent_to_parent,
  check_component_accounting_consistency,
}
use findus.Accounting.Agreement.Inserted.{
  regular_names, collections, sorted, IsInserted, IsAgreed, collections-IsValid, of_same, IsSame-of,
}
use findus.Accounting.Agreement.Buffers.{compare-serialize}

-- Agreement is agreement of the names and of the sorted maps.
agreed_keys :
    (xs ys : List DistributedOjectClassHolder)
    → All IsInserted xs
    → IsAgreed xs ys
    → (regular_names xs ≡ regular_names ys) × (sorted (collections xs) ≡ sorted (collections ys))
agreed_keys xs ys h a =
    (a.0, of_same (collections xs) (collections ys) (collections-IsValid xs h) a.1)

keys-IsAgreed :
    (xs ys : List DistributedOjectClassHolder)
    → All IsInserted xs
    → regular_names xs ≡ regular_names ys
    → sorted (collections xs) ≡ sorted (collections ys)
    → IsAgreed xs ys
keys-IsAgreed xs ys h r c =
    (r, IsSame-of (collections xs) (collections ys) (collections-IsValid xs h) c)

pub IsAgreed-trans :
    (xs ys zs : List DistributedOjectClassHolder)
    → All IsInserted xs
    → All IsInserted ys
    → IsAgreed xs ys
    → IsAgreed ys zs
    → IsAgreed xs zs
IsAgreed-trans xs ys zs h k a b =
    let p = agreed_keys xs ys h a in
    let q = agreed_keys ys zs k b in keys-IsAgreed xs zs h (p.0 ∙ q.0) (p.1 ∙ q.1)

IsAgreed-refl : (xs : List DistributedOjectClassHolder) → All IsInserted xs → IsAgreed xs xs
IsAgreed-refl xs h = keys-IsAgreed xs xs h refl refl

parent_of_left : (p n : ℕ) → (links (2 * p + 1) n).parent_process_id ≡ pos p
unfolding links
parent_of_left p n = ground arith

parent_of_right : (p n : ℕ) → (links (2 * p + 2) n).parent_process_id ≡ pos p
unfolding links
parent_of_right p n = ground arith

-- The root, a left child or a right child.
parent_cases : (c : ℕ) → (c ≡ 0) ⊎ (((p : ℕ) × (c ≡ 2 * p + 1)) ⊎ ((p : ℕ) × (c ≡ 2 * p + 2)))
parent_cases c = elim (ℕ_discrete c 0) [
  | yes e ↦ inl e
  | no d ↦ elim (ℕ_discrete (c % 2) 1) [
    | yes e ↦ inr (inl ((c - 1) / 2, omega arith))
    | no e ↦ inr (inr ((c - 2) / 2, omega arith))
  ]
]

verdict_passed :
    {A : Type 0} {P : Type 0} {v : A} {r : Result AccountingError A}
    → IsVerdict P v r
    → reported r ≡ ok tt
    → P
verdict_passed (inl (p, e)) h = p
verdict_passed (inr (n, x, e, inside)) h = ground (arith, e, h)

first_passed :
    (a b : Result ConsistencyError (Unit {0}))
    → (a >>= λ (_ : Unit {0}). b) ≡ ok tt
    → (a ≡ ok tt) × (b ≡ ok tt)
first_passed (ok tt) b h = (refl, h)
first_passed (err e) b h = cc

buffer_positive :
    (xs : List DistributedOjectClassHolder) → 0 < length (serialize_component_accounting xs)
unfolding serialize_component_accounting
buffer_positive xs = omega arith

-- The processes of a tree, with what each has inserted.
module _ (n : ℕ) (objects : ℕ → List DistributedOjectClassHolder) where
  -- MPI brings to a process what its children have sent to it.
  abbrev pub delivered : ℕ → ℤ → Option (List ℕ)
  delivered p (negsuc c) = none
  delivered p (pos c) =
      elim (sent_to_parent (links c n) (serialize_component_accounting (objects c))) [
        | none ↦ none
        | some (destination, buffer) ↦ if destination ==ℤ pos p then some buffer else none
      ]

  abbrev pub check_at : ℕ → Option (ℤ × List ℕ) × Result ConsistencyError (Unit {0})
  check_at p = check_component_accounting_consistency false (delivered p) (links p n) (objects p)

  -- Buffers fit an `int`, and so do the numbers of components and all that they hold.
  abbrev pub IsBounded : ℕ → Type 0
  IsBounded p =
      (length (objects p) < 2 ^ 32)
      × All IsInserted (objects p)
      × (length (serialize_component_accounting (objects p)) < 2 ^ 31)

  module _ (bounded : (p : ℕ) → p < n → IsBounded p) where
    delivered_child :
        (p c : ℕ)
        → c < n
        → (links c n).parent_process_id ≡ pos p
        → delivered p (pos c) ≡ some (serialize_component_accounting (objects c))
    unfolding sent_to_parent int_of_size
    delivered_child p c h e = ground (arith, e, bounded c h, buffer_positive (objects c))

    child_agrees :
        (p c : ℕ)
        → p < n
        → c < n
        → (links c n).parent_process_id ≡ pos p
        → receive_and_compare (delivered p) (serialize_component_accounting (objects p)) (pos c)
          ≡ ok tt
        → IsAgreed (objects p) (objects c)
    unfolding receive_and_compare
    child_agrees p c h k e passed =
        let eq = delivered_child p c k e in
        verdict_passed
          (compare-serialize (objects p) (objects c) (bounded p h).0 (bounded c k).0 (bounded p h).1
            (bounded c k).1)
          (ground (arith, passed, eq))

    checked :
        (p : ℕ)
        → (check_at p).1 ≡ (
            receive_and_compare
              (delivered p)
              (serialize_component_accounting (objects p))
              (links p n).left_process_id
            >>= λ (_ : Unit {0}).
                receive_and_compare
                  (delivered p)
                  (serialize_component_accounting (objects p))
                  (links p n).right_process_id)
    unfolding check_component_accounting_consistency
    checked p =
        elim (Option-cases
          (sent_to_parent (links p n) (serialize_component_accounting (objects p)))) [
            | inl e ↦ ground (arith, e)
            | inr (m, e) ↦ ground (arith, e)
          ]

    both_passed :
        (p : ℕ)
        → (check_at p).1 ≡ ok tt
        → (receive_and_compare
              (delivered p)
              (serialize_component_accounting (objects p))
              (links p n).left_process_id
            ≡ ok tt)
          × (receive_and_compare
                (delivered p)
                (serialize_component_accounting (objects p))
                (links p n).right_process_id
              ≡ ok tt)
    both_passed p h = first_passed _ _ (sym (checked p) ∙ h)

    left_agrees :
        (p : ℕ)
        → p < n
        → 2 * p + 1 < n
        → (check_at p).1 ≡ ok tt
        → IsAgreed (objects p) (objects (2 * p + 1))
    left_agrees p h k passed = child_agrees p (2 * p + 1) h k (parent_of_left p n) (
        subst
          (λ (z : ℤ).
            receive_and_compare (delivered p) (serialize_component_accounting (objects p)) z
            ≡ ok tt)
          (links-left p n k) (both_passed p passed).0)

    right_agrees :
        (p : ℕ)
        → p < n
        → 2 * p + 2 < n
        → (check_at p).1 ≡ ok tt
        → IsAgreed (objects p) (objects (2 * p + 2))
    right_agrees p h k passed = child_agrees p (2 * p + 2) h k (parent_of_right p n) (
        subst
          (λ (z : ℤ).
            receive_and_compare (delivered p) (serialize_component_accounting (objects p)) z
            ≡ ok tt)
          (links-right p n k) (both_passed p passed).1)

    module _ (passed : (p : ℕ) → p < n → (check_at p).1 ≡ ok tt) where
      agrees_below : (fuel p : ℕ) → p < fuel → p < n → IsAgreed (objects 0) (objects p)
      agrees_below zero p f h = absurd (omega arith)
      agrees_below (suc fuel) p f h = elim (parent_cases p) [
        | inl e ↦
            subst (λ (q : ℕ). IsAgreed (objects 0) (objects q)) (sym e)
              (IsAgreed-refl (objects 0) (bounded 0 (omega arith)).1)
        | inr (inl (q, e)) ↦
            subst (λ (c : ℕ). IsAgreed (objects 0) (objects c)) (sym e)
              (IsAgreed-trans (objects 0) (objects q) (objects (2 * q + 1))
                (bounded 0 (omega arith)).1 (bounded q (omega arith)).1
                (agrees_below fuel q (omega arith) (omega arith))
                (left_agrees q (omega arith) (omega arith) (passed q (omega arith))))
        | inr (inr (q, e)) ↦
            subst (λ (c : ℕ). IsAgreed (objects 0) (objects c)) (sym e)
              (IsAgreed-trans (objects 0) (objects q) (objects (2 * q + 2))
                (bounded 0 (omega arith)).1 (bounded q (omega arith)).1
                (agrees_below fuel q (omega arith) (omega arith))
                (right_agrees q (omega arith) (omega arith) (passed q (omega arith))))
      ]

      -- Where the check passes on each process of the tree, with MPI bringing what is sent, each process
      -- agrees with process 0 on the names of the regular components in their order, and on the names of the
      -- collections in theirs, with the same elements on the same processes. How the two kinds follow on
      -- one another may differ.
      pub consistent_everywhere : (p : ℕ) → p < n → IsAgreed (objects 0) (objects p)
      consistent_everywhere p h = agrees_below (suc p) p (omega arith) h
