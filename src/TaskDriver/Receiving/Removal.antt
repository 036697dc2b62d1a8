-- ===== src/TaskDriver/Receiving/Removal.antt =====
-- What `std::remove_if` leaves: where the entries to remove stand at the end, they stay what they are; else an
-- emptied entry is among those that are left behind the others.
use findus.Base.{
  Bool, true, false, List, [], ◌∷◌, ◌++◌, All, ◌≡◌, ◌≢◌, refl, ap, ◌∙◌, inl, inr, Bool-cases,
}
use mathlib.Core.List.{append_assoc, append-nil}
use findus.TaskDriver.{Incoming}
use findus.TaskDriver.Receiving.{emptied, remove_loop}

module _ (removed : Incoming → Bool) where
  abbrev pub IsRemoved : Incoming → Type 0
  IsRemoved e = removed e ≡ true

  abbrev pub IsKept : Incoming → Type 0
  IsKept e = removed e ≡ false

  remove_loop-append :
      (front gap xs ys : List Incoming)
      → remove_loop removed front gap (xs ++ ys)
        ≡ remove_loop removed
            (remove_loop removed front gap xs).0
            (remove_loop removed front gap xs).1
            ys
  unfolding remove_loop
  remove_loop-append front gap [] ys = refl
  remove_loop-append front [] (e ∷ xs) ys = elim (Bool-cases (removed e)) [
    | inl t ↦ rw t (remove_loop-append front (e ∷ []) xs ys)
    | inr f ↦ rw f (remove_loop-append (front ++ e ∷ []) [] xs ys)
  ]
  remove_loop-append front (g ∷ gap) (e ∷ xs) ys = elim (Bool-cases (removed e)) [
    | inl t ↦ rw t (remove_loop-append front (g ∷ gap ++ e ∷ []) xs ys)
    | inr f ↦ rw f (remove_loop-append (front ++ e ∷ []) (gap ++ emptied e ∷ []) xs ys)
  ]

  remove_loop-removed :
      (front gap xs : List Incoming)
      → All IsRemoved xs
      → remove_loop removed front gap xs ≡ (front, gap ++ xs)
  unfolding remove_loop
  remove_loop-removed front gap [] h = rw (append-nil gap) refl
  remove_loop-removed front [] (e ∷ xs) h = rw h.0 (remove_loop-removed front (e ∷ []) xs h.1)
  remove_loop-removed front (g ∷ gap) (e ∷ xs) h = rw h.0 (
      remove_loop-removed front (g ∷ gap ++ e ∷ []) xs h.1
      ∙ ap (λ (t : List Incoming). (front, t)) (append_assoc (g ∷ gap) (e ∷ []) xs))

  remove_loop-kept :
      (front xs : List Incoming)
      → All IsKept xs
      → remove_loop removed front [] xs ≡ (front ++ xs, [])
  unfolding remove_loop
  remove_loop-kept front [] h = rw (append-nil front) refl
  remove_loop-kept front (e ∷ xs) h = rw h.0 (
      remove_loop-kept (front ++ e ∷ []) xs h.1
      ∙ ap (λ (t : List Incoming). (t, [])) (append_assoc front (e ∷ []) xs))

  pub remove_loop_in_order :
      (kept done : List Incoming)
      → All IsKept kept
      → All IsRemoved done
      → remove_loop removed [] [] (kept ++ done) ≡ (kept, done)
  remove_loop_in_order kept done h k =
      remove_loop-append [] [] kept done
      ∙ rw (remove_loop-kept [] kept h) (remove_loop-removed kept [] done k)

  append_one : (xs : List Incoming) (e : Incoming) → xs ++ e ∷ [] ≢ []
  append_one [] e h = cc
  append_one (x ∷ xs) e h = cc

  -- Once there is a gap it stays.
  gap_stays : (front gap xs : List Incoming) → gap ≢ [] → (remove_loop removed front gap xs).1 ≢ []
  unfolding remove_loop
  gap_stays front gap [] h = h
  gap_stays front [] (e ∷ xs) h = absurd (h refl)
  gap_stays front (g ∷ gap) (e ∷ xs) h = elim (Bool-cases (removed e)) [
    | inl t ↦ rw t (gap_stays front (g ∷ gap ++ e ∷ []) xs (λ q. cc))
    | inr f ↦
        rw f (gap_stays (front ++ e ∷ []) (gap ++ emptied e ∷ []) xs (append_one gap (emptied e)))
  ]

  gap_of_removed :
      (front gap xs : List Incoming) (d : Incoming) (ys : List Incoming)
      → IsRemoved d
      → (remove_loop removed front gap (xs ++ d ∷ ys)).1 ≢ []
  unfolding remove_loop
  gap_of_removed front [] [] d ys h = rw h (gap_stays front (d ∷ []) ys (λ q. cc))
  gap_of_removed front (g ∷ gap) [] d ys h = gap_stays front (g ∷ gap) (d ∷ ys) (λ q. cc)
  gap_of_removed front [] (x ∷ xs) d ys h = elim (Bool-cases (removed x)) [
    | inl t ↦ rw t (gap_of_removed front (x ∷ []) xs d ys h)
    | inr f ↦ rw f (gap_of_removed (front ++ x ∷ []) [] xs d ys h)
  ]
  gap_of_removed front (g ∷ gap) (x ∷ xs) d ys h = elim (Bool-cases (removed x)) [
    | inl t ↦ rw t (gap_of_removed front (g ∷ gap ++ x ∷ []) xs d ys h)
    | inr f ↦ rw f (gap_of_removed (front ++ x ∷ []) (gap ++ emptied x ∷ []) xs d ys h)
  ]

  -- What holds of every entry, and of an emptied one, holds of those that are left behind.
  All-append-one :
      (P : Incoming → Type 0) (xs : List Incoming) (x : Incoming)
      → All P xs
      → P x
      → All P (xs ++ x ∷ [])
  All-append-one P [] x h k = (k, tt)
  All-append-one P (y ∷ xs) x h k = (h.0, All-append-one P xs x h.1 k)

  pub All-left_behind :
      (P : Incoming → Type 0)
      → ((e : Incoming) → P (emptied e))
      → (xs front gap : List Incoming) → All P xs
      → All P gap
      → All P (remove_loop removed front gap xs).1
  unfolding remove_loop
  All-left_behind P empty [] front [] h k = k
  All-left_behind P empty [] front (g ∷ gap) h k = k
  All-left_behind P empty (x ∷ xs) front [] h k = elim (Bool-cases (removed x)) [
    | inl t ↦ rw t (All-left_behind P empty xs front (x ∷ []) h.1 (h.0, tt))
    | inr f ↦ rw f (All-left_behind P empty xs (front ++ x ∷ []) [] h.1 tt)
  ]
  All-left_behind P empty (x ∷ xs) front (g ∷ gap) h k = elim (Bool-cases (removed x)) [
    | inl t ↦ rw t (
        All-left_behind P empty xs front (g ∷ gap ++ x ∷ []) h.1
          (All-append-one P (g ∷ gap) x k h.0))
    | inr f ↦ rw f (
        All-left_behind P empty xs (front ++ x ∷ []) (gap ++ emptied x ∷ []) h.1
          (All-append-one P gap (emptied x) k.1 (empty x)))
  ]

  -- An entry that stays is moved into a gap.
  moved :
      (front gap : List Incoming) (e : Incoming) (xs : List Incoming)
      → gap ≢ []
      → IsKept e
      → All IsRemoved xs
      → (g : Incoming) × (rest : List Incoming) × (gap ≡ g ∷ rest)
        × (remove_loop removed front gap (e ∷ xs) ≡ (front ++ e ∷ [], rest ++ emptied e ∷ xs))
  unfolding remove_loop
  moved front [] e xs h k r = absurd (h refl)
  moved front (g ∷ gap) e xs h k r = (
    g,
    gap,
    refl,
    rw k (
        remove_loop-removed (front ++ e ∷ []) (gap ++ emptied e ∷ []) xs r
        ∙ ap (λ (t : List Incoming). (front ++ e ∷ [], t)) (append_assoc gap (emptied e ∷ []) xs)),
  )

  -- An entry to remove before one that stays, the last that stays: it is emptied and left behind.
  pub remove_loop_out_of_order :
      (xs ys zs : List Incoming) (d e : Incoming)
      → IsRemoved d
      → IsKept e
      → All IsRemoved zs
      → (kept before : List Incoming) × (remove_loop removed [] [] ((xs ++ d ∷ ys) ++ e ∷ zs)
          ≡ (kept, before ++ emptied e ∷ zs))
  remove_loop_out_of_order xs ys zs d e h k r =
      let first = remove_loop removed [] [] (xs ++ d ∷ ys) in
      let (g, rest, shape, moves) =
        moved first.0 first.1 e zs (gap_of_removed [] [] xs d ys h) k r in
      (first.0 ++ e ∷ [], rest, remove_loop-append [] [] (xs ++ d ∷ ys) (e ∷ zs) ∙ moves)
