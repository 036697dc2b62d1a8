-- ===== src/Spinlock/Exclusion.antt =====
-- Mutual exclusion, over all interleavings.
use findus.Base.{
  ℕ, zero, suc, ◌+◌, ◌≤◌, ◌<◌, Bool, true, false, ◌≡◌, inl, inr, refl, ap, arith, ℕ_discrete,
  Bool-cases,
}
use findus.Base.Sums.{bit, sum_below, sum_below_zero}
use findus.ThreadPool.Family.{update, sum-update}
use findus.Spinlock.{
  Position, outside, exchanging, waiting, trying_load, trying_exchange, locked, unlocking,
  LockEvent, proceed, LockOutcome, lock_step, Threads,
}

-- One of the `n` threads makes a step.
pub data Step (n : ℕ) (t : Threads) : Threads → Type 0 where
  by_thread :
      (i : ℕ) (e : LockEvent)
      → i < n
      → Step n t (record {
        place_of = update t.place_of i (lock_step e (t.place_of i) t.lock).place;
        lock = (lock_step e (t.place_of i) t.lock).lock;
      })

pub data Reachable (n : ℕ) : Threads → Type 0 where
  start : Reachable n (record { place_of = λ _. outside; lock = false })
  next : (t u : Threads) → Reachable n t → Step n t u → Reachable n u

-- Between the exchange that took the lock and the store that gives it back.
abbrev pub has_lock : Position → Bool
has_lock locked = true
has_lock unlocking = true
has_lock _ = false

abbrev pub holders : ℕ → Threads → ℕ
holders n t = sum_below n (λ i. bit (has_lock (t.place_of i)))

lock_step-holders :
    (e : LockEvent) (p : Position) (lock : Bool) (others : ℕ)
    → others + bit (has_lock p) ≡ bit lock
    → others + bit (has_lock (lock_step e p lock).place) ≡ bit (lock_step e p lock).lock
unfolding lock_step
lock_step-holders proceed exchanging true others h = omega (arith, h)
lock_step-holders e p lock others h = ground (arith, h)

Step-holders :
    (n : ℕ) (t u : Threads) → Step n t u → holders n t ≡ bit t.lock → holders n u ≡ bit u.lock
Step-holders n t u (by_thread i e below) inv =
    let weight : Position → ℕ = λ p. bit (has_lock p) in
    let out = sum-update weight n t.place_of i outside below in
    let others = sum_below n (λ j. weight (update t.place_of i outside j)) in
    let after = lock_step e (t.place_of i) t.lock in
    let kept = lock_step-holders e (t.place_of i) t.lock others (omega (arith, out, inv)) in
    omega (arith, kept, out, sum-update weight n t.place_of i after.place below)

holders-lock : (n : ℕ) (t : Threads) → Reachable n t → holders n t ≡ bit t.lock
holders-lock n t start = sum_below_zero n (λ i. bit (has_lock outside)) (λ i l. refl)
holders-lock n t (next s _ r step) = Step-holders n s t step (holders-lock n s r)

has_lock-le-holders :
    (n : ℕ) (places : ℕ → Position) (i : ℕ)
    → i < n
    → bit (has_lock (places i)) ≤ sum_below n (λ j. bit (has_lock (places j)))
has_lock-le-holders n places i below =
    omega (arith, sum-update (λ (p : Position). bit (has_lock p)) n places i outside below)

-- However the calls of `lock`, `try_lock` and `unlock` of the threads interleave: two threads that
-- have the lock are the same thread, and while a thread has it the flag is set.
pub mutual_exclusion :
    (n : ℕ) (t : Threads) (i j : ℕ)
    → Reachable n t
    → i < n
    → j < n
    → has_lock (t.place_of i) ≡ true
    → has_lock (t.place_of j) ≡ true
    → (i ≡ j) × (t.lock ≡ true)
mutual_exclusion n t i j r hi hj ei ej =
    let places = update t.place_of i outside in
    let out = sum-update (λ (p : Position). bit (has_lock p)) n t.place_of i outside hi in
    let other = has_lock-le-holders n places j hj in
    let one = ap bit ei in
    let total = holders-lock n t r in
    (
      elim (ℕ_discrete i j) [
        | yes same ↦ same
        | no differ ↦
            let kept : bit (has_lock (places j)) ≡ 1 = ground (arith, differ, ej) in
            absurd (elim (Bool-cases t.lock) [
              | inl e ↦ omega (arith, out, other, one, kept, total, ap bit e)
              | inr e ↦ omega (arith, out, other, one, kept, total, ap bit e)
            ])
      ],
      elim (Bool-cases t.lock) [
        | inl e ↦ e
        | inr e ↦ absurd (omega (arith, out, one, total, ap bit e))
      ],
    )

-- Some steps of a thread with none of the others between them.
abbrev pub proceed_alone : ℕ → Position → Bool → LockOutcome
proceed_alone zero place lock = record { place = place; lock = lock }
proceed_alone (suc k) place lock =
    let o = lock_step proceed place lock in proceed_alone k o.place o.lock

-- A thread in `lock` or `try_lock`.
abbrev pub wants_lock : Position → Bool
wants_lock exchanging = true
wants_lock waiting = true
wants_lock trying_load = true
wants_lock trying_exchange = true
wants_lock _ = false

gets_lock :
    (p : Position)
    → wants_lock p ≡ true
    → (k : ℕ) × (k ≤ 2) × ((proceed_alone k p false).place ≡ locked)
unfolding lock_step
gets_lock exchanging h = (1, omega arith, refl)
gets_lock waiting h = (2, omega arith, refl)
gets_lock trying_load h = (2, omega arith, refl)
gets_lock outside h = absurd (ground (arith, h))
gets_lock trying_exchange h = (1, omega arith, refl)
gets_lock locked h = absurd (ground (arith, h))
gets_lock unlocking h = absurd (ground (arith, h))

-- While no thread has the lock, a thread in `lock` or `try_lock` has it after at most two steps of its
-- own with none of the others between them.
pub lock_progress :
    (n : ℕ) (t : Threads) (i : ℕ)
    → Reachable n t
    → ((j : ℕ) → j < n → has_lock (t.place_of j) ≡ false)
    → i < n
    → wants_lock (t.place_of i) ≡ true
    → (k : ℕ) × (k ≤ 2) × ((proceed_alone k (t.place_of i) t.lock).place ≡ locked)
lock_progress n t i r free below wants =
    let none_holds : holders n t ≡ 0 =
      sum_below_zero n (λ j. bit (has_lock (t.place_of j))) (λ j l. ap bit (free j l)) in
    let unset : t.lock ≡ false = elim (Bool-cases t.lock) [
      | inl e ↦ absurd (omega (arith, holders-lock n t r, none_holds, ap bit e))
      | inr e ↦ e
    ] in
    rw unset (gets_lock (t.place_of i) wants)
