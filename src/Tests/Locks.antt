-- ===== src/Tests/Locks.antt =====
-- Two threads and the lock of Spinlock.hpp.
use findus.Base.{ℕ, ◌<◌, ◌≤◌, true, false, ◌≡◌, refl, arith}
use findus.ThreadPool.Family.{update}
use findus.Spinlock.{outside, locked, LockEvent, call_lock, proceed, lock_step, Threads}
use findus.Spinlock.Exclusion.{
  by_thread, Reachable, start, next, has_lock, proceed_alone, wants_lock, mutual_exclusion,
  lock_progress,
}

abbrev all_outside : Threads
all_outside = record { place_of = λ _. outside; lock = false }

-- Thread `i` goes to a place.
abbrev goes : Threads → ℕ → LockEvent → Threads
goes t i e = record {
  place_of = update t.place_of i (lock_step e (t.place_of i) t.lock).place;
  lock = (lock_step e (t.place_of i) t.lock).lock;
}

abbrev called : Threads
called = goes all_outside 0 call_lock

abbrev taken : Threads
taken = goes called 0 proceed

abbrev other_called : Threads
other_called = goes taken 1 call_lock

called-Reachable : Reachable 2 called
called-Reachable = next _ _ start (by_thread 0 call_lock (omega arith))

other_called-Reachable : Reachable 2 other_called
other_called-Reachable =
    next _ _ (next _ _ called-Reachable (by_thread 0 proceed (omega arith)))
      (by_thread 1 call_lock (omega arith))

holding : has_lock (other_called.place_of 0) ≡ true
unfolding lock_step
holding = refl

mutual_exclusion_example : ◌≡◌ {A = ℕ} 0 0 × (other_called.lock ≡ true)
mutual_exclusion_example =
    mutual_exclusion 2 other_called 0 0 other_called-Reachable (omega arith) (omega arith) holding
      holding

free_yet : (j : ℕ) → j < 2 → has_lock (called.place_of j) ≡ false
unfolding lock_step
free_yet j h = ground arith

wanting : wants_lock (called.place_of 0) ≡ true
unfolding lock_step
wanting = refl

lock_progress_example :
    (k : ℕ) × (k ≤ 2) × ((proceed_alone k (called.place_of 0) called.lock).place ≡ locked)
lock_progress_example = lock_progress 2 called 0 called-Reachable free_yet (omega arith) wanting
