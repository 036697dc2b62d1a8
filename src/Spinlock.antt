-- ===== src/Spinlock.antt =====
-- The lock of Spinlock.hpp: `lock`, `try_lock` and `unlock` of any number of threads, each access of
-- the atomic flag one step. Reorderings by the memory orders named in the code are not modelled.
pub mod Exclusion
use findus.Base.{ℕ, Bool, true, false, if◌then◌else◌}

-- Where a thread stands: outside, before the exchange of `lock`, before the load of its inner loop,
-- before the load of `try_lock`, before its exchange, behind a call that has the lock, or before the
-- store of `unlock`.
pub data Position : Type 0 where
  outside exchanging waiting trying_load trying_exchange locked unlocking : Position

-- What a thread may begin: a call, when it is allowed to, or the next step of its call.
pub data LockEvent : Type 0 where
  call_lock call_try_lock call_unlock proceed : LockEvent

-- The place afterwards and the flag.
pub record LockOutcome : Type 0 where
  pub place : Position
  pub lock : Bool

-- A thread calls `unlock` when it has the lock, and `lock` and `try_lock` when it does not; an event
-- that does not fit leaves everything as it is.
unfoldable pub lock_step : LockEvent → Position → Bool → LockOutcome
lock_step call_lock outside lock = record { place = exchanging; lock = lock }
lock_step call_try_lock outside lock = record { place = trying_load; lock = lock }
lock_step call_unlock locked lock = record { place = unlocking; lock = lock }
lock_step proceed exchanging lock = record { place = if lock then waiting else locked; lock = true }
lock_step proceed waiting lock = record {
  place = if lock then waiting else exchanging;
  lock = lock;
}
lock_step proceed trying_load lock = record {
  place = if lock then outside else trying_exchange;
  lock = lock;
}
lock_step proceed trying_exchange lock = record {
  place = if lock then outside else locked;
  lock = true;
}
lock_step proceed unlocking lock = record { place = outside; lock = false }
lock_step event place lock = record { place = place; lock = lock }

-- The threads and the flag.
pub record Threads : Type 0 where
  pub place_of : ℕ → Position
  pub lock : Bool
