-- ===== src/LocalQd/Alone.antt =====
-- `is_quiescent` when no other thread runs during the call.
use findus.Base.{ℕ, Bool, true, false, ◌==◌, ◌&&◌, ◌≡◌, ◌≢◌, arith, if◌then◌else◌}
use findus.Base.Int.{pos, ◌==ℤ◌}
use findus.Base.Result.{ok, err}
use findus.LocalQd.{Local, wrong_phase, is_quiescent, increment_sent, reset}

-- All threads are idle, and as many messages were processed as were sent.
abbrev pub looks_quiescent : ℕ → Local → Bool
looks_quiescent total l =
    l.number_of_idle_threads ==ℤ pos total
    && l.number_of_messages_sent == l.number_of_messages_processed

-- In phase 1 the answer is no, and a look at a quiet process moves on to phase 2 and notes the
-- count. In phase 2 the answer is yes exactly if the process is quiet and the count is the noted
-- one; if not, it is back in phase 1. In any other phase the call throws.
pub is_quiescent_lem :
    (total : ℕ) (l : Local)
    → (l.phase ≡ 1
        → is_quiescent total l
          ≡ ok (
            false,
            if looks_quiescent total l
                then record l { phase = 2; previous_count = l.number_of_messages_sent }
                else l,
          ))
      × (l.phase ≡ 2
          → is_quiescent total l ≡ (
              let found =
                looks_quiescent total l && l.previous_count == l.number_of_messages_sent in
              ok (found, if found then l else record l { phase = 1 })))
      × (l.phase ≢ 1 → l.phase ≢ 2 → is_quiescent total l ≡ err wrong_phase)
unfolding is_quiescent
is_quiescent_lem total l = (λ p. ground arith, λ p. ground arith, λ p q. ground arith)

-- After a reset, a process whose threads are all idle answers no once and then yes for good, and a
-- message that is sent and not yet processed makes the answer no again.
pub is_quiescent_after_reset :
    (total : ℕ) (l : Local)
    → (found : Local) × (let idle = record (reset l) { number_of_idle_threads = pos total } in
        (is_quiescent total idle ≡ ok (false, found))
        × (is_quiescent total found ≡ ok (true, found))
        × ((is_quiescent total (increment_sent found))
            ≡ ok (false, record (increment_sent found) { phase = 1 })))
unfolding is_quiescent reset increment_sent
is_quiescent_after_reset total l = (
  record (reset l) { number_of_idle_threads = pos total; phase = 2; previous_count = 0 },
  (ground arith, ground arith, ground arith),
)
