-- ===== src/LocalQd.antt =====
-- qd::Local of QuiescenceDetection.hpp and .cpp: the counters from which one process finds out that
-- its threads have nothing left to do. The `int64_t` counters of
-- messages are numbers: they count up from 0 and the model does not wrap them. Each load of an atomic is a step of its own, since the other threads
-- go on between two of them.
pub mod Alone
use findus.Base.{ℕ, ◌+◌, ◌-◌, Bool, true, false, ◌==◌, if◌then◌else◌, not, ◌&&◌}
use findus.Base.Int.{ℤ, pos, ◌+ℤ◌, ◌-ℤ◌, ◌==ℤ◌}
use findus.Base.Result.{Result, ok, err, ◌>>=◌}

pub record Local : Type 0 where
  pub phase : ℕ
  pub number_of_idle_threads : ℤ
  pub number_of_messages_sent : ℕ
  pub number_of_messages_processed : ℕ
  pub previous_count : ℕ

unfoldable pub increment_idle_thread_count : Local → Local
increment_idle_thread_count l = record l {
  number_of_idle_threads = l.number_of_idle_threads +ℤ pos 1;
}

unfoldable pub decrement_idle_thread_count : Local → Local
decrement_idle_thread_count l = record l {
  number_of_idle_threads = l.number_of_idle_threads -ℤ pos 1;
}

unfoldable pub increment_sent : Local → Local
increment_sent l = record l { number_of_messages_sent = l.number_of_messages_sent + 1 }

unfoldable pub increment_processed : Local → Local
increment_processed l = record l {
  number_of_messages_processed = l.number_of_messages_processed + 1;
}

unfoldable pub reset : Local → Local
reset l = record {
  phase = 1;
  number_of_idle_threads = pos 0;
  number_of_messages_sent = 0;
  number_of_messages_processed = 0;
  previous_count = 0;
}

abbrev pub fresh : Local
fresh = record {
  phase = 1;
  number_of_idle_threads = pos 0;
  number_of_messages_sent = 0;
  number_of_messages_processed = 0;
  previous_count = 0;
}

-- Where a call of `is_quiescent` stands.
pub data Check : Type 0 where
  reading_idle reading_sent : Check
  reading_processed : ℕ → Check
  answered : Bool → Check
  invalid_phase : Check

unfoldable pub check_idle : ℕ → Local → Check × Local
check_idle total l =
    if l.phase == 1
    then if not (l.number_of_idle_threads ==ℤ pos total)
      then (answered false, l)
      else (reading_sent, l)
    else if l.phase == 2
    then if not (l.number_of_idle_threads ==ℤ pos total)
      then (answered false, record l { phase = 1 })
      else (reading_sent, l)
    else (invalid_phase, l)

unfoldable pub check_processed : ℕ → Local → Check × Local
check_processed message_count l =
    if l.phase == 1
    then if message_count == l.number_of_messages_processed
      then (answered false, record l { previous_count = message_count; phase = 2 })
      else (answered false, l)
    else if message_count == l.number_of_messages_processed && l.previous_count == message_count
    then (answered true, l)
    else (answered false, record l { phase = 1 })

unfoldable pub check_step : ℕ → Check → Local → Check × Local
unfolding check_idle check_processed
check_step total reading_idle l = check_idle total l
check_step total reading_sent l = (reading_processed l.number_of_messages_sent, l)
check_step total (reading_processed message_count) l = check_processed message_count l
check_step total (answered b) l = (answered b, l)
check_step total invalid_phase l = (invalid_phase, l)

pub data QdError : Type 0 where
  wrong_phase : QdError

abbrev answer : Check × Local → Result QdError (Bool × Local)
answer (answered b, l) = ok (b, l)
answer (_, l) = err wrong_phase

-- A call of `is_quiescent` in which no other thread runs.
unfoldable pub is_quiescent : ℕ → Local → Result QdError (Bool × Local)
unfolding check_step
is_quiescent total l =
    let first = check_step total reading_idle l in
    let second = check_step total first.0 first.1 in
    let third = check_step total second.0 second.1 in answer third
