-- ===== src/Tests/Flags.antt =====
-- A command line with the three flags, the boolean one in the middle, and two other arguments.
use findus.Base.{true, [], ◌∷◌, length, ◌≡◌, refl}
use findus.Base.Int.{pos}
use findus.Base.Result.{ok}
use findus.Options.{
  Text, threads_flag, bind_flag, tasks_flag, core, core_text, Stoi, parsed, from_command_line,
  bind_to_of,
}
use findus.Options.Parsing.{plain, threads_given, binding_given, tasks_given, from_command_line_lem}

abbrev four : Text
four = b'4' ∷ []

abbrev other : Text
other = b'x' ∷ []

-- A function that reads each text as the number 4.
abbrev stoi : Text → Stoi
stoi t = parsed (pos 4) (length t)

named : bind_to_of core_text ≡ ok core
unfolding bind_to_of
named = refl

from_command_line_example :
    from_command_line stoi
      (other ∷ bind_flag ∷ core_text ∷ tasks_flag ∷ other ∷ threads_flag ∷ four ∷ other ∷ [])
    ≡ ok (record { bind_to = core; task_threads_per_process = pos 4; comm_thread_do_tasks = true })
from_command_line_example =
    from_command_line_lem stoi
      (plain other
        ∷ binding_given core_text
        ∷ tasks_given
        ∷ plain other
        ∷ threads_given four
        ∷ plain other
        ∷ [])
      four core_text true (pos 4) core
      ((refl, refl, refl), (tt, (tt, ((refl, refl, refl), (tt, ((refl, refl, refl), tt)))))) refl
      refl named
