-- ===== src/Options.antt =====
-- The options of the command line, Options.cpp. A text is its characters. `std::stoi` is a parameter,
-- the pointers are not null, and the program's own name is left off the arguments.
pub mod Parsing
use findus.Base.{
  ℕ, zero, suc, Bool, true, false, ◌==◌, if◌then◌else◌, not, ◌&&◌, ◌||◌, List, [], ◌∷◌, Option,
  none, some, length,
}
use findus.Base.Int.{ℤ}
use findus.Base.Result.{Result, ok, err, ◌>>=◌}

abbrev pub Text : Type 0
Text = List ℕ

abbrev pub same_text : Text → Text → Bool
same_text [] [] = true
same_text [] (d ∷ ds) = false
same_text (c ∷ cs) [] = false
same_text (c ∷ cs) (d ∷ ds) = (c == d) && same_text cs ds

pub data OptionsError : Type 0 where
  already_parsed missing_value not_provided not_an_integer out_of_int_range : Text → OptionsError
  trailing_characters uninitialized_binding unknown_binding no_such_key : Text → OptionsError

pub data BindTo : Type 0 where
  uninitialized unbound core hardware_thread : BindTo

pub record Options : Type 0 where
  pub bind_to : BindTo
  pub task_threads_per_process : ℤ
  pub comm_thread_do_tasks : Bool

-- The map of the flags and their values, the last assignment first.
abbrev pub Flags : Type 0
Flags = List (Text × Text)

abbrev pub find : Flags → Text → Option Text
find [] key = none
find ((k, v) ∷ flags) key = if same_text k key then some v else find flags key

abbrev pub contains : Flags → Text → Bool
contains flags key = elim (find flags key) [ none ↦ false | some _ ↦ true ]

abbrev pub listed : List Text → Text → Bool
listed [] text = false
listed (t ∷ ts) text = same_text t text || listed ts text

abbrev pub true_text : Text
true_text = b'T' ∷ b'R' ∷ b'U' ∷ b'E' ∷ []

-- A flag without a value gets the placeholder.
abbrev pub note_boolean : List Text → Text → Flags → Flags
note_boolean boolean_flags current result =
    if listed boolean_flags current then (current, true_text) ∷ result else result

-- The `for` loop over the arguments.
unfoldable pub parse_arguments :
    List Text → List Text → List Text → Flags → Result OptionsError Flags
parse_arguments flags boolean_flags [] result = ok result
parse_arguments flags boolean_flags (current ∷ []) result =
    if contains result current
    then err (already_parsed current)
    else if not (listed flags current)
    then ok (note_boolean boolean_flags current result)
    else err (missing_value current)
parse_arguments flags boolean_flags (current ∷ value ∷ rest) result =
    let noted = note_boolean boolean_flags current result in
    let passed_over = parse_arguments flags boolean_flags (value ∷ rest) noted in
    let stored = parse_arguments flags boolean_flags rest ((current, value) ∷ noted) in
    if contains result current
    then err (already_parsed current)
    else if not (listed flags current)
    then passed_over
    else stored

unfoldable pub check_required : List Text → Flags → Result OptionsError Flags
check_required [] result = ok result
check_required (flag ∷ flags) result =
    let later = check_required flags result in
    if contains result flag then later else err (not_provided flag)

unfoldable pub basic_parse_flags : List Text → List Text → List Text → Result OptionsError Flags
basic_parse_flags arguments flags boolean_flags =
    parse_arguments flags boolean_flags arguments [] >>= λ (result : Flags).
    check_required flags result

-- What `std::stoi` does: the number and how many characters it used, or an exception.
pub data Stoi : Type 0 where
  parsed : ℤ → ℕ → Stoi
  invalid_argument out_of_range : Stoi

unfoldable pub to_int : (Text → Stoi) → Flags → Text → Result OptionsError ℤ
to_int stoi args flag = elim (find args flag) [
  | none ↦ err (no_such_key flag)
  | some text ↦ elim (stoi text) [
    | invalid_argument ↦ err (not_an_integer text)
    | out_of_range ↦ err (out_of_int_range text)
    | parsed value processed ↦
        if not (processed == length text) then err (trailing_characters text) else ok value
  ]
]

abbrev pub uninitialized_text : Text
uninitialized_text =
    b'U' ∷ b'n' ∷ b'i' ∷ b'n' ∷ b'i' ∷ b't' ∷ b'i' ∷ b'a' ∷ b'l' ∷ b'i' ∷ b'z' ∷ b'e' ∷ b'd' ∷ []

abbrev pub none_text : Text
none_text = b'N' ∷ b'o' ∷ b'n' ∷ b'e' ∷ []

abbrev pub core_text : Text
core_text = b'C' ∷ b'o' ∷ b'r' ∷ b'e' ∷ []

abbrev pub hardware_thread_text : Text
hardware_thread_text =
    b'H' ∷ b'a' ∷ b'r' ∷ b'd' ∷ b'w' ∷ b'a' ∷ b'r' ∷ b'e' ∷ b'T' ∷ b'h' ∷ b'r' ∷ b'e' ∷ b'a' ∷ b'd'
    ∷ []

unfoldable pub bind_to_of : Text → Result OptionsError BindTo
bind_to_of text =
    if same_text text uninitialized_text
    then err (uninitialized_binding text)
    else if same_text text none_text
    then ok unbound
    else if same_text text core_text
    then ok core
    else if same_text text hardware_thread_text
    then ok hardware_thread
    else err (unknown_binding text)

unfoldable pub to_bind_to : Flags → Text → Result OptionsError BindTo
to_bind_to args flag = elim (find args flag) [
  | none ↦ err (no_such_key flag)
  | some text ↦ bind_to_of text
]

abbrev pub threads_flag : Text
threads_flag =
    b'-' ∷ b'-' ∷ b'f' ∷ b'i' ∷ b'n' ∷ b'd' ∷ b'u' ∷ b's' ∷ b'-' ∷ b't' ∷ b'a' ∷ b's' ∷ b'k' ∷ b'-'
    ∷ b't' ∷ b'h' ∷ b'r' ∷ b'e' ∷ b'a' ∷ b'd' ∷ b's' ∷ b'-' ∷ b'p' ∷ b'e' ∷ b'r' ∷ b'-' ∷ b'p'
    ∷ b'r' ∷ b'o' ∷ b'c' ∷ b'e' ∷ b's' ∷ b's' ∷ []

abbrev pub bind_flag : Text
bind_flag =
    b'-' ∷ b'-' ∷ b'f' ∷ b'i' ∷ b'n' ∷ b'd' ∷ b'u' ∷ b's' ∷ b'-' ∷ b'b' ∷ b'i' ∷ b'n' ∷ b'd' ∷ b'-'
    ∷ b't' ∷ b'o' ∷ []

abbrev pub tasks_flag : Text
tasks_flag =
    b'-' ∷ b'-' ∷ b'f' ∷ b'i' ∷ b'n' ∷ b'd' ∷ b'u' ∷ b's' ∷ b'-' ∷ b'c' ∷ b'o' ∷ b'm' ∷ b'm' ∷ b'-'
    ∷ b't' ∷ b'h' ∷ b'r' ∷ b'e' ∷ b'a' ∷ b'd' ∷ b'-' ∷ b'd' ∷ b'o' ∷ b'-' ∷ b't' ∷ b'a' ∷ b's'
    ∷ b'k' ∷ b's' ∷ []

unfoldable pub from_command_line : (Text → Stoi) → List Text → Result OptionsError Options
from_command_line stoi arguments =
    basic_parse_flags arguments (threads_flag ∷ bind_flag ∷ []) (tasks_flag ∷ [])
    >>= λ (opts : Flags). to_bind_to opts bind_flag >>= λ (bind_to : BindTo).
        to_int stoi opts threads_flag >>= λ (threads : ℤ). ok (record {
          bind_to = bind_to;
          task_threads_per_process = threads;
          comm_thread_do_tasks = contains opts tasks_flag;
        })
