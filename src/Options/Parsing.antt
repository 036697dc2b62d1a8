-- ===== src/Options/Parsing.antt =====
-- A command line in which the flags stand in any order among other arguments.
use findus.Base.{
  Bool, true, false, List, [], ◌∷◌, Option, none, some, Option-cases, inl, inr, length, All, ◌≡◌,
  refl, ap, ◌∙◌, arith,
}
use mathlib.Core.Path.{subst}
use mathlib.Core.Option.{some-injective}
use findus.Base.Int.{ℤ}
use findus.Base.Result.{Result, ok}
use findus.Options.{
  Text, same_text, OptionsError, BindTo, Flags, find, contains, listed, true_text, parse_arguments,
  check_required, basic_parse_flags, Stoi, parsed, to_int, bind_to_of, to_bind_to, threads_flag,
  bind_flag, tasks_flag, from_command_line,
}

same_text_refl : (t : Text) → same_text t t ≡ true
same_text_refl [] = refl
same_text_refl (c ∷ cs) = ground (arith, same_text_refl cs)

-- An argument that is no flag.
abbrev pub IsOther : List Text → List Text → Flags → Text → Type 0
IsOther flags boolean_flags result t =
    (contains result t ≡ false) × (listed flags t ≡ false) × (listed boolean_flags t ≡ false)

module _ (flags boolean_flags : List Text) where
  pass_over :
      (t : Text) (rest : List Text) (result : Flags)
      → IsOther flags boolean_flags result t
      → parse_arguments flags boolean_flags (t ∷ rest) result
        ≡ parse_arguments flags boolean_flags rest result
  unfolding parse_arguments
  pass_over t [] result (a, b, c) = ground (arith, a, b, c)
  pass_over t (u ∷ rest) result (a, b, c) = rw a (rw b (rw c refl))

  store_value :
      (flag value : Text) (rest : List Text) (result : Flags)
      → contains result flag ≡ false
      → listed flags flag ≡ true
      → listed boolean_flags flag ≡ false
      → parse_arguments flags boolean_flags (flag ∷ value ∷ rest) result
        ≡ parse_arguments flags boolean_flags rest ((flag, value) ∷ result)
  unfolding parse_arguments
  store_value flag value rest result a b c = rw a (rw b (rw c refl))

  store_boolean :
      (flag : Text) (rest : List Text) (result : Flags)
      → contains result flag ≡ false
      → listed flags flag ≡ false
      → listed boolean_flags flag ≡ true
      → parse_arguments flags boolean_flags (flag ∷ rest) result
        ≡ parse_arguments flags boolean_flags rest ((flag, true_text) ∷ result)
  unfolding parse_arguments
  store_boolean flag [] result a b c = ground (arith, a, b, c)
  store_boolean flag (u ∷ rest) result a b c = rw a (rw b (rw c refl))

-- What a piece of the command line is: any argument, a flag with its value, or the boolean flag.
pub data Item : Type 0 where
  plain threads_given binding_given : Text → Item
  tasks_given : Item

-- The values of the two flags and whether the boolean flag was given.
abbrev pub Given : Type 0
Given = Option Text × Option Text × Bool

-- What is given with one more piece, if it gives nothing twice.
abbrev pub with_item : Item → Given → Option Given
with_item (plain t) given = some given
with_item (threads_given n) (none, v, b) = some (some n, v, b)
with_item (threads_given n) (some m, v, b) = none
with_item (binding_given v) (n, none, b) = some (n, some v, b)
with_item (binding_given v) (n, some w, b) = none
with_item tasks_given (n, v, false) = some (n, v, true)
with_item tasks_given (n, v, true) = none

abbrev pub with_items : List Item → Given → Option Given
with_items [] given = some given
with_items (item ∷ items) given = elim (with_item item given) [
  | none ↦ none
  | some given' ↦ with_items items given'
]

module _ (threads bind tasks : Text) (tb : same_text threads bind ≡ false)
    (tb' : same_text bind threads ≡ false) (ts : same_text tasks threads ≡ false)
    (bs : same_text tasks bind ≡ false) (tt' : same_text threads tasks ≡ false)
    (bt : same_text bind tasks ≡ false) where
  abbrev pub required : List Text
  required = threads ∷ bind ∷ []

  abbrev pub IsNoFlag : Text → Type 0
  IsNoFlag t =
      (same_text threads t ≡ false) × (same_text bind t ≡ false) × (same_text tasks t ≡ false)

  abbrev pub arguments_of : List Item → List Text
  arguments_of [] = []
  arguments_of (plain t ∷ items) = t ∷ arguments_of items
  arguments_of (threads_given n ∷ items) = threads ∷ n ∷ arguments_of items
  arguments_of (binding_given v ∷ items) = bind ∷ v ∷ arguments_of items
  arguments_of (tasks_given ∷ items) = tasks ∷ arguments_of items

  abbrev pub IsPlain : Item → Type 0
  IsPlain (plain t) = IsNoFlag t
  IsPlain (threads_given n) = Unit
  IsPlain (binding_given v) = Unit
  IsPlain tasks_given = Unit

  -- The map holds what is given.
  record IsStored (result : Flags) (given : Given) : Type 0 where
    threads_stored : find result threads ≡ given.0
    binding_stored : find result bind ≡ given.1
    tasks_stored : contains result tasks ≡ given.2
    no_other : (t : Text) → IsNoFlag t → contains result t ≡ false

  abbrev parse : List Item → Flags → Result OptionsError Flags
  parse items result = parse_arguments required (tasks ∷ []) (arguments_of items) result

  store_item :
      (item : Item) (items : List Item) (result : Flags) (given given' : Given)
      → IsPlain item
      → IsStored result given
      → with_item item given ≡ some given'
      → (next : Flags) × (parse (item ∷ items) result ≡ parse items next) × IsStored next given'
  store_item (plain t) items result given given' h stored e = (
    result,
    pass_over required (tasks ∷ []) t (arguments_of items) result
        (stored.no_other t h, ground (arith, h.0, h.1), ground (arith, h.2)),
    subst (IsStored result) (some-injective _ _ e) stored,
  )
  store_item (threads_given n) items result (none, v, b) given' h stored e = (
    (threads, n) ∷ result,
    store_value required (tasks ∷ []) threads n (arguments_of items) result
        (ground (arith, stored.threads_stored)) (ground (arith, same_text_refl threads))
        (ground (arith, ts)),
    subst (IsStored ((threads, n) ∷ result)) (some-injective _ _ e) (record {
      threads_stored = ground (arith, same_text_refl threads, stored.threads_stored);
      binding_stored = ground (arith, tb, stored.binding_stored);
      tasks_stored = ground (arith, tt', stored.tasks_stored);
      no_other = λ t k. ground (arith, k.0, stored.no_other t k);
    }),
  )
  store_item (threads_given n) items result (some m, v, b) given' h stored e = cc
  store_item (binding_given v) items result (n, none, b) given' h stored e = (
    (bind, v) ∷ result,
    store_value required (tasks ∷ []) bind v (arguments_of items) result
        (ground (arith, stored.binding_stored)) (ground (arith, same_text_refl bind))
        (ground (arith, bs)),
    subst (IsStored ((bind, v) ∷ result)) (some-injective _ _ e) (record {
      threads_stored = ground (arith, tb', stored.threads_stored);
      binding_stored = ground (arith, same_text_refl bind, stored.binding_stored);
      tasks_stored = ground (arith, bt, stored.tasks_stored);
      no_other = λ t k. ground (arith, k.1, stored.no_other t k);
    }),
  )
  store_item (binding_given v) items result (n, some w, b) given' h stored e = cc
  store_item tasks_given items result (n, v, false) given' h stored e = (
    (tasks, true_text) ∷ result,
    store_boolean required (tasks ∷ []) tasks (arguments_of items) result stored.tasks_stored
        (ground (arith, tt', bt)) (ground (arith, same_text_refl tasks)),
    subst (IsStored ((tasks, true_text) ∷ result)) (some-injective _ _ e) (record {
      threads_stored = ground (arith, ts, stored.threads_stored);
      binding_stored = ground (arith, bs, stored.binding_stored);
      tasks_stored = ground (arith, same_text_refl tasks, stored.tasks_stored);
      no_other = λ t k. ground (arith, k.2, stored.no_other t k);
    }),
  )
  store_item tasks_given items result (n, v, true) given' h stored e = cc

  with_items-first :
      (item : Item) (items : List Item) (given last : Given)
      → with_items (item ∷ items) given ≡ some last
      → (next : Given) × (with_item item given ≡ some next) × (with_items items next ≡ some last)
  with_items-first item items given last h = elim (Option-cases (with_item item given)) [
    | inl e ↦ absurd (ground (arith, e, h))
    | inr (next, e) ↦ (next, e, ground (arith, e, h))
  ]

  store_items :
      (items : List Item) (result : Flags) (given last : Given)
      → All IsPlain items
      → IsStored result given
      → with_items items given ≡ some last
      → (end : Flags) × (parse items result ≡ ok end) × IsStored end last
  unfolding parse_arguments
  store_items [] result given last h stored e =
      (result, refl, subst (IsStored result) (some-injective _ _ e) stored)
  store_items (item ∷ items) result given last h stored e =
      let (given', one, others) = with_items-first item items given last e in
      let (next, steps, stored') = store_item item items result given given' h.0 stored one in
      let (end, parses, stored_all) = store_items items next given' last h.1 stored' others in
      (end, steps ∙ parses, stored_all)

  nothing-IsStored : IsStored [] (none, none, false)
  nothing-IsStored = record {
    threads_stored = refl;
    binding_stored = refl;
    tasks_stored = refl;
    no_other = λ t k. refl;
  }

  both_required :
      (end : Flags) (n v : Text) (b : Bool)
      → IsStored end (some n, some v, b)
      → check_required required end ≡ ok end
  unfolding check_required
  both_required end n v b stored = ground (arith, stored.threads_stored, stored.binding_stored)

  basic_parse_flags-items :
      (items : List Item) (n v : Text) (b : Bool)
      → All IsPlain items
      → with_items items (none, none, false) ≡ some (some n, some v, b)
      → (end : Flags) × (basic_parse_flags (arguments_of items) required (tasks ∷ []) ≡ ok end)
        × IsStored end (some n, some v, b)
  unfolding basic_parse_flags
  basic_parse_flags-items items n v b h given =
      let (end, parses, stored) =
        store_items items [] (none, none, false) (some n, some v, b) h nothing-IsStored given in
      (end, rw parses (both_required end n v b stored), stored)

  to_bind_to-stored :
      (end : Flags) (n v : Text) (b : Bool)
      → IsStored end (some n, some v, b)
      → to_bind_to end bind ≡ bind_to_of v
  unfolding to_bind_to
  to_bind_to-stored end n v b stored = ground (arith, stored.binding_stored)

  to_int-stored :
      (stoi : Text → Stoi) (end : Flags) (n v : Text) (b : Bool) (z : ℤ)
      → IsStored end (some n, some v, b)
      → stoi n ≡ parsed z (length n)
      → to_int stoi end threads ≡ ok z
  unfolding to_int
  to_int-stored stoi end n v b z stored number = ground (arith, stored.threads_stored, number)

abbrev pub arguments : List Item → List Text
arguments = arguments_of threads_flag bind_flag tasks_flag refl refl refl refl refl refl

abbrev pub IsArgument : Item → Type 0
IsArgument = IsPlain threads_flag bind_flag tasks_flag refl refl refl refl refl refl

-- A command line in which the flags for the number of threads and for the binding stand once, each
-- with its value, and the boolean flag once or not at all, in any order and with any number of arguments that are no
-- flags before, between and behind them: if `std::stoi` reads the whole first value as a number and
-- the second names a binding, the options hold this number, this binding, and whether the boolean flag was given.
pub from_command_line_lem :
    (stoi : Text → Stoi) (items : List Item) (n v : Text) (b : Bool) (z : ℤ) (binding : BindTo)
    → All IsArgument items
    → with_items items (none, none, false) ≡ some (some n, some v, b)
    → stoi n ≡ parsed z (length n)
    → bind_to_of v ≡ ok binding
    → from_command_line stoi (arguments items)
      ≡ ok (record { bind_to = binding; task_threads_per_process = z; comm_thread_do_tasks = b })
unfolding from_command_line
from_command_line_lem stoi items n v b z binding plain_ones given number named =
    let (end, parses, stored) =
      basic_parse_flags-items threads_flag bind_flag tasks_flag refl refl refl refl refl refl items
        n v b plain_ones given in
    let bound =
      to_bind_to-stored threads_flag bind_flag tasks_flag refl refl refl refl refl refl end n v b
        stored
      ∙ named in
    let count =
      to_int-stored threads_flag bind_flag tasks_flag refl refl refl refl refl refl stoi end n v b z
        stored number in
    rw parses (
      rw bound (
        rw count (
          ap
            (λ (c : Bool). ok (record {
              bind_to = binding;
              task_threads_per_process = z;
              comm_thread_do_tasks = c;
            }))
            stored.tasks_stored)))
