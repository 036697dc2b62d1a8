-- ===== src/Serializer/State.antt =====
-- The serializer itself: its actions, its constructors and `bytes`, on which all else builds. Its
-- memory gives the byte at each address; the pointers are offsets from the start of the buffer. What
-- the language leaves undefined is an error.
use findus.Base.{
  ℕ, zero, suc, ◌+◌, ◌-◌, ◌*◌, ◌%◌, ◌^◌, Bool, true, false, ltb, ◌==◌, if◌then◌else◌, List, [], ◌∷◌,
  length,
}
use findus.Base.Int.{ℤ, pos, negsuc}
use findus.Base.Result.{Result, ok, err, ◌>>=◌}

pub data Action : Type 0 where
  uninitialized sizing packing unpacking memory_footprinting mask : Action

pub record Serializer : Type 0 where
  pub extra_info : ℕ
  pub action : Action
  pub number_of_bytes : ℕ
  pub start_pointer : ℕ
  pub current_pointer : ℕ
  pub end_pointer : ℕ
  pub memory : ℕ → ℕ

pub data SerializerError : Type 0 where
  no_action int_overflow outside_of_item no_object unable_to_register : SerializerError
  unable_to_find_derived_class : ℕ → SerializerError

-- `size_t` is 64 bits wide.
abbrev pub add_size : ℕ → ℕ → ℕ
add_size a b = (a + b) % 2 ^ 64

abbrev pub for_sizing : ℕ → Serializer
for_sizing extra_info = record {
  extra_info = extra_info;
  action = sizing;
  number_of_bytes = 0;
  start_pointer = 0;
  current_pointer = 0;
  end_pointer = 0;
  memory = λ _. 0;
}

abbrev pub for_footprinting : ℕ → Serializer
for_footprinting extra_info = record {
  extra_info = extra_info;
  action = memory_footprinting;
  number_of_bytes = 0;
  start_pointer = 0;
  current_pointer = 0;
  end_pointer = 0;
  memory = λ _. 0;
}

abbrev pub for_packing : (ℕ → ℕ) → ℕ → ℕ → Serializer
for_packing buffer buffer_size extra_info = record {
  extra_info = extra_info;
  action = packing;
  number_of_bytes = 0;
  start_pointer = 0;
  current_pointer = 0;
  end_pointer = buffer_size;
  memory = buffer;
}

abbrev pub for_unpacking : (ℕ → ℕ) → ℕ → ℕ → Serializer
for_unpacking buffer buffer_size extra_info = record {
  extra_info = extra_info;
  action = unpacking;
  number_of_bytes = 0;
  start_pointer = 0;
  current_pointer = 0;
  end_pointer = buffer_size;
  memory = buffer;
}

abbrev pub is_unpacking : Serializer → Bool
is_unpacking s = elim s.action [ unpacking ↦ true | _ ↦ false ]

-- `memcpy` into the buffer and out of it.
abbrev pub write : (ℕ → ℕ) → ℕ → List ℕ → ℕ → ℕ
write memory at [] = memory
write memory at (x ∷ xs) = write (λ (a : ℕ). if a == at then x else memory a) (at + 1) xs

abbrev pub read : (ℕ → ℕ) → ℕ → ℕ → List ℕ
read memory at zero = []
read memory at (suc n) = memory at ∷ read memory (at + 1) n

-- `static_cast<int>` of a `size_t`.
unfoldable pub int_of_size : ℕ → ℤ
int_of_size n =
    if ltb (n % 2 ^ 32) (2 ^ 31) then pos (n % 2 ^ 32) else negsuc (2 ^ 32 - 1 - n % 2 ^ 32)

-- The product is an `int`, cast to `size_t`.
unfoldable pub count_bytes : ℕ → ℤ → Result SerializerError ℕ
count_bytes size_of_item (pos n) =
    if ltb (size_of_item * n) (2 ^ 31) then ok (size_of_item * n) else err int_overflow
count_bytes size_of_item (negsuc n) =
    if ltb (2 ^ 31) (size_of_item * (n + 1))
    then err int_overflow
    else ok ((2 ^ 64 - size_of_item * (n + 1)) % 2 ^ 64)

-- The bytes of the items before and after.
unfoldable pub bytes : Serializer → List ℕ → ℕ → ℤ → Result SerializerError (List ℕ × Serializer)
unfolding count_bytes
bytes s item size_of_item number_of_items =
    count_bytes size_of_item number_of_items >>= λ (bytes_to_copy : ℕ).
    let counted : Serializer = record s {
      number_of_bytes = add_size s.number_of_bytes bytes_to_copy;
    } in
    let inside : Bool = bytes_to_copy == length item in
    elim s.action [
      | sizing ↦ ok (item, counted)
      | packing ↦
          if inside
          then ok (
            item,
            record counted {
              memory = write s.memory s.current_pointer item;
              current_pointer = s.current_pointer + bytes_to_copy;
            },
          )
          else err outside_of_item
      | unpacking ↦
          if inside
          then ok (
            read s.memory s.current_pointer bytes_to_copy,
            record counted { current_pointer = s.current_pointer + bytes_to_copy },
          )
          else err outside_of_item
      | memory_footprinting ↦ ok (
        item,
        record counted { number_of_bytes = add_size counted.number_of_bytes bytes_to_copy },
      )
      | _ ↦ err no_action
    ]

-- `operator|` for a type: the object and the serializer afterwards.
abbrev pub Pipe : Type 0 → Type 0
Pipe T = Serializer → T → Result SerializerError (T × Serializer)
