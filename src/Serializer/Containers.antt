-- ===== src/Serializer/Containers.antt =====
-- The operators for standard containers in Serialize/Stl. Of a type, the code asks at compile time
-- whether it is copied as bytes and whether it is constructed from a serializer. The standard
-- library's choice of capacities is a parameter.
use findus.Base.{
  ℕ, zero, suc, Bool, true, false, if◌then◌else◌, List, [], ◌∷◌, ◌++◌, length, replicate, Option,
  none, some,
}
use findus.Base.Result.{Result, ok, err, ◌>>=◌}
use findus.Serializer.State.{Serializer, SerializerError, no_object, is_unpacking, Pipe}
use findus.Serializer.Scalars.{AsBytes, call_view, call_item, pipe_as_bytes}

abbrev pub Construct : Type 0 → Type 0
Construct T = Serializer → Result SerializerError (T × Serializer)

-- A type with its traits, its operator and the value `T{}`.
pub record Element (T : Type 0) : Type 0 where
  pub as_bytes : Option (AsBytes T)
  pub construct : Option (Construct T)
  pub pipe : Pipe T
  pub blank : T

pub record Vector (T : Type 0) : Type 0 where
  pub items : List T
  pub capacity : ℕ

abbrev pub resize : {T : Type 0} → T → ℕ → List T → List T
resize blank zero ts = []
resize blank (suc n) [] = blank ∷ resize blank n []
resize blank (suc n) (t ∷ ts) = t ∷ resize blank n ts

-- `for (T& t : container) serializer | t;`
unfoldable pub pipe_each : {T : Type 0} → Pipe T → Pipe (List T)
pipe_each pipe s [] = ok ([], s)
pipe_each {T} pipe s (t ∷ ts) = pipe s t >>= λ (r : T × Serializer).
    pipe_each pipe r.1 ts >>= λ (rs : List T × Serializer). ok (r.0 ∷ rs.0, rs.1)

-- `for (size_t i = 0; i < size; ++i) container.emplace_back(serializer);`, the new objects.
unfoldable pub construct_each : {T : Type 0} → Construct T → ℕ → Construct (List T)
construct_each construct zero s = ok ([], s)
construct_each {T} construct (suc n) s = construct s >>= λ (r : T × Serializer).
    construct_each construct n r.1 >>= λ (rs : List T × Serializer). ok (r.0 ∷ rs.0, rs.1)

-- The elements as one block of bytes, or one by one.
unfoldable pub pipe_elements : {T : Type 0} → Element T → Pipe (List T)
unfolding pipe_each call_view
pipe_elements element s ts = elim element.as_bytes [
  | some as_bytes ↦ call_view as_bytes s ts
  | none ↦ pipe_each element.pipe s ts
]

unfoldable pub pipe_array : {T : Type 0} → Element T → Pipe (List T)
unfolding pipe_elements
pipe_array element s array = pipe_elements element s array

unfoldable pub pipe_pair :
    {T U : Type 0} → Option (AsBytes (T × U)) → Pipe T → Pipe U → Pipe (T × U)
pipe_pair {T} {U} as_bytes first second s pair = elim as_bytes [
  | some b ↦ pipe_as_bytes b s pair
  | none ↦ first s pair.0 >>= λ (r : T × Serializer).
      second r.1 pair.1 >>= λ (r' : U × Serializer). ok ((r.0, r'.0), r'.1)
]

-- `detail::serialize_tuple`: the first element, then the others.
unfoldable pub serialize_tuple : {T Ts : Type 0} → Pipe T → Pipe Ts → Pipe (T × Ts)
serialize_tuple {T} {Ts} first others s tuple = first s tuple.0 >>= λ (r : T × Serializer).
    others r.1 tuple.1 >>= λ (r' : Ts × Serializer). ok ((r.0, r'.0), r'.1)

unfoldable pub serialize_empty_tuple : Pipe (Unit {0})
serialize_empty_tuple s tuple = ok (tuple, s)

unfoldable pub pipe_tuple : {Ts : Type 0} → Option (AsBytes Ts) → Pipe Ts → Pipe Ts
pipe_tuple as_bytes elements s tuple = elim as_bytes [
  | some b ↦ pipe_as_bytes b s tuple
  | none ↦ elements s tuple
]

-- The real and the imaginary part.
unfoldable pub pipe_complex : {T : Type 0} → Option (AsBytes (T × T)) → Element T → Pipe (T × T)
pipe_complex {T} as_bytes element s complex =
    let parts : Result SerializerError ((T × T) × Serializer) =
      element.pipe s complex.0 >>= λ (r : T × Serializer).
      element.pipe r.1 complex.1 >>= λ (r' : T × Serializer). ok ((r.0, r'.0), r'.1) in
    elim as_bytes [
      | some b ↦ pipe_as_bytes b s complex
      | none ↦ elim element.construct [
        | some construct ↦
            if is_unpacking s
            then (construct s >>= λ (r : T × Serializer).
                construct r.1 >>= λ (r' : T × Serializer). ok ((r.0, r'.0), r'.1))
            else parts
        | none ↦ parts
      ]
    ]

module _ {T : Type 0} (size_t : AsBytes ℕ) where
  -- `reserve` is the capacity that the library makes of the present one for a number of elements.
  unfoldable pub pipe_vector : (ℕ → ℕ → ℕ) → Element T → Pipe (Vector T)
  unfolding call_item construct_each pipe_elements
  pipe_vector reserve element s vector =
      call_item size_t s vector.capacity >>= λ (c : ℕ × Serializer).
      call_item size_t c.1 (length vector.items) >>= λ (n : ℕ × Serializer).
      let room : ℕ = reserve vector.capacity c.0 in
      let piped : List T → ℕ → Result SerializerError (Vector T × Serializer) = λ ts capacity.
        pipe_elements element n.1 ts >>= λ (r : List T × Serializer).
        ok (record { items = r.0; capacity = capacity }, r.1) in
      if is_unpacking n.1
      then (elim element.construct [
        | some construct ↦ construct_each construct n.0 n.1 >>= λ (r : List T × Serializer). ok (
          record {
            items = vector.items ++ r.0;
            capacity = reserve room (length (vector.items ++ r.0));
          },
          r.1,
        )
        | none ↦ piped (resize element.blank n.0 vector.items) (reserve room n.0)
      ])
      else piped vector.items vector.capacity

  -- `std::basic_string`.
  unfoldable pub pipe_string : (ℕ → ℕ → ℕ) → AsBytes T → T → Pipe (Vector T)
  pipe_string reserve char_t null_char s string =
      call_item size_t s (length string.items) >>= λ (n : ℕ × Serializer).
      call_item size_t n.1 string.capacity >>= λ (c : ℕ × Serializer).
      let target : Vector T =
        if is_unpacking c.1
        then record {
          items = resize null_char n.0 string.items;
          capacity = reserve (reserve string.capacity c.0) n.0;
        }
        else string in
      call_view char_t c.1 target.items >>= λ (r : List T × Serializer).
      ok (record target { items = r.0 }, r.1)

  unfoldable pub pipe_deque : Element T → Pipe (List T)
  unfolding call_item pipe_each
  pipe_deque element s deque = call_item size_t s (length deque) >>= λ (n : ℕ × Serializer).
      pipe_each element.pipe n.1
        (if is_unpacking n.1 then resize element.blank n.0 deque else deque)

  unfoldable pub pipe_list : Element T → Pipe (List T)
  unfolding call_item construct_each pipe_each
  pipe_list element s list = call_item size_t s (length list) >>= λ (n : ℕ × Serializer).
      if is_unpacking n.1
      then (elim element.construct [
        | some construct ↦
            construct_each construct n.0 n.1 >>= λ (r : List T × Serializer). ok (list ++ r.0, r.1)
        | none ↦ pipe_each element.pipe n.1 (resize element.blank n.0 list)
      ])
      else pipe_each element.pipe n.1 list

  -- New elements come one behind the other in front of the old ones.
  unfoldable pub pipe_forward_list : Element T → Pipe (List T)
  unfolding call_item pipe_each
  pipe_forward_list element s forward_list =
      if is_unpacking s
      then (call_item size_t s 0 >>= λ (n : ℕ × Serializer).
          pipe_each element.pipe n.1 (replicate n.0 element.blank) >>= λ (r : List T × Serializer).
          ok (r.0 ++ forward_list, r.1))
      else (call_item size_t s (length forward_list) >>= λ (n : ℕ × Serializer).
          pipe_each element.pipe n.1 forward_list)

-- `std::vector<bool>`, which has no references to its elements: each is read into a variable.
unfoldable pub pipe_vector_bool : AsBytes ℕ → (ℕ → ℕ → ℕ) → AsBytes Bool → Pipe (Vector Bool)
pipe_vector_bool size_t reserve bool_t s vector =
    call_item size_t s vector.capacity >>= λ (c : ℕ × Serializer).
    call_item size_t c.1 (length vector.items) >>= λ (n : ℕ × Serializer).
    let unpack : Bool = is_unpacking n.1 in
    pipe_each (call_item bool_t) n.1 (if unpack then replicate n.0 false else vector.items)
    >>= λ (r : List Bool × Serializer). ok (
      record {
        items = r.0;
        capacity = if unpack then reserve (reserve vector.capacity c.0) n.0 else vector.capacity;
      },
      r.1,
    )

-- `std::unique_ptr` and `std::shared_ptr`. For a type that derives from `SerializableBase` the
-- operator is `serialize_abstract_base` and the construction `deserialize_abstract_base`.
unfoldable pub pipe_unique_ptr : {T : Type 0} → AsBytes Bool → Element T → Pipe (Option T)
pipe_unique_ptr {T} bool_t element s unique_ptr =
    let is_null : Bool =
      if is_unpacking s then false else elim unique_ptr [ none ↦ true | some _ ↦ false ] in
    call_item bool_t s is_null >>= λ (n : Bool × Serializer).
    let owned : Result SerializerError (T × Serializer)
        → Result SerializerError (Option T × Serializer) =
      λ m. m >>= λ (r : T × Serializer). ok (some r.0, r.1) in
    if n.0
    then ok (none, n.1)
    else if is_unpacking n.1
    then owned (elim element.construct [
      | some construct ↦ construct n.1
      | none ↦ element.pipe n.1 element.blank
    ])
    else owned (elim unique_ptr [ none ↦ err no_object | some t ↦ element.pipe n.1 t ])

unfoldable pub pipe_shared_ptr : {T : Type 0} → AsBytes Bool → Element T → Pipe (Option T)
unfolding pipe_unique_ptr
pipe_shared_ptr bool_t element s shared_ptr = pipe_unique_ptr bool_t element s shared_ptr
