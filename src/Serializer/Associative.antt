-- ===== src/Serializer/Associative.antt =====
-- Maps and sets, Serialize/Stl/Associative.hpp. The containers of the standard library are
-- parameters: their elements in the order of iteration, and what `emplace` makes of them. The operators of
-- the elements do not change an element that they write.
use findus.Base.{ℕ, zero, suc, if◌then◌else◌, List, length, none, some}
use findus.Base.Result.{ok, ◌>>=◌}
use findus.Serializer.State.{Serializer, Pipe, is_unpacking}
use findus.Serializer.Scalars.{AsBytes, call_item}
use findus.Serializer.Containers.{Construct, Element, pipe_each}
use findus.Serializer.Owners.{make_object}
use findus.Serializer.Compounds.{in_turn}

pub record Container (C E : Type 0) : Type 0 where
  pub elements : C → List E
  pub emplace : C → E → C

-- The loop of the unpacking: an element is read and emplaced.
unfoldable pub emplace_each : {C E : Type 0} → Container C E → Construct E → ℕ → C → Construct C
emplace_each container read_element zero c s = ok (c, s)
emplace_each {E} container read_element (suc n) c s = read_element s >>= λ (r : E × Serializer).
    emplace_each container read_element n (container.emplace c r.0) r.1

-- Both from the serializer, the value alone, or none of them.
unfoldable pub read_entry : {K V : Type 0} → Element K → Element V → Construct (K × V)
read_entry key value s =
    let piped_key = λ (z : Serializer). key.pipe z key.blank in
    let piped_value = λ (z : Serializer). value.pipe z value.blank in
    elim value.construct [
      | some construct_value ↦ elim key.construct [
        | some construct_key ↦ in_turn construct_key construct_value s
        | none ↦ in_turn piped_key construct_value s
      ]
      | none ↦ in_turn piped_key piped_value s
    ]

unfoldable pub associative_map_impl :
    {C K V : Type 0} → AsBytes ℕ → Container C (K × V) → Element K → Element V → Pipe C
unfolding emplace_each read_entry
associative_map_impl {K} {V} size_t ops key value s container =
    call_item size_t s (length (ops.elements container)) >>= λ (n : ℕ × Serializer).
    let entry : Pipe (K × V) = λ z e. in_turn (λ z'. key.pipe z' e.0) (λ z'. value.pipe z' e.1) z in
    if is_unpacking n.1
    then emplace_each ops (read_entry key value) n.0 container n.1
    else (pipe_each entry n.1 (ops.elements container) >>= λ (r : List (K × V) × Serializer).
        ok (container, r.1))

unfoldable pub associative_set_impl :
    {C T : Type 0} → AsBytes ℕ → Container C T → Element T → Pipe C
unfolding emplace_each
associative_set_impl {T} size_t ops element s container =
    call_item size_t s (length (ops.elements container)) >>= λ (n : ℕ × Serializer).
    if is_unpacking n.1
    then emplace_each ops (make_object element) n.0 container n.1
    else (pipe_each element.pipe n.1 (ops.elements container) >>= λ (r : List T × Serializer).
        ok (container, r.1))
