-- ===== src/Serializer/Owners.antt =====
-- Owning pointers: whether there is an object, and the object.
use findus.Base.{
  ℕ, Bool, true, false, List, ◌++◌, Option, none, some, ◌≡◌, inl, inr, refl, sym, ap, ◌∙◌,
  Option-cases,
}
use findus.Base.Result.{ok}
use findus.Serializer.State.{Serializer}
use findus.Serializer.Memory.{after, after-append}
use findus.Serializer.Contract.{Holds, Writing, Reading, Refines, Holds-append}
use findus.Serializer.Scalars.{AsBytes, call_item}
use findus.Serializer.Copying.{IsAsBytes, call_item-Refines}
use findus.Serializer.Containers.{Construct, Element, pipe_unique_ptr}
use findus.Serializer.Elements.{
  Reads, IsElement, after-Writing, after-Reading, is_unpacking-Writing, is_unpacking-Reading,
}

abbrev pub IsAny : Bool → Type 0
IsAny b = Unit {0}

abbrev pub encode_pointer : {T : Type 0} → AsBytes Bool → (T → List ℕ) → Option T → List ℕ
encode_pointer bool_t encode none = bool_t.to_bytes true
encode_pointer bool_t encode (some t) = bool_t.to_bytes false ++ encode t

abbrev pub pointed : {T V : Type 0} → (T → V) → Option T → Option V
pointed value none = none
pointed value (some t) = some (value t)

abbrev pub IsSmallPointer : {T : Type 0} → (T → Type 0) → Option T → Type 0
IsSmallPointer IsSmall none = Unit {0}
IsSmallPointer IsSmall (some t) = IsSmall t

module _ (bool_t : AsBytes Bool) (bool_law : IsAsBytes bool_t IsAny) where
  write_flag :
      (s : Serializer) (b : Bool)
      → Writing s
      → call_item bool_t s b ≡ ok (b, after s (bool_t.to_bytes b))
  write_flag s b w = (call_item-Refines bool_t IsAny bool_law false).writes s b tt w

  read_flag :
      (s : Serializer) (b : Bool)
      → Reading s
      → Holds s (bool_t.to_bytes b)
      → call_item bool_t s false ≡ ok (b, after s (bool_t.to_bytes b))
  read_flag s b a held =
      let (b', e, same) = (call_item-Refines bool_t IsAny bool_law false).reads s b tt a held in
      e ∙ ap (λ (c : Bool). ok (c, after s (bool_t.to_bytes b))) same

-- How a pointer's object comes into being, by its constructor or by its operator.
abbrev pub make_object : {T : Type 0} → Element T → Construct T
make_object element s = elim element.construct [
  | some construct ↦ construct s
  | none ↦ element.pipe s element.blank
]

module _ {T V : Type 0} (bool_t : AsBytes Bool) (bool_law : IsAsBytes bool_t IsAny)
    (element : Element T) (value : T → V) (encode : T → List ℕ) (IsSmall : T → Type 0)
    (writes : (s : Serializer) (t : T)
      → IsSmall t
      → Writing s
      → element.pipe s t ≡ ok (t, after s (encode t)))
    (reads : Reads (make_object element) value encode IsSmall) where
  pointer-writes :
      (s : Serializer) (p : Option T)
      → IsSmallPointer IsSmall p
      → Writing s
      → pipe_unique_ptr bool_t element s p ≡ ok (p, after s (encode_pointer bool_t encode p))
  unfolding pipe_unique_ptr
  pointer-writes s none h w =
      rw (is_unpacking-Writing s w) (rw (write_flag bool_t bool_law s true w) refl)
  pointer-writes s (some t) h w =
      let flag = bool_t.to_bytes false in
      let w' = after-Writing s flag w in
      rw (is_unpacking-Writing s w) (
        rw (write_flag bool_t bool_law s false w) (
          rw (is_unpacking-Writing (after s flag) w') (
            rw (writes (after s flag) t h w')
              (ap (λ (z : Serializer). ok (some t, z)) (sym (after-append s flag (encode t)))))))

  pointer-reads :
      (s : Serializer) (p : Option T)
      → IsSmallPointer IsSmall p
      → Reading s
      → Holds s (encode_pointer bool_t encode p)
      → (p' : Option T) × (pipe_unique_ptr bool_t element s none
          ≡ ok (p', after s (encode_pointer bool_t encode p)))
        × (pointed value p' ≡ pointed value p)
  unfolding pipe_unique_ptr
  pointer-reads s none h a held = (
    none,
    rw (is_unpacking-Reading s a) (rw (read_flag bool_t bool_law s true a held) refl),
    refl,
  )
  pointer-reads s (some t) h a held =
      let flag = bool_t.to_bytes false in
      let (here, there) = Holds-append s flag (encode t) a held in
      let a' = after-Reading s flag a in
      let (t', e, same) = reads (after s flag) t h a' there in
      (
        some t',
        rw (is_unpacking-Reading s a) (
            rw (read_flag bool_t bool_law s false a here) (
              rw (is_unpacking-Reading (after s flag) a') (
                rw e (
                  ap (λ (z : Serializer). ok (some t', z))
                    (sym (after-append s flag (encode t))))))),
        ap some same,
      )

  -- The pointer, for any way in which its object goes through.
  pub pipe_unique_ptr-Refines_of :
      Refines
        (pipe_unique_ptr bool_t element)
        none
        (pointed value)
        (encode_pointer bool_t encode)
        (IsSmallPointer IsSmall)
  pipe_unique_ptr-Refines_of = record { writes = pointer-writes; reads = pointer-reads }

pub make_object-reads :
    {T V : Type 0} (element : Element T) (value : T → V) (encode : T → List ℕ)
    (IsSmall : T → Type 0)
    → IsElement element value encode IsSmall
    → Reads (make_object element) value encode IsSmall
make_object-reads element value encode IsSmall law s t h a held =
    elim (Option-cases element.construct) [
      | inl none_given ↦ rw none_given (law.pipes.reads s t h a held)
      | inr (make, given) ↦ rw given (law.constructs make given s t h a held)
    ]

-- The operator for `std::unique_ptr` keeps the contract `Refines`: a null pointer comes back as
-- one, and a pointer to an object that keeps the contract as a pointer to a new object with its
-- value, made by the operator or by the constructor.
pub pipe_unique_ptr-Refines :
    {T V : Type 0} (bool_t : AsBytes Bool) (element : Element T) (value : T → V)
    (encode : T → List ℕ) (IsSmall : T → Type 0)
    → IsAsBytes bool_t IsAny
    → IsElement element value encode IsSmall
    → Refines
        (pipe_unique_ptr bool_t element)
        none
        (pointed value)
        (encode_pointer bool_t encode)
        (IsSmallPointer IsSmall)
pipe_unique_ptr-Refines bool_t element value encode IsSmall bool_law law =
    pipe_unique_ptr-Refines_of bool_t bool_law element value encode IsSmall law.pipes.writes
      (make_object-reads element value encode IsSmall law)
