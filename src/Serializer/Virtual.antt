-- ===== src/Serializer/Virtual.antt =====
-- Objects of derived classes behind a pointer to their base, Serialize/Virtual.hpp: the hash of a
-- class's name, the registry of the derived classes, and the two functions for abstract bases. All
-- classes of a base have the same type of contents here.
use findus.Base.{
  ℕ, ◌*◌, ◌%◌, ◌^◌, Bool, true, false, not, ◌==◌, if◌then◌else◌, List, [], ◌∷◌, Option, none, some,
}
use Prim.Native.Nat.{bit_xor}
use findus.Base.Result.{Result, ok, err, ◌>>=◌}
use findus.Serializer.State.{
  Serializer, SerializerError, unable_to_register, unable_to_find_derived_class, Pipe,
}
use findus.Serializer.Scalars.{AsBytes, call_item}
use findus.Serializer.Containers.{Construct}

abbrev pub fnv1a_hash_multiply : ℕ → ℕ
fnv1a_hash_multiply hash = hash * 1099511628211 % 2 ^ 64

-- The `while` loop ends at a null character.
unfoldable pub hash_loop : ℕ → List ℕ → ℕ
hash_loop hash [] = hash
hash_loop hash (c ∷ str) =
    let rest = hash_loop (fnv1a_hash_multiply (bit_xor hash c)) str in if c == 0 then hash else rest

unfoldable pub hash : List ℕ → ℕ
unfolding hash_loop
hash string = hash_loop 14695981039346656037 string

-- A derived class: the characters of its name, whether it is constructed from a serializer, its
-- member `serialize`, and what `Derived{}` holds.
pub record Class (A : Type 0) : Type 0 where
  pub serializable_name : List ℕ
  pub construct : Option (Construct A)
  pub serialize : Pipe A
  pub blank : A

pub record Object (A : Type 0) : Type 0 where
  pub dynamic_class : Class A
  pub contents : A

-- `default_construct_` says too whether the object was deserialized by its constructor.
pub record ClassEntry (A : Type 0) : Type 0 where
  pub derived_class_serialization_id : ℕ
  pub derived_class_name : List ℕ
  pub default_construct : Serializer → Result SerializerError ((Object A × Bool) × Serializer)

module _ {A : Type 0} where
  unfoldable pub serializable_hash : Class A → ℕ
  unfolding hash
  serializable_hash derived = hash derived.serializable_name

  -- `std::unordered_map::find` and `end()`.
  abbrev pub find : List (ClassEntry A) → ℕ → Option (ClassEntry A)
  find [] id = none
  find (e ∷ registry) id =
      if e.derived_class_serialization_id == id then some e else find registry id

  -- Allocation does not fail.
  unfoldable pub default_construct_derived :
      Class A → Serializer → Result SerializerError ((Object A × Bool) × Serializer)
  default_construct_derived derived serializer = elim derived.construct [
    | some construct ↦ construct serializer >>= λ (r : A × Serializer).
        ok ((record { dynamic_class = derived; contents = r.0 }, true), r.1)
    | none ↦ ok ((record { dynamic_class = derived; contents = derived.blank }, false), serializer)
  ]

  unfoldable pub class_entry : Class A → ClassEntry A
  unfolding serializable_hash default_construct_derived
  class_entry derived = record {
    derived_class_serialization_id = serializable_hash derived;
    derived_class_name = derived.serializable_name;
    default_construct = default_construct_derived derived;
  }

  -- The registry afterwards.
  unfoldable pub register_derived :
      Class A → List (ClassEntry A) → Result SerializerError (List (ClassEntry A))
  unfolding class_entry
  register_derived derived registry = elim (find registry (serializable_hash derived)) [
    | none ↦ ok (class_entry derived ∷ registry)
    | some _ ↦ err unable_to_register
  ]

  unfoldable pub create_object :
      AsBytes ℕ
      → List (ClassEntry A)
      → Serializer
      → Result SerializerError ((Object A × Bool) × Serializer)
  create_object size_t registry serializer =
      call_item size_t serializer 0 >>= λ (r : ℕ × Serializer). elim (find registry r.0) [
        | none ↦ err (unable_to_find_derived_class r.0)
        | some entry ↦ entry.default_construct r.1
      ]

  -- The virtual `serialize` of the object.
  abbrev pub serialize_object : Pipe (Object A)
  serialize_object serializer base =
      base.dynamic_class.serialize serializer base.contents >>= λ (r : A × Serializer).
      ok (record base { contents = r.0 }, r.1)

  unfoldable pub serialize_abstract_base : AsBytes ℕ → Pipe (Object A)
  unfolding serializable_hash
  serialize_abstract_base size_t serializer base =
      call_item size_t serializer (serializable_hash base.dynamic_class) >>= λ (r : ℕ × Serializer).
      serialize_object r.1 base

  unfoldable pub deserialize_abstract_base : AsBytes ℕ → List (ClassEntry A) → Construct (Object A)
  unfolding create_object
  deserialize_abstract_base size_t registry serializer =
      create_object size_t registry serializer >>= λ (r : (Object A × Bool) × Serializer).
      if not r.0.1 then serialize_object r.1 r.0.0 else ok (r.0.0, r.1)

-- The classes register one after another, at the start of the program.
unfoldable pub register_all :
    {A : Type 0}
    → List (Class A)
    → List (ClassEntry A)
    → Result SerializerError (List (ClassEntry A))
unfolding register_derived
register_all [] registry = ok registry
register_all {A} (derived ∷ classes) registry =
    register_derived derived registry >>= λ (r : List (ClassEntry A)). register_all classes r
