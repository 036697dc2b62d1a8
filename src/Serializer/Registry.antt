-- ===== src/Serializer/Registry.antt =====
-- Registered classes are found again, so that a pointer to an abstract base comes back as an object
-- of the class it had.
use findus.Base.{
  ℕ, zero, suc, ◌^◌, ◌<◌, Bool, true, false, not, if◌then◌else◌, List, [], ◌∷◌, ◌++◌, none, some,
  get_elem?, ◌≡◌, inl, inr, refl, sym, ap, ◌∙◌, arith, Option-cases,
}
use mathlib.Core.Path.{subst}
use findus.Base.Result.{ok, ◌>>=◌, Result-cases}
use findus.Serializer.State.{Serializer}
use findus.Serializer.Memory.{after, after-append}
use findus.Serializer.Contract.{Holds, Reading, Writing, Refines, Holds-append}
use findus.Serializer.Scalars.{AsBytes, call_item}
use findus.Serializer.Copying.{IsAsBytes}
use findus.Serializer.Containers.{Construct, pipe_unique_ptr}
use findus.Serializer.Elements.{Reads, after-Writing, after-Reading}
use findus.Serializer.Sequences.{IsSize, write_size, read_size}
use Prim.Native.Nat.{bit_xor}
use findus.Serializer.Owners.{
  IsAny, encode_pointer, pointed, IsSmallPointer, pipe_unique_ptr-Refines_of,
}
use findus.Serializer.Virtual.{
  fnv1a_hash_multiply, hash_loop, hash, Class, Object, ClassEntry, serializable_hash, find,
  default_construct_derived, class_entry, register_derived, create_object, serialize_object,
  serialize_abstract_base, deserialize_abstract_base, register_all,
}

hash_loop-lt : (str : List ℕ) (h : ℕ) → h < 2 ^ 64 → hash_loop h str < 2 ^ 64
unfolding hash_loop
hash_loop-lt [] h l = l
hash_loop-lt (c ∷ str) h l =
    ground (arith, hash_loop-lt str (fnv1a_hash_multiply (bit_xor h c)) (omega arith))

hash-lt : {A : Type 0} (c : Class A) → serializable_hash c < 2 ^ 64
unfolding serializable_hash hash
hash-lt c = hash_loop-lt c.serializable_name 14695981039346656037 (omega arith)

module _ {A : Type 0} where
  find-register_derived_self :
      (d : Class A) (registry after' : List (ClassEntry A))
      → register_derived d registry ≡ ok after'
      → find after' (serializable_hash d) ≡ some (class_entry d)
  unfolding register_derived
  find-register_derived_self d registry after' h = ground (arith, h)

  -- A class that was found before is still found after another registration.
  find-register_derived :
      (d : Class A) (registry after' : List (ClassEntry A)) (id : ℕ) (e : ClassEntry A)
      → register_derived d registry ≡ ok after'
      → find registry id ≡ some e
      → find after' id ≡ some e
  unfolding register_derived
  find-register_derived d registry after' id e h found =
      ground (arith, h, found, ap (find registry) {x = serializable_hash d} {y = id})

  find-register_all :
      (classes : List (Class A)) (registry after' : List (ClassEntry A)) (id : ℕ) (e : ClassEntry A)
      → register_all classes registry ≡ ok after'
      → find registry id ≡ some e
      → find after' id ≡ some e
  unfolding register_all
  find-register_all [] registry after' id e h found = ground (arith, h, found)
  find-register_all (d ∷ classes) registry after' id e h found =
      elim (Result-cases (register_derived d registry)) [
        | inl (r, made) ↦
            find-register_all classes r after' id e (ground (arith, h, made))
              (find-register_derived d registry r id e made found)
        | inr (x, refused) ↦ ground (arith, h, refused)
      ]

  find-registered :
      (classes : List (Class A)) (registry after' : List (ClassEntry A)) (i : ℕ) (c : Class A)
      → register_all classes registry ≡ ok after'
      → get_elem? classes i ≡ some c
      → find after' (serializable_hash c) ≡ some (class_entry c)
  unfolding register_all
  find-registered [] registry after' i c h at = ground (arith, at)
  find-registered (d ∷ classes) registry after' zero c h at =
      elim (Result-cases (register_derived d registry)) [
        | inl (r, made) ↦
            find-register_all classes r after' (serializable_hash c) (class_entry c)
              (ground (arith, h, made))
              (let same : d ≡ c = cc at in
                subst (λ (x : Class A). find r (serializable_hash x) ≡ some (class_entry x)) same
                  (find-register_derived_self d registry r made))
        | inr (x, refused) ↦ ground (arith, h, refused)
      ]
  find-registered (d ∷ classes) registry after' (suc i) c h at =
      elim (Result-cases (register_derived d registry)) [
        | inl (r, made) ↦ find-registered classes r after' i c (ground (arith, h, made)) at
        | inr (x, refused) ↦ ground (arith, h, refused)
      ]

module _ {A : Type 0} where
  create_object-found :
      (size_t : AsBytes ℕ) (registry : List (ClassEntry A)) (s s' : Serializer) (id : ℕ)
      (e : ClassEntry A)
      → call_item size_t s 0 ≡ ok (id, s')
      → find registry id ≡ some e
      → create_object size_t registry s ≡ e.default_construct s'
  unfolding create_object
  create_object-found size_t registry s s' id e read found = ground (arith, read, found)

  default_construct_derived-none :
      (c : Class A) (s : Serializer)
      → c.construct ≡ none
      → default_construct_derived c s
        ≡ ok ((record { dynamic_class = c; contents = c.blank }, false), s)
  unfolding default_construct_derived
  default_construct_derived-none c s h = ground (arith, h)

  default_construct_derived-some :
      (c : Class A) (make : Construct A) (s s' : Serializer) (x : A)
      → c.construct ≡ some make
      → make s ≡ ok (x, s')
      → default_construct_derived c s ≡ ok ((record { dynamic_class = c; contents = x }, true), s')
  unfolding default_construct_derived
  default_construct_derived-some c make s s' x h e = ground (arith, h, e)

module _ {A V : Type 0} (size_t : AsBytes ℕ) (size_law : IsAsBytes size_t IsSize) (value : A → V)
    (encode : Class A → A → List ℕ) (IsSmall : Class A → A → Type 0) where
  -- What the members of a derived class promise.
  pub record IsClass (c : Class A) : Type 0 where
    pub serializes : Refines c.serialize c.blank value (encode c) (IsSmall c)
    pub constructs :
        (make : Construct A) → c.construct ≡ some make → Reads make value (encode c) (IsSmall c)

  -- The class that the object has, and the value of what it holds.
  abbrev pub object_value : Object A → List ℕ × V
  object_value o = (o.dynamic_class.serializable_name, value o.contents)

  abbrev pub encode_object : Object A → List ℕ
  encode_object o =
      size_t.to_bytes (serializable_hash o.dynamic_class) ++ encode o.dynamic_class o.contents

  module _ (classes : List (Class A)) (registry : List (ClassEntry A))
      (registered : register_all classes [] ≡ ok registry)
      (law : (i : ℕ) (c : Class A) → get_elem? classes i ≡ some c → IsClass c) where
    -- One of the registered classes.
    abbrev pub IsSmallObject : Object A → Type 0
    IsSmallObject o =
        (i : ℕ) × (get_elem? classes i ≡ some o.dynamic_class) × IsSmall o.dynamic_class o.contents

    serialize_abstract_base-writes :
        (s : Serializer) (o : Object A)
        → IsSmallObject o
        → Writing s
        → serialize_abstract_base size_t s o ≡ ok (o, after s (encode_object o))
    unfolding serialize_abstract_base
    serialize_abstract_base-writes s o (i, at, small) w =
        let c = o.dynamic_class in
        let id = size_t.to_bytes (serializable_hash c) in
        rw (write_size size_t size_law s (serializable_hash c) (hash-lt c) w) (
          rw ((law i c at).serializes.writes (after s id) o.contents small (after-Writing s id w))
            (ap (λ (z : Serializer). ok (o, z)) (sym (after-append s id (encode c o.contents)))))

    -- What `create_object` makes of the class that the id names, and what is still to be read.
    deserialize-reads :
        (c : Class A) (i : ℕ) (s : Serializer) (o : Object A)
        → o.dynamic_class ≡ c
        → get_elem? classes i ≡ some c
        → IsSmall c o.contents
        → Reading s
        → Holds s (encode c o.contents)
        → (a : A) × ((default_construct_derived c s >>= λ (r : (Object A × Bool) × Serializer).
              if not r.0.1 then serialize_object r.1 r.0.0 else ok (r.0.0, r.1))
            ≡ ok (record { dynamic_class = c; contents = a }, after s (encode c o.contents)))
          × (value a ≡ value o.contents)
    deserialize-reads c i s o own at small a held = elim (Option-cases c.construct) [
      | inl none_given ↦
          let (x, e, same) = (law i c at).serializes.reads s o.contents small a held in
          (x, rw (default_construct_derived-none c s none_given) (rw e refl), same)
      | inr (make, given) ↦
          let (x, e, same) = (law i c at).constructs make given s o.contents small a held in
          (x, rw (default_construct_derived-some c make s _ x given e) refl, same)
    ]

    deserialize_abstract_base-reads :
        Reads (deserialize_abstract_base size_t registry) object_value encode_object IsSmallObject
    unfolding deserialize_abstract_base class_entry
    deserialize_abstract_base-reads s o (i, at, small) a held =
        let c = o.dynamic_class in
        let id = size_t.to_bytes (serializable_hash c) in
        let (here, there) = Holds-append s id (encode c o.contents) a held in
        let (x, e, same) =
          deserialize-reads c i (after s id) o refl at small (after-Reading s id a) there in
        (
          record { dynamic_class = c; contents = x },
          rw
              (create_object-found size_t registry s (after s id) (serializable_hash c)
                (class_entry c)
                (read_size size_t size_law s 0 (serializable_hash c) (hash-lt c) a here)
                (find-registered classes [] registry i c registered at))
              ((e
                ∙ ap (λ (z : Serializer). ok (record { dynamic_class = c; contents = x }, z))
                    (sym (after-append s id (encode c o.contents))))),
          ap (λ (v : V). (c.serializable_name, v)) same,
        )

    -- The operator for `std::unique_ptr` to an abstract base keeps the contract `Refines`: if
    -- all classes register one after another without a refusal, and the members of each keep the
    -- contract, then a null pointer comes back as one, and an object of one of the classes comes
    -- back behind a new pointer as an object of the same class with the same value.
    pub unique_ptr_to_base-Refines :
        (bool_t : AsBytes Bool) (blank : Object A)
        → IsAsBytes bool_t IsAny
        → Refines
            (pipe_unique_ptr bool_t (record {
              as_bytes = none;
              construct = some (deserialize_abstract_base size_t registry);
              pipe = serialize_abstract_base size_t;
              blank = blank;
            }))
            none
            (pointed object_value)
            (encode_pointer bool_t encode_object)
            (IsSmallPointer IsSmallObject)
    unique_ptr_to_base-Refines bool_t blank bool_law =
        pipe_unique_ptr-Refines_of bool_t bool_law _ object_value encode_object IsSmallObject
          serialize_abstract_base-writes deserialize_abstract_base-reads
