-- ===== src/Tests/Classes.antt =====
-- A map of numbers and a pointer to one of two classes, which go through the serializer.
use findus.Base.{
  ℕ, zero, suc, List, [], ◌∷◌, ◌++◌, map, none, some, get_elem?, ◌≡◌, refl, sym, ap, ◌∙◌, arith,
}
use mathlib.Core.List.{append-nil, append_assoc}
use mathlib.Core.Path.{subst}
use findus.Base.Result.{ok}
use findus.Serializer.Contract.{Refines}
use findus.Serializer.Scalars.{call_item}
use findus.Serializer.Copying.{call_item-Refines}
use findus.Serializer.Containers.{Construct, pipe_unique_ptr}
use findus.Serializer.Elements.{Reads}
use findus.Serializer.Sequences.{IsSize, encode_list, IsSmallList}
use findus.Serializer.Owners.{encode_pointer, pointed, IsSmallPointer}
use findus.Serializer.Compounds.{both, encode_both, AreSmall}
use findus.Serializer.Associative.{Container, associative_map_impl}
use findus.Serializer.Emplacing.{emplace_all, Rebuilds}
use findus.Serializer.Maps.{associative_map_impl-Refines}
use findus.Serializer.Virtual.{
  Class, ClassEntry, class_entry, register_all, serialize_abstract_base, deserialize_abstract_base,
}
use findus.Serializer.Registry.{
  IsClass, object_value, encode_object, IsSmallObject, unique_ptr_to_base-Refines,
}
use findus.Tests.Serial.{uint64, uint64_law, bool_byte, bool_law, number, number_law}

-- A container that keeps its entries in the order in which they come.
abbrev entries_in_order : Container (List (ℕ × ℕ)) (ℕ × ℕ)
entries_in_order = record { elements = λ c. c; emplace = λ c e. c ++ e ∷ [] }

abbrev same : ℕ → ℕ
same n = n

abbrev both_same : ℕ × ℕ → ℕ × ℕ
both_same = both same same uint64.to_bytes uint64.to_bytes IsSize IsSize

emplace_all-append : (c es : List (ℕ × ℕ)) → emplace_all entries_in_order c es ≡ c ++ es
emplace_all-append c [] = sym (append-nil c)
emplace_all-append c (e ∷ es) = emplace_all-append (c ++ e ∷ []) es ∙ append_assoc c (e ∷ []) es

rebuilds : Rebuilds entries_in_order [] both_same (map both_same)
rebuilds c es h = ap (map both_same) (emplace_all-append [] es) ∙ h

associative_map_impl-Refines_example :
    Refines
      (associative_map_impl uint64 entries_in_order number number)
      []
      (map both_same)
      (encode_list uint64 (encode_both same same uint64.to_bytes uint64.to_bytes IsSize IsSize))
      (IsSmallList (AreSmall same same uint64.to_bytes uint64.to_bytes IsSize IsSize))
associative_map_impl-Refines_example =
    associative_map_impl-Refines uint64 entries_in_order [] number number same same uint64.to_bytes
      uint64.to_bytes IsSize IsSize (map both_same) uint64_law number_law number_law rebuilds

-- Class "A" is default constructed, class "B" is constructed from a serializer.
abbrev class_a : Class ℕ
class_a = record {
  serializable_name = 65 ∷ [];
  construct = none;
  serialize = call_item uint64;
  blank = 0;
}

abbrev class_b : Class ℕ
class_b = record {
  serializable_name = 66 ∷ [];
  construct = some (λ s. call_item uint64 s 0);
  serialize = call_item uint64;
  blank = 0;
}

abbrev encode_class : Class ℕ → ℕ → List ℕ
encode_class c = uint64.to_bytes

abbrev AnySize : Class ℕ → ℕ → Type 0
AnySize c = IsSize

abbrev two_classes : List (Class ℕ)
two_classes = class_a ∷ class_b ∷ []

registered : register_all two_classes [] ≡ ok (class_entry class_b ∷ class_entry class_a ∷ [])
unfolding register_all
registered = refl

some_injective : {X : Type 0} {x y : X} → some x ≡ some y → x ≡ y
some_injective {x} e = ap (λ o. elim o [ none ↦ x | some z ↦ z ]) e

abbrev IsLawful : Class ℕ → Type 0
IsLawful = IsClass uint64 uint64_law same encode_class AnySize

abbrev numbers_refine : Refines (call_item uint64) 0 same uint64.to_bytes IsSize
numbers_refine = call_item-Refines uint64 IsSize uint64_law 0

class_a-IsLawful : IsLawful class_a
class_a-IsLawful = record { serializes = numbers_refine; constructs = λ make e. cc e }

class_b-IsLawful : IsLawful class_b
class_b-IsLawful = record {
  serializes = numbers_refine;
  constructs = λ make e.
      subst (λ (m : Construct ℕ). Reads m same uint64.to_bytes IsSize) (some_injective e)
        numbers_refine.reads;
}

class_law :
    (i : ℕ) (c : Class ℕ)
    → get_elem? two_classes i ≡ some c
    → IsClass uint64 uint64_law same encode_class AnySize c
class_law zero c h = subst IsLawful (some_injective h) class_a-IsLawful
class_law (suc zero) c h = subst IsLawful (some_injective h) class_b-IsLawful
class_law (suc (suc i)) c h = ground (arith, h)

abbrev registry : List (ClassEntry ℕ)
registry = class_entry class_b ∷ class_entry class_a ∷ []

unique_ptr_to_base-Refines_example :
    Refines
      (pipe_unique_ptr bool_byte (record {
        as_bytes = none;
        construct = some (deserialize_abstract_base uint64 registry);
        pipe = serialize_abstract_base uint64;
        blank = record { dynamic_class = class_a; contents = 0 };
      }))
      none
      (pointed (object_value uint64 uint64_law same encode_class AnySize))
      (encode_pointer bool_byte (encode_object uint64 uint64_law same encode_class AnySize))
      (IsSmallPointer (
        IsSmallObject uint64 uint64_law same encode_class AnySize two_classes registry registered
          class_law))
unique_ptr_to_base-Refines_example =
    unique_ptr_to_base-Refines uint64 uint64_law same encode_class AnySize two_classes registry
      registered class_law bool_byte (record { dynamic_class = class_a; contents = 0 }) bool_law
