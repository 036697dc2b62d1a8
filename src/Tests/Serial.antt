-- ===== src/Tests/Serial.antt =====
-- Objects that go through the serializer: numbers of eight bytes, the lowest first.
use findus.Base.{
  ℕ, zero, suc, ◌+◌, ◌*◌, ◌/◌, ◌%◌, ◌<◌, Bool, true, false, List, [], ◌∷◌, length, map, Option,
  none, some, ◌≡◌, refl, ap, arith,
}
use mathlib.Core.Path.{subst}
use findus.Base.Result.{ok}
use findus.Serializer.State.{Serializer, for_sizing, for_packing, for_unpacking}
use findus.Serializer.Contract.{Refines, round_trip}
use findus.Serializer.Scalars.{AsBytes, call_item}
use findus.Serializer.Copying.{IsAsBytes, call_item-Refines}
use findus.Serializer.Containers.{Element, Vector, pipe_vector}
use findus.Serializer.Elements.{IsElement}
use findus.Serializer.Sequences.{IsSize}
use findus.Serializer.Vectors.{encode_vector, IsSmallVector, no_items, pipe_vector-Refines}
use findus.Serializer.Owners.{IsAny}

abbrev pub to_le : ℕ → ℕ → List ℕ
to_le zero n = []
to_le (suc k) n = (n % 256) ∷ to_le k (n / 256)

abbrev pub of_le : List ℕ → ℕ
of_le [] = 0
of_le (b ∷ bs) = b + 256 * of_le bs

abbrev pow_256 : ℕ → ℕ
pow_256 zero = 1
pow_256 (suc k) = 256 * pow_256 k

pub of_le-to_le : (k n : ℕ) → n < pow_256 k → of_le (to_le k n) ≡ n
of_le-to_le zero n h = omega arith
of_le-to_le (suc k) n h = omega (arith, of_le-to_le k (n / 256) (omega arith))

pub length-to_le : (k n : ℕ) → length (to_le k n) ≡ k
length-to_le zero n = refl
length-to_le (suc k) n = ap suc (length-to_le k (n / 256))

abbrev pub uint64 : AsBytes ℕ
uint64 = record { size_of = 8; to_bytes = to_le 8; of_bytes = of_le }

pub uint64_law : IsAsBytes uint64 IsSize
uint64_law = record {
  some_size = omega arith;
  small = omega arith;
  size = length-to_le 8;
  back = λ n h. of_le-to_le 8 n h;
}

abbrev pub bool_byte : AsBytes Bool
bool_byte = record {
  size_of = 1;
  to_bytes = λ b. elim b [ true ↦ 1 ∷ [] | false ↦ 0 ∷ [] ];
  of_bytes = λ bs. elim bs [ [] ↦ false | b ∷ _ ↦ elim b [ zero ↦ false | suc _ ↦ true ] ];
}

bool_size : (b : Bool) → length (bool_byte.to_bytes b) ≡ 1
bool_size true = refl
bool_size false = refl

bool_back : (b : Bool) → bool_byte.of_bytes (bool_byte.to_bytes b) ≡ b
bool_back true = refl
bool_back false = refl

pub bool_law : IsAsBytes bool_byte IsAny
bool_law = record {
  some_size = omega arith;
  small = omega arith;
  size = bool_size;
  back = λ b h. bool_back b;
}

-- A number, copied as bytes.
abbrev pub number : Element ℕ
number = record { as_bytes = some uint64; construct = none; pipe = call_item uint64; blank = 0 }

same_bytes : (b : AsBytes ℕ) → some uint64 ≡ some b → uint64 ≡ b
same_bytes b e = ap (λ (o : Option (AsBytes ℕ)). elim o [ none ↦ uint64 | some x ↦ x ]) e

pub number_law : IsElement number (λ n. n) uint64.to_bytes IsSize
number_law = record {
  pipes = call_item-Refines uint64 IsSize uint64_law 0;
  copies = λ b e. subst (λ (x : AsBytes ℕ). IsAsBytes x IsSize) (same_bytes b e) uint64_law;
  copied = λ b e n. ap (λ (x : AsBytes ℕ). x.to_bytes n) (same_bytes b e);
  constructs = λ make e. cc e;
}

-- A `reserve` that makes exactly the room asked for.
abbrev exactly : ℕ → ℕ → ℕ
exactly capacity n = n

abbrev two_numbers : Vector ℕ
two_numbers = record { items = 7 ∷ 300 ∷ []; capacity = 4 }

pipe_vector-Refines_example :
    Refines
      (pipe_vector uint64 exactly number)
      no_items
      (λ v. map (λ (n : ℕ). n) v.items)
      (encode_vector uint64 uint64.to_bytes)
      (IsSmallVector (some uint64) IsSize)
pipe_vector-Refines_example =
    pipe_vector-Refines uint64 uint64_law exactly number (λ n. n) uint64.to_bytes IsSize number_law

round_trip_example :
    (sized : Serializer) × (packed : Serializer) × (unpacked : Serializer) × (v : Vector ℕ)
    × (pipe_vector uint64 exactly number (for_sizing 0) two_numbers ≡ ok (two_numbers, sized))
    × (pipe_vector uint64 exactly number
          (for_packing (λ _. 255) sized.number_of_bytes 0)
          two_numbers
        ≡ ok (two_numbers, packed))
    × (packed.current_pointer ≡ packed.end_pointer)
    × (packed.end_pointer ≡ 32)
    × (packed.memory 40 ≡ 255)
    × (pipe_vector uint64 exactly number
          (for_unpacking packed.memory sized.number_of_bytes 0)
          no_items
        ≡ ok (v, unpacked))
    × (unpacked.current_pointer ≡ unpacked.end_pointer)
    × (map (λ (n : ℕ). n) v.items ≡ 7 ∷ 300 ∷ [])
round_trip_example =
    round_trip
      (pipe_vector-Refines uint64 uint64_law exactly number (λ n. n) uint64.to_bytes IsSize
        number_law)
      two_numbers (λ _. 255) 0 40 (omega arith) (omega arith) (omega arith)
