-- ===== src/Tests/Metadata.antt =====
-- The metadata of a reduction, with the lowest byte of each number first.
use findus.Base.{ℕ, ◌-◌, ◌^◌, ◌<◌, ltb, if◌then◌else◌, ◌≡◌, refl, ap, ◌∙◌, arith}
use findus.Base.Int.{ℤ, pos, negsuc}
use findus.Serializer.Scalars.{AsBytes}
use findus.Serializer.Copying.{IsAsBytes}
use findus.MessageBuffer.Metadata.{
  MessageBytes, set_id, set_data_offset, set_callback_offset, set_combine_function_pointer,
  set_data_size, set_target_process_id, set_expected_number_of_contributions,
  set_expected_number_of_root_contributions,
}
use findus.MessageBuffer.Fields.{Pieces, pieces_of, pieces_of-set}
use findus.Tests.Serial.{to_le, of_le, of_le-to_le, length-to_le, uint64, uint64_law}

abbrev uint32 : AsBytes ℕ
uint32 = record { size_of = 4; to_bytes = to_le 4; of_bytes = of_le }

abbrev Is32 : ℕ → Type 0
Is32 n = n < 2 ^ 32

uint32_law : IsAsBytes uint32 Is32
uint32_law = record {
  some_size = omega arith;
  small = omega arith;
  size = length-to_le 4;
  back = λ n h. of_le-to_le 4 n h;
}

abbrev pattern_of : ℤ → ℕ
pattern_of (pos n) = n
pattern_of (negsuc n) = 2 ^ 32 - 1 - n

abbrev int_of_pattern : ℕ → ℤ
int_of_pattern p = if ltb p (2 ^ 31) then pos p else negsuc (2 ^ 32 - 1 - p)

abbrev IsInt : ℤ → Type 0
IsInt (pos n) = n < 2 ^ 31
IsInt (negsuc n) = n < 2 ^ 31

abbrev int32 : AsBytes ℤ
int32 = record {
  size_of = 4;
  to_bytes = λ z. to_le 4 (pattern_of z);
  of_bytes = λ bs. int_of_pattern (of_le bs);
}

int_back : (z : ℤ) → IsInt z → int_of_pattern (of_le (to_le 4 (pattern_of z))) ≡ z
int_back (pos n) h = ap int_of_pattern (of_le-to_le 4 n (omega arith)) ∙ ground arith
int_back (negsuc n) h =
    ap int_of_pattern (of_le-to_le 4 (2 ^ 32 - 1 - n) (omega arith)) ∙ ground arith

int32_law : IsAsBytes int32 IsInt
int32_law = record {
  some_size = omega arith;
  small = omega arith;
  size = λ z. length-to_le 4 (pattern_of z);
  back = int_back;
}

-- A message of zeros.
abbrev empty : MessageBytes
empty offset = 0

abbrev loaded : MessageBytes → Pieces
loaded = pieces_of uint64 uint32 int32 1000

pieces_of-set_example :
    (loaded (set_id uint64 uint32 int32 900 empty) ≡ record (loaded empty) { id = 900 })
    × (loaded (set_data_offset uint64 uint32 int32 128 empty)
        ≡ record (loaded empty) { data_offset = 128 })
    × (loaded (set_callback_offset uint64 uint32 int32 128 empty)
        ≡ record (loaded empty) { callback_offset = 128 })
    × (loaded (set_combine_function_pointer uint64 uint32 int32 1000 900 empty)
        ≡ record (loaded empty) { combine_function_pointer = 900 })
    × (loaded (set_data_size uint64 uint32 int32 128 empty)
        ≡ record (loaded empty) { data_size = 128 })
    × (loaded (set_target_process_id uint64 uint32 int32 (negsuc 1) empty)
        ≡ record (loaded empty) { target_process_id = negsuc 1 })
    × (loaded (set_expected_number_of_contributions uint64 uint32 int32 (negsuc 1) empty)
        ≡ record (loaded empty) { expected_number_of_contributions = negsuc 1 })
    × (loaded (set_expected_number_of_root_contributions uint64 uint32 int32 (negsuc 1) empty)
        ≡ record (loaded empty) { expected_number_of_root_contributions = negsuc 1 })
pieces_of-set_example =
    pieces_of-set uint64 uint32 int32 1000 uint64_law uint32_law int32_law refl refl refl (λ n h. h)
      (omega arith) empty 900 128 (negsuc 1) (omega arith) (omega arith) (omega arith)
