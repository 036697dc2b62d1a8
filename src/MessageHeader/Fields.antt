-- ===== src/MessageHeader/Fields.antt =====
-- The packed word as five fields: what each getter reads and what each setter leaves alone.
use Prim.Native.Nat.{bit_and, bit_or}
use findus.Base.{
  ℕ, zero, suc, ◌+◌, ◌-◌, ◌*◌, ◌/◌, ◌%◌, ◌^◌, ◌<◌, Bool, true, false, ◌==◌, ◌≡◌, refl, arith, ap,
  ◌∙◌,
}
use findus.Base.Sums.{bit}
use findus.Base.Bits.{
  mask_low, mask_field, or_field, or_low, ones-bit_and, read_field, clear_field, write_field,
}
use findus.MessageHeader.{
  MessageType, MessageHeader, type_code, type_of_code, set_data_was_serialized, set_message_type,
  number_of_bytes_in_message, message_type, data_was_serialized, data_alignment, compl64, shl64,
  data_was_serialized_mask, message_type_mask, data_alignment_mask, number_of_bytes_in_message_mask,
}

-- Flag, message type, alignment, the 12 bits in no use, and the number of bytes.
pub record Packed : Type 0 where
  pub flag : ℕ
  pub kind : ℕ
  pub alignment : ℕ
  pub spare : ℕ
  pub bytes : ℕ

abbrev pub pack : Packed → ℕ
pack f = f.flag * 2 ^ 63 + f.kind * 2 ^ 60 + f.alignment * 2 ^ 52 + f.spare * 2 ^ 40 + f.bytes

pub record IsPacked (f : Packed) : Type 0 where
  pub flag_lt : f.flag < 2
  pub kind_lt : f.kind < 8
  pub alignment_lt : f.alignment < 256
  pub spare_lt : f.spare < 2 ^ 12
  pub bytes_lt : f.bytes < 2 ^ 40

one-bit_or : (v : ℕ) → v < 2 → bit_or 1 v ≡ 1
one-bit_or zero h = refl
one-bit_or (suc zero) h = refl
one-bit_or (suc (suc v)) h = absurd (omega arith)

module _ (f : Packed) (p : IsPacked f) where
  above_bytes : ℕ
  above_bytes = f.flag * 2 ^ 23 + f.kind * 2 ^ 20 + f.alignment * 2 ^ 12 + f.spare

  cut_bytes : pack f ≡ above_bytes * 2 ^ 40 + f.bytes
  unfolding above_bytes
  cut_bytes = omega arith

  cut_alignment :
      pack f
      ≡ ((f.flag * 2 ^ 3 + f.kind) * 2 ^ 8 + f.alignment) * 2 ^ 52 + (f.spare * 2 ^ 40 + f.bytes)
  cut_alignment = omega arith

  cut_kind :
      pack f
      ≡ (f.flag * 2 ^ 3 + f.kind) * 2 ^ 60 + (f.alignment * 2 ^ 52 + f.spare * 2 ^ 40 + f.bytes)
  cut_kind = omega arith

  cut_flag :
      pack f
      ≡ (0 * 2 ^ 1 + f.flag) * 2 ^ 63
        + (f.kind * 2 ^ 60 + f.alignment * 2 ^ 52 + f.spare * 2 ^ 40 + f.bytes)
  cut_flag = omega arith

  read_bytes : bit_and (2 ^ 40 - 1) (pack f) ≡ f.bytes
  read_bytes = ap (bit_and (2 ^ 40 - 1)) cut_bytes ∙ mask_low 40 above_bytes f.bytes p.bytes_lt

  read_alignment : bit_and (255 * 2 ^ 52) (pack f) ≡ f.alignment * 2 ^ 52
  read_alignment =
      ap (bit_and (255 * 2 ^ 52)) cut_alignment
      ∙ read_field 8 52 (f.flag * 2 ^ 3 + f.kind) f.alignment _ p.alignment_lt (omega arith)

  read_kind : bit_and (7 * 2 ^ 60) (pack f) ≡ f.kind * 2 ^ 60
  read_kind =
      ap (bit_and (7 * 2 ^ 60)) cut_kind ∙ read_field 3 60 f.flag f.kind _ p.kind_lt (omega arith)

  read_flag : bit_and (1 * 2 ^ 63) (pack f) ≡ f.flag * 2 ^ 63
  read_flag =
      ap (bit_and (1 * 2 ^ 63)) cut_flag ∙ read_field 1 63 0 f.flag _ p.flag_lt (omega arith)

  pub write_flag :
      (b : Bool) → set_data_was_serialized (pack f) b ≡ pack (record f { flag = bit b })
  unfolding set_data_was_serialized
  write_flag true =
      let cut : pack f
          ≡ f.flag * 2 ^ 63
            + (f.kind * 2 ^ 60 + f.alignment * 2 ^ 52 + f.spare * 2 ^ 40 + f.bytes) =
        omega arith in
      ap (bit_or data_was_serialized_mask) cut
      ∙ or_field 63 1 f.flag _ (omega arith)
      ∙ ap
          (λ (t : ℕ).
            t * 2 ^ 63 + (f.kind * 2 ^ 60 + f.alignment * 2 ^ 52 + f.spare * 2 ^ 40 + f.bytes))
          (one-bit_or f.flag p.flag_lt)
      ∙ omega arith
  write_flag false =
      ap (bit_and (compl64 data_was_serialized_mask)) cut_flag
      ∙ clear_field 0 1 63 0 f.flag _ (omega arith) p.flag_lt (omega arith)
      ∙ omega arith

  pub write_kind :
      (t : MessageType)
      → type_code t < 8
      → set_message_type (pack f) t ≡ pack (record f { kind = type_code t })
  unfolding set_message_type
  write_kind t h =
      ap (bit_or (shl64 (type_code t) 60)) (
        ap (bit_and (compl64 message_type_mask)) cut_kind
        ∙ clear_field 1 3 60 f.flag f.kind _ p.flag_lt p.kind_lt (omega arith))
      ∙ ap
          (λ (t : ℕ).
            bit_or t
              (f.flag * 2 ^ 3 * 2 ^ 60 + (f.alignment * 2 ^ 52 + f.spare * 2 ^ 40 + f.bytes)))
          (omega arith)
      ∙ write_field 3 60 f.flag (type_code t) _ h (omega arith)
      ∙ omega arith

  pub write_alignment :
      (a : ℕ)
      → a < 256
      → bit_or (shl64 a 52) (bit_and (compl64 data_alignment_mask) (pack f))
        ≡ pack (record f { alignment = a })
  write_alignment a h =
      ap (λ (t : ℕ). bit_or (shl64 a 52) (bit_and (compl64 data_alignment_mask) t)) cut_alignment
      ∙ ap (bit_or (shl64 a 52)) (
          clear_field 4 8 52 (f.flag * 2 ^ 3 + f.kind) f.alignment _ (omega arith) p.alignment_lt
            (omega arith))
      ∙ ap
          (λ (t : ℕ).
            bit_or t ((f.flag * 2 ^ 3 + f.kind) * 2 ^ 8 * 2 ^ 52 + (f.spare * 2 ^ 40 + f.bytes)))
          (omega arith)
      ∙ write_field 8 52 (f.flag * 2 ^ 3 + f.kind) a _ h (omega arith)
      ∙ omega arith

  pub write_bytes :
      (n : ℕ)
      → n < 2 ^ 40
      → bit_or (bit_and (compl64 number_of_bytes_in_message_mask) (pack f)) n
        ≡ pack (record f { bytes = n })
  unfolding above_bytes
  write_bytes n h =
      ap (λ (t : ℕ). bit_or (bit_and (compl64 number_of_bytes_in_message_mask) t) n) cut_bytes
      ∙ ap (λ (t : ℕ). bit_or t n)
          (mask_field 40 (2 ^ 24 - 1) above_bytes f.bytes p.bytes_lt
            ∙ ap (λ (t : ℕ). t * 2 ^ 40) (ones-bit_and 24 above_bytes (omega arith)))
      ∙ or_low 40 above_bytes n h
      ∙ omega arith

-- Every 64-bit word is packed from such fields.
abbrev pub unpack : ℕ → Packed
unpack w = record {
  flag = w / 2 ^ 63;
  kind = w / 2 ^ 60 % 8;
  alignment = w / 2 ^ 52 % 256;
  spare = w / 2 ^ 40 % 2 ^ 12;
  bytes = w % 2 ^ 40;
}

pub unpack-IsPacked : (w : ℕ) → w < 2 ^ 64 → IsPacked (unpack w)
unpack-IsPacked w h = omega arith

pub pack-unpack : (w : ℕ) → w < 2 ^ 64 → pack (unpack w) ≡ w
pack-unpack w h = omega arith

-- What the getters of a header show of its packed word.
pub record View : Type 0 where
  pub bytes : ℕ
  pub kind : MessageType
  pub serialized : Bool
  pub alignment : ℕ

abbrev pub view : MessageHeader → View
view h = record {
  bytes = number_of_bytes_in_message h;
  kind = message_type h;
  serialized = data_was_serialized h;
  alignment = data_alignment h;
}

abbrev pub view_of : Packed → View
view_of f = record {
  bytes = f.bytes;
  kind = type_of_code f.kind;
  serialized = f.flag == 1;
  alignment = f.alignment;
}

pub view_lem :
    (f : Packed) → IsPacked f → (h : MessageHeader) → h.metadata ≡ pack f → view h ≡ view_of f
unfolding number_of_bytes_in_message message_type data_was_serialized data_alignment
view_lem f p h e =
    let bytes : number_of_bytes_in_message h ≡ f.bytes =
      ap (bit_and (2 ^ 40 - 1)) e ∙ read_bytes f p in
    let kind : bit_and message_type_mask h.metadata / 2 ^ 60 ≡ f.kind =
      omega (arith, ap (bit_and message_type_mask) e, read_kind f p) in
    let flag : bit_and data_was_serialized_mask h.metadata ≡ f.flag * 2 ^ 63 =
      ap (bit_and data_was_serialized_mask) e ∙ read_flag f p in
    let alignment : data_alignment h ≡ f.alignment =
      omega (arith, ap (bit_and data_alignment_mask) e, read_alignment f p) in
    let serialized : data_was_serialized h ≡ (f.flag == 1) = ground (arith, flag) in
    λ i. record {
      bytes = bytes i;
      kind = type_of_code (kind i);
      serialized = serialized i;
      alignment = alignment i;
    }
