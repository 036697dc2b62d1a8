-- ===== src/MessageHeader/Data.antt =====
-- Building a header, and writing and finding the data behind it.
use findus.Base.{
  ℕ, ◌%◌, ◌^◌, ◌≤◌, ◌<◌, Bool, ◌==◌, ◌≡◌, ◌≢◌, refl, arith, ap, ◌∙◌, sym, ◌⊎◌, inl, inr, dec_lt,
}
use findus.Base.Sums.{bit}
use findus.Base.Int.{ℤ}
use findus.Base.Result.{ok, err}
use findus.MessageHeader.{
  MessageType, type_code, MemberFunctionPtr, MessageHeader, message_too_large, wrong_alignment,
  set_message_type, set_data_was_serialized, create_header, data_alignment, set_data_alignment,
  data_location, create_data_in_message, data_from_message,
}
use findus.MessageHeader.Fields.{
  Packed, pack, IsPacked, View, view, view_lem, write_flag, write_kind,
}
use findus.MessageHeader.Laws.{IsNamed, named_code, view-set_data_alignment}

-- The constructor, given an enumerator as the type, refuses sizes of 2 ^ 40 bytes and more.
-- Otherwise the header tells the size, the type, the flag and the data offset that it was built
-- with, and an alignment of 0, in one word of 64 bits.
pub create_header_lem :
    (function : MemberFunctionPtr) (index bytes object offset : ℕ) (source destination : ℤ)
    (sweep : ℕ) (was_serialized : Bool) (type : MessageType)
    → IsNamed type
    → let result =
        create_header function index bytes object offset source destination sweep was_serialized
          type in
      (2 ^ 40 ≤ bytes) × (result ≡ err message_too_large)
      ⊎ ((h : MessageHeader) × (bytes < 2 ^ 40)
          × (result ≡ ok h)
          × (h.metadata < 2 ^ 64)
          × (h.data_offset ≡ offset)
          × (view h
              ≡ record { bytes = bytes; kind = type; serialized = was_serialized; alignment = 0 }))
unfolding create_header
create_header_lem function index bytes object offset source destination sweep was_serialized type
      named =
    elim (dec_lt bytes (2 ^ 40)) [
      | no h ↦ inl (omega arith, ground arith)
      | yes h ↦
          let plain : Packed = record {
            flag = 0;
            kind = 0;
            alignment = 0;
            spare = 0;
            bytes = bytes;
          } in
          let flagged : Packed = record plain { flag = bit was_serialized } in
          let code = named_code type named in
          let known : (bit was_serialized == 1) ≡ was_serialized = ground arith in
          let small : IsPacked flagged = ground arith in
          let header : MessageHeader = record {
            member_function_ptr = function;
            target_collection_index = index;
            metadata = set_message_type (set_data_was_serialized bytes was_serialized) type;
            distributed_object_index = object;
            data_offset = offset;
            source_process_id = source;
            destination_process_id = destination;
            quiescence_detection_sweep_number = sweep;
          } in
          let stored : header.metadata ≡ pack (record flagged { kind = type_code type }) =
            ap (λ (w : ℕ). set_message_type w type)
              (ap (λ (w : ℕ). set_data_was_serialized w was_serialized)
                  (let e : bytes ≡ pack plain = omega arith in e)
                ∙ write_flag plain (omega arith) was_serialized)
            ∙ write_kind flagged small type code.0 in
          inr (
            header,
            h,
            ground arith,
            (let whole : IsPacked (record flagged { kind = type_code type }) =
                  ground (arith, code.0, small) in
                omega (arith, stored)),
            refl,
            view_lem (record flagged { kind = type_code type }) (ground (arith, code.0)) header
                  stored
                ∙ λ i. record {
                  bytes = bytes;
                  kind = code.1 i;
                  serialized = known i;
                  alignment = 0;
                },
          )
    ]

pub offset_kept :
    (alignof : ℕ) (h : MessageHeader) → (set_data_alignment alignof h).data_offset ≡ h.data_offset
unfolding set_data_alignment
offset_kept alignof h = refl

module _ (address : ℕ) (h : MessageHeader) (word : h.metadata < 2 ^ 64) where
  -- With metadata of 64 bits, data made for a type whose alignment is below 256 is found again at
  -- the same address for a type of the same alignment, and refused for any other that the address
  -- would suit.
  pub data_from-create_data :
      (alignof other location : ℕ) (g : MessageHeader)
      → alignof < 256
      → create_data_in_message address alignof h ≡ ok (location, g)
      → (data_from_message address alignof g ≡ ok location)
        × (location % other ≡ 0
            → other ≢ alignof
            → data_from_message address other g ≡ err wrong_alignment)
  unfolding create_data_in_message data_from_message data_location
  data_from-create_data alignof other location g small made =
      let kept : set_data_alignment alignof h ≡ g = ground arith in
      let stored : data_alignment g ≡ alignof =
        ap data_alignment (sym kept)
        ∙ ap (λ (v : View). v.alignment) (view-set_data_alignment h word alignof small) in
      let offset : g.data_offset ≡ h.data_offset =
        ap (λ (m : MessageHeader). m.data_offset) (sym kept) ∙ offset_kept alignof h in
      (ground (arith, stored, offset), λ e n. ground (arith, stored, offset))
