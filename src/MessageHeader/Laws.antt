-- ===== src/MessageHeader/Laws.antt =====
-- What a message header tells after it was built or changed.
use findus.Base.{
  ℕ, ◌^◌, ◌<◌, Bool, true, false, ◌==◌, ◌≡◌, refl, ◌||◌, arith, ap, ◌∙◌, sym, ◌⊎◌, inl, inr,
  Bool-cases,
}
use findus.Base.Sums.{bit}
use findus.Base.Result.{ok, err}
use findus.MessageHeader.{
  MessageType, uninitialized, invoke, broadcast, broadcast_to, reduction, reduction_over, other,
  MessageHeader, type_code, type_of_code, set_message_type, set_data_was_serialized,
  set_number_of_bytes_in_message, set_data_alignment, set_serialized, convert_broadcast_to_invoke,
  is_broadcast, is_broadcast_to, not_a_broadcast,
}
use findus.MessageHeader.Fields.{
  Packed, pack, IsPacked, unpack, unpack-IsPacked, pack-unpack, View, view, view_of, view_lem,
  write_flag, write_kind, write_alignment, write_bytes,
}

-- An enumerator of `MessageType`.
abbrev pub IsNamed : MessageType → Type 0
IsNamed (other n) = ⊥
IsNamed _ = Unit

pub named_code :
    (t : MessageType) → IsNamed t → (type_code t < 8) × (type_of_code (type_code t) ≡ t)
unfolding type_of_code type_code
named_code uninitialized h = (omega arith, refl)
named_code invoke h = (omega arith, refl)
named_code broadcast h = (omega arith, refl)
named_code broadcast_to h = (omega arith, refl)
named_code reduction h = (omega arith, refl)
named_code reduction_over h = (omega arith, refl)
named_code (other n) h = absurd h

module _ (h : MessageHeader) (word : h.metadata < 2 ^ 64) where
  fields : Packed
  fields = unpack h.metadata

  packed : IsPacked fields
  unfolding fields
  packed = unpack-IsPacked h.metadata word

  whole : h.metadata ≡ pack fields
  unfolding fields
  whole = sym (pack-unpack h.metadata word)

  view-fields : view h ≡ view_of fields
  view-fields = view_lem fields packed h whole

  -- Storing a size below 2 ^ 40 in metadata of 64 bits changes what the header tells about its
  -- size, and nothing else.
  pub view-set_number_of_bytes :
      (value : ℕ)
      → value < 2 ^ 40
      → view (set_number_of_bytes_in_message value h) ≡ record (view h) { bytes = value }
  unfolding set_number_of_bytes_in_message
  view-set_number_of_bytes value small =
      let p : IsPacked fields = packed in
      view_lem (record fields { bytes = value }) (omega arith)
        (set_number_of_bytes_in_message value h)
        (ap (λ (t : ℕ). (set_number_of_bytes_in_message value (record h { metadata = t })).metadata)
            whole
          ∙ write_bytes fields packed value small)
      ∙ ap (λ (v : View). record v { bytes = value }) (sym view-fields)

  -- Storing an alignment below 256 in metadata of 64 bits changes what the header tells about the
  -- alignment, and nothing else.
  pub view-set_data_alignment :
      (value : ℕ)
      → value < 256
      → view (set_data_alignment value h) ≡ record (view h) { alignment = value }
  unfolding set_data_alignment
  view-set_data_alignment value small =
      let p : IsPacked fields = packed in
      view_lem (record fields { alignment = value }) (omega arith) (set_data_alignment value h)
        (ap (λ (t : ℕ). (set_data_alignment value (record h { metadata = t })).metadata) whole
          ∙ write_alignment fields packed value small)
      ∙ ap (λ (v : View). record v { alignment = value }) (sym view-fields)

  -- Setting the flag for serialized data in metadata of 64 bits changes what the header tells
  -- about it, and nothing else.
  pub view-set_serialized :
      (value : Bool) → view (set_serialized value h) ≡ record (view h) { serialized = value }
  unfolding set_serialized
  view-set_serialized value =
      let p : IsPacked fields = packed in
      let known : (bit value == 1) ≡ value = ground arith in
      view_lem (record fields { flag = bit value }) (ground arith) (set_serialized value h)
        (ap (λ (t : ℕ). set_data_was_serialized t value) whole ∙ write_flag fields packed value)
      ∙ ap (λ (b : Bool). record (view_of fields) { serialized = b }) known
      ∙ ap (λ (v : View). record v { serialized = value }) (sym view-fields)

  view-set_message_type :
      (t : MessageType)
      → IsNamed t
      → (g : MessageHeader) → g.metadata ≡ set_message_type h.metadata t
      → view g ≡ record (view h) { kind = t }
  view-set_message_type t named g e =
      let p : IsPacked fields = packed in
      let code = named_code t named in
      view_lem (record fields { kind = type_code t }) (omega (arith, code.0)) g
        (e ∙ ap (λ (w : ℕ). set_message_type w t) whole ∙ write_kind fields packed t code.0)
      ∙ ap (λ (k : MessageType). record (view_of fields) { kind = k }) code.1
      ∙ ap (λ (v : View). record v { kind = t }) (sym view-fields)

  -- A broadcast, to all or to some, whose metadata is a word of 64 bits becomes an invocation of
  -- one element: the element becomes its target, in the metadata only the type changes, and all other fields
  -- of the header stay: the function, the object, the data offset, the source, the destination and the
  -- sweep number. Any other message is refused.
  pub convert_broadcast_to_invoke_lem :
      (index : ℕ)
      → ((is_broadcast h || is_broadcast_to h) ≡ false)
          × (convert_broadcast_to_invoke index h ≡ err not_a_broadcast)
        ⊎ ((g : MessageHeader) × ((is_broadcast h || is_broadcast_to h) ≡ true)
            × (convert_broadcast_to_invoke index h ≡ ok g)
            × (view g ≡ record (view h) { kind = invoke })
            × (g ≡ record h { metadata = g.metadata; target_collection_index = index }))
  unfolding convert_broadcast_to_invoke
  convert_broadcast_to_invoke_lem index = elim (Bool-cases (is_broadcast h || is_broadcast_to h)) [
    | inl e ↦
        let g : MessageHeader = record h {
          metadata = set_message_type h.metadata invoke;
          target_collection_index = index;
        } in
        inr (g, e, ground arith, view-set_message_type invoke tt g refl, refl)
    | inr e ↦ inl (e, ground arith)
  ]
