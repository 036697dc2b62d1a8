-- ===== src/MessageBuffer/Layout.antt =====
-- The layout of the messages of Message.cpp.
use findus.Base.{
  ℕ, ◌+◌, ◌-◌, ◌%◌, ◌^◌, ◌≤◌, ◌<◌, Bool, List, ◌≡◌, arith, ap, sym, ◌∙◌, ◌⊎◌, inl, inr,
}
use native.Mathlib.Nat.{mod-add-mod, mod_self, mod-lt}
use findus.Base.Int.{ℤ}
use findus.Base.Result.{ok, err}
use findus.MessageHeader.{MessageType, MemberFunctionPtr, set_data_alignment, message_too_large}
use findus.MessageHeader.Fields.{View, view}
use findus.MessageHeader.Laws.{IsNamed, view-set_data_alignment}
use findus.MessageHeader.Data.{create_header_lem, offset_kept}
use findus.MessageBuffer.{Buffer, padded_offset, copy_bytes, fill}

-- The padding makes a multiple of the alignment, of at least one and at most `alignment` bytes.
pub padded_offset_lem :
    (front alignment : ℕ)
    → 0 < alignment
    → front + alignment < 2 ^ 32
    → (padded_offset front alignment % alignment ≡ 0)
      × (front < padded_offset front alignment)
      × (padded_offset front alignment ≤ front + alignment)
unfolding padded_offset
padded_offset_lem front a positive small =
    let rest = mod-lt front positive in
    let exact : padded_offset front a ≡ front + (a - front % a) = omega (arith, rest) in
    let filled : front % a + (a - front % a) ≡ a = omega (arith, rest) in
    (
      ap (λ (n : ℕ). n % a) exact
          ∙ sym (mod-add-mod front a (a - front % a))
          ∙ ap (λ (n : ℕ). n % a) filled
          ∙ mod_self a,
      omega (arith, exact, rest),
      omega (arith, exact, rest),
    )

module _ (function : MemberFunctionPtr) (object : ℕ) (source destination : ℤ) (sweep : ℕ)
    (was_serialized : Bool) (data_alignment data_size : ℕ) (bytes fresh : ℕ → ℕ) where
  copied :
      (to i : ℕ)
      → i < data_size
      → copy_bytes to data_size bytes fresh (to + i) ≡ bytes (to + i - to)
  unfolding copy_bytes
  copied to i inside = ground arith

  -- A message whose data has an alignment from 1 to 255, less than 2 ^ 63 bytes and a place within
  -- 32 bits is either refused, and then has 2 ^ 40 bytes or more, or it is made: its data starts
  -- behind the first `front` bytes at a multiple of the alignment, ends with the message, and
  -- holds the bytes that were given, and the header tells the size, the type, which is an
  -- enumerator, the flag and the alignment.
  pub fill_lem :
      (front index : ℕ) (words : List ℕ) (type : MessageType)
      → IsNamed type
      → 0 < data_alignment
      → data_alignment < 256
      → front + data_alignment < 2 ^ 32
      → data_size < 2 ^ 63
      → let result =
          fill function object source destination sweep was_serialized data_alignment data_size
            bytes fresh front index words type in
        (2 ^ 40 ≤ padded_offset front data_alignment + data_size) × (result ≡ err message_too_large)
        ⊎ ((b : Buffer) × (result ≡ ok b)
            × (front < b.header.data_offset)
            × (b.header.data_offset % data_alignment ≡ 0)
            × (view b.header ≡ record {
              bytes = b.header.data_offset + data_size;
              kind = type;
              serialized = was_serialized;
              alignment = data_alignment;
            })
            × ((i : ℕ) → i < data_size → b.bytes (b.header.data_offset + i) ≡ bytes i))
  unfolding fill
  fill_lem front index words type named positive small near size =
      let (multiple, behind, close) = padded_offset_lem front data_alignment positive near in
      let offset = padded_offset front data_alignment in
      let whole : (offset + data_size) % 2 ^ 64 ≡ offset + data_size = omega arith in
      elim (create_header_lem function index ((offset + data_size) % 2 ^ 64) object offset source
        destination sweep was_serialized type named) [
          | inl (large, refused) ↦ inl (omega (arith, whole), ground (arith, refused))
          | inr (h, _, made, word, at, seen) ↦
              let kept : (set_data_alignment data_alignment h).data_offset ≡ offset =
                offset_kept data_alignment h ∙ at in
              inr (
                record {
                  header = set_data_alignment data_alignment h;
                  words = words;
                  bytes = copy_bytes h.data_offset data_size bytes fresh;
                },
                ground (arith, made),
                omega (arith, kept),
                ap (λ (n : ℕ). n % data_alignment) kept ∙ multiple,
                view-set_data_alignment h word data_alignment small
                    ∙ ap (λ (v : View). record v { alignment = data_alignment }) seen
                    ∙ ap
                        (λ (n : ℕ). record {
                          bytes = n;
                          kind = type;
                          serialized = was_serialized;
                          alignment = data_alignment;
                        })
                        (let total : (offset + data_size) % 2 ^ 64
                              ≡ (set_data_alignment data_alignment h).data_offset + data_size =
                            omega (arith, whole, kept) in
                          total),
                λ i inside.
                    let place : (set_data_alignment data_alignment h).data_offset + i
                        ≡ h.data_offset + i =
                      omega (arith, offset_kept data_alignment h) in
                    let back : h.data_offset + i - h.data_offset ≡ i = omega arith in
                    ap (copy_bytes h.data_offset data_size bytes fresh) place
                    ∙ copied (h.data_offset) i inside
                    ∙ ap bytes back,
              )
        ]
