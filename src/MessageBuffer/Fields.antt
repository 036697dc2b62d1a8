-- ===== src/MessageBuffer/Fields.antt =====
-- Each piece of the metadata is stored and loaded without touching the others.
use findus.Base.{ℕ, ◌+◌, ◌-◌, ◌%◌, ◌^◌, ◌<◌, List, [], ◌∷◌, ◌++◌, length, ◌≡◌, refl, ap, ◌∙◌, arith}
use findus.Base.Int.{ℤ, pos}
use findus.Serializer.State.{write}
use findus.Serializer.Scalars.{AsBytes}
use findus.Serializer.Copying.{IsAsBytes}
use findus.MessageBuffer.Places.{Apart, reads, reads-write}
use findus.MessageBuffer.Metadata.{
  contributed_metadata_jump_in_bytes, MessageBytes, set_id, get_id, set_data_offset,
  get_data_offset, set_callback_offset, get_callback_offset, set_combine_function_pointer,
  get_combine_function_pointer, set_data_size, get_data_size, set_target_process_id,
  get_target_process_id, set_expected_number_of_contributions, get_expected_number_of_contributions,
  set_expected_number_of_root_contributions, get_expected_number_of_root_contributions,
}

-- All that is stored, the flags of the contributions included.
pub record Pieces : Type 0 where
  pub id : ℕ
  pub data_offset : ℕ
  pub callback_offset : ℕ
  pub combine_function_pointer : ℕ
  pub data_size : ℕ
  pub contributed_metadata : ℕ
  pub target_process_id : ℤ
  pub expected_number_of_contributions : ℤ
  pub expected_number_of_root_contributions : ℤ

abbrev lead : List ℕ → ℕ
lead [] = 0
lead (b ∷ bs) = b

module _ (uint64 : AsBytes ℕ) (uint32 : AsBytes ℕ) (int32 : AsBytes ℤ) (anchor : ℕ) where
  abbrev pub pieces_of : MessageBytes → Pieces
  pieces_of m = record {
    id = get_id uint64 uint32 int32 m;
    data_offset = get_data_offset uint64 uint32 int32 m;
    callback_offset = get_callback_offset uint64 uint32 int32 m;
    combine_function_pointer = get_combine_function_pointer uint64 uint32 int32 anchor m;
    data_size = get_data_size uint64 uint32 int32 m;
    contributed_metadata = m contributed_metadata_jump_in_bytes;
    target_process_id = get_target_process_id uint64 uint32 int32 m;
    expected_number_of_contributions = get_expected_number_of_contributions uint64 uint32 int32 m;
    expected_number_of_root_contributions =
        get_expected_number_of_root_contributions uint64 uint32 int32 m;
  }

  abbrev decode : List (List ℕ) → Pieces
  decode (i ∷ d ∷ c ∷ f ∷ s ∷ b ∷ t ∷ e ∷ r ∷ []) = record {
    id = uint64.of_bytes i;
    data_offset = uint32.of_bytes d;
    callback_offset = uint32.of_bytes c;
    combine_function_pointer = (uint64.of_bytes f + anchor) % 2 ^ 64;
    data_size = uint32.of_bytes s;
    contributed_metadata = lead b;
    target_process_id = int32.of_bytes t;
    expected_number_of_contributions = int32.of_bytes e;
    expected_number_of_root_contributions = int32.of_bytes r;
  }
  decode _ = record {
    id = 0;
    data_offset = 0;
    callback_offset = 0;
    combine_function_pointer = 0;
    data_size = 0;
    contributed_metadata = 0;
    target_process_id = pos 0;
    expected_number_of_contributions = pos 0;
    expected_number_of_root_contributions = pos 0;
  }

  abbrev places : List (ℕ × ℕ)
  places =
      (64, 8) ∷ (72, 4) ∷ (76, 4) ∷ (80, 8) ∷ (88, 4) ∷ (92, 1) ∷ (96, 4) ∷ (100, 4) ∷ (104, 4) ∷ []

  pieces_of-decode : (m : MessageBytes) → pieces_of m ≡ decode (reads m places)
  unfolding get_id get_data_offset get_callback_offset get_combine_function_pointer get_data_size
      get_target_process_id get_expected_number_of_contributions
      get_expected_number_of_root_contributions
  pieces_of-decode m = refl

  stored :
      (m : MessageBytes) (at n : ℕ) (bs : List ℕ) (before after : List (ℕ × ℕ))
      → places ≡ before ++ (at, n) ∷ after
      → length bs ≡ n
      → Apart at n before
      → Apart at n after
      → pieces_of (write m at bs) ≡ decode (reads m before ++ bs ∷ reads m after)
  stored m at n bs before after split size h k =
      pieces_of-decode (write m at bs)
      ∙ ap (λ (ps : List (ℕ × ℕ)). decode (reads (write m at bs) ps)) split
      ∙ ap decode (reads-write m at n bs before after size h k)

  -- Whatever the message: each of the eight functions that store a piece of the metadata changes what
  -- is loaded of that piece to the stored value, and nothing of the other pieces. It holds for
  -- numbers that survive a copy of their bytes, which are eight or four, and for addresses below
  -- 2 ^ 64 of the function and of the anchor.
  pub pieces_of-set :
      {Is64 Is32 : ℕ → Type 0} {IsInt : ℤ → Type 0}
      → IsAsBytes uint64 Is64
      → IsAsBytes uint32 Is32
      → IsAsBytes int32 IsInt
      → uint64.size_of ≡ 8
      → uint32.size_of ≡ 4
      → int32.size_of ≡ 4
      → ((n : ℕ) → n < 2 ^ 64 → Is64 n)
      → anchor < 2 ^ 64
      → (m : MessageBytes) (w n : ℕ) (z : ℤ) → w < 2 ^ 64
      → Is32 n
      → IsInt z
      → (pieces_of (set_id uint64 uint32 int32 w m) ≡ record (pieces_of m) { id = w })
        × (pieces_of (set_data_offset uint64 uint32 int32 n m)
            ≡ record (pieces_of m) { data_offset = n })
        × (pieces_of (set_callback_offset uint64 uint32 int32 n m)
            ≡ record (pieces_of m) { callback_offset = n })
        × (pieces_of (set_combine_function_pointer uint64 uint32 int32 anchor w m)
            ≡ record (pieces_of m) { combine_function_pointer = w })
        × (pieces_of (set_data_size uint64 uint32 int32 n m)
            ≡ record (pieces_of m) { data_size = n })
        × (pieces_of (set_target_process_id uint64 uint32 int32 z m)
            ≡ record (pieces_of m) { target_process_id = z })
        × (pieces_of (set_expected_number_of_contributions uint64 uint32 int32 z m)
            ≡ record (pieces_of m) { expected_number_of_contributions = z })
        × (pieces_of (set_expected_number_of_root_contributions uint64 uint32 int32 z m)
            ≡ record (pieces_of m) { expected_number_of_root_contributions = z })
  unfolding set_id set_data_offset set_callback_offset set_combine_function_pointer set_data_size
      set_target_process_id set_expected_number_of_contributions
      set_expected_number_of_root_contributions get_id get_data_offset get_callback_offset
      get_combine_function_pointer get_data_size get_target_process_id
      get_expected_number_of_contributions get_expected_number_of_root_contributions
  pieces_of-set l64 l32 lint s64 s32 sint all64 near m w n z h k l =
      let distance = (w + 2 ^ 64 - anchor) % 2 ^ 64 in
      let back64 = l64.back w (all64 w h) in
      let back_distance = l64.back distance (all64 distance (omega arith)) in
      let size_w = l64.size w ∙ s64 in
      let size_n = l32.size n ∙ s32 in
      let size_z = lint.size z ∙ sint in
      (
        stored m 64 8 (uint64.to_bytes w) ([])
              ((72, 4) ∷ (76, 4) ∷ (80, 8) ∷ (88, 4) ∷ (92, 1) ∷ (96, 4) ∷ (100, 4) ∷ (104, 4) ∷ [])
              refl size_w (ground arith) (ground arith)
            ∙ ap (λ x. record (pieces_of m) { id = x }) back64,
        stored m 72 4 (uint32.to_bytes n) ((64, 8) ∷ [])
              ((76, 4) ∷ (80, 8) ∷ (88, 4) ∷ (92, 1) ∷ (96, 4) ∷ (100, 4) ∷ (104, 4) ∷ []) refl
              size_n (ground arith) (ground arith)
            ∙ ap (λ x. record (pieces_of m) { data_offset = x }) (l32.back n k),
        stored m 76 4 (uint32.to_bytes n) ((64, 8) ∷ (72, 4) ∷ [])
              ((80, 8) ∷ (88, 4) ∷ (92, 1) ∷ (96, 4) ∷ (100, 4) ∷ (104, 4) ∷ []) refl size_n
              (ground arith) (ground arith)
            ∙ ap (λ x. record (pieces_of m) { callback_offset = x }) (l32.back n k),
        stored m 80 8 (uint64.to_bytes distance) ((64, 8) ∷ (72, 4) ∷ (76, 4) ∷ [])
              ((88, 4) ∷ (92, 1) ∷ (96, 4) ∷ (100, 4) ∷ (104, 4) ∷ []) refl
              (l64.size distance ∙ s64) (ground arith) (ground arith)
            ∙ ap (λ (x : ℕ). record (pieces_of m) { combine_function_pointer = x })
                (ap (λ (x : ℕ). (x + anchor) % 2 ^ 64) back_distance ∙ omega arith),
        stored m 88 4 (uint32.to_bytes n) ((64, 8) ∷ (72, 4) ∷ (76, 4) ∷ (80, 8) ∷ [])
              ((92, 1) ∷ (96, 4) ∷ (100, 4) ∷ (104, 4) ∷ []) refl size_n (ground arith)
              (ground arith)
            ∙ ap (λ x. record (pieces_of m) { data_size = x }) (l32.back n k),
        stored m 96 4 (int32.to_bytes z)
              ((64, 8) ∷ (72, 4) ∷ (76, 4) ∷ (80, 8) ∷ (88, 4) ∷ (92, 1) ∷ [])
              ((100, 4) ∷ (104, 4) ∷ []) refl size_z (ground arith) (ground arith)
            ∙ ap (λ x. record (pieces_of m) { target_process_id = x }) (lint.back z l),
        stored m 100 4 (int32.to_bytes z)
              ((64, 8) ∷ (72, 4) ∷ (76, 4) ∷ (80, 8) ∷ (88, 4) ∷ (92, 1) ∷ (96, 4) ∷ [])
              ((104, 4) ∷ []) refl size_z (ground arith) (ground arith)
            ∙ ap (λ x. record (pieces_of m) { expected_number_of_contributions = x })
                (lint.back z l),
        stored m 104 4 (int32.to_bytes z)
              ((64, 8) ∷ (72, 4) ∷ (76, 4) ∷ (80, 8) ∷ (88, 4) ∷ (92, 1) ∷ (96, 4) ∷ (100, 4) ∷ [])
              ([]) refl size_z (ground arith) (ground arith)
            ∙ ap (λ x. record (pieces_of m) { expected_number_of_root_contributions = x })
                (lint.back z l),
      )
