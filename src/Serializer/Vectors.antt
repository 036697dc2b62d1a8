-- ===== src/Serializer/Vectors.antt =====
-- `std::vector` and `std::basic_string`, whatever the library's choice of capacities.
use findus.Base.{
  ℕ, List, [], ◌++◌, length, map, replicate, All, Option, some, ◌≡◌, inl, inr, refl, sym, ap, ◌∙◌,
  Option-cases, length-replicate,
}
use findus.Base.Result.{ok}
use findus.Serializer.State.{Serializer}
use findus.Serializer.Memory.{after, after-append}
use findus.Serializer.Contract.{Holds, Writing, Reading, Refines, Holds-append}
use findus.Serializer.Scalars.{AsBytes, view_bytes, call_item}
use findus.Serializer.Copying.{IsAsBytes, call_view-writes, call_view-reads}
use findus.Serializer.Containers.{Element, Vector, pipe_vector, pipe_string}
use findus.Serializer.Sequences.{IsSize, resize-nil, write_size, read_size}
use findus.Serializer.Elements.{
  IsElement, encode_all, FitsBlock, after-Writing, after-Reading, is_unpacking-Writing,
  is_unpacking-Reading, construct_each-reads, pipe_elements-writes, pipe_elements-reads,
}

-- Two numbers, then the elements.
abbrev pub encode_vector : {T : Type 0} → AsBytes ℕ → (T → List ℕ) → Vector T → List ℕ
encode_vector size_t encode v =
    size_t.to_bytes v.capacity ++ (size_t.to_bytes (length v.items) ++ encode_all encode v.items)

abbrev pub encode_string : {T : Type 0} → AsBytes ℕ → AsBytes T → Vector T → List ℕ
encode_string size_t char_t v =
    size_t.to_bytes (length v.items) ++ (size_t.to_bytes v.capacity ++ view_bytes char_t v.items)

abbrev pub IsSmallVector : {T : Type 0} → Option (AsBytes T) → (T → Type 0) → Vector T → Type 0
IsSmallVector as_bytes IsSmall v =
    All IsSmall v.items × FitsBlock as_bytes v.items × IsSize (length v.items) × IsSize v.capacity

abbrev pub no_items : {T : Type 0} → Vector T
no_items = record { items = []; capacity = 0 }

module _ (size_t : AsBytes ℕ) (size_law : IsAsBytes size_t IsSize) where
  -- Two numbers before the elements.
  write_sizes :
      (s : Serializer) (m n : ℕ)
      → IsSize m
      → IsSize n
      → Writing s
      → (call_item size_t s m ≡ ok (m, after s (size_t.to_bytes m)))
        × (call_item size_t (after s (size_t.to_bytes m)) n
            ≡ ok (n, after (after s (size_t.to_bytes m)) (size_t.to_bytes n)))
  write_sizes s m n h k w = (
    write_size size_t size_law s m h w,
    write_size size_t size_law (after s (size_t.to_bytes m)) n k
        (after-Writing s (size_t.to_bytes m) w),
  )

  -- What is read behind two numbers.
  read_sizes :
      (s : Serializer) (old_m old_n m n : ℕ) (bs : List ℕ)
      → IsSize m
      → IsSize n
      → Reading s
      → Holds s (size_t.to_bytes m ++ (size_t.to_bytes n ++ bs))
      → (call_item size_t s old_m ≡ ok (m, after s (size_t.to_bytes m)))
        × (call_item size_t (after s (size_t.to_bytes m)) old_n
            ≡ ok (n, after (after s (size_t.to_bytes m)) (size_t.to_bytes n)))
        × Holds (after (after s (size_t.to_bytes m)) (size_t.to_bytes n)) bs
  read_sizes s old_m old_n m n bs h k a held =
      let head = size_t.to_bytes m in
      let (first, rest) = Holds-append s head (size_t.to_bytes n ++ bs) a held in
      let a' = after-Reading s head a in
      let (second, last) = Holds-append (after s head) (size_t.to_bytes n) bs a' rest in
      (
        read_size size_t size_law s old_m m h a first,
        read_size size_t size_law (after s head) old_n n k a' second,
        last,
      )

  after_three :
      (s : Serializer) (xs ys zs : List ℕ)
      → after (after (after s xs) ys) zs ≡ after s (xs ++ (ys ++ zs))
  after_three s xs ys zs = sym (after-append s xs (ys ++ zs) ∙ after-append (after s xs) ys zs)

  -- The operator for `std::vector` keeps the contract `Refines`: a vector goes out as its
  -- capacity, its size and its elements, and read into an empty one it has elements of the same
  -- values, made by their operator, as one block of bytes, or by their constructor. It holds for
  -- elements that keep the contract, numbers below 2 ^ 64 and blocks below 2 ^ 31 bytes,
  -- whatever capacity the library makes of the one that is asked for.
  pub pipe_vector-Refines :
      {T V : Type 0} (reserve : ℕ → ℕ → ℕ) (element : Element T) (value : T → V)
      (encode : T → List ℕ) (IsSmall : T → Type 0)
      → IsElement element value encode IsSmall
      → Refines
          (pipe_vector size_t reserve element)
          no_items
          (λ v. map value v.items)
          (encode_vector size_t encode)
          (IsSmallVector element.as_bytes IsSmall)
  unfolding pipe_vector
  pipe_vector-Refines reserve element value encode IsSmall law = record {
    writes = λ s v h w.
        let c = size_t.to_bytes v.capacity in
        let n = size_t.to_bytes (length v.items) in
        let (e1, e2) = write_sizes s v.capacity (length v.items) h.3 h.2 w in
        let w' = after-Writing (after s c) n (after-Writing s c w) in
        let e3 =
          pipe_elements-writes element value encode IsSmall law (after (after s c) n) v.items h.0
            h.1 w' in
        rw e1 (
          rw e2 (
            rw (is_unpacking-Writing (after (after s c) n) w') (
              rw e3 (
                ap (λ (z : Serializer). ok (v, z))
                  (after_three s c n (encode_all encode v.items))))));
    reads = λ s v h a held.
        let c = size_t.to_bytes v.capacity in
        let n = size_t.to_bytes (length v.items) in
        let (e1, e2, rest) =
          read_sizes s 0 0 v.capacity (length v.items) (encode_all encode v.items) h.3 h.2 a held in
        let a' = after-Reading (after s c) n (after-Reading s c a) in
        let unpacks = is_unpacking-Reading (after (after s c) n) a' in
        let end = after_three s c n (encode_all encode v.items) in
        elim (Option-cases element.construct) [
          | inl none_given ↦
              let (ts', e3, same) =
                pipe_elements-reads element value encode IsSmall law (after (after s c) n) v.items
                  h.0 h.1 a' rest in
              (
                record { items = ts'; capacity = reserve (reserve 0 v.capacity) (length v.items) },
                rw e1 (
                    rw e2 (
                      rw unpacks (
                        rw none_given (
                          rw (resize-nil element.blank (length v.items)) (
                            rw e3 (
                              ap
                                (λ (z : Serializer). ok (
                                  record {
                                    items = ts';
                                    capacity = reserve (reserve 0 v.capacity) (length v.items);
                                  },
                                  z,
                                ))
                                end)))))),
                same,
              )
          | inr (make, given) ↦
              let (ts', e3, same) =
                construct_each-reads make value encode IsSmall (law.constructs make given)
                  (after (after s c) n) v.items h.0 a' rest in
              (
                record { items = ts'; capacity = reserve (reserve 0 v.capacity) (length ts') },
                rw e1 (
                    rw e2 (
                      rw unpacks (
                        rw given (
                          rw e3 (
                            ap
                              (λ (z : Serializer). ok (
                                record {
                                  items = ts';
                                  capacity = reserve (reserve 0 v.capacity) (length ts');
                                },
                                z,
                              ))
                              end))))),
                same,
              )
        ];
  }

  -- The operator for `std::basic_string` keeps the contract `Refines`: a string goes out as its
  -- size, its capacity and its characters, and read into an empty one it has the same
  -- characters. It holds for characters that survive a copy of their bytes, numbers below 2 ^ 64
  -- and less than 2 ^ 31 bytes of characters, whatever capacity the library makes of the one
  -- that is asked for.
  pub pipe_string-Refines :
      {T : Type 0} (reserve : ℕ → ℕ → ℕ) (char_t : AsBytes T) (null_char : T) (IsChar : T → Type 0)
      → IsAsBytes char_t IsChar
      → Refines
          (pipe_string size_t reserve char_t null_char)
          no_items
          (λ v. v.items)
          (encode_string size_t char_t)
          (IsSmallVector (some char_t) IsChar)
  unfolding pipe_string
  pipe_string-Refines reserve char_t null_char IsChar law = record {
    writes = λ s v h w.
        let n = size_t.to_bytes (length v.items) in
        let c = size_t.to_bytes v.capacity in
        let (e1, e2) = write_sizes s (length v.items) v.capacity h.2 h.3 w in
        let w' = after-Writing (after s n) c (after-Writing s n w) in
        let e3 = call_view-writes char_t IsChar law (after (after s n) c) v.items h.0 h.1 w' in
        rw e1 (
          rw e2 (
            rw (is_unpacking-Writing (after (after s n) c) w') (
              rw e3 (
                ap (λ (z : Serializer). ok (v, z))
                  (after_three s n c (view_bytes char_t v.items))))));
    reads = λ s v h a held.
        let n = size_t.to_bytes (length v.items) in
        let c = size_t.to_bytes v.capacity in
        let (e1, e2, rest) =
          read_sizes s 0 0 (length v.items) v.capacity (view_bytes char_t v.items) h.2 h.3 a held in
        let a' = after-Reading (after s n) c (after-Reading s n a) in
        let e3 =
          call_view-reads char_t IsChar law (after (after s n) c)
            (replicate (length v.items) null_char) v.items h.0 h.1
            (length-replicate (length v.items) null_char) a' rest in
        let made = λ (z : Serializer). ok (
          record { items = v.items; capacity = reserve (reserve 0 v.capacity) (length v.items) },
          z,
        ) in
        (
          record { items = v.items; capacity = reserve (reserve 0 v.capacity) (length v.items) },
          rw e1 (
              rw e2 (
                rw (is_unpacking-Reading (after (after s n) c) a') (
                  rw (resize-nil null_char (length v.items))
                    (rw e3 (ap made (after_three s n c (view_bytes char_t v.items))))))),
          refl,
        );
  }
