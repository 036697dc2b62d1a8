-- ===== src/Serializer/Sequences.antt =====
-- The containers that write the number of their elements first.
use findus.Base.{
  ℕ, zero, suc, ◌^◌, ◌<◌, List, [], ◌∷◌, ◌++◌, length, map, replicate, All, some, ◌≡◌, inl, inr,
  refl, sym, ap, ◌∙◌, Option-cases,
}
use mathlib.Core.List.{append-nil}
use findus.Base.Result.{ok}
use findus.Serializer.State.{Serializer}
use findus.Serializer.Memory.{after, after-append}
use findus.Serializer.Contract.{Holds, Writing, Reading, Refines, Holds-append}
use findus.Serializer.Scalars.{AsBytes, call_item}
use findus.Serializer.Copying.{IsAsBytes, call_item-Refines}
use findus.Serializer.Containers.{
  Construct, Element, resize, pipe_each, construct_each, pipe_deque, pipe_list, pipe_forward_list,
}
use findus.Serializer.Elements.{
  IsElement, encode_all, after-Writing, after-Reading, is_unpacking-Writing, is_unpacking-Reading,
  pipe_each-writes, pipe_each-reads, construct_each-reads,
}

pub resize-nil : {T : Type 0} (blank : T) (n : ℕ) → resize blank n [] ≡ replicate n blank
resize-nil blank zero = refl
resize-nil blank (suc n) = ap (◌∷◌ blank) (resize-nil blank n)

-- A `size_t` fits 64 bits.
abbrev pub IsSize : ℕ → Type 0
IsSize n = n < 2 ^ 64

abbrev pub encode_list : {T : Type 0} → AsBytes ℕ → (T → List ℕ) → List T → List ℕ
encode_list size_t encode ts = size_t.to_bytes (length ts) ++ encode_all encode ts

abbrev pub IsSmallList : {T : Type 0} → (T → Type 0) → List T → Type 0
IsSmallList IsSmall ts = All IsSmall ts × IsSize (length ts)

module _ (size_t : AsBytes ℕ) (size_law : IsAsBytes size_t IsSize) where
  pub write_size :
      (s : Serializer) (n : ℕ)
      → IsSize n
      → Writing s
      → call_item size_t s n ≡ ok (n, after s (size_t.to_bytes n))
  write_size s n h w = (call_item-Refines size_t IsSize size_law 0).writes s n h w

  pub read_size :
      (s : Serializer) (old n : ℕ)
      → IsSize n
      → Reading s
      → Holds s (size_t.to_bytes n)
      → call_item size_t s old ≡ ok (n, after s (size_t.to_bytes n))
  read_size s old n h a held =
      let (n', e, same) = (call_item-Refines size_t IsSize size_law old).reads s n h a held in
      e ∙ ap (λ (m : ℕ). ok (m, after s (size_t.to_bytes n))) same

  module _ {T V : Type 0} (element : Element T) (value : T → V) (encode : T → List ℕ)
      (IsSmall : T → Type 0) (law : IsElement element value encode IsSmall) where
    -- The elements behind a number that went through already.
    each-writes :
        (s : Serializer) (head : List ℕ) (ts : List T)
        → All IsSmall ts
        → Writing s
        → pipe_each element.pipe (after s head) ts ≡ ok (ts, after s (head ++ encode_all encode ts))
    each-writes s head ts h w =
        pipe_each-writes element.pipe element.blank value encode IsSmall law.pipes (after s head) ts
          h (after-Writing s head w)
        ∙ ap (λ (z : Serializer). ok (ts, z)) (sym (after-append s head (encode_all encode ts)))

    each-reads :
        (s : Serializer) (head : List ℕ) (ts : List T)
        → All IsSmall ts
        → Reading s
        → Holds s (head ++ encode_all encode ts)
        → (ts' : List T) × (pipe_each element.pipe
              (after s head)
              (replicate (length ts) element.blank)
            ≡ ok (ts', after s (head ++ encode_all encode ts)))
          × (map value ts' ≡ map value ts)
    each-reads s head ts h a held =
        let (_, there) = Holds-append s head (encode_all encode ts) a held in
        let (ts', e, same) =
          pipe_each-reads element.pipe element.blank value encode IsSmall law.pipes (after s head)
            ts h (after-Reading s head a) there in
        (
          ts',
          e
              ∙ ap (λ (z : Serializer). ok (ts', z))
                  (sym (after-append s head (encode_all encode ts))),
          same,
        )

    pub constructed-reads :
        (make : Construct T)
        → element.construct ≡ some make
        → (s : Serializer) (head : List ℕ) (ts : List T) → All IsSmall ts
        → Reading s
        → Holds s (head ++ encode_all encode ts)
        → (ts' : List T) × (construct_each make (length ts) (after s head)
            ≡ ok (ts', after s (head ++ encode_all encode ts)))
          × (map value ts' ≡ map value ts)
    constructed-reads make given s head ts h a held =
        let (_, there) = Holds-append s head (encode_all encode ts) a held in
        let (ts', e, same) =
          construct_each-reads make value encode IsSmall (law.constructs make given) (after s head)
            ts h (after-Reading s head a) there in
        (
          ts',
          e
              ∙ ap (λ (z : Serializer). ok (ts', z))
                  (sym (after-append s head (encode_all encode ts))),
          same,
        )

    -- `std::deque`: every object whose number of elements fits a `size_t`.
    pub pipe_deque-Refines :
        Refines
          (pipe_deque size_t element)
          []
          (map value)
          (encode_list size_t encode)
          (IsSmallList IsSmall)
    unfolding pipe_deque
    pipe_deque-Refines = record {
      writes = λ s ts h w.
          let head = size_t.to_bytes (length ts) in
          rw (write_size s (length ts) h.1 w) (
            rw (is_unpacking-Writing (after s head) (after-Writing s head w))
              (each-writes s head ts h.0 w));
      reads = λ s ts h a held.
          let head = size_t.to_bytes (length ts) in
          let (here, _) = Holds-append s head (encode_all encode ts) a held in
          let (ts', e, same) = each-reads s head ts h.0 a held in
          (
            ts',
            rw (read_size s 0 (length ts) h.1 a here) (
                rw (is_unpacking-Reading (after s head) (after-Reading s head a))
                  (rw (resize-nil element.blank (length ts)) e)),
            same,
          );
    }

    -- The operator for `std::list` keeps the contract `Refines`: a list goes out as its size and
    -- its elements, and read into an empty one it has elements of the same values in the same
    -- order, made by their operator or by their constructor. It holds for elements that keep the
    -- contract and sizes below 2 ^ 64.
    pub pipe_list-Refines :
        Refines
          (pipe_list size_t element)
          []
          (map value)
          (encode_list size_t encode)
          (IsSmallList IsSmall)
    unfolding pipe_list
    pipe_list-Refines = record {
      writes = λ s ts h w.
          let head = size_t.to_bytes (length ts) in
          rw (write_size s (length ts) h.1 w) (
            rw (is_unpacking-Writing (after s head) (after-Writing s head w))
              (each-writes s head ts h.0 w));
      reads = λ s ts h a held.
          let head = size_t.to_bytes (length ts) in
          let (here, _) = Holds-append s head (encode_all encode ts) a held in
          let start = read_size s 0 (length ts) h.1 a here in
          let unpacks = is_unpacking-Reading (after s head) (after-Reading s head a) in
          elim (Option-cases element.construct) [
            | inl none_given ↦
                let (ts', e, same) = each-reads s head ts h.0 a held in
                (
                  ts',
                  rw start
                      (rw unpacks (rw none_given (rw (resize-nil element.blank (length ts)) e))),
                  same,
                )
            | inr (make, given) ↦
                let (ts', e, same) = constructed-reads make given s head ts h.0 a held in
                (ts', rw start (rw unpacks (rw given (rw e refl))), same)
          ];
    }

    -- `std::forward_list`: the elements come back in their order.
    pub pipe_forward_list-Refines :
        Refines
          (pipe_forward_list size_t element)
          []
          (map value)
          (encode_list size_t encode)
          (IsSmallList IsSmall)
    unfolding pipe_forward_list
    pipe_forward_list-Refines = record {
      writes = λ s ts h w.
          let head = size_t.to_bytes (length ts) in
          rw (is_unpacking-Writing s w)
            (rw (write_size s (length ts) h.1 w) (each-writes s head ts h.0 w));
      reads = λ s ts h a held.
          let head = size_t.to_bytes (length ts) in
          let (here, _) = Holds-append s head (encode_all encode ts) a held in
          let (ts', e, same) = each-reads s head ts h.0 a held in
          (
            ts' ++ [],
            rw (is_unpacking-Reading s a) (rw (read_size s 0 (length ts) h.1 a here) (rw e refl)),
            ap (map value) (append-nil ts') ∙ same,
          );
    }
