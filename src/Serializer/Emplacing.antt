-- ===== src/Serializer/Emplacing.antt =====
-- Maps and sets keep what an operator promises, if the library's containers can be made again from
-- their elements.
use findus.Base.{
  ℕ, true, false, List, [], ◌∷◌, length, map, All, ◌≡◌, inl, inr, refl, sym, ap, ap₂, ◌∙◌,
  Option-cases,
}
use findus.Base.Result.{ok}
use findus.Serializer.State.{Serializer, Pipe, is_unpacking}
use findus.Serializer.Memory.{after, after-append}
use findus.Serializer.Contract.{Holds, Writing, Reading, Holds-append}
use findus.Serializer.Scalars.{AsBytes, call_item}
use findus.Serializer.Copying.{IsAsBytes}
use findus.Serializer.Containers.{Construct, Element, pipe_each}
use findus.Serializer.Elements.{
  Reads, IsElement, encode_all, after-nil, after-Writing, after-Reading, is_unpacking-Writing,
  is_unpacking-Reading,
}
use findus.Serializer.Sequences.{IsSize, encode_list, IsSmallList, write_size, read_size}
use findus.Serializer.Compounds.{both, encode_both, AreSmall, in_turn-reads}
use findus.Serializer.Associative.{Container, emplace_each, read_entry}

abbrev pub emplace_all : {C E : Type 0} → Container C E → C → List E → C
emplace_all ops c [] = c
emplace_all ops c (e ∷ es) = emplace_all ops (ops.emplace c e) es

-- Elements with the values of a container's, emplaced in its order, make a container with its value.
abbrev pub Rebuilds : {C E V W : Type 0} → Container C E → C → (E → V) → (C → W) → Type 0
Rebuilds {C} {E} ops empty value view =
    (c : C) (es : List E)
    → map value es ≡ map value (ops.elements c)
    → view (emplace_all ops empty es) ≡ view c

module _ {C E V : Type 0} (ops : Container C E) (make : Construct E) (value : E → V)
    (encode : E → List ℕ) (IsSmall : E → Type 0) (law : Reads make value encode IsSmall) where
  emplace_each-reads :
      (s : Serializer) (es : List E) (c : C)
      → All IsSmall es
      → Reading s
      → Holds s (encode_all encode es)
      → (es' : List E) × (emplace_each ops make (length es) c s
          ≡ ok (emplace_all ops c es', after s (encode_all encode es)))
        × (map value es' ≡ map value es)
  unfolding emplace_each
  emplace_each-reads s [] c h a held =
      ([], ap (λ (z : Serializer). ok (c, z)) (sym (after-nil s a.1)), refl)
  emplace_each-reads s (e ∷ es) c (h, hs) a held =
      let (here, there) = Holds-append s (encode e) (encode_all encode es) a held in
      let (e', made, same) = law s e h a here in
      let (es', rest, sames) =
        emplace_each-reads (after s (encode e)) es (ops.emplace c e') hs
          (after-Reading s (encode e) a) there in
      (
        e' ∷ es',
        rw made (
            rw rest (
              ap (λ (z : Serializer). ok (emplace_all ops (ops.emplace c e') es', z))
                (sym (after-append s (encode e) (encode_all encode es))))),
        ap₂ ◌∷◌ same sames,
      )

pub read_entry-reads :
    {K V X Y : Type 0} (key : Element K) (val : Element V) (kv : K → X) (vv : V → Y)
    (ke : K → List ℕ) (ve : V → List ℕ) (KIsSmall : K → Type 0) (VIsSmall : V → Type 0)
    → IsElement key kv ke KIsSmall
    → IsElement val vv ve VIsSmall
    → Reads
        (read_entry key val)
        (both kv vv ke ve KIsSmall VIsSmall)
        (encode_both kv vv ke ve KIsSmall VIsSmall)
        (AreSmall kv vv ke ve KIsSmall VIsSmall)
unfolding read_entry
read_entry-reads key val kv vv ke ve KIsSmall VIsSmall klaw vlaw s e h a held =
    let first = λ (z : Serializer). key.pipe z key.blank in
    let second = λ (z : Serializer). val.pipe z val.blank in
    elim (Option-cases val.construct) [
      | inl none_given ↦ rw none_given (
          in_turn-reads kv vv ke ve KIsSmall VIsSmall first second klaw.pipes.reads vlaw.pipes.reads
            s e h a held)
      | inr (make, given) ↦ elim (Option-cases key.construct) [
        | inl no_key ↦ rw given (
            rw no_key (
              in_turn-reads kv vv ke ve KIsSmall VIsSmall first make klaw.pipes.reads
                (vlaw.constructs make given) s e h a held))
        | inr (make_key, key_given) ↦ rw given (
            rw key_given (
              in_turn-reads kv vv ke ve KIsSmall VIsSmall make_key make
                (klaw.constructs make_key key_given) (vlaw.constructs make given) s e h a held))
      ]
    ]

module _ (size_t : AsBytes ℕ) (size_law : IsAsBytes size_t IsSize) {C E X W : Type 0}
    (ops : Container C E) (empty : C) (value : E → X) (encode : E → List ℕ) (IsSmall : E → Type 0)
    (view : C → W) (rebuilds : Rebuilds ops empty value view) where
  abbrev pub encode_elements : C → List ℕ
  encode_elements c = encode_list size_t encode (ops.elements c)

  abbrev pub IsSmallContainer : C → Type 0
  IsSmallContainer c = IsSmallList IsSmall (ops.elements c)

  -- Writing and reading of the number and of the elements, by what is known of one element.
  pub elements-write :
      (write_one : Pipe E)
      → ((s : Serializer) (ts : List E)
          → All IsSmall ts
          → Writing s
          → pipe_each write_one s ts ≡ ok (ts, after s (encode_all encode ts)))
      → (s : Serializer) (c : C) → IsSmallContainer c
      → Writing s
      → (call_item size_t s (length (ops.elements c))
          ≡ ok (length (ops.elements c), after s (size_t.to_bytes (length (ops.elements c)))))
        × (is_unpacking (after s (size_t.to_bytes (length (ops.elements c)))) ≡ false)
        × (pipe_each write_one
              (after s (size_t.to_bytes (length (ops.elements c))))
              (ops.elements c)
            ≡ ok (ops.elements c, after s (encode_elements c)))
  elements-write write_one each s c h w =
      let head = size_t.to_bytes (length (ops.elements c)) in
      let w' = after-Writing s head w in
      (
        write_size size_t size_law s (length (ops.elements c)) h.1 w,
        is_unpacking-Writing (after s head) w',
        each (after s head) (ops.elements c) h.0 w'
            ∙ ap (λ (z : Serializer). ok (ops.elements c, z))
                (sym (after-append s head (encode_all encode (ops.elements c)))),
      )

  pub elements-read :
      (make : Construct E)
      → Reads make value encode IsSmall
      → (s : Serializer) (c : C) → IsSmallContainer c
      → Reading s
      → Holds s (encode_elements c)
      → (c' : C) × (emplace_each ops make
            (length (ops.elements c))
            empty
            (after s (size_t.to_bytes (length (ops.elements c))))
          ≡ ok (c', after s (encode_elements c)))
        × (is_unpacking (after s (size_t.to_bytes (length (ops.elements c)))) ≡ true)
        × (call_item size_t s (length (ops.elements empty))
            ≡ ok (length (ops.elements c), after s (size_t.to_bytes (length (ops.elements c)))))
        × (view c' ≡ view c)
  elements-read make law s c h a held =
      let head = size_t.to_bytes (length (ops.elements c)) in
      let (here, there) = Holds-append s head (encode_all encode (ops.elements c)) a held in
      let a' = after-Reading s head a in
      let (es', made, same) =
        emplace_each-reads ops make value encode IsSmall law (after s head) (ops.elements c) empty
          h.0 a' there in
      let size =
        read_size size_t size_law s (length (ops.elements empty)) (length (ops.elements c)) h.1 a
          here in
      (
        emplace_all ops empty es',
        made
            ∙ ap (λ (z : Serializer). ok (emplace_all ops empty es', z))
                (sym (after-append s head (encode_all encode (ops.elements c)))),
        is_unpacking-Reading (after s head) a',
        size,
        rebuilds c es' same,
      )
