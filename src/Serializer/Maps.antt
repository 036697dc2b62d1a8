-- ===== src/Serializer/Maps.antt =====
-- The operators for sets and maps.
use findus.Base.{ℕ, List, refl}
use findus.Serializer.State.{Pipe}
use findus.Serializer.Contract.{Refines}
use findus.Serializer.Scalars.{AsBytes}
use findus.Serializer.Copying.{IsAsBytes}
use findus.Serializer.Containers.{Element}
use findus.Serializer.Elements.{IsElement, pipe_each-writes}
use findus.Serializer.Sequences.{IsSize, encode_list, IsSmallList}
use findus.Serializer.Owners.{make_object, make_object-reads}
use findus.Serializer.Compounds.{
  in_turn, both, encode_both, AreSmall, in_turn-writes, in_turn-reads,
}
use findus.Serializer.Associative.{
  Container, read_entry, associative_map_impl, associative_set_impl,
}
use findus.Serializer.Emplacing.{Rebuilds, read_entry-reads, elements-write, elements-read}

-- `std::set` and its relatives: a set that can be made again from its elements comes back, read into an
-- empty one.
pub associative_set_impl-Refines :
    {C T V W : Type 0} (size_t : AsBytes ℕ) (ops : Container C T) (empty : C) (element : Element T)
    (value : T → V) (encode : T → List ℕ) (IsSmall : T → Type 0) (view : C → W)
    → IsAsBytes size_t IsSize
    → IsElement element value encode IsSmall
    → Rebuilds ops empty value view
    → Refines
        (associative_set_impl size_t ops element)
        empty
        view
        (λ c. encode_list size_t encode (ops.elements c))
        (λ c. IsSmallList IsSmall (ops.elements c))
unfolding associative_set_impl
associative_set_impl-Refines size_t ops empty element value encode IsSmall view size_law law
      rebuilds =
    record {
      writes = λ s c h w.
          let (e1, e2, e3) =
            elements-write size_t size_law ops empty value encode IsSmall view rebuilds element.pipe
              (pipe_each-writes element.pipe element.blank value encode IsSmall law.pipes) s c h
              w in
          rw e1 (rw e2 (rw e3 refl));
      reads = λ s c h a held.
          let (c', e3, e2, e1, same) =
            elements-read size_t size_law ops empty value encode IsSmall view rebuilds
              (make_object element) (make_object-reads element value encode IsSmall law) s c h a
              held in
          (c', rw e1 (rw e2 e3), same);
    }

-- The operator for maps keeps the contract `Refines`: a map goes out as its size and its
-- entries, and read into an empty one it has the same value. It holds for keys and values that
-- keep the contract, made by their operator or by their constructor, for sizes below 2 ^ 64, and
-- for a container of which the library makes one of the same value when entries of the same
-- values are emplaced in the order of its iteration.
pub associative_map_impl-Refines :
    {C K V X Y W : Type 0} (size_t : AsBytes ℕ) (ops : Container C (K × V)) (empty : C)
    (key : Element K) (val : Element V) (kv : K → X) (vv : V → Y) (ke : K → List ℕ)
    (ve : V → List ℕ) (KIsSmall : K → Type 0) (VIsSmall : V → Type 0) (view : C → W)
    → IsAsBytes size_t IsSize
    → IsElement key kv ke KIsSmall
    → IsElement val vv ve VIsSmall
    → Rebuilds ops empty (both kv vv ke ve KIsSmall VIsSmall) view
    → Refines
        (associative_map_impl size_t ops key val)
        empty
        view
        (λ c. encode_list size_t (encode_both kv vv ke ve KIsSmall VIsSmall) (ops.elements c))
        (λ c. IsSmallList (AreSmall kv vv ke ve KIsSmall VIsSmall) (ops.elements c))
unfolding associative_map_impl
associative_map_impl-Refines {K} {V} size_t ops empty key val kv vv ke ve KIsSmall VIsSmall view
      size_law klaw vlaw rebuilds =
    let value = both kv vv ke ve KIsSmall VIsSmall in
    let encode = encode_both kv vv ke ve KIsSmall VIsSmall in
    let small = AreSmall kv vv ke ve KIsSmall VIsSmall in
    let entry : Pipe (K × V) = λ z e. in_turn (λ z'. key.pipe z' e.0) (λ z'. val.pipe z' e.1) z in
    let law : Refines entry (key.blank, val.blank) value encode small = record {
      writes =
          in_turn-writes kv vv ke ve KIsSmall VIsSmall key.pipe val.pipe key.blank val.blank
            klaw.pipes vlaw.pipes;
      reads =
          in_turn-reads kv vv ke ve KIsSmall VIsSmall (λ z. key.pipe z key.blank)
            (λ z. val.pipe z val.blank) klaw.pipes.reads vlaw.pipes.reads;
    } in
    record {
      writes = λ s c h w.
          let (e1, e2, e3) =
            elements-write size_t size_law ops empty value encode small view rebuilds entry
              (pipe_each-writes entry (key.blank, val.blank) value encode small law) s c h w in
          rw e1 (rw e2 (rw e3 refl));
      reads = λ s c h a held.
          let (c', e3, e2, e1, same) =
            elements-read size_t size_law ops empty value encode small view rebuilds
              (read_entry key val)
              (read_entry-reads key val kv vv ke ve KIsSmall VIsSmall klaw vlaw) s c h a held in
          (c', rw e1 (rw e2 e3), same);
    }
