-- ===== src/Serializer/Compounds.antt =====
-- Pairs, tuples, complex numbers, arrays and owning pointers.
use findus.Base.{
  ℕ, List, ◌++◌, length, map, replicate, All, Option, none, some, ◌≡◌, refl, sym, ap, ap₂,
}
use findus.Base.Result.{ok, ◌>>=◌}
use findus.Serializer.State.{Serializer, Pipe}
use findus.Serializer.Memory.{after, after-append}
use findus.Serializer.Contract.{Writing, Refines, Holds-append}
use findus.Serializer.Scalars.{AsBytes, pipe_as_bytes}
use findus.Serializer.Containers.{Construct, Element, pipe_array, pipe_pair, serialize_tuple}
use findus.Serializer.Elements.{
  Reads, IsElement, encode_all, FitsBlock, after-Writing, after-Reading, pipe_elements-writes,
  pipe_elements-reads,
}

-- One object behind the other.
abbrev pub in_turn : {T U : Type 0} → Construct T → Construct U → Construct (T × U)
in_turn {T} {U} first second s = first s >>= λ (r : T × Serializer).
    second r.1 >>= λ (r' : U × Serializer). ok ((r.0, r'.0), r'.1)

module _ {T U V W : Type 0} (value : T → V) (value' : U → W) (encode : T → List ℕ)
    (encode' : U → List ℕ) (IsSmall : T → Type 0) (IsSmall' : U → Type 0) where
  abbrev pub both : T × U → V × W
  both p = (value p.0, value' p.1)

  abbrev pub encode_both : T × U → List ℕ
  encode_both p = encode p.0 ++ encode' p.1

  abbrev pub AreSmall : T × U → Type 0
  AreSmall p = IsSmall p.0 × IsSmall' p.1

  pub in_turn-reads :
      (first : Construct T) (second : Construct U)
      → Reads first value encode IsSmall
      → Reads second value' encode' IsSmall'
      → Reads (in_turn first second) both encode_both AreSmall
  in_turn-reads first second l k s p h a held =
      let (here, there) = Holds-append s (encode p.0) (encode' p.1) a held in
      let (t, e, same) = l s p.0 h.0 a here in
      let (u, e', same') =
        k (after s (encode p.0)) p.1 h.1 (after-Reading s (encode p.0) a) there in
      (
        (t, u),
        rw e (
            rw e' (
              ap (λ (z : Serializer). ok ((t, u), z))
                (sym (after-append s (encode p.0) (encode' p.1))))),
        ap₂ (λ (v : V) (w : W). (v, w)) same same',
      )

  module _ (first : Pipe T) (second : Pipe U) (blank : T) (blank' : U)
      (law : Refines first blank value encode IsSmall)
      (law' : Refines second blank' value' encode' IsSmall') where
    pub in_turn-writes :
        (s : Serializer) (p : T × U)
        → AreSmall p
        → Writing s
        → in_turn (λ (z : Serializer). first z p.0) (λ (z : Serializer). second z p.1) s
          ≡ ok (p, after s (encode_both p))
    in_turn-writes s p h w = rw (law.writes s p.0 h.0 w) (
        rw (law'.writes (after s (encode p.0)) p.1 h.1 (after-Writing s (encode p.0) w))
          (ap (λ (z : Serializer). ok (p, z)) (sym (after-append s (encode p.0) (encode' p.1)))))

    -- `detail::serialize_tuple`, if the tuple of the other elements goes through.
    pub serialize_tuple-Refines :
        Refines (serialize_tuple first second) (blank, blank') both encode_both AreSmall
    unfolding serialize_tuple
    serialize_tuple-Refines = record {
      writes = λ s p h w. in_turn-writes s p h w;
      reads =
          in_turn-reads (λ (z : Serializer). first z blank) (λ (z : Serializer). second z blank')
            law.reads law'.reads;
    }

    -- `std::pair`, as bytes if both types are copied as bytes and the pair can be, or one by one.
    pub pipe_pair-Refines :
        (as_bytes : Option (AsBytes (T × U)))
        → ((b : AsBytes (T × U))
            → as_bytes ≡ some b
            → Refines (pipe_as_bytes b) (blank, blank') both encode_both AreSmall)
        → Refines (pipe_pair as_bytes first second) (blank, blank') both encode_both AreSmall
    unfolding pipe_pair
    pipe_pair-Refines none block = record {
      writes = λ s p h w. in_turn-writes s p h w;
      reads =
          in_turn-reads (λ (z : Serializer). first z blank) (λ (z : Serializer). second z blank')
            law.reads law'.reads;
    }
    pipe_pair-Refines (some b) block = record {
      writes = (block b refl).writes;
      reads = (block b refl).reads;
    }

-- `std::array`, with as many elements as its type says.
pub pipe_array-Refines :
    {T V : Type 0} (element : Element T) (value : T → V) (encode : T → List ℕ)
    (IsSmall : T → Type 0)
    → IsElement element value encode IsSmall
    → (n : ℕ)
    → Refines
        (pipe_array element)
        (replicate n element.blank)
        (map value)
        (encode_all encode)
        (λ ts. All IsSmall ts × FitsBlock element.as_bytes ts × (length ts ≡ n))
unfolding pipe_array
pipe_array-Refines element value encode IsSmall law n = record {
  writes = λ s ts h w. pipe_elements-writes element value encode IsSmall law s ts h.0 h.1 w;
  reads = λ s ts h a held.
      rw (sym h.2) (pipe_elements-reads element value encode IsSmall law s ts h.0 h.1 a held);
}
