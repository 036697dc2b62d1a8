-- ===== src/Serializer/Elements.antt =====
-- The elements of a container, one by one, as a block, or constructed.
use findus.Base.{
  ℕ, ◌*◌, ◌^◌, ◌<◌, true, false, List, [], ◌∷◌, ◌++◌, length, map, replicate, All, Option, none,
  some, ◌≡◌, inl, inr, refl, sym, ap, ap₂, ◌∙◌, arith, Option-cases, length-replicate,
}
use mathlib.Core.Path.{subst}
use findus.Base.Result.{ok}
use findus.Serializer.State.{
  Action, packing, unpacking, memory_footprinting, Serializer, Pipe, is_unpacking,
}
use findus.Serializer.Memory.{after, after_by, is_writing, action-after, after-append}
use findus.Serializer.Contract.{Holds, Writing, Reading, Refines, Holds-append}
use findus.Serializer.Scalars.{AsBytes, view_bytes}
use findus.Serializer.Copying.{IsAsBytes, call_view-writes, call_view-reads}
use findus.Serializer.Containers.{Construct, Element, pipe_each, construct_each, pipe_elements}

-- Reading makes a new object with the value.
abbrev pub Reads : {T V : Type 0} → Construct T → (T → V) → (T → List ℕ) → (T → Type 0) → Type 0
Reads {T} make value encode IsSmall =
    (s : Serializer) (t : T)
    → IsSmall t
    → Reading s
    → Holds s (encode t)
    → (t' : T) × (make s ≡ ok (t', after s (encode t))) × (value t' ≡ value t)

-- The ways in which a type goes through the serializer agree on its bytes.
pub record IsElement {T V : Type 0} (element : Element T) (value : T → V) (encode : T → List ℕ)
    (IsSmall : T → Type 0) : Type 0 where
  pub pipes : Refines element.pipe element.blank value encode IsSmall
  pub copies : (b : AsBytes T) → element.as_bytes ≡ some b → IsAsBytes b IsSmall
  pub copied : (b : AsBytes T) → element.as_bytes ≡ some b → (t : T) → encode t ≡ b.to_bytes t
  pub constructs :
      (make : Construct T) → element.construct ≡ some make → Reads make value encode IsSmall

abbrev pub encode_all : {T : Type 0} → (T → List ℕ) → List T → List ℕ
encode_all encode [] = []
encode_all encode (t ∷ ts) = encode t ++ encode_all encode ts

-- The bytes of a block are counted by an `int`.
abbrev pub FitsBlock : {T : Type 0} → Option (AsBytes T) → List T → Type 0
FitsBlock none ts = Unit {0}
FitsBlock (some b) ts = b.size_of * length ts < 2 ^ 31

number-after :
    (a : Action) (s : Serializer) (bs : List ℕ) → (after_by a s bs).number_of_bytes < 2 ^ 64
number-after packing s bs = omega arith
number-after unpacking s bs = omega arith
number-after memory_footprinting s bs = omega arith
number-after other s bs = omega arith

after_by-nil : (a : Action) (s : Serializer) → s.number_of_bytes < 2 ^ 64 → after_by a s [] ≡ s
after_by-nil packing s h = ground arith
after_by-nil unpacking s h = ground arith
after_by-nil memory_footprinting s h = ground arith
after_by-nil other s h = ground arith

pub after-nil : (s : Serializer) → s.number_of_bytes < 2 ^ 64 → after s [] ≡ s
after-nil s h = after_by-nil s.action s h

pub after-Writing : (s : Serializer) (bs : List ℕ) → Writing s → Writing (after s bs)
after-Writing s bs (w, n) = (ap is_writing (action-after s bs) ∙ w, number-after s.action s bs)

pub after-Reading : (s : Serializer) (bs : List ℕ) → Reading s → Reading (after s bs)
after-Reading s bs (a, n) = (action-after s bs ∙ a, number-after s.action s bs)

pub is_unpacking-Writing : (s : Serializer) → Writing s → is_unpacking s ≡ false
is_unpacking-Writing s (w, _) = ground (arith, w)

pub is_unpacking-Reading : (s : Serializer) → Reading s → is_unpacking s ≡ true
is_unpacking-Reading s (a, _) = ground (arith, a)

module _ {T V : Type 0} (pipe : Pipe T) (blank : T) (value : T → V) (encode : T → List ℕ)
    (IsSmall : T → Type 0) (law : Refines pipe blank value encode IsSmall) where
  pub pipe_each-writes :
      (s : Serializer) (ts : List T)
      → All IsSmall ts
      → Writing s
      → pipe_each pipe s ts ≡ ok (ts, after s (encode_all encode ts))
  unfolding pipe_each
  pipe_each-writes s [] h w =
      ap (λ (z : Serializer). ok ([], z)) (sym (after_by-nil s.action s w.1))
  pipe_each-writes s (t ∷ ts) (h, hs) w = rw (law.writes s t h w) (
      rw (pipe_each-writes (after s (encode t)) ts hs (after-Writing s (encode t) w)) (
        ap (λ (z : Serializer). ok (t ∷ ts, z))
          (sym (after-append s (encode t) (encode_all encode ts)))))

  pub pipe_each-reads :
      (s : Serializer) (ts : List T)
      → All IsSmall ts
      → Reading s
      → Holds s (encode_all encode ts)
      → (ts' : List T) × (pipe_each pipe s (replicate (length ts) blank)
          ≡ ok (ts', after s (encode_all encode ts)))
        × (map value ts' ≡ map value ts)
  unfolding pipe_each
  pipe_each-reads s [] h a held =
      ([], ap (λ (z : Serializer). ok ([], z)) (sym (after_by-nil s.action s a.1)), refl)
  pipe_each-reads s (t ∷ ts) (h, hs) a held =
      let (here, there) = Holds-append s (encode t) (encode_all encode ts) a held in
      let (t', e, same) = law.reads s t h a here in
      let (ts', es, sames) =
        pipe_each-reads (after s (encode t)) ts hs (after-Reading s (encode t) a) there in
      (
        t' ∷ ts',
        rw e (
            rw es (
              ap (λ (z : Serializer). ok (t' ∷ ts', z))
                (sym (after-append s (encode t) (encode_all encode ts))))),
        ap₂ ◌∷◌ same sames,
      )

module _ {T V : Type 0} (make : Construct T) (value : T → V) (encode : T → List ℕ)
    (IsSmall : T → Type 0) (law : Reads make value encode IsSmall) where
  pub construct_each-reads :
      (s : Serializer) (ts : List T)
      → All IsSmall ts
      → Reading s
      → Holds s (encode_all encode ts)
      → (ts' : List T) × (construct_each make (length ts) s
          ≡ ok (ts', after s (encode_all encode ts)))
        × (map value ts' ≡ map value ts)
  unfolding construct_each
  construct_each-reads s [] h a held =
      ([], ap (λ (z : Serializer). ok ([], z)) (sym (after_by-nil s.action s a.1)), refl)
  construct_each-reads s (t ∷ ts) (h, hs) a held =
      let (here, there) = Holds-append s (encode t) (encode_all encode ts) a held in
      let (t', e, same) = law s t h a here in
      let (ts', es, sames) =
        construct_each-reads (after s (encode t)) ts hs (after-Reading s (encode t) a) there in
      (
        t' ∷ ts',
        rw e (
            rw es (
              ap (λ (z : Serializer). ok (t' ∷ ts', z))
                (sym (after-append s (encode t) (encode_all encode ts))))),
        ap₂ ◌∷◌ same sames,
      )

module _ {T V : Type 0} (element : Element T) (value : T → V) (encode : T → List ℕ)
    (IsSmall : T → Type 0) (law : IsElement element value encode IsSmall) where
  block-encode_all :
      (b : AsBytes T)
      → element.as_bytes ≡ some b
      → (ts : List T) → encode_all encode ts ≡ view_bytes b ts
  block-encode_all b e [] = refl
  block-encode_all b e (t ∷ ts) = ap₂ ◌++◌ (law.copied b e t) (block-encode_all b e ts)

  pub pipe_elements-writes :
      (s : Serializer) (ts : List T)
      → All IsSmall ts
      → FitsBlock element.as_bytes ts
      → Writing s
      → pipe_elements element s ts ≡ ok (ts, after s (encode_all encode ts))
  unfolding pipe_elements
  pipe_elements-writes s ts h fits w = elim (Option-cases element.as_bytes) [
    | inl e ↦
        rw e (pipe_each-writes element.pipe element.blank value encode IsSmall law.pipes s ts h w)
    | inr (b, e) ↦ rw e (
        call_view-writes b IsSmall (law.copies b e) s ts h
          (subst (λ (o : Option (AsBytes T)). FitsBlock o ts) e fits) w
        ∙ ap (λ (bs : List ℕ). ok (ts, after s bs)) (sym (block-encode_all b e ts)))
  ]

  pub pipe_elements-reads :
      (s : Serializer) (ts : List T)
      → All IsSmall ts
      → FitsBlock element.as_bytes ts
      → Reading s
      → Holds s (encode_all encode ts)
      → (ts' : List T) × (pipe_elements element s (replicate (length ts) element.blank)
          ≡ ok (ts', after s (encode_all encode ts)))
        × (map value ts' ≡ map value ts)
  unfolding pipe_elements
  pipe_elements-reads s ts h fits a held = elim (Option-cases element.as_bytes) [
    | inl e ↦
        let (ts', es, same) =
          pipe_each-reads element.pipe element.blank value encode IsSmall law.pipes s ts h a held in
        (ts', rw e es, same)
    | inr (b, e) ↦ (
      ts,
      rw e (
          call_view-reads b IsSmall (law.copies b e) s (replicate (length ts) element.blank) ts h
            (subst (λ (o : Option (AsBytes T)). FitsBlock o ts) e fits)
            (length-replicate (length ts) element.blank) a
            (subst (Holds s) (block-encode_all b e ts) held)
          ∙ ap (λ (bs : List ℕ). ok (ts, after s bs)) (sym (block-encode_all b e ts))),
      refl,
    )
  ]
