-- ===== src/Serializer/Copying.antt =====
-- The operators that copy bytes keep what an operator promises.
use findus.Base.{
  ℕ, zero, suc, ◌*◌, ◌^◌, ◌<◌, true, List, [], ◌∷◌, ◌++◌, length, All, ◌≡◌, refl, sym, ap, ap₂, ◌∙◌,
  arith, length-append,
}
use mathlib.Core.Path.{subst}
use findus.Base.Int.{pos}
use findus.Base.Result.{ok}
use findus.Serializer.State.{
  Action, uninitialized, sizing, packing, unpacking, memory_footprinting, mask, Serializer, read,
  int_of_size, bytes,
}
use findus.Serializer.Memory.{after, HoldsAt-read, is_writing}
use findus.Serializer.Contract.{Holds, Writing, Reading, Refines}
use findus.Serializer.Scalars.{
  AsBytes, take, drop, view_bytes, view_items, call_view, call_item, pipe_as_bytes, pipe_enum,
  as_byte,
}

-- What the language says of the object representation: its length, and that an object copied as
-- bytes has its value again.
pub record IsAsBytes {T : Type 0} (as_bytes : AsBytes T) (IsValue : T → Type 0) : Type 0 where
  pub some_size : 0 < as_bytes.size_of
  pub small : as_bytes.size_of < 2 ^ 31
  pub size : (t : T) → length (as_bytes.to_bytes t) ≡ as_bytes.size_of
  pub back : (t : T) → IsValue t → as_bytes.of_bytes (as_bytes.to_bytes t) ≡ t

bytes_by-after :
    (a : Action) (s : Serializer) (item : List ℕ) (size n : ℕ)
    → a ≡ s.action
    → length item ≡ size * n
    → size * n < 2 ^ 31
    → is_writing a ≡ true
    → bytes s item size (pos n) ≡ ok (item, after s item)
unfolding bytes
bytes_by-after sizing s item size n own e short w = ground (arith, own, e)
bytes_by-after packing s item size n own e short w = ground (arith, own, e)
bytes_by-after memory_footprinting s item size n own e short w = ground (arith, own, e)
bytes_by-after uninitialized s item size n own e short w = ground (arith, w)
bytes_by-after unpacking s item size n own e short w = ground (arith, w)
bytes_by-after mask s item size n own e short w = ground (arith, w)

bytes-reads :
    (s : Serializer) (old item : List ℕ) (size n : ℕ)
    → s.action ≡ unpacking
    → length old ≡ size * n
    → length item ≡ size * n
    → size * n < 2 ^ 31
    → Holds s item
    → bytes s old size (pos n) ≡ ok (item, after s item)
unfolding bytes
bytes-reads s old item size n own e e' short h = ground (
  arith,
  own,
  e,
  e',
  HoldsAt-read s.memory s.current_pointer item h,
  ap (read s.memory s.current_pointer) e',
)

int_of_size-small : (n : ℕ) → n < 2 ^ 31 → int_of_size n ≡ pos n
unfolding int_of_size
int_of_size-small n h = ground arith

pub take-append : {A : Type 0} (n : ℕ) (xs ys : List A) → length xs ≡ n → take n (xs ++ ys) ≡ xs
take-append zero [] ys h = refl
take-append zero (x ∷ xs) ys h = absurd (omega (arith, h))
take-append (suc n) [] ys h = absurd (omega (arith, h))
take-append (suc n) (x ∷ xs) ys h = ap (◌∷◌ x) (take-append n xs ys (omega arith))

pub drop-append : {A : Type 0} (n : ℕ) (xs ys : List A) → length xs ≡ n → drop n (xs ++ ys) ≡ ys
drop-append zero [] ys h = refl
drop-append zero (x ∷ xs) ys h = absurd (omega (arith, h))
drop-append (suc n) [] ys h = absurd (omega (arith, h))
drop-append (suc n) (x ∷ xs) ys h = drop-append n xs ys (omega arith)

module _ {T : Type 0} (as_bytes : AsBytes T) (IsValue : T → Type 0)
    (law : IsAsBytes as_bytes IsValue) where
  pub length-view_bytes :
      (ts : List T) → length (view_bytes as_bytes ts) ≡ as_bytes.size_of * length ts
  length-view_bytes [] = omega arith
  length-view_bytes (t ∷ ts) =
      let l = length-append (as_bytes.to_bytes t) (view_bytes as_bytes ts) in
      grind (arith, l, length-view_bytes ts, law.size t)

  view_items-view_bytes :
      (ts : List T) → All IsValue ts → view_items as_bytes (length ts) (view_bytes as_bytes ts) ≡ ts
  view_items-view_bytes [] h = refl
  view_items-view_bytes (t ∷ ts) (h, hs) =
      let first =
        take-append as_bytes.size_of (as_bytes.to_bytes t) (view_bytes as_bytes ts) (law.size t) in
      let later =
        drop-append as_bytes.size_of (as_bytes.to_bytes t) (view_bytes as_bytes ts) (law.size t) in
      ap₂ ◌∷◌ (ap as_bytes.of_bytes first ∙ law.back t h)
        (ap (view_items as_bytes (length ts)) later ∙ view_items-view_bytes ts hs)

  -- The number of bytes of a view fits an `int`.
  abbrev pub Fits : List T → Type 0
  Fits ts = as_bytes.size_of * length ts < 2 ^ 31

  length-fits : (n : ℕ) → as_bytes.size_of * n < 2 ^ 31 → n < 2 ^ 31
  length-fits n h = grind (arith, law.some_size)

  pub call_view-writes :
      (s : Serializer) (ts : List T)
      → All IsValue ts
      → Fits ts
      → Writing s
      → call_view as_bytes s ts ≡ ok (ts, after s (view_bytes as_bytes ts))
  unfolding call_view
  call_view-writes s ts h short w =
      rw (int_of_size-small (length ts) (length-fits (length ts) short)) (
        rw
          (bytes_by-after s.action s (view_bytes as_bytes ts) as_bytes.size_of (length ts) refl
            (length-view_bytes ts) short w.0)
          (rw (view_items-view_bytes ts h) refl))

  pub call_view-reads :
      (s : Serializer) (us ts : List T)
      → All IsValue ts
      → Fits ts
      → length us ≡ length ts
      → Reading s
      → Holds s (view_bytes as_bytes ts)
      → call_view as_bytes s us ≡ ok (ts, after s (view_bytes as_bytes ts))
  unfolding call_view
  call_view-reads s us ts h short same a held = rw same (
      rw (int_of_size-small (length ts) (length-fits (length ts) short)) (
        rw
          (bytes-reads s (view_bytes as_bytes us) (view_bytes as_bytes ts) as_bytes.size_of
            (length ts) a.0 (length-view_bytes us ∙ ap (λ (n : ℕ). as_bytes.size_of * n) same)
            (length-view_bytes ts) short held)
          (rw (view_items-view_bytes ts h) refl)))

  pub call_item-Refines :
      (blank : T) → Refines (call_item as_bytes) blank (λ t. t) as_bytes.to_bytes IsValue
  unfolding call_item
  call_item-Refines blank = record {
    writes = λ s t h w.
        rw
          (bytes_by-after s.action s (as_bytes.to_bytes t) as_bytes.size_of 1 refl
            (omega (arith, law.size t)) (omega (arith, law.small)) w.0)
          (rw (law.back t h) refl);
    reads = λ s t h a held. (
      t,
      rw
          (bytes-reads s (as_bytes.to_bytes blank) (as_bytes.to_bytes t) as_bytes.size_of 1 a.0
            (omega (arith, law.size blank)) (omega (arith, law.size t)) (omega (arith, law.small))
            held)
          (rw (law.back t h) refl),
      refl,
    );
  }

  -- An enumeration whose values survive the conversions to its underlying type and back.
  pub pipe_enum-Refines :
      {E : Type 0} (to_underlying : E → T) (of_underlying : T → E)
      → ((e : E) → of_underlying (to_underlying e) ≡ e)
      → ((e : E) → IsValue (to_underlying e))
      → (blank : E)
      → Refines
          (pipe_enum as_bytes to_underlying of_underlying)
          blank
          (λ e. e)
          (λ e. as_bytes.to_bytes (to_underlying e))
          (λ _. Unit {0})
  unfolding pipe_enum
  pipe_enum-Refines to_underlying of_underlying back ok_value blank =
      let r = call_item-Refines (to_underlying blank) in
      record {
        writes = λ s t h w. rw (r.writes s (to_underlying t) (ok_value t) w) (rw (back t) refl);
        reads = λ s t h a held.
            let (t', e, same) = r.reads s (to_underlying t) (ok_value t) a held in
            (of_underlying t', rw e refl, ap of_underlying same ∙ back t);
      }

byte_law : IsAsBytes as_byte (λ _. Unit {0})
byte_law = record {
  some_size = omega arith;
  small = omega arith;
  size = λ t. refl;
  back = λ t h. refl;
}

view_bytes-byte : (bs : List ℕ) → view_bytes as_byte bs ≡ bs
view_bytes-byte [] = refl
view_bytes-byte (b ∷ bs) = ap (◌∷◌ b) (view_bytes-byte bs)

All-bytes : (bs : List ℕ) → All (λ (_ : ℕ). Unit {0}) bs
All-bytes [] = tt
All-bytes (b ∷ bs) = (tt, All-bytes bs)

-- A type that goes through as the bytes of its representation.
pub pipe_as_bytes-Refines :
    {T : Type 0} (as_bytes : AsBytes T) (IsValue : T → Type 0)
    → IsAsBytes as_bytes IsValue
    → (blank : T) → Refines (pipe_as_bytes as_bytes) blank (λ t. t) as_bytes.to_bytes IsValue
unfolding pipe_as_bytes
pipe_as_bytes-Refines as_bytes IsValue law blank = record {
  writes = λ s t h w.
      let bs = as_bytes.to_bytes t in
      rw
        (call_view-writes as_byte (λ _. Unit {0}) byte_law s bs (All-bytes bs)
          (omega (arith, law.size t, law.small)) w)
        (rw (law.back t h) (ap (λ (xs : List ℕ). ok (t, after s xs)) (view_bytes-byte bs)));
  reads = λ s t h a held.
      let bs = as_bytes.to_bytes t in
      (
        t,
        rw
            (call_view-reads as_byte (λ _. Unit {0}) byte_law s (as_bytes.to_bytes blank) bs
              (All-bytes bs) (omega (arith, law.size t, law.small))
              (law.size blank ∙ sym (law.size t)) a
              (subst (Holds s) (sym (view_bytes-byte bs)) held))
            (rw (law.back t h) (ap (λ (xs : List ℕ). ok (t, after s xs)) (view_bytes-byte bs))),
        refl,
      );
}
