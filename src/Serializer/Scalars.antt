-- ===== src/Serializer/Scalars.antt =====
-- The two call operators of the serializer for types that are copied as bytes, and the operators for
-- fundamental types, enumerations and types marked `as_bytes`.
use findus.Base.{ℕ, zero, suc, List, [], ◌∷◌, ◌++◌, length}
use findus.Base.Int.{pos}
use findus.Base.Result.{ok, ◌>>=◌}
use findus.Serializer.State.{Serializer, int_of_size, bytes, Pipe}

-- `sizeof` and the object representation, which the language gives to a type that may be copied as
-- bytes.
pub record AsBytes (T : Type 0) : Type 0 where
  pub size_of : ℕ
  pub to_bytes : T → List ℕ
  pub of_bytes : List ℕ → T

abbrev pub take : {A : Type 0} → ℕ → List A → List A
take zero xs = []
take (suc n) [] = []
take (suc n) (x ∷ xs) = x ∷ take n xs

abbrev pub drop : {A : Type 0} → ℕ → List A → List A
drop zero xs = xs
drop (suc n) [] = []
drop (suc n) (x ∷ xs) = drop n xs

module _ {T : Type 0} (as_bytes : AsBytes T) where
  -- The objects of a view in the memory, one behind the other.
  abbrev pub view_bytes : List T → List ℕ
  view_bytes [] = []
  view_bytes (t ∷ ts) = as_bytes.to_bytes t ++ view_bytes ts

  abbrev pub view_items : ℕ → List ℕ → List T
  view_items zero bs = []
  view_items (suc n) bs =
      as_bytes.of_bytes (take as_bytes.size_of bs) ∷ view_items n (drop as_bytes.size_of bs)

  unfoldable pub call_view : Pipe (List T)
  unfolding bytes int_of_size
  call_view s view =
      bytes s (view_bytes view) as_bytes.size_of (int_of_size (length view))
      >>= λ (r : List ℕ × Serializer). ok (view_items (length view) r.0, r.1)

  unfoldable pub call_item : Pipe T
  unfolding bytes
  call_item s t =
      bytes s (as_bytes.to_bytes t) as_bytes.size_of (pos 1) >>= λ (r : List ℕ × Serializer).
      ok (as_bytes.of_bytes r.0, r.1)

  unfoldable pub pipe_fundamental : Pipe T
  unfolding call_item
  pipe_fundamental s t = call_item s t

-- The view of `sizeof` many bytes.
abbrev pub as_byte : AsBytes ℕ
as_byte = record {
  size_of = 1;
  to_bytes = λ b. b ∷ [];
  of_bytes = λ bs. elim bs [ [] ↦ 0 | b ∷ _ ↦ b ];
}

unfoldable pub pipe_as_bytes : {T : Type 0} → AsBytes T → Pipe T
unfolding call_view
pipe_as_bytes as_bytes s t =
    call_view as_byte s (as_bytes.to_bytes t) >>= λ (r : List ℕ × Serializer).
    ok (as_bytes.of_bytes r.0, r.1)

-- An enumeration goes through as its underlying type.
unfoldable pub pipe_enum : {T U : Type 0} → AsBytes U → (T → U) → (U → T) → Pipe T
unfolding call_item
pipe_enum as_bytes to_underlying of_underlying s t =
    call_item as_bytes s (to_underlying t) >>= λ (r : _ × Serializer). ok (of_underlying r.0, r.1)
