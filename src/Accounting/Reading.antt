-- ===== src/Accounting/Reading.antt =====
-- Reading back what was written, from one buffer and from two at once.
use findus.Base.{
  ℕ, zero, suc, ◌/◌, ◌^◌, ◌<◌, Bool, true, List, [], ◌∷◌, ◌++◌, length, ◌≡◌, ◌≢◌, ◌⊎◌, inl, inr,
  refl, ap, ◌∙◌, arith, Bool-cases,
}
use mathlib.Core.List.{append_assoc}
use native.Mathlib.Nat.{pow-suc}
use findus.Base.Result.{Result, ok, err, ◌>>=◌}
use findus.Accounting.{
  AccountingError, past_the_end, to_bytes, of_bytes, name_bytes, read_string_and_advance,
  read_and_advance, same_bytes, compare_values, compare_names,
}

length-to_bytes : (size x : ℕ) → length (to_bytes size x) ≡ size
length-to_bytes zero x = refl
length-to_bytes (suc size) x = ap suc (length-to_bytes size (x / 256))

of_bytes-to_bytes : (size x : ℕ) → x < 256 ^ size → of_bytes (to_bytes size x) ≡ x
of_bytes-to_bytes zero x h = omega arith
of_bytes-to_bytes (suc size) x h =
    omega
      (arith, pow-suc 256 size, of_bytes-to_bytes size (x / 256) (omega (arith, pow-suc 256 size)))

read_string-append :
    (name rest : List ℕ) → read_string_and_advance (name ++ rest) (length name) ≡ ok (name, rest)
unfolding read_string_and_advance
read_string-append [] rest = refl
read_string-append (b ∷ name) rest = rw (read_string-append name rest) refl

pub read-to_bytes :
    (size x : ℕ) (rest : List ℕ)
    → x < 256 ^ size
    → read_and_advance size (to_bytes size x ++ rest) ≡ ok (x, rest)
unfolding read_and_advance
read-to_bytes size x rest h =
    let written = to_bytes size x in
    let all : read_string_and_advance (written ++ rest) size ≡ ok (written, rest) =
      ap (read_string_and_advance (written ++ rest)) (sym_length size x)
      ∙ read_string-append written rest in
    rw all (ap (λ (n : ℕ). ok (n, rest)) (of_bytes-to_bytes size x h))
  where
    sym_length : (size x : ℕ) → size ≡ length (to_bytes size x)
    sym_length size x = omega (arith, length-to_bytes size x)

same_bytes_refl : (xs : List ℕ) → same_bytes xs xs ≡ true
unfolding same_bytes
same_bytes_refl [] = refl
same_bytes_refl (x ∷ xs) = ground (arith, same_bytes_refl xs)

same_bytes-eq : (xs ys : List ℕ) → same_bytes xs ys ≡ true → xs ≡ ys
unfolding same_bytes
same_bytes-eq [] [] h = refl
same_bytes-eq [] (y ∷ ys) h = cc
same_bytes-eq (x ∷ xs) [] h = cc
same_bytes-eq (x ∷ xs) (y ∷ ys) h = ground (arith, same_bytes-eq xs ys)

-- A comparison that goes on with `value` if something holds, and else ends with an exception, but never
-- past the end of a buffer.
abbrev pub IsVerdict : {A : Type 0} → Type 0 → A → Result AccountingError A → Type 0
IsVerdict P value result =
    (P × (result ≡ ok value))
    ⊎ ((¬ P) × (e : AccountingError) × (result ≡ err e) × (e ≢ past_the_end))

-- The second comparison matters only where the first has gone well.
pub IsVerdict-bind :
    {A B : Type 0} {P Q : Type 0} {a : A} {b : B} {r : Result AccountingError A}
    (f : A → Result AccountingError B)
    → IsVerdict P a r
    → (P → IsVerdict Q b (f a))
    → IsVerdict (P × Q) b (r >>= f)
IsVerdict-bind f (inl (p, e)) next = elim (next p) [
  | inl (q, g) ↦ inl ((p, q), rw e g)
  | inr (n, x, g, inside) ↦ inr (λ h. n h.1, x, rw e g, inside)
]
IsVerdict-bind f (inr (n, x, g, inside)) next = inr (λ h. n h.0, x, rw g refl, inside)

pub IsVerdict-of :
    {A : Type 0} {P Q : Type 0} {a : A} {r : Result AccountingError A}
    → (P → Q)
    → (Q → P)
    → IsVerdict P a r
    → IsVerdict Q a r
IsVerdict-of f g (inl (p, e)) = inl (f p, e)
IsVerdict-of f g (inr (n, x, e, inside)) = inr (λ q. n (g q), x, e, inside)

pub compare_values_lem :
    (differs : AccountingError) (size : ℕ) (same : ℕ → ℕ → Bool) (x y : ℕ) (rest_a rest_b : List ℕ)
    → differs ≢ past_the_end
    → x < 256 ^ size
    → y < 256 ^ size
    → IsVerdict
        (same x y ≡ true)
        (x, (rest_a, rest_b))
        (compare_values differs size same (to_bytes size x ++ rest_a, to_bytes size y ++ rest_b))
unfolding compare_values
compare_values_lem differs size same x y rest_a rest_b d h k =
    rw (read-to_bytes size x rest_a h, read-to_bytes size y rest_b k)
      (elim (Bool-cases (same x y)) [
        | inl e ↦ inl (e, rw e refl)
        | inr e ↦ inr (λ t. ground (arith, t, e), differs, rw e refl, d)
      ])

pub compare_names_lem :
    (differs : AccountingError) (a b rest_a rest_b : List ℕ)
    → differs ≢ past_the_end
    → length a < 2 ^ 32
    → length b < 2 ^ 32
    → IsVerdict
        (a ≡ b)
        (rest_a, rest_b)
        (compare_names differs (name_bytes a ++ rest_a, name_bytes b ++ rest_b))
unfolding compare_names name_bytes
compare_names_lem differs a b rest_a rest_b d h k =
    rw
      (
        append_assoc (to_bytes 4 (length a)) a rest_a,
        append_assoc (to_bytes 4 (length b)) b rest_b,
        read-to_bytes 4 (length a) (a ++ rest_a) h,
        read-to_bytes 4 (length b) (b ++ rest_b) k,
        read_string-append a rest_a,
        read_string-append b rest_b,
      )
      (elim (Bool-cases (same_bytes a b)) [
        | inl e ↦ inl (same_bytes-eq a b e, rw e refl)
        | inr e ↦ inr (λ t. ground (arith, t, e, same_bytes_refl a), differs, rw e refl, d)
      ])
