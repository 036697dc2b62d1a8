-- ===== src/Accounting/Sorting.antt =====
-- Sorting the elements of a collection: what `std::sort` gives does not depend on the order in which the map
-- is iterated.
use findus.Base.{
  ℕ, suc, ltb, List, [], ◌∷◌, length, All, ◌≡◌, ◌≢◌, ◌↔◌, inl, inr, refl, ap, ap₂, sym, ◌∙◌, arith,
  Bool-cases,
}
use mathlib.Core.Path.{subst}
use mathlib.Core.Logic.{∥∥₁_elim}
use mathlib.Core.List.Perm
use mathlib.Core.List.{Perm, Permᴰ}
use findus.Base.Int.{ℤ}
use findus.Components.{IsMap}
use findus.Accounting.{insert_element, sort_elements}

insert_element-perm : (e : ℕ × ℤ) (xs : List (ℕ × ℤ)) → Perm (insert_element e xs) (e ∷ xs)
unfolding insert_element
insert_element-perm e [] = Perm.refl (e ∷ [])
insert_element-perm e (x ∷ xs) = elim (Bool-cases (ltb e.0 x.0)) [
  | inl t ↦ rw t (Perm.refl (e ∷ x ∷ xs))
  | inr f ↦ rw f (Perm.trans (Perm.cons x (insert_element-perm e xs)) (Perm.swap e x xs))
]

pub sort_elements-perm : (xs : List (ℕ × ℤ)) → Perm (sort_elements xs) xs
unfolding sort_elements
sort_elements-perm [] = Perm.nil
sort_elements-perm (x ∷ xs) =
    Perm.trans (insert_element-perm x (sort_elements xs)) (Perm.cons x (sort_elements-perm xs))

insert_element_comm :
    (a b : ℕ × ℤ) (xs : List (ℕ × ℤ))
    → a.0 ≢ b.0
    → insert_element a (insert_element b xs) ≡ insert_element b (insert_element a xs)
unfolding insert_element
insert_element_comm a b [] d = ground (arith, d)
insert_element_comm a b (x ∷ xs) d = ground (arith, d, insert_element_comm a b xs d)

All-perm : (P : ℕ × ℤ → Type 0) {xs ys : List (ℕ × ℤ)} → Permᴰ xs ys → All P xs → All P ys
All-perm P Permᴰ.nil h = tt
All-perm P (Permᴰ.cons e d) h = (subst P e h.0, All-perm P d h.1)
All-perm P (Permᴰ.swap e f) h = (subst P f h.1.0, (subst P e h.0, h.1.1))
All-perm P (Permᴰ.trans d d') h = All-perm P d' (All-perm P d h)

sort_elements_of_perm :
    {xs ys : List (ℕ × ℤ)}
    → Permᴰ xs ys
    → IsMap xs
    → IsMap ys × (sort_elements xs ≡ sort_elements ys)
unfolding sort_elements
sort_elements_of_perm Permᴰ.nil h = (tt, refl)
sort_elements_of_perm (Permᴰ.cons {a = a} {b = b} {l₂ = l₂} e d) h =
    let (m, s) = sort_elements_of_perm d h.1 in
    (
      (
        subst (λ (c : ℕ × ℤ). All (λ (y : ℕ × ℤ). c.0 ≢ y.0) l₂) e
            (All-perm (λ (y : ℕ × ℤ). a.0 ≢ y.0) d h.0),
        m,
      ),
      ap₂ insert_element e s,
    )
sort_elements_of_perm (Permᴰ.swap {a = a} {b = b} {a' = a'} {b' = b'} {l = l} e f) h = (
  subst (λ (c : ℕ × ℤ). IsMap (c ∷ b' ∷ l)) f
      (subst (λ (c : ℕ × ℤ). IsMap (b ∷ c ∷ l)) e (((λ p. h.0.0 (sym p)), h.1.0), (h.0.1, h.1.1))),
  insert_element_comm a b (sort_elements l) h.0.0
      ∙ ap₂ (λ (x y : ℕ × ℤ). insert_element x (insert_element y (sort_elements l))) f e,
)
sort_elements_of_perm (Permᴰ.trans d d') h =
    let (m, s) = sort_elements_of_perm d h in
    let (m', s') = sort_elements_of_perm d' m in (m', s ∙ s')

elements_set : IsSet (List (ℕ × ℤ))
elements_set = hlevel

-- The sorted elements tell two maps apart, and nothing else.
pub sort_elements_iff :
    (xs ys : List (ℕ × ℤ)) → IsMap xs → Perm xs ys ↔ (sort_elements xs ≡ sort_elements ys)
sort_elements_iff xs ys h = (
  λ p.
      ∥∥₁_elim p (elements_set (sort_elements xs) (sort_elements ys))
        (λ d. (sort_elements_of_perm d h).1),
  λ e.
      Perm.trans (Perm.symm (sort_elements-perm xs))
        (subst (λ (zs : List (ℕ × ℤ)). Perm zs ys) (sym e) (sort_elements-perm ys)),
)

All-insert_element :
    (P : ℕ × ℤ → Type 0) (e : ℕ × ℤ) (xs : List (ℕ × ℤ))
    → P e
    → All P xs
    → All P (insert_element e xs)
unfolding insert_element
All-insert_element P e [] p h = (p, tt)
All-insert_element P e (x ∷ xs) p h = elim (Bool-cases (ltb e.0 x.0)) [
  | inl t ↦ rw t (p, h)
  | inr f ↦ rw f (h.0, All-insert_element P e xs p h.1)
]

pub All-sort_elements :
    (P : ℕ × ℤ → Type 0) (xs : List (ℕ × ℤ)) → All P xs → All P (sort_elements xs)
unfolding sort_elements
All-sort_elements P [] h = tt
All-sort_elements P (x ∷ xs) h =
    All-insert_element P x (sort_elements xs) h.0 (All-sort_elements P xs h.1)

length-insert_element :
    (e : ℕ × ℤ) (xs : List (ℕ × ℤ)) → length (insert_element e xs) ≡ suc (length xs)
unfolding insert_element
length-insert_element e [] = refl
length-insert_element e (x ∷ xs) = ground (arith, length-insert_element e xs)

pub length-sort_elements : (xs : List (ℕ × ℤ)) → length (sort_elements xs) ≡ length xs
unfolding sort_elements
length-sort_elements [] = refl
length-sort_elements (x ∷ xs) =
    length-insert_element x (sort_elements xs) ∙ ap suc (length-sort_elements xs)
