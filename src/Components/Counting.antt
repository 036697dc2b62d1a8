-- ===== src/Components/Counting.antt =====
-- Insertion and removal keep count: the number of local objects and the lists of ids for each process tell
-- what the maps hold.
use findus.Base.{
  ℕ, zero, suc, ◌+◌, ◌<◌, ◌==◌, if◌then◌else◌, List, [], ◌∷◌, ◌++◌, none, some, length, get_elem?,
  set, replicate, All, All-append, ◌≡◌, ◌≢◌, inl, inr, refl, ap, sym, ◌∙◌, arith, Bool-cases,
  length-append, length-set, length-replicate, get_elem?-set_self, get_elem?-set_ne, ℕ_discrete,
}
use mathlib.Core.Path.{subst}
use mathlib.Core.List.{append-nil}
use findus.Base.Int.{ℤ, pos, ◌+ℤ◌, ◌-ℤ◌, ◌==ℤ◌}
use findus.Components.{find, erase_element, erase_id, local_ids, IsMap}

local_ids-append :
    (p : ℤ) (xs ys : List (ℕ × ℤ)) → local_ids p (xs ++ ys) ≡ local_ids p xs ++ local_ids p ys
local_ids-append p [] ys = refl
local_ids-append p ((i, q) ∷ xs) ys = ground (arith, local_ids-append p xs ys)

abbrev IsOther : ℕ → ℕ × ℤ → Type 0
IsOther i e = e.0 ≢ i

find-none : (i : ℕ) (es : List (ℕ × ℤ)) → find i es ≡ none → All (IsOther i) es
find-none i [] h = tt
find-none i (e ∷ es) h = elim (Bool-cases (e.0 == i)) [
  | inl t ↦ absurd (ground (arith, t, h))
  | inr f ↦ (ground (arith, f), find-none i es (ground (arith, f, h)))
]

IsMap-append_one :
    (es : List (ℕ × ℤ)) (i : ℕ) (z : ℤ) → IsMap es → All (IsOther i) es → IsMap (es ++ (i, z) ∷ [])
IsMap-append_one [] i z h k = (tt, tt)
IsMap-append_one (e ∷ es) i z h k = (
  All-append (λ (y : ℕ × ℤ). e.0 ≢ y.0) es ((i, z) ∷ []) h.0 (k.0, tt),
  IsMap-append_one es i z h.1 k.1,
)

All-erase_element :
    (P : ℕ × ℤ → Type 0) (i : ℕ) (es : List (ℕ × ℤ)) → All P es → All P (erase_element i es)
All-erase_element P i [] h = tt
All-erase_element P i (e ∷ es) h = elim (Bool-cases (e.0 == i)) [
  | inl t ↦ rw t h.1
  | inr f ↦ rw f (h.0, All-erase_element P i es h.1)
]

IsMap-erase_element : (i : ℕ) (es : List (ℕ × ℤ)) → IsMap es → IsMap (erase_element i es)
IsMap-erase_element i [] h = tt
IsMap-erase_element i (e ∷ es) h = elim (Bool-cases (e.0 == i)) [
  | inl t ↦ rw t h.1
  | inr f ↦
      rw f (All-erase_element (λ (y : ℕ × ℤ). e.0 ≢ y.0) i es h.0, IsMap-erase_element i es h.1)
]

local_ids-erase_element :
    (q : ℤ) (i : ℕ) (p : ℤ) (es : List (ℕ × ℤ))
    → find i es ≡ some p
    → local_ids q (erase_element i es)
      ≡ (if p ==ℤ q then erase_id i (local_ids q es) else local_ids q es)
local_ids-erase_element q i p [] h = cc
local_ids-erase_element q i p ((j, r) ∷ es) h = elim (Bool-cases (j == i)) [
  | inl t ↦ ground (arith, t, h)
  | inr f ↦ ground (arith, f, h, local_ids-erase_element q i p es (ground (arith, f, h)))
]

length-erase_element :
    (q : ℤ) (i : ℕ) (p : ℤ) (es : List (ℕ × ℤ))
    → find i es ≡ some p
    → length (local_ids q es)
      ≡ (if p ==ℤ q then 1 else 0) + length (local_ids q (erase_element i es))
length-erase_element q i p [] h = cc
length-erase_element q i p ((j, r) ∷ es) h = elim (Bool-cases (j == i)) [
  | inl t ↦ ground (arith, t, h)
  | inr f ↦ ground (arith, f, h, length-erase_element q i p es (ground (arith, f, h)))
]

replicate_all : (n q : ℕ) → q < n → get_elem? (replicate {A = List ℕ} n []) q ≡ some []
replicate_all zero q h = absurd (omega arith)
replicate_all (suc n) zero h = refl
replicate_all (suc n) (suc q) h = replicate_all n q (omega arith)

-- What is kept of a collection on a process, `my_node_id`, of `n`.
module _ (my_node_id : ℤ) (n : ℕ) where
  abbrev pub IsPlaced : ℕ × ℤ → Type 0
  IsPlaced e = (q : ℕ) × (e.1 ≡ pos q) × (q < n)

  pub record IsCount (es : List (ℕ × ℤ)) (number : ℤ) (ids : List (List ℕ)) : Type 0 where
    pub keys : IsMap es
    pub placed : All IsPlaced es
    pub counted : number ≡ pos (length (local_ids my_node_id es))
    pub processes : length ids ≡ n
    pub listed : (q : ℕ) → q < n → get_elem? ids q ≡ some (local_ids (pos q) es)

  ids_of_new :
      (es : List (ℕ × ℤ)) (i q : ℕ)
      → local_ids (pos q) (es ++ (i, pos q) ∷ []) ≡ local_ids (pos q) es ++ i ∷ []
  ids_of_new es i q = ground (arith, local_ids-append (pos q) es ((i, pos q) ∷ []))

  ids_of_others :
      (es : List (ℕ × ℤ)) (i q r : ℕ)
      → q ≢ r
      → local_ids (pos r) (es ++ (i, pos q) ∷ []) ≡ local_ids (pos r) es
  ids_of_others es i q r d =
      ground
        (arith, d, local_ids-append (pos r) es ((i, pos q) ∷ []), append-nil (local_ids (pos r) es))

  add-listed :
      (es : List (ℕ × ℤ)) (i q : ℕ) (number : ℤ) (ids : List (List ℕ)) (r : ℕ)
      → IsCount es number ids
      → q < n
      → r < n
      → get_elem? (set ids q (local_ids (pos q) es ++ i ∷ [])) r
        ≡ some (local_ids (pos r) (es ++ (i, pos q) ∷ []))
  add-listed es i q number ids r c inside h = elim (ℕ_discrete q r) [
    | yes e ↦
        subst
          (λ (t : ℕ).
            get_elem? (set ids q (local_ids (pos q) es ++ i ∷ [])) t
            ≡ some (local_ids (pos t) (es ++ (i, pos q) ∷ [])))
          e
          (get_elem?-set_self ids q _ (omega (arith, c.processes))
            ∙ ap some (sym (ids_of_new es i q)))
    | no d ↦ get_elem?-set_ne ids q r _ d ∙ c.listed r h ∙ ap some (sym (ids_of_others es i q r d))
  ]

  remove-listed :
      (es : List (ℕ × ℤ)) (i q : ℕ) (number : ℤ) (ids : List (List ℕ)) (r : ℕ)
      → IsCount es number ids
      → find i es ≡ some (pos q)
      → q < n
      → r < n
      → get_elem? (set ids q (erase_id i (local_ids (pos q) es))) r
        ≡ some (local_ids (pos r) (erase_element i es))
  remove-listed es i q number ids r c found inside h = elim (ℕ_discrete q r) [
    | yes e ↦
        subst
          (λ (t : ℕ).
            get_elem? (set ids q (erase_id i (local_ids (pos q) es))) t
            ≡ some (local_ids (pos t) (erase_element i es)))
          e
          (get_elem?-set_self ids q _ (omega (arith, c.processes))
            ∙ ground (arith, local_ids-erase_element (pos q) i (pos q) es found))
    | no d ↦
        get_elem?-set_ne ids q r _ d
        ∙ c.listed r h
        ∙ ground (arith, d, local_ids-erase_element (pos r) i (pos q) es found)
  ]

  plus_count :
      (es : List (ℕ × ℤ)) (i q : ℕ) (number : ℤ)
      → number ≡ pos (length (local_ids my_node_id es))
      → (if pos q ==ℤ my_node_id then number +ℤ pos 1 else number)
        ≡ pos (length (local_ids my_node_id (es ++ (i, pos q) ∷ [])))
  unfolding ◌+ℤ◌
  plus_count es i q number h =
      let split = local_ids-append my_node_id es ((i, pos q) ∷ []) in
      let both = length-append (local_ids my_node_id es) (local_ids my_node_id ((i, pos q) ∷ [])) in
      ground (arith, h, split, both)

  minus_count :
      (es : List (ℕ × ℤ)) (i : ℕ) (p number : ℤ)
      → find i es ≡ some p
      → number ≡ pos (length (local_ids my_node_id es))
      → (if p ==ℤ my_node_id then number -ℤ pos 1 else number)
        ≡ pos (length (local_ids my_node_id (erase_element i es)))
  unfolding ◌-ℤ◌
  minus_count es i p number found h =
      ground (arith, h, length-erase_element my_node_id i p es found)

  pub add-IsCount :
      (es : List (ℕ × ℤ)) (i q : ℕ) (number : ℤ) (ids : List (List ℕ))
      → IsCount es number ids
      → find i es ≡ none
      → q < n
      → IsCount
          (es ++ (i, pos q) ∷ [])
          (if pos q ==ℤ my_node_id then number +ℤ pos 1 else number)
          (set ids q (local_ids (pos q) es ++ i ∷ []))
  add-IsCount es i q number ids c new inside = record {
    keys = IsMap-append_one es i (pos q) c.keys (find-none i es new);
    placed = All-append IsPlaced es ((i, pos q) ∷ []) c.placed ((q, refl, inside), tt);
    counted = plus_count es i q number c.counted;
    processes = length-set ids q (local_ids (pos q) es ++ i ∷ []) ∙ c.processes;
    listed = λ r h. add-listed es i q number ids r c inside h;
  }

  pub remove-IsCount :
      (es : List (ℕ × ℤ)) (i q : ℕ) (number : ℤ) (ids : List (List ℕ))
      → IsCount es number ids
      → find i es ≡ some (pos q)
      → q < n
      → IsCount
          (erase_element i es)
          (if pos q ==ℤ my_node_id then number -ℤ pos 1 else number)
          (set ids q (erase_id i (local_ids (pos q) es)))
  remove-IsCount es i q number ids c found inside = record {
    keys = IsMap-erase_element i es c.keys;
    placed = All-erase_element IsPlaced i es c.placed;
    counted = minus_count es i (pos q) number found c.counted;
    processes = length-set ids q (erase_id i (local_ids (pos q) es)) ∙ c.processes;
    listed = λ r h. remove-listed es i q number ids r c found inside h;
  }

  pub find-IsPlaced :
      (i : ℕ) (es : List (ℕ × ℤ)) (p : ℤ)
      → find i es ≡ some p
      → All IsPlaced es
      → (q : ℕ) × (p ≡ pos q) × (q < n)
  find-IsPlaced i [] p h k = cc
  find-IsPlaced i (e ∷ es) p h k = elim (Bool-cases (e.0 == i)) [
    | inl t ↦ (k.0.0, ground (arith, t, h, k.0.1), k.0.2)
    | inr f ↦ find-IsPlaced i es p (ground (arith, f, h)) k.1
  ]

  pub none-IsCount : IsCount [] (pos 0) (replicate n [])
  none-IsCount = record {
    keys = tt;
    placed = tt;
    counted = refl;
    processes = length-replicate n [];
    listed = λ q h. replicate_all n q h;
  }
