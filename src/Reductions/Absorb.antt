-- ===== src/Reductions/Absorb.antt =====
-- The messages of a reduction added up in the order of their arrival.
use findus.Base.{
  ℕ, Bool, true, false, not, ◌&&◌, List, [], ◌∷◌, ◌++◌, Option, none, some, All, ◌≡◌, refl, ◌∙◌,
  arith,
}
use findus.Base.Int.{ℤ, pos, ◌==ℤ◌}
use findus.Reductions.Interprocess.{ReductionMessage}
use findus.Reductions.Arrivals.{is_reduction, absorb}

-- The messages added up in the order of their arrival.
abbrev pub absorb_all :
    {A : Type 0}
    → (A → A → A)
    → ℤ
    → ReductionMessage A
    → List (ReductionMessage A)
    → ReductionMessage A
absorb_all op self m [] = m
absorb_all op self m (x ∷ xs) = absorb_all op self (absorb op self x m) xs

abbrev pub add_payloads : {A : Type 0} → (A → A → A) → A → List (ReductionMessage A) → A
add_payloads op a [] = a
add_payloads op a (x ∷ xs) = add_payloads op (op a x.payload) xs

-- What all messages contribute, in the order of their arrival.
abbrev pub total : {A : Type 0} → (A → A → A) → List (ReductionMessage A) → Option A
total op [] = none
total op (x ∷ xs) = some (add_payloads op x.payload xs)

-- A message for reduction `id` at process `self` that expects `n` contributions, comes from `self`
-- itself or not, and does not bring the root the number of messages to wait for.
pub record IsArrival {A : Type 0} (id : ℕ) (self : ℤ) (own : Bool) (n : ℕ) (m : ReductionMessage A)
    : Type 0 where
  pub kind : is_reduction m ≡ true
  pub same : m.id ≡ id
  pub source : (m.header.source_process_id ==ℤ self) ≡ own
  pub expected : m.expected_number_of_contributions ≡ pos n
  pub plain :
      (m.header.destination_process_id ==ℤ pos 0
        && not (m.expected_number_of_root_contributions ==ℤ pos 0))
      ≡ false

module _ {A : Type 0} (op : A → A → A) (self : ℤ) where
  pub id-absorb_all :
      (ms : List (ReductionMessage A)) (m : ReductionMessage A)
      → (absorb_all op self m ms).id ≡ m.id
  id-absorb_all [] m = refl
  id-absorb_all (x ∷ xs) m = id-absorb_all xs (absorb op self x m)

  pub header-absorb_all :
      (ms : List (ReductionMessage A)) (m : ReductionMessage A)
      → (absorb_all op self m ms).header ≡ m.header
  header-absorb_all [] m = refl
  header-absorb_all (x ∷ xs) m = header-absorb_all xs (absorb op self x m)

  pub payload-absorb_all :
      (ms : List (ReductionMessage A)) (m : ReductionMessage A)
      → (absorb_all op self m ms).payload ≡ add_payloads op m.payload ms
  payload-absorb_all [] m = refl
  payload-absorb_all (x ∷ xs) m = payload-absorb_all xs (absorb op self x m)

  pub absorb_all-append :
      (xs ys : List (ReductionMessage A)) (m : ReductionMessage A)
      → absorb_all op self m (xs ++ ys) ≡ absorb_all op self (absorb_all op self m xs) ys
  absorb_all-append [] ys m = refl
  absorb_all-append (x ∷ xs) ys m = absorb_all-append xs ys (absorb op self x m)

  -- Messages from elsewhere leave alone what the process said of itself.
  pub target-absorb_all :
      (id : ℕ) (ms : List (ReductionMessage A)) (m : ReductionMessage A)
      → All (IsArrival id self false 0) ms
      → (absorb_all op self m ms).target_process_id ≡ m.target_process_id
  target-absorb_all id [] m h = refl
  target-absorb_all id (x ∷ xs) m (h, hs) =
      target-absorb_all id xs (absorb op self x m) hs ∙ ground (arith, h.source)

  pub target-absorb_all-own :
      (id n : ℕ) (cs ms : List (ReductionMessage A)) (x m : ReductionMessage A)
      → All (IsArrival id self false 0) ms
      → IsArrival id self true n x
      → (absorb_all op self m (cs ++ x ∷ ms)).target_process_id ≡ x.target_process_id
  target-absorb_all-own id n [] ms x m h l =
      target-absorb_all id ms (absorb op self x m) h ∙ ground (arith, l.source)
  target-absorb_all-own id n (c ∷ cs) ms x m h l =
      target-absorb_all-own id n cs ms x (absorb op self c m) h l
