-- ===== src/ReductionCounter/Stages.antt =====
-- The stages through which the entry of a key goes while `n` threads contribute once each.
use findus.Base.{
  ℕ, ◌+◌, ◌-◌, ◌%◌, ◌^◌, ◌<◌, Bool, true, false, ◌==◌, ◌≡◌, ◌≢◌, inl, inr, refl, sym, ◌∙◌, arith,
  Bool-cases, eq→==, ne→==, ==→eq,
}
use mathlib.Core.Path.{subst}
use findus.Base.Sums.{bit}
use findus.ReductionCounter.{
  KeyCount, Pc, testing, loading, exchanging, adding, subtracting, freeing, returned, threw,
}
use findus.ReductionCounter.Slot.{IsAround, slot_pc, slot_entry}

abbrev pub is_adding : Pc → Bool
is_adding (adding i) = true
is_adding _ = false

abbrev pub is_subtracting : Pc → Bool
is_subtracting (subtracting i) = true
is_subtracting _ = false

-- Behind its subtraction.
abbrev pub is_counted : Pc → Bool
is_counted (freeing i) = true
is_counted (returned b) = true
is_counted _ = false

abbrev pub is_freeing : Pc → Bool
is_freeing (freeing i) = true
is_freeing _ = false

abbrev pub is_last : Pc → Bool
is_last (returned true) = true
is_last _ = false

-- The entry, and how many threads are adding, subtracting, counted, freeing, and have returned `true`.
-- Before the addition the counter is negative, in 32 bits.
pub data Stage (n key : ℕ) (x : KeyCount) (adds subs counted frees lasts : ℕ) : Type 0 where
  unclaimed :
      x.key ≡ 0
      → x.counter ≡ 0
      → adds + subs + counted + frees + lasts ≡ 0
      → Stage n key x adds subs counted frees lasts
  claimed :
      x.key ≡ key
      → adds ≡ 1
      → frees + lasts ≡ 0
      → counted < n
      → x.counter ≡ (2 ^ 32 - counted) % 2 ^ 32
      → Stage n key x adds subs counted frees lasts
  counting :
      x.key ≡ key
      → adds + frees + lasts ≡ 0
      → counted < n
      → x.counter + counted ≡ n
      → Stage n key x adds subs counted frees lasts
  complete :
      x.key ≡ key
      → adds + lasts ≡ 0
      → frees ≡ 1
      → counted ≡ n
      → x.counter ≡ 0
      → Stage n key x adds subs counted frees lasts
  freed :
      x.key ≡ 0
      → adds + frees ≡ 0
      → lasts ≡ 1
      → counted ≡ n
      → x.counter ≡ 0
      → Stage n key x adds subs counted frees lasts

-- The stage, of the counts of the other threads and of one at a given place.
abbrev pub StageWith : ℕ → ℕ → KeyCount → Pc → ℕ → ℕ → ℕ → ℕ → ℕ → Type 0
StageWith n key x pc adds subs counted frees lasts =
    Stage n key x (adds + bit (is_adding pc)) (subs + bit (is_subtracting pc))
      (counted + bit (is_counted pc)) (frees + bit (is_freeing pc)) (lasts + bit (is_last pc))

module _ (n key t : ℕ) (nonzero : key ≢ 0) (small : n < 2 ^ 32) (x : KeyCount) (a s c f l : ℕ)
    (others : a + c < n) where
  abbrev Now : Pc → Type 0
  Now pc = StageWith n key x pc a s c f l

  abbrev Then : Pc → Type 0
  Then pc = StageWith n key (slot_entry key n pc x) (slot_pc key t pc x) a s c f l

  loading-Stage : (i : ℕ) → Now (loading i) → Then (loading i)
  unfolding slot_pc slot_entry
  loading-Stage i (unclaimed k z e) =
      rw (ne→== x.key key (λ h. nonzero (sym h ∙ k))) (unclaimed k z e)
  loading-Stage i (claimed k a' b d e) = rw (eq→== x.key key k) (claimed k a' b d e)
  loading-Stage i (counting k b d e) = rw (eq→== x.key key k) (counting k b d e)
  loading-Stage i (complete k b d e z) = rw (eq→== x.key key k) (complete k b d e z)
  loading-Stage i (freed k b d e z) =
      rw (ne→== x.key key (λ h. nonzero (sym h ∙ k))) (freed k b d e z)

  exchanging-Stage : (i : ℕ) → Now (exchanging i) → Then (exchanging i)
  unfolding slot_pc slot_entry
  exchanging-Stage i (unclaimed k z e) =
      rw (eq→== x.key 0 k) (
        claimed refl (omega (arith, e)) (omega (arith, e)) (omega (arith, e)) (omega (arith, z, e)))
  exchanging-Stage i (claimed k a' b d e) =
      rw (ne→== x.key 0 (λ h. nonzero (sym k ∙ h))) (claimed k a' b d e)
  exchanging-Stage i (counting k b d e) =
      rw (ne→== x.key 0 (λ h. nonzero (sym k ∙ h))) (counting k b d e)
  exchanging-Stage i (complete k b d e z) =
      rw (ne→== x.key 0 (λ h. nonzero (sym k ∙ h))) (complete k b d e z)
  exchanging-Stage i (freed k b d e z) = absurd (omega (arith, e))

  adding-Stage : (i : ℕ) → Now (adding i) → Then (adding i)
  unfolding slot_pc slot_entry
  adding-Stage i (unclaimed k z e) = absurd (omega (arith, e))
  adding-Stage i (claimed k a' b d e) = counting k (omega (arith, a', b)) d (omega (arith, d, e))
  adding-Stage i (counting k b d e) = absurd (omega (arith, b))
  adding-Stage i (complete k b d e z) = absurd (omega (arith, b))
  adding-Stage i (freed k b d e z) = absurd (omega (arith, b))

  subtracting-Stage : (i : ℕ) → Now (subtracting i) → Then (subtracting i)
  unfolding slot_pc slot_entry
  subtracting-Stage i (unclaimed k z e) = absurd (omega (arith, e))
  subtracting-Stage i (claimed k a' b d e) =
      rw (ne→== x.counter 1 (λ h. omega (arith, h, d, e)))
        (claimed k a' b (omega (arith, a')) (omega (arith, d, e)))
  subtracting-Stage i (counting k b d e) = elim (Bool-cases (x.counter == 1)) [
    | inl one ↦
        let h : x.counter ≡ 1 = ==→eq x.counter 1 one in
        rw one (
          complete k (omega (arith, b)) (omega (arith, b)) (omega (arith, e, h)) (omega (arith, h)))
    | inr more ↦
        let h : x.counter ≢ 1 = λ p. ground (arith, p, more) in
        rw more (counting k b (omega (arith, h, e, d)) (omega (arith, h, e, d)))
  ]
  subtracting-Stage i (complete k b d e z) = absurd (omega (arith, e))
  subtracting-Stage i (freed k b d e z) = absurd (omega (arith, e))

  freeing-Stage : (i : ℕ) → Now (freeing i) → Then (freeing i)
  unfolding slot_pc slot_entry
  freeing-Stage i (unclaimed k z e) = absurd (omega (arith, e))
  freeing-Stage i (claimed k a' b d e) = absurd (omega (arith, b))
  freeing-Stage i (counting k b d e) = absurd (omega (arith, b))
  freeing-Stage i (complete k b d e z) =
      freed refl (omega (arith, b, d)) (omega (arith, b)) (omega (arith, e)) z
  freeing-Stage i (freed k b d e z) = absurd (omega (arith, b))

  pub slot-Stage : (pc : Pc) → IsAround key t pc → Now pc → Then pc
  unfolding slot_pc slot_entry
  slot-Stage (testing i) here st = st
  slot-Stage (loading i) here st = loading-Stage i st
  slot-Stage (exchanging i) here st = exchanging-Stage i st
  slot-Stage (adding i) here st = adding-Stage i st
  slot-Stage (subtracting i) here st = subtracting-Stage i st
  slot-Stage (freeing i) here st = freeing-Stage i st
  slot-Stage (returned b) here st = st
  slot-Stage (threw e) here st = elim here [ ]

pub Stage-counts :
    (n key : ℕ) (x : KeyCount) (a a' s s' c c' f f' l l' : ℕ)
    → a ≡ a'
    → s ≡ s'
    → c ≡ c'
    → f ≡ f'
    → l ≡ l'
    → Stage n key x a s c f l
    → Stage n key x a' s' c' f' l'
Stage-counts n key x a a' s s' c c' f f' l l' ea es ec ef el st =
    subst (λ (v : ℕ). Stage n key x v s' c' f' l') ea
      (subst (λ (v : ℕ). Stage n key x a v c' f' l') es
        (subst (λ (v : ℕ). Stage n key x a s v f' l') ec
          (subst (λ (v : ℕ). Stage n key x a s c v l') ef
            (subst (λ (v : ℕ). Stage n key x a s c f v) el st))))
