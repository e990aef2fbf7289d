-- ===== src/Timer/Order.antt =====
-- The order of `Timer::Comparator` and the sorted set of timer pointers, src/timer.cc.
use ztyco.Base.{
  ℕ, ◌≡◌, refl, inl, inr, Bool, true, false, not, ◌&&◌, ◌||◌, none, some, List, [], ◌∷◌, ◌==◌,
  if◌then◌else◌, mem, All, arith, update, Bool-cases, keep,
}
use ztyco.Timer.{Timer, before, set_insert, find_erase}

-- Strictly ascending in the comparator's order.
abbrev pub IsSorted : (ℕ → Timer) → List ℕ → Type 0
IsSorted h [] = Unit
IsSorted h (x ∷ xs) = All (λ y. before h x y ≡ true) xs × IsSorted h xs

module _ (h : ℕ → Timer) where
  pub before_irrefl : (a : ℕ) → before h a a ≡ false
  before_irrefl a = ground arith

  pub before_trans : (a b c : ℕ) → before h a b ≡ true → before h b c ≡ true → before h a c ≡ true
  before_trans a b c p q = ground arith

  pub before_asymm : (a b : ℕ) → before h a b ≡ true → before h b a ≡ false
  before_asymm a b p = ground arith

  pub before_total : (a b : ℕ) → before h a b ≡ false → before h b a ≡ false → a ≡ b
  before_total a b p q = ground arith

  pub All-before_trans :
      (a b : ℕ) (xs : List ℕ)
      → before h a b ≡ true
      → All (λ y. before h b y ≡ true) xs
      → All (λ y. before h a y ≡ true) xs
  All-before_trans a b [] p q = tt
  All-before_trans a b (x ∷ xs) p q = (before_trans a b x p (q.0), All-before_trans a b xs p (q.1))

  -- Nothing after `a` is `a`.
  pub not_mem_after : (a : ℕ) (xs : List ℕ) → All (λ y. before h a y ≡ true) xs → mem a xs ≡ false
  not_mem_after a [] p = refl
  not_mem_after a (x ∷ xs) p = ground (arith, before_irrefl a, not_mem_after a xs)

  -- The set's membership after an insertion.
  pub mem-set_insert : (a b : ℕ) (xs : List ℕ) → mem b (set_insert h a xs) ≡ (b == a || mem b xs)
  unfolding set_insert
  mem-set_insert a b [] = refl
  mem-set_insert a b (x ∷ xs) = ground (arith, before_total a x, mem-set_insert a b xs)

  All-set_insert :
      (a b : ℕ) (xs : List ℕ)
      → before h b a ≡ true
      → All (λ y. before h b y ≡ true) xs
      → All (λ y. before h b y ≡ true) (set_insert h a xs)
  unfolding set_insert
  All-set_insert a b [] p q = (p, tt)
  All-set_insert a b (x ∷ xs) p q = ground (arith, All-set_insert a b xs)

  pub set_insert-IsSorted : (a : ℕ) (xs : List ℕ) → IsSorted h xs → IsSorted h (set_insert h a xs)
  unfolding set_insert
  set_insert-IsSorted a [] s = (tt, tt)
  set_insert-IsSorted a (x ∷ xs) s = elim (Bool-cases (before h x a)) [
    | inl lt ↦ rw lt (All-set_insert a x xs lt (s.0), set_insert-IsSorted a xs (s.1))
    | inr ge ↦ rw ge (elim (Bool-cases (before h a x)) [
      | inl lt ↦ rw lt ((lt, All-before_trans a x xs lt (s.0)), s)
      | inr ge' ↦ rw ge' s
    ])
  ]

abbrev pub without : ℕ → List ℕ → List ℕ
without a = keep (λ b. not (b == a))

pub mem-keep : (p : ℕ → Bool) (b : ℕ) (xs : List ℕ) → mem b (keep p xs) ≡ (p b && mem b xs)
mem-keep p b [] = ground arith
mem-keep p b (x ∷ xs) = elim (Bool-cases (b == x)) [
  | inl e ↦ let eq : b ≡ x = ground arith in rw eq (ground (arith, mem-keep p x xs))
  | inr e ↦ ground (arith, mem-keep p b xs)
]

pub All-keep {ℓ} : (P : ℕ → Type ℓ) (p : ℕ → Bool) (xs : List ℕ) → All P xs → All P (keep p xs)
All-keep P p [] h = tt
All-keep P p (x ∷ xs) h = elim (Bool-cases (p x)) [
  | inl e ↦ rw e (h.0, All-keep P p xs (h.1))
  | inr e ↦ rw e (All-keep P p xs (h.1))
]

module _ (h : ℕ → Timer) where
  pub keep-IsSorted : (p : ℕ → Bool) (xs : List ℕ) → IsSorted h xs → IsSorted h (keep p xs)
  keep-IsSorted p [] s = tt
  keep-IsSorted p (x ∷ xs) s = elim (Bool-cases (p x)) [
    | inl e ↦ rw e (All-keep _ p xs (s.0), keep-IsSorted p xs (s.1))
    | inr e ↦ rw e (keep-IsSorted p xs (s.1))
  ]

  without_after : (a : ℕ) (xs : List ℕ) → All (λ y. before h a y ≡ true) xs → without a xs ≡ xs
  without_after a [] p = refl
  without_after a (x ∷ xs) p = ground (arith, before_irrefl h a, without_after a xs)

  -- On a sorted set `find` finds exactly the members, and `erase` takes out that one.
  pub find_erase-without :
      (a : ℕ) (xs : List ℕ)
      → IsSorted h xs
      → find_erase h a xs ≡ (if mem a xs then some (without a xs) else none)
  unfolding find_erase
  find_erase-without a [] s = refl
  find_erase-without a (x ∷ xs) s = elim (Bool-cases (before h x a)) [
    | inl lt ↦ rw lt (rw (find_erase-without a xs (s.1)) (ground (arith, before_irrefl h a)))
    | inr ge ↦ rw ge (elim (Bool-cases (before h a x)) [
      | inl lt ↦ ground (arith, before_irrefl h a, All-before_trans h a x xs, not_mem_after h a xs)
      | inr ge' ↦ ground (arith, before_total h a x, without_after a xs)
    ])
  ]

  All-update :
      (a : ℕ) (t : Timer) (b : ℕ) (xs : List ℕ)
      → mem a xs ≡ false
      → (a == b) ≡ false
      → All (λ y. before h b y ≡ true) xs
      → All (λ y. before (update h a t) b y ≡ true) xs
  All-update a t b [] m e p = tt
  All-update a t b (x ∷ xs) m e p = ground (arith, All-update a t b xs)

  -- A timer that is not in the set can change without disturbing the set's order.
  pub update-IsSorted :
      (a : ℕ) (t : Timer) (xs : List ℕ)
      → mem a xs ≡ false
      → IsSorted h xs
      → IsSorted (update h a t) xs
  update-IsSorted a t [] m s = tt
  update-IsSorted a t (x ∷ xs) m s = (
    All-update a t x xs (ground arith) (ground arith) (s.0),
    update-IsSorted a t xs (ground arith) (s.1),
  )

-- Only the times and the addresses decide what `find` finds.
pub find_erase_next :
    (h h' : ℕ → Timer) (a : ℕ) (xs : List ℕ)
    → ((b : ℕ) → (h b).next ≡ (h' b).next)
    → find_erase h a xs ≡ find_erase h' a xs
unfolding find_erase
find_erase_next h h' a [] e = refl
find_erase_next h h' a (x ∷ xs) e = ground (arith, e a, e x, find_erase_next h h' a xs e)
