-- ===== src/Timer/Expiry.antt =====
-- What `listExpiredCb` takes out of the set and what its loop puts back, src/timer.cc.
use ztyco.Base.{
  ℕ, ◌≡◌, refl, ap, inl, inr, ◌≤◌, ◌<◌, Bool, true, false, not, List, [], ◌∷◌, ◌++◌, ◌==◌, leb,
  if◌then◌else◌, mem, All, arith, update, Bool-cases, keep, is_empty,
}
use ztyco.Timer.{
  Timer, Manager, before, lower_bound, skip_due, rearm, split_expired, first_later,
  detect_clock_rollover, list_expired_cb,
}
use ztyco.Timer.Order.{IsSorted}

-- The timer is due at `now`.
abbrev pub is_due : (ℕ → Timer) → ℕ → ℕ → Bool
is_due h now a = leb (h a).next now

abbrev pub is_later : (ℕ → Timer) → ℕ → ℕ → Bool
is_later h now a = not (is_due h now a)

keep-All : (p : ℕ → Bool) (xs : List ℕ) → All (λ y. p y ≡ true) xs → keep p xs ≡ xs
keep-All p [] h = refl
keep-All p (x ∷ xs) h = rw (h.0) (ap (◌∷◌ x) (keep-All p xs (h.1)))

keep_none : (p : ℕ → Bool) (xs : List ℕ) → All (λ y. p y ≡ false) xs → keep p xs ≡ []
keep_none p [] h = refl
keep_none p (x ∷ xs) h = rw (h.0) (keep_none p xs (h.1))

module _ (h : ℕ → Timer) (now : ℕ) where
  later_after :
      (x : ℕ) (xs : List ℕ)
      → now < (h x).next
      → All (λ y. before h x y ≡ true) xs
      → All (λ y. is_due h now y ≡ false) xs × All (λ y. is_later h now y ≡ true) xs
  later_after x [] l s = (tt, tt)
  later_after x (y ∷ xs) l s =
      let ih = later_after x xs l (s.1) in ((ground arith, ih.0), (ground arith, ih.1))

  from_after :
      (x : ℕ) (xs : List ℕ)
      → now ≤ (h x).next
      → All (λ y. before h x y ≡ true) xs
      → All (λ y. now ≤ (h y).next) xs
  from_after x [] l s = tt
  from_after x (y ∷ xs) l s = (ground arith, from_after x xs l (s.1))

  skip_due-keep :
      (xs : List ℕ)
      → IsSorted h xs
      → All (λ y. now ≤ (h y).next) xs
      → skip_due h now xs ≡ (keep (is_due h now) xs, keep (is_later h now) xs)
  unfolding skip_due
  skip_due-keep [] s l = refl
  skip_due-keep (x ∷ xs) s l = elim (Bool-cases ((h x).next == now)) [
    | inl e ↦ ground (arith, skip_due-keep xs (s.1) (l.1))
    | inr e ↦
        let late = later_after x xs (ground arith) (s.0) in
        ground (arith, keep_none (is_due h now) xs (late.0), keep-All (is_later h now) xs (late.1))
  ]

  abbrev both : (ℕ → Timer) → ℕ → List ℕ → List ℕ × List ℕ
  both h' tmp xs = (
    (lower_bound h' tmp xs).0 ++ (skip_due h now (lower_bound h' tmp xs).1).0,
    (skip_due h now (lower_bound h' tmp xs).1).1,
  )

  both-keep :
      (tmp : ℕ) (t : Timer) (xs : List ℕ)
      → t.next ≡ now
      → mem tmp xs ≡ false
      → IsSorted h xs
      → both (update h tmp t) tmp xs ≡ (keep (is_due h now) xs, keep (is_later h now) xs)
  unfolding lower_bound
  both-keep tmp t [] e m s = unfold skip_due in refl
  both-keep tmp t (x ∷ xs) e m s = elim (Bool-cases (before (update h tmp t) x tmp)) [
    | inl lt ↦ rw lt (ground (arith, both-keep tmp t xs e (ground arith) (s.1)))
    | inr ge ↦ rw ge (
        skip_due-keep (x ∷ xs) s
          (let first : now ≤ (h x).next = ground arith in (first, from_after x xs first (s.0))))
  ]

  -- Without a rollover the range that is taken out is that of the due timers, in order.
  pub split_expired-keep :
      (tmp : ℕ) (xs : List ℕ)
      → mem tmp xs ≡ false
      → IsSorted h xs
      → split_expired h tmp now false xs ≡ (keep (is_due h now) xs, keep (is_later h now) xs)
  unfolding split_expired
  split_expired-keep tmp xs m s = both-keep tmp _ xs refl m s

-- Where the first timer is not due, none is.
pub first_later-keep :
    (h : ℕ → Timer) (now : ℕ) (xs : List ℕ)
    → IsSorted h xs
    → first_later h now xs ≡ true
    → (keep (is_due h now) xs ≡ []) × (keep (is_later h now) xs ≡ xs)
first_later-keep h now [] s l = (refl, refl)
first_later-keep h now (x ∷ xs) s l =
    let late = later_after h now x xs (ground arith) (s.0) in
    (
      ground (arith, keep_none (is_due h now) xs (late.0)),
      ground (arith, keep-All (is_later h now) xs (late.1)),
    )

-- The timers that a call of `listExpiredCb` takes out: all of them after a clock rollover, and
-- those that are due otherwise; and the timers that it leaves.
abbrev pub taken : Manager → ℕ → List ℕ
taken m now =
    if (detect_clock_rollover m now).1 then m.timers else keep (is_due m.heap now) m.timers

abbrev pub left : Manager → ℕ → List ℕ
left m now = if (detect_clock_rollover m now).1 then [] else keep (is_later m.heap now) m.timers

-- `listExpiredCb` is one run of its loop, whichever way it leaves.
pub list_expired_cb-rearm :
    (m : Manager) (tmp now : ℕ)
    → mem tmp m.timers ≡ false
    → IsSorted m.heap m.timers
    → let r = rearm m.heap now (left m now) (taken m now) in
      list_expired_cb m tmp now ≡ (
        record m {
          heap = r.0;
          timers = r.1;
          previous = if is_empty m.timers then m.previous else now;
        },
        r.2,
      )
unfolding list_expired_cb
list_expired_cb-rearm m tmp now fresh s = elim (Bool-cases (is_empty m.timers)) [
  | inl e ↦ let none_left : m.timers ≡ [] = ground arith in ground arith
  | inr e ↦ elim (Bool-cases (detect_clock_rollover m now).1) [
    | inl back ↦ ground arith
    | inr fwd ↦ ground (
      arith,
      first_later-keep m.heap now m.timers s,
      split_expired-keep m.heap now tmp m.timers fresh s,
    )
  ]
]
