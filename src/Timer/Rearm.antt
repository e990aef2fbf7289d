-- ===== src/Timer/Rearm.antt =====
-- The loop of `TimerManager::listExpiredCb` over the expired timers, src/timer.cc.
use ztyco.Base.{
  ℕ, ◌≡◌, refl, ◌∙◌, ap, inl, inr, Bool, true, false, ◌&&◌, ◌||◌, List, [], ◌∷◌, map, ◌==◌,
  if◌then◌else◌, mem, All, arith, update, Bool-cases,
}
use ztyco.Timer.{Timer, set_insert, expire, rearm}
use ztyco.Timer.Order.{
  IsSorted, not_mem_after, mem-set_insert, set_insert-IsSorted, update-IsSorted,
}

-- No pointer stands twice.
abbrev pub IsDistinct : List ℕ → Type 0
IsDistinct [] = Unit
IsDistinct (x ∷ xs) = (mem x xs ≡ false) × IsDistinct xs

pub IsSorted-IsDistinct : (h : ℕ → Timer) (xs : List ℕ) → IsSorted h xs → IsDistinct xs
IsSorted-IsDistinct h [] s = tt
IsSorted-IsDistinct h (x ∷ xs) s = (not_mem_after h x xs (s.0), IsSorted-IsDistinct h xs (s.1))

-- None of the first list stands in the second.
abbrev pub IsApart : List ℕ → List ℕ → Type 0
IsApart es ts = All (λ y. mem y ts ≡ false) es

IsApart-set_insert :
    (h : ℕ → Timer) (a : ℕ) (es ts : List ℕ)
    → mem a es ≡ false
    → IsApart es ts
    → IsApart es (set_insert h a ts)
IsApart-set_insert h a [] ts m d = tt
IsApart-set_insert h a (e ∷ es) ts m d =
    (ground (arith, mem-set_insert h a e ts), IsApart-set_insert h a es ts (ground arith) (d.1))

maybe_insert-IsApart :
    (h : ℕ → Timer) (a : ℕ) (es ts : List ℕ) (b : Bool)
    → mem a es ≡ false
    → IsApart es ts
    → IsApart es (if b then set_insert h a ts else ts)
maybe_insert-IsApart h a es ts true m d = IsApart-set_insert h a es ts m d
maybe_insert-IsApart h a es ts false m d = d

maybe_insert-IsSorted :
    (h : ℕ → Timer) (a : ℕ) (ts : List ℕ) (b : Bool)
    → IsSorted h ts
    → IsSorted h (if b then set_insert h a ts else ts)
maybe_insert-IsSorted h a ts true s = set_insert-IsSorted h a ts s
maybe_insert-IsSorted h a ts false s = s

map-update :
    (h : ℕ → Timer) (a : ℕ) (t : Timer) (es : List ℕ)
    → mem a es ≡ false
    → map (λ b. (update h a t b).cb) es ≡ map (λ b. (h b).cb) es
map-update h a t [] m = refl
map-update h a t (e ∷ es) m = ground (arith, map-update h a t es)

module _ (now : ℕ) where
  -- The callbacks handed out are those the expired timers had, in order.
  pub rearm_callbacks :
      (h : ℕ → Timer) (ts es : List ℕ)
      → IsDistinct es
      → (rearm h now ts es).2 ≡ map (λ a. (h a).cb) es
  unfolding rearm
  rearm_callbacks h ts [] d = refl
  rearm_callbacks h ts (e ∷ es) d =
      let h' = update h e (expire now (h e)) in
      let ts' = if (h e).recurring then set_insert h' e ts else ts in
      ap (◌∷◌ ((h e).cb)) (rearm_callbacks h' ts' es (d.1) ∙ map-update h e _ es (d.0))

  -- Each expired timer is updated once, and no other.
  pub rearm_heap :
      (h : ℕ → Timer) (ts es : List ℕ) (b : ℕ)
      → IsDistinct es
      → (rearm h now ts es).0 b ≡ (if mem b es then expire now (h b) else h b)
  unfolding rearm
  rearm_heap h ts [] b d = refl
  rearm_heap h ts (e ∷ es) b d =
      let h' = update h e (expire now (h e)) in
      let ts' = if (h e).recurring then set_insert h' e ts else ts in
      rearm_heap h' ts' es b (d.1) ∙ (elim (Bool-cases (b == e)) [
        | inl same ↦ let eq : b ≡ e = ground arith in rw eq (ground arith)
        | inr other ↦ ground arith
      ])

  pub mem-rearm :
      (h : ℕ → Timer) (ts es : List ℕ) (b : ℕ)
      → IsDistinct es
      → mem b (rearm h now ts es).1 ≡ (mem b ts || (mem b es && (h b).recurring))
  unfolding rearm
  mem-rearm h ts [] b d = ground arith
  mem-rearm h ts (e ∷ es) b d =
      let h' = update h e (expire now (h e)) in
      let ts' = if (h e).recurring then set_insert h' e ts else ts in
      mem-rearm h' ts' es b (d.1) ∙ (elim (Bool-cases (b == e)) [
        | inl same ↦
            let eq : b ≡ e = ground arith in
            rw eq (ground (arith, mem-set_insert (update h e (expire now (h e))) e e ts))
        | inr other ↦ ground (arith, mem-set_insert (update h e (expire now (h e))) e b ts)
      ])

  pub rearm-IsSorted :
      (h : ℕ → Timer) (ts es : List ℕ)
      → IsDistinct es
      → IsApart es ts
      → IsSorted h ts
      → IsSorted (rearm h now ts es).0 (rearm h now ts es).1
  unfolding rearm
  rearm-IsSorted h ts [] d p s = s
  rearm-IsSorted h ts (e ∷ es) d p s =
      let h' = update h e (expire now (h e)) in
      let ts' = if (h e).recurring then set_insert h' e ts else ts in
      rearm-IsSorted h' ts' es (d.1) (maybe_insert-IsApart h' e es ts (h e).recurring (d.0) (p.1)) (
        maybe_insert-IsSorted h' e ts (h e).recurring
          (update-IsSorted h e (expire now (h e)) ts (p.0) s))
