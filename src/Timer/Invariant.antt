-- ===== src/Timer/Invariant.antt =====
-- The invariant of the timer queue over any history of calls, src/timer.cc.
use ztyco.Base.{
  ℕ, ◌≡◌, refl, sym, ◌∙◌, subst, inl, inr, Bool, true, false, not, ◌&&◌, ◌||◌, Option, none, some,
  List, [], ◌∷◌, ◌==◌, mem, All, arith, update, Bool-cases,
}
use ztyco.Timer.{
  Timer, Manager, Func, null, on_timer, is_set, set_insert, init, add_timer, add_condition_timer,
  cancel, refresh, reset, get_next_timer, detect_clock_rollover, list_expired_cb, find_erase,
}
use ztyco.Timer.Order.{
  IsSorted, without, mem-keep, keep-IsSorted, mem-set_insert, set_insert-IsSorted, update-IsSorted,
  find_erase-without, find_erase_next,
}
use ztyco.Timer.Expiry.{is_due, is_later, taken, left, list_expired_cb-rearm}
use ztyco.Timer.Rearm.{
  IsDistinct, IsApart, IsSorted-IsDistinct, rearm_heap, mem-rearm, rearm-IsSorted,
}

-- The set is in order, and holds exactly the timers that have a callback.
pub record Inv (m : Manager) : Type 0 where
  pub sorted : IsSorted m.heap m.timers
  pub armed : (a : ℕ) → mem a m.timers ≡ is_set (m.heap a).cb

-- The calls, each with the clock's reading. `tmp` is the address of `now_timer`.
pub data Op : Type 0 where
  add : ℕ → ℕ → Func → Bool → ℕ → Op
  add_condition : ℕ → ℕ → Func → ℕ → Bool → ℕ → Op
  cancels refreshes : ℕ → ℕ → Op
  resets : ℕ → ℕ → Bool → ℕ → Op
  next expire_all : ℕ → ℕ → Op

abbrev pub step : Manager → Op → Option Manager
step m (add a ms cb r now) = some (add_timer m a ms cb r now).0
step m (add_condition a ms cb w r now) = some (add_condition_timer m a ms cb w r now).0
step m (cancels a now) = elim (cancel m a) [ none ↦ none | some r ↦ some (r.0) ]
step m (refreshes a now) = some (refresh m a now).0
step m (resets a ms from_now now) = some (reset m a ms from_now now).0
step m (next tmp now) = some (get_next_timer m now).0
step m (expire_all tmp now) = some (list_expired_cb m tmp now).0

-- A new timer's address is not that of a timer in use, and it is given a callback.
abbrev pub Admits : Manager → Op → Type 0
Admits m (add a ms cb r now) = (is_set cb ≡ true) × (is_set (m.heap a).cb ≡ false)
Admits m (add_condition a ms cb w r now) = is_set (m.heap a).cb ≡ false
Admits m (cancels a now) = Unit
Admits m (refreshes a now) = Unit
Admits m (resets a ms from_now now) = Unit
Admits m (next tmp now) = Unit
Admits m (expire_all tmp now) = is_set (m.heap tmp).cb ≡ false

All-of_mem {ℓ} : (P : ℕ → Type ℓ) (xs : List ℕ) → ((a : ℕ) → mem a xs ≡ true → P a) → All P xs
All-of_mem P [] f = tt
All-of_mem P (x ∷ xs) f = (f x (ground arith), All-of_mem P xs (λ a h. f a (ground arith)))

module _ (m : Manager) (now : ℕ) where
  abbrev pub goes : ℕ → Bool
  goes a = (detect_clock_rollover m now).1 || is_due m.heap now a

  pub mem-taken : (a : ℕ) → mem a (taken m now) ≡ (goes a && mem a m.timers)
  mem-taken a = elim (Bool-cases (detect_clock_rollover m now).1) [
    | inl b ↦ rw b refl
    | inr b ↦ rw b (mem-keep (is_due m.heap now) a m.timers)
  ]

  pub mem-left : (a : ℕ) → mem a (left m now) ≡ (not (goes a) && mem a m.timers)
  mem-left a = elim (Bool-cases (detect_clock_rollover m now).1) [
    | inl b ↦ rw b refl
    | inr b ↦ rw b (mem-keep (is_later m.heap now) a m.timers)
  ]

  taken-IsSorted : IsSorted m.heap m.timers → IsSorted m.heap (taken m now)
  taken-IsSorted s = elim (Bool-cases (detect_clock_rollover m now).1) [
    | inl b ↦ rw b s
    | inr b ↦ rw b (keep-IsSorted m.heap (is_due m.heap now) m.timers s)
  ]

  left-IsSorted : IsSorted m.heap m.timers → IsSorted m.heap (left m now)
  left-IsSorted s = elim (Bool-cases (detect_clock_rollover m now).1) [
    | inl b ↦ rw b tt
    | inr b ↦ rw b (keep-IsSorted m.heap (is_later m.heap now) m.timers s)
  ]

  pub taken-IsDistinct : IsSorted m.heap m.timers → IsDistinct (taken m now)
  taken-IsDistinct s = IsSorted-IsDistinct m.heap _ (taken-IsSorted s)

  taken-IsApart : IsApart (taken m now) (left m now)
  taken-IsApart = All-of_mem _ (taken m now) (λ a h. ground (arith, mem-taken a, mem-left a))

  expire_all-Inv :
      (tmp : ℕ) → Inv m → is_set (m.heap tmp).cb ≡ false → Inv (list_expired_cb m tmp now).0
  expire_all-Inv tmp v f =
      let d = taken-IsDistinct v.sorted in
      rw (list_expired_cb-rearm m tmp now (v.armed tmp ∙ f) v.sorted) (record {
        sorted =
            rearm-IsSorted now m.heap (left m now) (taken m now) d taken-IsApart
              (left-IsSorted v.sorted);
        armed = λ a.
            rw
              (
                mem-rearm now m.heap (left m now) (taken m now) a d,
                rearm_heap now m.heap (left m now) (taken m now) a d,
                mem-taken a,
                mem-left a,
                v.armed a,
              )
              (ground arith);
      })

pub init-Inv : (h : ℕ → Timer) (now : ℕ) → ((a : ℕ) → is_set (h a).cb ≡ false) → Inv (init h now)
unfolding init
init-Inv h now e = record { sorted = tt; armed = λ a. sym (e a) }

-- Putting a timer that is not in the set into it.
insert-Inv :
    (m : Manager) (a : ℕ) (t : Timer) (ts : List ℕ) (b : Bool) (p : ℕ)
    → IsSorted m.heap ts
    → is_set t.cb ≡ true
    → ((c : ℕ) → mem c ts ≡ (is_set (m.heap c).cb && not (c == a)))
    → Inv (record {
      heap = update m.heap a t;
      timers = set_insert (update m.heap a t) a ts;
      tickled = b;
      previous = p;
    })
insert-Inv m a t ts b p s e out = record {
  sorted = set_insert-IsSorted _ a ts (update-IsSorted m.heap a t ts (ground (arith, out a)) s);
  armed = λ c. mem-set_insert _ a c ts ∙ ground (arith, out c);
}

pub add_timer-Inv :
    (m : Manager) (a ms now : ℕ) (cb : Func) (r : Bool)
    → Inv m
    → is_set cb ≡ true
    → is_set (m.heap a).cb ≡ false
    → Inv (add_timer m a ms cb r now).0
unfolding add_timer
add_timer-Inv m a ms now cb r v e f = insert-Inv m a _ m.timers _ _ v.sorted e (λ c.
    elim (Bool-cases (c == a)) [
      | inl same ↦ let eq : c ≡ a = ground arith in rw eq (ground (arith, v.armed a))
      | inr other ↦ ground (arith, v.armed c)
    ])

pub mem-without :
    (m : Manager) (a c : ℕ)
    → Inv m
    → mem c (without a m.timers) ≡ (is_set (m.heap c).cb && not (c == a))
mem-without m a c v = mem-keep _ c m.timers ∙ rw (v.armed c) (ground arith)

-- `find` finds a timer that has a callback.
pub find_erase-Inv :
    (m : Manager) (a : ℕ)
    → Inv m
    → is_set (m.heap a).cb ≡ true
    → find_erase m.heap a m.timers ≡ some (without a m.timers)
find_erase-Inv m a v e = find_erase-without m.heap a m.timers v.sorted ∙ rw (v.armed a, e) refl

keep_not-IsSorted : (m : Manager) (a : ℕ) → Inv m → IsSorted m.heap (without a m.timers)
keep_not-IsSorted m a v = keep-IsSorted m.heap _ m.timers v.sorted

-- `cancel` of an armed timer.
pub cancel_armed :
    (m : Manager) (a : ℕ)
    → Inv m
    → is_set (m.heap a).cb ≡ true
    → cancel m a
      ≡ some (
        record m {
          heap = update m.heap a (record (m.heap a) { cb = null });
          timers = without a m.timers;
        },
        true,
      )
unfolding cancel
cancel_armed m a v e = rw e (rw (find_erase_null) refl)
  where
    find_erase_null :
        find_erase (update m.heap a (record (m.heap a) { cb = null })) a m.timers
        ≡ some (without a m.timers)
    find_erase_null =
        find_erase_next (update m.heap a (record (m.heap a) { cb = null })) m.heap a m.timers
          (λ b. ground arith)
        ∙ find_erase-Inv m a v e

cancel-Inv :
    (m : Manager) (a : ℕ) → Inv m → (r : Manager × Bool) × (cancel m a ≡ some r) × Inv (r.0)
cancel-Inv m a v = elim (Bool-cases (is_set (m.heap a).cb)) [
  | inl e ↦ (
    _,
    cancel_armed m a v e,
    record {
      sorted =
          update-IsSorted m.heap a _ _ (ground (arith, mem-without m a a v))
            (keep_not-IsSorted m a v);
      armed = λ c. mem-without m a c v ∙ ground arith;
    },
  )
  | inr e ↦ ((m, false), unfold cancel in rw e refl, v)
]

refresh-Inv : (m : Manager) (a now : ℕ) → Inv m → Inv (refresh m a now).0
unfolding refresh
refresh-Inv m a now v = elim (Bool-cases (is_set (m.heap a).cb)) [
  | inl e ↦ rw e (
      rw (find_erase-Inv m a v e) (
        insert-Inv m a _ (without a m.timers) _ _ (keep_not-IsSorted m a v) e
          (λ c. mem-without m a c v)))
  | inr e ↦ rw e v
]

reset-Inv :
    (m : Manager) (a ms now : ℕ) (from_now : Bool) → Inv m → Inv (reset m a ms from_now now).0
unfolding reset
reset-Inv m a ms now from_now v = elim (Bool-cases (ms == (m.heap a).ms && not from_now)) [
  | inl same ↦ rw same v
  | inr other ↦ rw other (elim (Bool-cases (is_set (m.heap a).cb)) [
    | inl e ↦ rw e (
        rw (find_erase-Inv m a v e) (
          insert-Inv m a _ (without a m.timers) _ _ (keep_not-IsSorted m a v) e
            (λ c. mem-without m a c v)))
    | inr e ↦ rw e v
  ])
]

-- Every admitted call is free of undefined behaviour, and keeps the set in order and in step with
-- the callbacks.
pub step-Inv :
    (m : Manager) (op : Op) → Inv m → Admits m op → (m' : Manager) × (step m op ≡ some m') × Inv m'
step-Inv m (add a ms cb r now) v h = (_, refl, add_timer-Inv m a ms now cb r v (h.0) (h.1))
step-Inv m (add_condition a ms cb w r now) v h =
    (_, refl, unfold add_condition_timer in add_timer-Inv m a ms now (on_timer w cb) r v refl h)
step-Inv m (cancels a now) v h = let (r, e, w) = cancel-Inv m a v in (r.0, rw (e, step) refl, w)
step-Inv m (refreshes a now) v h = (_, refl, refresh-Inv m a now v)
step-Inv m (resets a ms from_now now) v h = (_, refl, reset-Inv m a ms now from_now v)
step-Inv m (next tmp now) v h =
    (_, refl, unfold get_next_timer in record { sorted = v.sorted; armed = v.armed })
step-Inv m (expire_all tmp now) v h = (_, refl, expire_all-Inv m now tmp v h)

-- The managers that a history of admitted calls reaches from a new one.
pub data Reach : Manager → Type 0 where
  start : (h : ℕ → Timer) (now : ℕ) → ((a : ℕ) → is_set (h a).cb ≡ false) → Reach (init h now)
  call : {m m' : Manager} (op : Op) → Reach m → Admits m op → step m op ≡ some m' → Reach m'

pub Reach-Inv : {m : Manager} → Reach m → Inv m
Reach-Inv (start h now e) = init-Inv h now e
Reach-Inv (call {m} {m'} op r a e) =
    let (m'', e', v) = step-Inv m op (Reach-Inv r) a in let same : m'' ≡ m' = cc in subst Inv same v
