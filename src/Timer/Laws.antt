-- ===== src/Timer/Laws.antt =====
-- What the operations of the timer queue promise, src/timer.cc.
use ztyco.Base.{
  ℕ, ◌+◌, ◌-◌, ◌*◌, ◌^◌, ◌≤◌, ◌<◌, ◌≡◌, ◌↔◌, ◌⊎◌, refl, ◌∙◌, inl, inr, Bool, true, false, not, ◌&&◌,
  ◌||◌, Option, some, List, [], ◌∷◌, map, ◌==◌, if◌then◌else◌, mem, All, arith, update, Bool-cases,
  is_empty,
}
use ztyco.Timer.{
  Timer, Manager, Func, is_set, compare_ptr, before, set_insert, expire, add_timer, cancel, refresh,
  reset, next_in, get_next_timer, detect_clock_rollover, list_expired_cb, no_timeout, u64, is_front,
}
use ztyco.Timer.Order.{IsSorted, without, mem-set_insert}
use ztyco.Timer.Expiry.{taken, left, list_expired_cb-rearm}
use ztyco.Timer.Rearm.{rearm_callbacks, rearm_heap, mem-rearm}
use ztyco.Timer.Invariant.{
  Inv, goes, mem-taken, mem-left, taken-IsDistinct, cancel_armed, mem-without, find_erase-Inv,
}

-- `Timer::Comparator` is a strict total order on pointers, the null pointer among them.
pub compare_ptr_order :
    (h : ℕ → Timer) (p q r : Option ℕ)
    → (compare_ptr h p p ≡ false)
      × (compare_ptr h p q ≡ true → compare_ptr h q r ≡ true → compare_ptr h p r ≡ true)
      × (compare_ptr h p q ≡ false → compare_ptr h q p ≡ false → p ≡ q)
unfolding compare_ptr
compare_ptr_order h p q r = (ground arith, ground arith, ground arith)

-- In a sound manager `listExpiredCb` hands out, in order, the callbacks of the timers that have
-- gone: all of them where the clock has rolled over, those due otherwise. A recurring one is put
-- back with a fresh deadline, another loses its callback and leaves the set, and no other timer
-- changes. The temporary timer has no callback.
pub list_expired_cb_lem :
    (m : Manager) (tmp now : ℕ)
    → Inv m
    → is_set (m.heap tmp).cb ≡ false
    → let r = list_expired_cb m tmp now in
      (r.1 ≡ map (λ a. (m.heap a).cb) (taken m now))
      × ((a : ℕ)
          → (r.0.heap a
              ≡ (if goes m now a && is_set (m.heap a).cb then expire now (m.heap a) else m.heap a))
            × (mem a r.0.timers
                ≡ (is_set (m.heap a).cb && (not (goes m now a) || (m.heap a).recurring))))
list_expired_cb_lem m tmp now v f =
    let d = taken-IsDistinct m now v.sorted in
    rw (list_expired_cb-rearm m tmp now (v.armed tmp ∙ f) v.sorted) (
      rearm_callbacks now m.heap (left m now) (taken m now) d,
      λ a. (
        rearm_heap now m.heap (left m now) (taken m now) a d
            ∙ rw (mem-taken m now a, v.armed a) refl,
        mem-rearm now m.heap (left m now) (taken m now) a d
            ∙ rw (mem-taken m now a, mem-left m now a, v.armed a) (ground arith),
      ),
    )

-- The first timer of a sorted set has the earliest time.
first_earliest :
    (h : ℕ → Timer) (x a : ℕ) (xs : List ℕ)
    → All (λ y. before h x y ≡ true) xs
    → mem a (x ∷ xs) ≡ true
    → (h x).next ≤ (h a).next
first_earliest h x a [] s e = ground arith
first_earliest h x a (y ∷ xs) s e = elim (Bool-cases (a == y)) [
  | inl same ↦ let eq : a ≡ y = ground arith in rw eq (ground arith)
  | inr other ↦ first_earliest h x a xs (s.1) (ground arith)
]

-- What `getNextTimer` returns, against the set's list.
IsNext : Manager → ℕ → ℕ → List ℕ → Type 0
IsNext m now r ts =
    ((ts ≡ []) × (r ≡ no_timeout))
    ⊎ ((b : ℕ) × (is_set (m.heap b).cb ≡ true)
        × (r ≡ (m.heap b).next - now)
        × ((a : ℕ) → is_set (m.heap a).cb ≡ true → r ≤ (m.heap a).next - now))

next_in-IsNext :
    (m : Manager) (now : ℕ) (ts : List ℕ)
    → IsSorted m.heap ts
    → ((a : ℕ) → mem a ts ≡ is_set (m.heap a).cb)
    → IsNext m now (next_in m.heap now ts) ts
unfolding next_in IsNext
next_in-IsNext m now [] s v = inl (refl, refl)
next_in-IsNext m now (x ∷ xs) s v = inr (
  x,
  ground (arith, v x),
  ground arith,
  λ a e. ground (arith, first_earliest m.heap x a xs (s.0), v a),
)

-- `getNextTimer` is `~0` where no timer is armed, and otherwise the time left until the earliest
-- armed timer, 0 if it is due; it clears the front mark and leaves the timers alone.
pub get_next_timer_lem :
    (m : Manager) (now : ℕ)
    → Inv m
    → let r = get_next_timer m now in
      (((m.timers ≡ []) × (r.1 ≡ no_timeout))
        ⊎ ((b : ℕ) × (is_set (m.heap b).cb ≡ true)
            × (r.1 ≡ (m.heap b).next - now)
            × ((a : ℕ) → is_set (m.heap a).cb ≡ true → r.1 ≤ (m.heap a).next - now)))
      × (r.0 ≡ record m { tickled = false })
unfolding get_next_timer IsNext
get_next_timer_lem m now v = (next_in-IsNext m now m.timers v.sorted v.armed, refl)

-- Cancelling an armed timer succeeds once: its callback is gone, the timer is in no later expiry,
-- every other timer stays as it was, and a second call returns false and changes nothing.
cancel_once :
    (m : Manager) (a : ℕ)
    → Inv m
    → is_set (m.heap a).cb ≡ true
    → (m' : Manager) × (cancel m a ≡ some (m', true))
      × (mem a m'.timers ≡ false)
      × ((b : ℕ) → (b == a) ≡ false → (m'.heap b ≡ m.heap b) × (mem b m'.timers ≡ mem b m.timers))
      × (cancel m' a ≡ some (m', false))
cancel_once m a v e = (
  _,
  cancel_armed m a v e,
  mem-without m a a v ∙ ground arith,
  λ b n. (ground arith, mem-without m a b v ∙ rw (v.armed b) (ground arith)),
  unfold cancel in ground arith,
)

-- From an hour after the epoch on, `detectClockRollover` holds where the clock has gone back by
-- more than an hour, and it remembers the reading.
pub detect_clock_rollover_lem :
    (m : Manager) (now : ℕ)
    → 60 * 60 * 1000 ≤ m.previous
    → m.previous < 2 ^ 64
    → ((detect_clock_rollover m now).1 ≡ true ↔ (now + 60 * 60 * 1000 < m.previous))
      × ((detect_clock_rollover m now).0.previous ≡ now)
unfolding detect_clock_rollover
detect_clock_rollover_lem m now h l = (ground arith, refl)

-- In the first hour after the epoch every step back counts as a rollover.
pub detect_clock_rollover_early :
    (m : Manager) (now : ℕ)
    → m.previous < 60 * 60 * 1000
    → now < m.previous
    → (detect_clock_rollover m now).1 ≡ true
unfolding detect_clock_rollover
detect_clock_rollover_early m now h l = ground arith

front-cons :
    (h : ℕ → Timer) (now a : ℕ) (ts : List ℕ)
    → is_empty ts ≡ false
    → is_front a (set_insert h a ts) ≡ false
    → next_in h now (set_insert h a ts) ≡ next_in h now ts
unfolding set_insert next_in
front-cons h now a [] n f = cc
front-cons h now a (x ∷ xs) n f = ground arith

-- A new timer that leaves the first place alone changes no deadline that `getNextTimer` reports;
-- one that takes it is announced, unless an announcement is already pending.
pub add_timer_announced :
    (m : Manager) (a ms now later : ℕ) (cb : Func) (rec : Bool)
    → Inv m
    → is_set (m.heap a).cb ≡ false
    → let r = add_timer m a ms cb rec now in
      (r.0.tickled ≡ (r.1 || m.tickled))
      × (r.1 ≡ true → m.tickled ≡ false)
      × (r.1 ≡ false
          → m.tickled ≡ false
          → (get_next_timer (r.0) later).1 ≡ (get_next_timer m later).1)
unfolding add_timer get_next_timer
add_timer_announced m a ms now later cb rec v f =
    (refl, ground arith, λ quiet idle. unchanged m.timers quiet idle v.sorted (v.armed a ∙ f))
  where
    t : Timer
    t = record { recurring = rec; ms = ms; next = u64 (now + ms); cb = cb }

    unchanged :
        (ts : List ℕ)
        → (is_front a (set_insert (update m.heap a t) a ts) && not m.tickled) ≡ false
        → m.tickled ≡ false
        → IsSorted m.heap ts
        → mem a ts ≡ false
        → next_in (update m.heap a t) later (set_insert (update m.heap a t) a ts)
          ≡ next_in m.heap later ts
    unchanged [] quiet idle s out = unfold set_insert in ground (arith)
    unchanged (x ∷ xs) quiet idle s out =
        front-cons (update m.heap a t) later a (x ∷ xs) refl (ground arith)
        ∙ unfold next_in in ground arith

-- Taking an armed timer out and putting it back leaves the same members.
mem_reinsert :
    (m : Manager) (h : ℕ → Timer) (a b : ℕ)
    → Inv m
    → is_set (m.heap a).cb ≡ true
    → mem b (set_insert h a (without a m.timers)) ≡ mem b m.timers
mem_reinsert m h a b v e =
    mem-set_insert h a b (without a m.timers)
    ∙ rw (mem-without m a b v, v.armed b)
        (elim (Bool-cases (b == a)) [
          | inl same ↦ let eq : b ≡ a = ground arith in rw eq (ground arith)
          | inr other ↦ ground arith
        ])

-- `refresh` of an armed timer succeeds, gives it a full period from now, keeps it in the set, and
-- leaves every other timer alone; of a timer that has no callback it fails and changes nothing.
pub refresh_lem :
    (m : Manager) (a now : ℕ)
    → Inv m
    → let r = refresh m a now in
      (r.1 ≡ is_set (m.heap a).cb)
      × ((b : ℕ)
          → (r.0.heap b ≡ (
              if b == a && is_set (m.heap a).cb
              then record (m.heap a) { next = u64 (now + (m.heap a).ms) }
              else m.heap b))
            × (mem b r.0.timers ≡ mem b m.timers))
unfolding refresh
refresh_lem m a now v = elim (Bool-cases (is_set (m.heap a).cb)) [
  | inl e ↦ rw e (
      rw (find_erase-Inv m a v e) (
        refl,
        λ b. (
          ground arith,
          mem_reinsert m (update m.heap a (record (m.heap a) { next = u64 (now + (m.heap a).ms) }))
              a b v e,
        ),
      ))
  | inr e ↦ rw e (refl, λ b. (ground arith, refl))
]

-- In a well-formed manager, `reset` of an armed timer that asks for a change succeeds, gives it
-- the new period, counted from now or from the start of the running one, and leaves it in the
-- set of timers. Its deadline is below 2 ^ 64 and not before its period.
reset_lem :
    (m : Manager) (a ms now : ℕ) (from_now : Bool)
    → Inv m
    → is_set (m.heap a).cb ≡ true
    → (ms == (m.heap a).ms && not from_now) ≡ false
    → (m.heap a).next < 2 ^ 64
    → (m.heap a).ms ≤ (m.heap a).next
    → let r = reset m a ms from_now now in
      (r.1 ≡ true)
      × ((r.0.heap a).ms ≡ ms)
      × ((r.0.heap a).next ≡ u64 ((if from_now then now else (m.heap a).next - (m.heap a).ms) + ms))
      × (mem a r.0.timers ≡ true)
unfolding reset
reset_lem m a ms now from_now v e c l k =
    let start = if from_now then now else u64 ((m.heap a).next + 2 ^ 64 - (m.heap a).ms) in
    let t = record (m.heap a) { ms = ms; next = u64 (start + ms) } in
    rw c (
      rw e (
        rw (find_erase-Inv m a v e) (
          refl,
          ground arith,
          ground arith,
          mem_reinsert m (update m.heap a t) a a v e ∙ v.armed a ∙ e,
        )))
