-- ===== src/Timer.antt =====
-- The timer queue, src/timer.cc and include/timer.h.
-- A `Timer::ptr` is the address of its timer, a number; the manager carries the heap of timers.
-- `m_timers`, a `std::set` ordered by `Timer::Comparator`, is the list of its pointers in order,
-- and a `std::set` iterator is the rest of that list.
-- Times are `uint64_t` milliseconds; the clock's reading is an argument of each call. Each call is
-- one critical section of `m_mutex`. `none` is undefined behaviour, the erasure of `end()`.
pub mod Order
pub mod Invariant
pub mod Expiry
pub mod Rearm
pub mod Laws
mod Tests
use mathlib.Core.Option
use ztyco.Base.{
  ℕ, ◌+◌, ◌-◌, ◌*◌, ◌%◌, ◌^◌, Bool, true, false, not, ◌&&◌, ◌||◌, Option, none, some, List, [], ◌∷◌,
  ◌++◌, map, ltb, leb, ◌==◌, if◌then◌else◌, is_empty, update,
}

abbrev pub u64 : ℕ → ℕ
u64 n = n % 2 ^ 64

-- A `std::function<void()>`: empty, one of the user's, or `std::bind(&OnTimer, weak_cond, cb)`.
pub data Func : Type 0 where
  null : Func
  user : ℕ → Func
  on_timer : ℕ → Func → Func

abbrev pub is_set : Func → Bool
is_set null = false
is_set (user n) = true
is_set (on_timer w f) = true

-- The user callbacks that a call of a function runs, where `alive` tells which conditions the weak
-- pointers still find. Calling an empty function throws: it is never called by `OnTimer`'s users.
unfoldable pub invoke : (ℕ → Bool) → Func → List ℕ
invoke alive null = []
invoke alive (user n) = n ∷ []
invoke alive (on_timer w f) = let run = invoke alive f in if alive w then run else []

pub record Timer : Type 0 where
  pub recurring : Bool
  pub ms : ℕ
  pub next : ℕ
  pub cb : Func

pub record Manager : Type 0 where
  pub heap : ℕ → Timer
  pub timers : List ℕ
  pub tickled : Bool
  pub previous : ℕ

-- `Timer::Comparator` on two pointers that are not null.
abbrev pub before : (ℕ → Timer) → ℕ → ℕ → Bool
before h a b =
    if ltb (h a).next (h b).next then true else if ltb (h b).next (h a).next then false else ltb a b

-- `Timer::Comparator`, null pointers included.
unfoldable pub compare_ptr : (ℕ → Timer) → Option ℕ → Option ℕ → Bool
compare_ptr h none none = false
compare_ptr h none (some b) = true
compare_ptr h (some a) none = false
compare_ptr h (some a) (some b) = before h a b

-- `std::set::insert`: an element equivalent to a present one is not added.
pub set_insert : (ℕ → Timer) → ℕ → List ℕ → List ℕ
set_insert h a [] = a ∷ []
set_insert h a (x ∷ xs) =
    if before h x a then x ∷ set_insert h a xs else if before h a x then a ∷ x ∷ xs else x ∷ xs

-- `find` and the erasure of what it found; `none` where it returned `end()`.
pub find_erase : (ℕ → Timer) → ℕ → List ℕ → Option (List ℕ)
find_erase h a [] = none
find_erase h a (x ∷ xs) =
    if before h x a
    then Option.map (◌∷◌ x) (find_erase h a xs)
    else if before h a x
    then none
    else some xs

-- `std::set::lower_bound`, with the elements that it passed.
pub lower_bound : (ℕ → Timer) → ℕ → List ℕ → List ℕ × List ℕ
lower_bound h a [] = ([], [])
lower_bound h a (x ∷ xs) =
    let rest = lower_bound h a xs in if before h x a then (x ∷ rest.0, rest.1) else ([], x ∷ xs)

-- `while (it != m_timers.end() && (*it)->m_next == now_ms) ++it;`
pub skip_due : (ℕ → Timer) → ℕ → List ℕ → List ℕ × List ℕ
skip_due h now [] = ([], [])
skip_due h now (x ∷ xs) =
    let rest = skip_due h now xs in if (h x).next == now then (x ∷ rest.0, rest.1) else ([], x ∷ xs)

-- `TimerManager::TimerManager`.
unfoldable pub init : (ℕ → Timer) → ℕ → Manager
init h now = record { heap = h; timers = []; tickled = false; previous = now }

-- Whether `m_timers.insert(val).first` is `m_timers.begin()`.
abbrev pub is_front : ℕ → List ℕ → Bool
is_front a [] = false
is_front a (x ∷ xs) = a == x

-- `TimerManager::addTimer(val, lock)`, and whether it calls `onTimerInsertedAtFront`.
pub insert_timer : Manager → ℕ → Manager × Bool
unfolding set_insert
insert_timer m a =
    let timers = set_insert m.heap a m.timers in
    let at_front = is_front a timers && not m.tickled in
    (record m { timers = timers; tickled = at_front || m.tickled }, at_front)

-- `TimerManager::addTimer(ms, cb, recurring)`, its new timer at the address `a`.
unfoldable pub add_timer : Manager → ℕ → ℕ → Func → Bool → ℕ → Manager × Bool
unfolding insert_timer
add_timer m a ms cb recurring now =
    insert_timer
      (record m {
        heap =
            update m.heap a
              (record { recurring = recurring; ms = ms; next = u64 (now + ms); cb = cb });
      })
      a

-- `TimerManager::addConditionTimer`.
unfoldable pub add_condition_timer : Manager → ℕ → ℕ → Func → ℕ → Bool → ℕ → Manager × Bool
unfolding add_timer
add_condition_timer m a ms cb weak_cond recurring now =
    add_timer m a ms (on_timer weak_cond cb) recurring now

-- `Timer::cancel`. It erases what `find` returns, `end()` or not.
unfoldable pub cancel : Manager → ℕ → Option (Manager × Bool)
unfolding find_erase
cancel m a =
    let t = m.heap a in
    let h = update m.heap a (record t { cb = null }) in
    if is_set t.cb
    then Option.map (λ ts. (record m { heap = h; timers = ts }, true)) (find_erase h a m.timers)
    else some (m, false)

-- The part of `Timer::refresh` behind `find`.
pub refresh_found : Manager → ℕ → ℕ → Option (List ℕ) → Manager × Bool
refresh_found m a now none = (m, false)
refresh_found m a now (some ts) =
    let t = m.heap a in
    let h = update m.heap a (record t { next = u64 (now + t.ms) }) in
    (record m { heap = h; timers = set_insert h a ts }, true)

-- `Timer::refresh`.
unfoldable pub refresh : Manager → ℕ → ℕ → Manager × Bool
unfolding refresh_found set_insert find_erase
refresh m a now =
    if is_set (m.heap a).cb
    then refresh_found m a now (find_erase m.heap a m.timers)
    else (m, false)

-- The part of `Timer::reset` behind `find`: the manager, the result, and whether
-- `onTimerInsertedAtFront` is called.
pub reset_found : Manager → ℕ → ℕ → Bool → ℕ → Option (List ℕ) → Manager × Bool × Bool
reset_found m a ms from_now now none = (m, false, false)
reset_found m a ms from_now now (some ts) =
    let t = m.heap a in
    let start = if from_now then now else u64 (t.next + 2 ^ 64 - t.ms) in
    let h = update m.heap a (record t { ms = ms; next = u64 (start + ms) }) in
    let r = insert_timer (record m { heap = h; timers = ts }) a in (r.0, true, r.1)

-- `Timer::reset`.
unfoldable pub reset : Manager → ℕ → ℕ → Bool → ℕ → Manager × Bool × Bool
unfolding reset_found insert_timer find_erase
reset m a ms from_now now =
    if ms == (m.heap a).ms && not from_now
    then (m, true, false)
    else if is_set (m.heap a).cb
    then reset_found m a ms from_now now (find_erase m.heap a m.timers)
    else (m, false, false)

-- `~0ull`
abbrev pub no_timeout : ℕ
no_timeout = 2 ^ 64 - 1

pub next_in : (ℕ → Timer) → ℕ → List ℕ → ℕ
next_in h now [] = no_timeout
next_in h now (x ∷ xs) = if leb (h x).next now then 0 else (h x).next - now

-- `TimerManager::getNextTimer`.
unfoldable pub get_next_timer : Manager → ℕ → Manager × ℕ
unfolding next_in
get_next_timer m now = (record m { tickled = false }, next_in m.heap now m.timers)

-- `TimerManager::detectClockRollover`: the new `m_previousTime` and the result.
unfoldable pub detect_clock_rollover : Manager → ℕ → Manager × Bool
detect_clock_rollover m now = (
  record m { previous = now },
  ltb now m.previous && ltb now (u64 (m.previous + 2 ^ 64 - 60 * 60 * 1000)),
)

-- What the loop of `listExpiredCb` makes of an expired timer.
abbrev pub expire : ℕ → Timer → Timer
expire now t = if t.recurring then record t { next = u64 (now + t.ms) } else record t { cb = null }

-- The loop of `listExpiredCb` over `expired`: the heap, the set and the callbacks.
pub rearm : (ℕ → Timer) → ℕ → List ℕ → List ℕ → (ℕ → Timer) × List ℕ × List Func
unfolding set_insert
rearm h now timers [] = (h, timers, [])
rearm h now timers (a ∷ expired) =
    let h' = update h a (expire now (h a)) in
    let timers' = if (h a).recurring then set_insert h' a timers else timers in
    let r = rearm h' now timers' expired in (r.0, r.1, (h a).cb ∷ r.2)

-- The iterator range that `listExpiredCb` takes out; `tmp` is the address of `now_timer`.
pub split_expired : (ℕ → Timer) → ℕ → ℕ → Bool → List ℕ → List ℕ × List ℕ
unfolding lower_bound skip_due
split_expired h tmp now true timers = (timers, [])
split_expired h tmp now false timers =
    let now_timer : Timer = record { recurring = false; ms = 0; next = now; cb = null } in
    let lo = lower_bound (update h tmp now_timer) tmp timers in
    let eq = skip_due h now lo.1 in (lo.0 ++ eq.0, eq.1)

-- The first timer in the set is not due.
abbrev pub first_later : (ℕ → Timer) → ℕ → List ℕ → Bool
first_later h now [] = true
first_later h now (x ∷ xs) = ltb now (h x).next

-- `TimerManager::listExpiredCb`: the manager and the callbacks, in order.
unfoldable pub list_expired_cb : Manager → ℕ → ℕ → Manager × List Func
unfolding detect_clock_rollover split_expired rearm
list_expired_cb m tmp now =
    if is_empty m.timers
    then (m, [])
    else (let d = detect_clock_rollover m now in
        if not d.1 && first_later m.heap now m.timers
        then (d.0, [])
        else (let s = split_expired m.heap tmp now d.1 m.timers in
            let r = rearm m.heap now s.1 s.0 in (record (d.0) { heap = r.0; timers = r.1 }, r.2)))

-- `TimerManager::hasTimer`.
unfoldable pub has_timer : Manager → Bool
has_timer m = not (is_empty m.timers)
