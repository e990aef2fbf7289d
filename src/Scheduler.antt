-- ===== src/Scheduler.antt =====
-- The scheduler, src/scheduler.cc and include/scheduler.h.
-- A thread is its id; `-1` as a task's thread is `none`. Each critical section of `m_mutex` is one
-- function. A run of a fiber is seen by the state that it comes back with.
pub mod Round
pub mod Queue
pub mod Run
mod Tests
use ztyco.Timer.{Func, null, is_set, u64}
use ztyco.Fiber.{State, init, ready, hold, term, except, is_exec, is_idle}
use ztyco.Base.{
  ℕ, ◌+◌, ◌-◌, ◌^◌, Bool, true, false, not, ◌&&◌, ◌||◌, Option, none, some, List, [], ◌∷◌, ◌++◌,
  ◌==◌, if◌then◌else◌, is_empty, is_some, update, Outcome, ok, undefined, assert, ◌>>=◌, ◌>>◌,
}

-- `Scheduler::ScheduleTask`.
pub record Task : Type 0 where
  pub fiber : Option ℕ
  pub func : Func
  pub thread : Option ℕ

pub record Scheduler : Type 0 where
  pub tasks : List Task
  pub active : ℕ
  pub idle : ℕ
  pub stopping : Bool
  pub auto_stop : Bool
  pub thread_count : ℕ
  pub root_fiber : Option ℕ
  pub root_thread : Option ℕ

-- `Scheduler::Scheduler`: `root` is the caller's thread and the new `m_rootFiber`, where
-- `use_caller` holds. It asserts that there is a thread.
abbrev pub at_rest : ℕ → Option ℕ → Option ℕ → Scheduler
at_rest threads root_fiber root_thread = record {
  tasks = [];
  active = 0;
  idle = 0;
  stopping = true;
  auto_stop = false;
  thread_count = threads;
  root_fiber = root_fiber;
  root_thread = root_thread;
}

unfoldable pub create : ℕ → Option (ℕ × ℕ) → Option Scheduler
create threads none = if threads == 0 then none else some (at_rest threads none none)
create threads (some (fiber, thread)) =
    if threads == 0 then none else some (at_rest (threads - 1) (some fiber) (some thread))

abbrev pub fiber_task : ℕ → Option ℕ → Task
fiber_task f thread = record { fiber = some f; func = null; thread = thread }

abbrev pub func_task : Func → Option ℕ → Task
func_task f thread = record { fiber = none; func = f; thread = thread }

abbrev pub is_valid : Task → Bool
is_valid t = is_some t.fiber || is_set t.func

-- `Scheduler::scheduleNoLock`: the scheduler and `need_tickle`.
unfoldable pub schedule_no_lock : Scheduler → Task → Scheduler × Bool
schedule_no_lock s t =
    ((if is_valid t then record s { tasks = s.tasks ++ t ∷ [] } else s), is_empty s.tasks)

-- `Scheduler::schedule(fc, thread)`: whether it calls `tickle`.
unfoldable pub schedule : Scheduler → Task → Scheduler × Bool
unfolding schedule_no_lock
schedule s t = schedule_no_lock s t

-- `Scheduler::schedule(begin, end)`, from a `need_tickle` on.
pub schedule_from : Scheduler → Bool → List Task → Scheduler × Bool
schedule_from s need [] = (s, need)
schedule_from s need (t ∷ ts) =
    let (s', n) = schedule_no_lock s t in schedule_from s' (n || need) ts

unfoldable pub schedule_all : Scheduler → List Task → Scheduler × Bool
unfolding schedule_from
schedule_all s ts = schedule_from s false ts

-- `it->threadId != -1 && it->threadId != zz::GetThreadId()`
abbrev pub is_elsewhere : ℕ → Task → Bool
is_elsewhere me t = elim t.thread [ none ↦ false | some th ↦ not (th == me) ]

-- The search of `Scheduler::run` in the locked list: the task that it takes, the list that it
-- leaves, and `tickle_me`.
pub pick : ℕ → List Task → Option Task × List Task × Bool
pick me [] = (none, [], false)
pick me (t ∷ ts) =
    let (found, left, tickle_me) = pick me ts in
    if is_elsewhere me t then (found, t ∷ left, true) else (some t, ts, not (is_empty ts))

-- The locked part of `Scheduler::run`: the task, the scheduler and `tickle_me`.
unfoldable pub take_task : Scheduler → ℕ → Option Task × Scheduler × Bool
unfolding pick
take_task s me =
    let (found, left, tickle_me) = pick me s.tasks in
    (
      found,
      record s { tasks = left; active = if is_some found then u64 (s.active + 1) else s.active },
      tickle_me,
    )

abbrev pub is_over : State → Bool
is_over term = true
is_over except = true
is_over _ = false

abbrev pub is_term : State → Bool
is_term term = true
is_term _ = false

abbrev is_init : State → Bool
is_init init = true
is_init _ = false

abbrev pub is_ready : State → Bool
is_ready ready = true
is_ready _ = false

abbrev pub dec_active : Scheduler → Scheduler
dec_active s = record s { active = u64 (s.active + 2 ^ 64 - 1) }

-- `Scheduler::stopping`.
unfoldable pub is_stopping : Scheduler → Bool
is_stopping s = s.auto_stop && s.stopping && is_empty s.tasks && s.active == 0

-- `Scheduler::start`. It writes `m_threads[i]` for each thread of an empty `m_threads`.
unfoldable pub start : Scheduler → Outcome Scheduler
start s =
    if not s.stopping
    then ok s
    else if s.thread_count == 0
    then ok (record s { stopping = false })
    else undefined

-- What `Scheduler::stop` does before it joins the threads: the scheduler, the calls of `tickle`,
-- and whether it resumes `m_rootFiber`. `here` tells whether the calling thread's scheduler is
-- this one, and `root` is the state of `m_rootFiber`.
abbrev stop_rest : Scheduler → Bool → Outcome (Scheduler × ℕ × Bool)
stop_rest s here = do
  assert (if is_some s.root_thread then here else not here)
  let s' = record s { stopping = true }
  ok (
    s',
    (if is_some s.root_fiber then s.thread_count + 1 else s.thread_count),
    is_some s.root_fiber && not (is_stopping s'),
  )

unfoldable pub stop : Scheduler → State → Bool → Outcome (Scheduler × ℕ × Bool)
unfolding is_stopping
stop s root here =
    let s' = record s { auto_stop = true } in
    let s'' = record s' { stopping = true } in
    if is_some s.root_fiber && s.thread_count == 0 && (is_term root || is_init root)
    then (if is_stopping s'' then ok (s'', 0, false) else stop_rest s'' here)
    else stop_rest s' here
