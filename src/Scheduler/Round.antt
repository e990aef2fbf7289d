-- ===== src/Scheduler/Round.antt =====
-- One round of `Scheduler::run`, src/scheduler.cc.
use ztyco.Timer.{is_set, u64}
use ztyco.Fiber.{State, init, ready, hold, is_exec, is_idle}
use ztyco.Base.{
  ℕ, ◌+◌, ◌-◌, ◌^◌, Bool, true, false, not, ◌||◌, Option, none, some, if◌then◌else◌, is_some,
  update, Outcome, ok, assert, ◌>>=◌, ◌>>◌,
}
use ztyco.Scheduler.{
  Scheduler, Task, dec_active, fiber_task, is_over, is_ready, is_term, schedule_no_lock, take_task,
}

-- A worker thread of `Scheduler::run`: its id, its `func_fiber` and its `idle_fiber`.
pub record Worker : Type 0 where
  pub me : ℕ
  pub func_fiber : Option ℕ
  pub idle_fiber : ℕ

-- What surrounds one round: the states of the fibers, the state with which the fiber that is
-- switched to comes back, the scheduler as the others have changed it meanwhile, and the address
-- of a fiber that is made.
pub record Round : Type 0 where
  pub states : ℕ → State
  pub back : State
  pub meanwhile : Scheduler → Scheduler
  pub fresh : ℕ

-- The scheduler, the worker and the fibers' states behind one round; `continues` is false where
-- the loop ends, and `woke` tells whether a `schedule` of the round calls `tickle`.
pub record After : Type 0 where
  pub scheduler : Scheduler
  pub worker : Worker
  pub states : ℕ → State
  pub continues : Bool
  pub woke : Bool

-- What follows a `swapIn`: a fiber that is READY goes back into the queue. The pair is the
-- scheduler and whether `schedule` calls `tickle`.
unfoldable pub requeue : Round → ℕ → Scheduler → Scheduler × Bool
unfolding schedule_no_lock
requeue r f s = if is_ready r.back then schedule_no_lock s (fiber_task f none) else (s, false)

-- What follows `task.fiber->swapIn()`.
unfoldable pub fiber_after : Round → Worker → ℕ → Scheduler → After
unfolding requeue
fiber_after r w f s =
    let (s', woke) = requeue r f (dec_active (r.meanwhile s)) in
    record {
      scheduler = s';
      worker = w;
      states =
          update r.states f
            (if is_ready r.back then ready else if is_over r.back then r.back else hold);
      continues = true;
      woke = woke;
    }

-- A task that is a fiber.
unfoldable pub run_fiber : Round → Worker → ℕ → Scheduler → Outcome After
unfolding fiber_after
run_fiber r w f s = do assert (not (is_exec (r.states f))); ok (fiber_after r w f s)

-- A task that is a function is run in `func_fiber`, which is made or reset for it.
abbrev pub func_fiber_of : Round → Worker → ℕ
func_fiber_of r w = elim w.func_fiber [ some f ↦ f | none ↦ r.fresh ]

unfoldable pub run_func : Round → Worker → Scheduler → Outcome After
unfolding requeue
run_func r w s = do
  assert (not (is_some w.func_fiber) || is_idle (r.states (func_fiber_of r w)))
  let (s', woke) = requeue r (func_fiber_of r w) (dec_active (r.meanwhile s))
  ok (record {
    scheduler = s';
    worker = record w { func_fiber = if is_over r.back then some (func_fiber_of r w) else none };
    states =
        update r.states (func_fiber_of r w)
          (if is_ready r.back then ready else if is_over r.back then init else hold);
    continues = true;
    woke = woke;
  })

-- The round without a task: `idle_fiber` runs, and the loop ends once it has ended.
unfoldable pub run_idle : Round → Worker → Scheduler → Outcome After
run_idle r w s =
    let s' = r.meanwhile (record s { idle = u64 (s.idle + 1) }) in
    if is_term (r.states w.idle_fiber)
    then ok
        (record { scheduler = s; worker = w; states = r.states; continues = false; woke = false })
    else (do
      assert (not (is_exec (r.states w.idle_fiber)))
      ok (record {
        scheduler = record s' { idle = u64 (s'.idle + 2 ^ 64 - 1) };
        worker = w;
        states = update r.states w.idle_fiber (if is_over r.back then r.back else hold);
        continues = true;
        woke = false;
      }))

abbrev pub is_live : (ℕ → State) → Option ℕ → Bool
is_live states none = false
is_live states (some f) = not (is_over (states f))

-- What `Scheduler::run` does with the task that it has taken.
unfoldable pub dispatch : Round → Worker → Option Task → Scheduler → Outcome After
unfolding run_fiber run_func run_idle
dispatch r w none s = run_idle r w s
dispatch r w (some t) s =
    if is_live r.states t.fiber
    then elim t.fiber [ some f ↦ run_fiber r w f s | none ↦ run_func r w s ]
    else if is_set t.func
    then run_func r w s
    else ok (record {
      scheduler = dec_active s;
      worker = w;
      states = r.states;
      continues = true;
      woke = false;
    })

-- One round of the loop of `Scheduler::run`, and whether it calls `tickle` for the others.
unfoldable pub round : Round → Worker → Scheduler → Outcome (After × Bool)
unfolding take_task dispatch
round r w s =
    let (found, s', tickle_me) = take_task s w.me in
    (do after ← dispatch r w found s'; ok (after, tickle_me))
