-- ===== src/Scheduler/Run.antt =====
-- The rounds of `Scheduler::run`, src/scheduler.cc.
use ztyco.Timer.{u64}
use ztyco.Fiber.{State, ready, hold, term}
use ztyco.Base.{
  ℕ, ◌+◌, ◌-◌, ◌<◌, ◌^◌, ◌≡◌, ◌⊎◌, ◌↔◌, inl, inr, Bool, true, false, Option, none, some,
  if◌then◌else◌, is_some, All, arith, Option-cases, ok, undefined,
}
use ztyco.Scheduler.{Task, Scheduler, is_elsewhere, pick, is_over, is_stopping, create, start, stop}
use ztyco.Scheduler.Round.{Worker, Round, After, round, dispatch}
use ztyco.Scheduler.Queue.{pick-Picks}

-- The other threads leave this thread's share of `m_activeThreadCount` alone.
abbrev pub KeepsActive : Round → Type 0
KeepsActive r = (s : Scheduler) → (r.meanwhile s).active ≡ s.active

dispatch-active :
    (r : Round) (w : Worker) (t : Task) (s : Scheduler) (n : ℕ) (a : After)
    → KeepsActive r
    → n < 2 ^ 64 - 1
    → s.active ≡ n + 1
    → dispatch r w (some t) s ≡ ok a
    → a.scheduler.active ≡ n
unfolding dispatch
dispatch-active r w t s n a k l e h = ground (arith, k s)

dispatch-idle :
    (r : Round) (w : Worker) (s : Scheduler) (a : After)
    → KeepsActive r
    → dispatch r w none s ≡ ok a
    → a.scheduler.active ≡ s.active
unfolding dispatch
dispatch-idle r w s a k h = ground (arith, k (record s { idle = u64 (s.idle + 1) }))

round-none :
    (r : Round) (w : Worker) (s : Scheduler)
    → (pick w.me s.tasks).0 ≡ none
    → (p : After × Bool) → round r w s ≡ ok p
    → dispatch r w none (record s { tasks = (pick w.me s.tasks).1 }) ≡ ok (p.0)
unfolding round
round-none r w s e p h = ground arith

round-some :
    (r : Round) (w : Worker) (s : Scheduler) (t : Task)
    → (pick w.me s.tasks).0 ≡ some t
    → (p : After × Bool) → round r w s ≡ ok p
    → dispatch r w
        (some t)
        (record s { tasks = (pick w.me s.tasks).1; active = u64 (s.active + 1) })
      ≡ ok (p.0)
unfolding round
round-some r w s t e p h = ground arith

-- Whatever a round does with the task it takes, or without one, the count of active threads is
-- at its end what it was at its beginning, as far as this thread goes.
pub round-active :
    (r : Round) (w : Worker) (s : Scheduler) (a : After) (tickle_me : Bool)
    → KeepsActive r
    → s.active < 2 ^ 64 - 1
    → round r w s ≡ ok (a, tickle_me)
    → a.scheduler.active ≡ s.active
round-active r w s a tickle_me k l h = elim (Option-cases (pick w.me s.tasks).0) [
  | inl e ↦ dispatch-idle r w _ a k (round-none r w s e (a, tickle_me) h)
  | inr (t, e) ↦
      dispatch-active r w t
        (record s { tasks = (pick w.me s.tasks).1; active = u64 (s.active + 1) }) s.active a k l
        (omega arith) (round-some r w s t e (a, tickle_me) h)
]

-- Where a round ends the loop, the idle fiber has ended, every task in the queue is for another
-- thread, and the scheduler is as it was before the round.
pub round_ends :
    (r : Round) (w : Worker) (s : Scheduler) (a : After) (tickle_me : Bool)
    → round r w s ≡ ok (a, tickle_me)
    → a.continues ≡ false
    → (r.states w.idle_fiber ≡ term)
      × All (λ t. is_elsewhere w.me t ≡ true) s.tasks
      × (a.scheduler ≡ s)
round_ends r w s a tickle_me h c = elim (pick-Picks w.me s.tasks).0 [
  | inl (e, same, away) ↦
      let d = round-none r w s e (a, tickle_me) h in
      (unfold dispatch in ground arith, away, unfold dispatch in ground arith)
  | inr (t, before, after, e, split, rest, away, mine) ↦
      let d = round-some r w s t e (a, tickle_me) h in
      (
        absurd (unfold dispatch in ground arith),
        absurd (unfold dispatch in ground arith),
        absurd (unfold dispatch in ground arith),
      )
]

abbrev state_after : State → State
state_after ready = ready
state_after s = if is_over s then s else hold

-- Starting a new scheduler is undefined behaviour as soon as it has a thread of its own besides
-- the caller's.
start-create :
    (threads : ℕ) (caller : Option (ℕ × ℕ)) (s : Scheduler)
    → create threads caller ≡ some s
    → (if is_some caller then 1 else 0) < threads
    → start s ≡ undefined
unfolding create start
start-create threads none s e l = ground arith
start-create threads (some (f, t)) s e l = ground arith

-- Where `stop` gets to the threads, both flags are set; it resumes the root fiber exactly where
-- there is one and the scheduler is not stopping; and it tickles once for each thread and once
-- for the root fiber, unless it was stopping already and has no thread of its own.
pub stop_lem :
    (s s' : Scheduler) (root : State) (here resumes : Bool) (tickles : ℕ)
    → stop s root here ≡ ok (s', tickles, resumes)
    → (s' ≡ record s { auto_stop = true; stopping = true })
      × ((resumes ≡ true) ↔ ((is_some s.root_fiber ≡ true) × (is_stopping s' ≡ false)))
      × ((tickles ≡ s.thread_count + (if is_some s.root_fiber then 1 else 0))
          ⊎ ((is_stopping s' ≡ true) × (s.thread_count ≡ 0)))
unfolding stop
stop_lem s s' root here resumes tickles h = (ground arith, ground arith, ground arith)
