-- ===== src/Fiber.antt =====
-- Fibers, src/fiber.cc and include/fiber.h.
-- A `Fiber::ptr` is its address. The world holds the fibers, the thread's `t_fiber`,
-- `t_threadFiber` and `t_scheduler_fiber`, and the global counters; a switch of `ucontext_t`s is
-- the change of `t_fiber`. A function that runs in a fiber is seen where it returns or throws.
pub mod Laws
mod Tests
use ztyco.Timer.{Func, null, is_set, u64}
use ztyco.Base.{
  ℕ, ◌+◌, ◌-◌, ◌%◌, ◌^◌, Bool, true, false, not, ◌||◌, Option, none, some, ◌==◌, if◌then◌else◌,
  update, Outcome, ok, assert, deref, ◌>>=◌, ◌>>◌,
}

pub data State : Type 0 where
  init ready exec hold term except : State

pub record Fiber : Type 0 where
  pub id : ℕ
  pub state : State
  pub has_stack : Bool
  pub stack_size : ℕ
  pub func : Func

pub record World : Type 0 where
  pub fibers : ℕ → Fiber
  pub current : Option ℕ
  pub thread_fiber : Option ℕ
  pub scheduler_fiber : Option ℕ
  pub next_id : ℕ
  pub count : ℕ

abbrev pub is_exec : State → Bool
is_exec exec = true
is_exec _ = false

-- `m_state == TERM || m_state == EXCEPT || m_state == INIT`
abbrev pub is_idle : State → Bool
is_idle init = true
is_idle term = true
is_idle except = true
is_idle _ = false

abbrev pub set_state : World → ℕ → State → World
set_state w a s = record w { fibers = update w.fibers a (record (w.fibers a) { state = s }) }

-- `Fiber::Fiber()`, the thread's main fiber, at the address `a`.
unfoldable pub new_main : World → ℕ → World
new_main w a = record w {
  fibers =
      update w.fibers a
        (record { id = w.next_id; state = exec; has_stack = false; stack_size = 0; func = null });
  current = some a;
  next_id = u64 (w.next_id + 1);
  count = u64 (w.count + 1);
}

-- `Fiber::Fiber(func, stacksize, use_caller)`; `size` is the configured `fiber.stack_size`.
unfoldable pub new_fiber : World → ℕ → Func → ℕ → ℕ → World
new_fiber w a func stacksize size = record w {
  fibers = update w.fibers a (record {
    id = u64 (w.count + 1);
    state = init;
    has_stack = true;
    stack_size = (if stacksize == 0 then size else stacksize) % 2 ^ 32;
    func = func;
  });
  count = u64 (u64 (w.count + 1) + 1);
}

abbrev is_at : Option ℕ → ℕ → Bool
is_at none a = false
is_at (some b) a = b == a

-- `Fiber::~Fiber`.
unfoldable pub destroy : World → ℕ → Outcome World
destroy w a =
    let f = w.fibers a in
    let w' = record w { count = u64 (w.count + 2 ^ 64 - 1) } in
    if f.has_stack then (do assert (is_idle f.state); ok w') else (do
      assert (not (is_set f.func))
      assert (is_exec f.state)
      ok (if is_at w.current a then record w' { current = none } else w'))

-- `Fiber::resetFunc`.
unfoldable pub reset_func : World → ℕ → Func → Outcome World
reset_func w a func = do
  assert (w.fibers a).has_stack
  assert (is_idle (w.fibers a).state)
  ok (record w { fibers = update w.fibers a (record (w.fibers a) { func = func; state = init }) })

-- `Fiber::resume`.
unfoldable pub resume : World → ℕ → Outcome World
resume w a = do main ← deref w.thread_fiber; ok (set_state (record w { current = some a }) a exec)

-- `Fiber::yield`.
unfoldable pub yield : World → Outcome World
yield w = do main ← deref w.thread_fiber; ok (record w { current = some main })

-- `Fiber::swapIn`.
unfoldable pub swap_in : World → ℕ → Outcome World
swap_in w a = do
  assert (not (is_exec (w.fibers a).state))
  main ← deref w.scheduler_fiber
  ok (set_state (record w { current = some a }) a exec)

-- `Fiber::swapOut`.
unfoldable pub swap_out : World → Outcome World
swap_out w = do main ← deref w.scheduler_fiber; ok (record w { current = some main })

-- `Fiber::GetThis`; a main fiber that it makes is put at `fresh`.
unfoldable pub get_this : World → ℕ → World × ℕ
unfolding new_main
get_this w fresh = elim w.current [
  | some a ↦ (w, a)
  | none ↦ (record (new_main w fresh) { thread_fiber = some fresh }, fresh)
]

-- `Fiber::GetFiberId`.
unfoldable pub get_fiber_id : World → ℕ
get_fiber_id w = elim w.current [ some a ↦ (w.fibers a).id | none ↦ 0 ]

yield_to : State → World → ℕ → Outcome World
unfolding get_this swap_out
yield_to s w fresh =
    let (w', cur) = get_this w fresh in
    (do assert (is_exec (w'.fibers cur).state); swap_out (set_state w' cur s))

-- `Fiber::YieldToReady`.
unfoldable pub yield_to_ready : World → ℕ → Outcome World
unfolding yield_to
yield_to_ready w fresh = yield_to ready w fresh

-- `Fiber::YieldToHold`.
unfoldable pub yield_to_hold : World → ℕ → Outcome World
unfolding yield_to
yield_to_hold w fresh = yield_to hold w fresh

-- How the function of a fiber ended.
pub data Ending : Type 0 where
  returned threw : Ending

abbrev pub finish : World → ℕ → Ending → World
finish w a returned = record w {
  fibers = update w.fibers a (record (w.fibers a) { func = null; state = term });
}
finish w a threw = set_state w a except

-- `Fiber::MainFunc` from the end of `m_func` on; `cur` is the fiber that it began with.
unfoldable pub main_func : World → ℕ → Ending → Outcome World
unfolding swap_out
main_func w cur e = swap_out (finish w cur e)

-- `Fiber::CallerMainFunc`, likewise.
unfoldable pub caller_main_func : World → ℕ → Ending → Outcome World
unfolding yield
caller_main_func w cur e = yield (finish w cur e)
