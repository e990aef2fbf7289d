-- ===== src/Fiber/Laws.antt =====
-- The life of a fiber, src/fiber.cc.
use ztyco.Timer.{Func, null}
use ztyco.Base.{
  ℕ, ◌+◌, ◌<◌, ◌^◌, ◌≡◌, ◌≢◌, ◌⊎◌, refl, inl, inr, true, false, none, some, ◌==◌, update, arith,
  Bool-cases, Outcome, ok, abort, undefined,
}
use ztyco.Fiber.{
  State, init, ready, exec, hold, term, except, World, Ending, returned, threw, is_idle, new_fiber,
  destroy, reset_func, swap_in, yield_to_ready, yield_to_hold, main_func, caller_main_func,
  set_state, finish as finish_fiber,
}

-- The transition diagram.
infix 40 ◌⟶◌
pub data ◌⟶◌ : State → State → Type 0 where
  stay : {s : State} → s ⟶ s
  run : {s : State} → s ≢ exec → s ⟶ exec
  wait : exec ⟶ hold
  rest : exec ⟶ ready
  finish : exec ⟶ term
  fail : exec ⟶ except
  restart : {s : State} → is_idle s ≡ true → s ⟶ init

-- The calls on existing fibers. `ends` is the end of the current fiber's function.
pub data Call : Type 0 where
  swaps_in resets : ℕ → Call
  readies holds : Call
  ends : Ending → Call

abbrev pub step : World → Call → Func → Outcome World
step w (swaps_in a) f = swap_in w a
step w (resets a) f = reset_func w a f
step w readies f = yield_to_ready w 0
step w holds f = yield_to_hold w 0
step w (ends e) f = elim w.current [ some a ↦ main_func w a e | none ↦ undefined ]

-- A running fiber is not switched to, and any other is, also one that has ended: it runs, it is
-- the thread's current fiber, and no other fiber changes.
pub swap_in_lem :
    (w : World) (a main : ℕ)
    → w.scheduler_fiber ≡ some main
    → ((w.fibers a).state ≡ exec → swap_in w a ≡ abort)
      × ((w.fibers a).state ≢ exec
          → (w' : World) × (swap_in w a ≡ ok w')
            × (w'.current ≡ some a)
            × ((w'.fibers a).state ≡ exec)
            × ((b : ℕ) → (b == a) ≡ false → w'.fibers b ≡ w.fibers b))
unfolding swap_in
swap_in_lem w a main e = (
  λ x. ground arith,
  λ n. (
    set_state (record w { current = some a }) a exec,
    ground arith,
    refl,
    ground arith,
    λ b h. ground arith,
  ),
)

-- `resetFunc` accepts exactly a fiber with a stack that has not begun or has ended, and then the
-- fiber is fresh: its state is INIT and its function the new one. It aborts for any other.
pub reset_func_lem :
    (w : World) (a : ℕ) (f : Func)
    → ((w' : World) × (reset_func w a f ≡ ok w')
        × ((w.fibers a).has_stack ≡ true)
        × (is_idle (w.fibers a).state ≡ true)
        × ((w'.fibers a).state ≡ init)
        × ((w'.fibers a).func ≡ f))
      ⊎ ((reset_func w a f ≡ abort)
          × (((w.fibers a).has_stack ≡ false) ⊎ (is_idle (w.fibers a).state ≡ false)))
unfolding reset_func
reset_func_lem w a f = elim (Bool-cases (w.fibers a).has_stack) [
  | inl s ↦ elim (Bool-cases (is_idle (w.fibers a).state)) [
    | inl i ↦ inl (
      record w { fibers = update w.fibers a (record (w.fibers a) { func = f; state = init }) },
      ground arith,
      s,
      i,
      ground arith,
      ground arith,
    )
    | inr i ↦ inr (ground arith, inr i)
  ]
  | inr s ↦ inr (ground arith, inl s)
]

-- A fiber that yields to hold and is switched to again runs on: it is current, its state is EXEC,
-- and nothing of the world has changed.
pub swap_in-yield_to_hold :
    (w : World) (a main fresh : ℕ)
    → w.current ≡ some a
    → w.scheduler_fiber ≡ some main
    → (w.fibers a).state ≡ exec
    → (w' w'' : World) → yield_to_hold w fresh ≡ ok w'
    → swap_in w' a ≡ ok w''
    → (w'.current ≡ some main)
      × ((w'.fibers a).state ≡ hold)
      × (w''.current ≡ w.current)
      × ((b : ℕ) → w''.fibers b ≡ w.fibers b)
unfolding yield_to_hold swap_in
swap_in-yield_to_hold w a main fresh c s x w' w'' h k = (
  ground arith,
  ground arith,
  ground arith,
  λ b. elim (Bool-cases (b == a)) [
    | inl same ↦ let eq : b ≡ a = ground arith in rw eq (ground arith)
    | inr other ↦ ground arith
  ],
)

-- The counter of live fibers goes up by two for a fiber with a stack and down by one at its end,
-- so a fiber that was made and destroyed is counted for good.
fiber_count_leaks :
    (w w' : World) (a stacksize size : ℕ) (f : Func)
    → w.count < 2 ^ 63
    → destroy (new_fiber w a f stacksize size) a ≡ ok w'
    → w'.count ≡ w.count + 1
unfolding new_fiber destroy
fiber_count_leaks w w' a stacksize size f l h = ground arith

-- A fiber's function ends in TERM without a function, or in EXCEPT; control is back at the
-- scheduler's fiber, or at the thread's main fiber for `CallerMainFunc`.
pub main_func_lem :
    (w : World) (a main root : ℕ) (e : Ending)
    → w.scheduler_fiber ≡ some main
    → w.thread_fiber ≡ some root
    → (w' w'' : World) × (main_func w a e ≡ ok w')
      × (caller_main_func w a e ≡ ok w'')
      × (w'.current ≡ some main)
      × (w''.current ≡ some root)
      × (w'.fibers ≡ w''.fibers)
      × (((w'.fibers a).state ≡ term) × ((w'.fibers a).func ≡ null)
          ⊎ ((w'.fibers a).state ≡ except) × ((w'.fibers a).func ≡ (w.fibers a).func))
unfolding main_func caller_main_func
main_func_lem w a main root returned s t = (
  record (finish_fiber w a returned) { current = some main },
  record (finish_fiber w a returned) { current = some root },
  ground arith,
  ground arith,
  refl,
  refl,
  refl,
  ground arith,
)
main_func_lem w a main root threw s t = (
  record (finish_fiber w a threw) { current = some main },
  record (finish_fiber w a threw) { current = some root },
  ground arith,
  ground arith,
  refl,
  refl,
  refl,
  ground arith,
)
