-- ===== src/Fiber/Tests.antt =====
-- Runs of the fibers, and their theorems at a concrete world, src/fiber.cc.
use ztyco.Timer.{null, user}
use ztyco.Base.{ℕ, true, false, some, ◌==◌}
use ztyco.Fiber.{init, exec, hold, Fiber, World, new_fiber, set_state}

abbrev no_fiber : ℕ → Fiber
no_fiber a = record { id = 0; state = init; has_stack = false; stack_size = 0; func = null }

-- The main fiber at 1 schedules; the fiber at 2 has a stack.
abbrev idle_world : World
idle_world = record {
  fibers = λ a. elim (a == 1) [
    | true ↦ record { id = 0; state = exec; has_stack = false; stack_size = 0; func = null }
    | false ↦ record { id = 2; state = init; has_stack = true; stack_size = 64; func = user 5 }
  ];
  current = some 1;
  thread_fiber = some 1;
  scheduler_fiber = some 1;
  next_id = 1;
  count = 3;
}

abbrev running_world : World
running_world = set_state (record idle_world { current = some 2 }) 2 exec

abbrev held_world : World
held_world = record (set_state running_world 2 hold) { current = some 1 }

abbrev born_and_gone : World
born_and_gone = record (new_fiber idle_world 7 (user 1) 0 128) { count = 4 }
