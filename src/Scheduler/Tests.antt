-- ===== src/Scheduler/Tests.antt =====
-- Runs of the scheduler, and its theorems at concrete states, src/scheduler.cc.
use ztyco.Timer.{user}
use ztyco.Fiber.{State, ready, hold, term}
use ztyco.Base.{
  ◌≡◌, refl, true, false, not, none, some, List, [], ◌∷◌, ◌==◌, if◌then◌else◌, is_empty, All, arith,
}
use ztyco.Scheduler.{Task, Scheduler, at_rest, fiber_task, func_task, is_elsewhere, pick}
use ztyco.Scheduler.Round.{Worker, Round, After, round}
use ztyco.Scheduler.Queue.{Picks, pick-Picks}
use ztyco.Scheduler.Run.{round-active, round_ends}

-- One task for thread 7, one for thread 9, and a function for any.
abbrev three_tasks : List Task
three_tasks = fiber_task 1 (some 7) ∷ fiber_task 2 (some 9) ∷ func_task (user 3) none ∷ []

abbrev busy : Scheduler
busy = record (at_rest 2 none none) { tasks = three_tasks; stopping = false }

abbrev quiet : Scheduler
quiet = record busy { tasks = fiber_task 1 (some 7) ∷ [] }

abbrev worker_nine : Worker
worker_nine = record { me = 9; func_fiber = none; idle_fiber = 50 }

abbrev held_round : State → Round
held_round back = record {
  states = λ f. if f == 50 then term else hold;
  back = back;
  meanwhile = λ s. s;
  fresh = 60;
}

nine_takes_two : (pick 9 three_tasks).0 ≡ some (fiber_task 2 (some 9))
unfolding pick
nine_takes_two = refl

pick-Picks_example :
    Picks 9 three_tasks (pick 9 three_tasks)
    × ((pick 9 three_tasks).2 ≡ not (is_empty (pick 9 three_tasks).1))
pick-Picks_example = pick-Picks 9 three_tasks

abbrev requeued : After
requeued = record {
  scheduler = record busy {
    tasks = fiber_task 1 (some 7) ∷ func_task (user 3) none ∷ fiber_task 2 none ∷ [];
  };
  worker = worker_nine;
  states = λ g. if 2 == g then ready else if g == 50 then term else hold;
  continues = true;
  woke = false;
}

round-active_example : requeued.scheduler.active ≡ busy.active
unfolding round pick
round-active_example =
    round-active (held_round ready) worker_nine busy requeued true (λ s. refl) (omega arith) refl

abbrev ended : After
ended = record {
  scheduler = quiet;
  worker = worker_nine;
  states = (held_round hold).states;
  continues = false;
  woke = false;
}

round_ends_example :
    ((held_round hold).states worker_nine.idle_fiber ≡ term)
    × All (λ t. is_elsewhere 9 t ≡ true) quiet.tasks
    × (ended.scheduler ≡ quiet)
unfolding round pick
round_ends_example = round_ends (held_round hold) worker_nine quiet ended true refl refl

abbrev with_root : Scheduler
with_root = record (at_rest 2 (some 4) (some 1)) { tasks = fiber_task 1 none ∷ [] }

abbrev told : Scheduler
told = record with_root { auto_stop = true; stopping = true }
