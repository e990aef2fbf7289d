-- ===== src/IoManager/Tests.antt =====
-- The theorems on the I/O scheduler at concrete managers, src/iomanager.cc.
use ztyco.Timer.{null, user, u64, no_timeout}
use ztyco.Scheduler.{Scheduler, at_rest}
use ztyco.Base.{
  ℕ, ◌+◌, ◌-◌, ◌^◌, ◌<◌, ◌≡◌, refl, true, false, some, none, [], ◌∷◌, arith, ok, update,
}
use ztyco.IoManager.{
  Mask, none_set, union, Event, read, write, bit, blank, EventContext, FdContext, IoManager, Ctl,
  task_of, new_manager, context_resize,
}
use ztyco.IoManager.Idle.{io_stopping}
use ztyco.IoManager.Calls.{Caller, add_event, del_event}
use ztyco.IoManager.Table.{empty_context}
use ztyco.IoManager.Events.{added, IsArmed, is_registered, del_event-add_event}
use ztyco.IoManager.Reachable.{created, io_stopping_lem}

-- A kernel that takes every change.
abbrev quiet_kernel : Ctl
quiet_kernel op fd m = false

abbrev fiber_nine : Caller
fiber_nine = record { scheduler = some 1; fiber = 9; runs = true }

-- Four contexts, the one of descriptor 3 with what is given.
abbrev small : FdContext → IoManager
small c = record {
  contexts = update (λ a. empty_context a) 3 c;
  table = 0 ∷ 1 ∷ 2 ∷ 3 ∷ [];
  fresh = 4;
  pending = 2;
  scheduled = [];
}

abbrev waiting : ℕ → EventContext
waiting f = record { scheduler = some 1; fiber = some f; cb = null }

abbrev reading : FdContext
reading = record (empty_context 3) { read = waiting 5; events = bit read }

abbrev both : FdContext
both = record { read = waiting 5; write = waiting 6; fd = 3; events = union (bit read) (bit write) }

armed_reading : IsArmed ((small reading).contexts 3)
armed_reading = record {
  reads = λ h. refl;
  writes = λ h. ground arith;
  no_err = refl;
  no_hup = refl;
  no_et = refl;
}

del_event-add_event_example :
    (io' io'' : IoManager) × (add_event quiet_kernel fiber_nine (small reading) 3 write null
      ≡ ok (io', true))
    × (del_event quiet_kernel io' 3 write ≡ ok (io'', true))
    × (io''.pending ≡ 2)
    × ((b : ℕ) → io''.contexts b ≡ (small reading).contexts b)
    × (io''.scheduled ≡ [])
del_event-add_event_example =
    del_event-add_event quiet_kernel fiber_nine (small reading) 3 3 write null refl (omega arith)
      armed_reading (omega arith) (λ op m. refl) refl refl refl

-- A kernel's report that descriptor 3 can be read and written.
abbrev both_ready : Mask
both_ready = union (bit read) (bit write)

abbrev reader_cancelled : IoManager
reader_cancelled = record (small both) {
  contexts = update (small both).contexts 3 (record both { read = blank; events = none_set });
  pending = u64 (2 + 2 ^ 64 - 1);
  scheduled = (1, task_of (waiting 5)) ∷ [];
}

-- A new manager after one registration.
abbrev one_pending : IoManager
one_pending = added fiber_nine new_manager 3 read (user 2)

abbrev stopped : Scheduler
stopped = record (at_rest 0 none none) { auto_stop = true }

io_stopping_lem_example :
    (no_timeout ≡ no_timeout)
    × ((a : ℕ) (e : Event)
        → a < new_manager.fresh
        → is_registered (new_manager.contexts a) e ≡ false)
unfolding io_stopping new_manager context_resize
io_stopping_lem_example = io_stopping_lem new_manager stopped no_timeout created refl
