-- ===== src/IoManager/Defects.antt =====
-- Where the event handling does not do what it means to, src/iomanager.cc. `triggerEvent` clears
-- `events & ~events`, which is every event of the descriptor, and not the one that it triggers.
use ztyco.Timer.{Func, u64, no_timeout}
use ztyco.Base.Int.{pos, negsuc}
use ztyco.Base.{
  ℕ, ◌+◌, ◌<◌, ◌≤◌, ◌^◌, ◌-◌, ◌%◌, min, ◌≡◌, ◌≢◌, ◌↔◌, refl, true, not, ◌&&◌, ◌||◌, some, [], ◌∷◌,
  ◌++◌, if◌then◌else◌, length, get_elem?, arith, ok, abort,
}
use ztyco.IoManager.{
  Mask, none_set, union, inter, compl, any, read, write, bit, IoManager, Ctl, ctl_add, ctl_mod,
  ctl_del, task_of, epollet,
}
use ztyco.IoManager.Idle.{real_events, ready, handle, handle_real, wait_timeout}
use ztyco.IoManager.Calls.{Caller, add_event, cancel_event, cancel_all}
use ztyco.IoManager.Events.{IsArmed, Accepts, cancelled, cancel_event_registered}

handle_real-abort :
    (ctl : Ctl) (io : IoManager) (a : ℕ) (real : Mask)
    → IsArmed (io.contexts a)
    → Accepts ctl (io.contexts a).fd
    → any (inter (io.contexts a).events real) ≡ true
    → let c = io.contexts a in
      (handle_real ctl io a real ≡ abort → (real.rd && (not c.events.rd || real.wr)) ≡ true)
      × ((real.rd && (not c.events.rd || real.wr)) ≡ true → handle_real ctl io a real ≡ abort)
unfolding handle_real
handle_real-abort ctl io a real armed accepts some_real =
    let left = inter (io.contexts a).events (compl real) in
    let taken = accepts (if any left then ctl_mod else ctl_del) (union left epollet) in
    (ground arith, ground arith)

-- A report of a descriptor with a registered event on it, which the kernel lets change. The
-- process is stopped exactly where it is readable and either READ is not registered, or it is
-- writable too; so a report of both events always stops it.
handle-abort :
    (ctl : Ctl) (io : IoManager) (a : ℕ) (ev : Mask)
    → IsArmed (io.contexts a)
    → Accepts ctl (io.contexts a).fd
    → any (inter (io.contexts a).events (real_events (io.contexts a) ev)) ≡ true
    → let c = io.contexts a in
      let real = real_events c ev in
      (handle ctl io (ready a ev) ≡ abort) ↔ ((real.rd && (not c.events.rd || real.wr)) ≡ true)
unfolding handle
handle-abort ctl io a ev armed accepts some_real =
    handle_real-abort ctl io a (real_events (io.contexts a) ev) armed accepts some_real

-- `cancelAll` on a descriptor of the table with both events, which the kernel lets go, succeeds
-- and schedules the reader alone: the descriptor has no event left, the writer stays in its
-- context, and one is taken off the count of pending events.
cancel_all-both :
    (ctl : Ctl) (io : IoManager) (fd a s : ℕ)
    → get_elem? io.table fd ≡ some a
    → IsArmed (io.contexts a)
    → Accepts ctl fd
    → (io.contexts a).events.rd ≡ true
    → (io.contexts a).events.wr ≡ true
    → (io.contexts a).read.scheduler ≡ some s
    → (io' : IoManager) × (cancel_all ctl io fd ≡ ok (io', true))
      × (io'.scheduled ≡ io.scheduled ++ (s, task_of (io.contexts a).read) ∷ [])
      × ((io'.contexts a).events ≡ none_set)
      × ((io'.contexts a).write ≡ (io.contexts a).write)
      × (io'.pending ≡ u64 (io.pending + 2 ^ 64 - 1))
unfolding cancel_all
cancel_all-both ctl io fd a s found armed accepts r w sched =
    let quiet = accepts ctl_del none_set in
    (cancelled io a s read, ground arith, refl, ground arith, ground arith, refl)

-- On a descriptor of the table with both events registered, which the kernel lets change: after
-- the reader is cancelled no event is registered any more, and the next registration of a writer
-- stops the process.
add_event-cancel_event :
    (ctl : Ctl) (who : Caller) (io io' : IoManager) (fd a s : ℕ) (cb : Func)
    → get_elem? io.table fd ≡ some a
    → fd < length io.table
    → IsArmed (io.contexts a)
    → Accepts ctl fd
    → (io.contexts a).events.rd ≡ true
    → (io.contexts a).events.wr ≡ true
    → (io.contexts a).read.scheduler ≡ some s
    → cancel_event ctl io fd read ≡ ok (io', true)
    → ((io'.contexts a).events ≡ none_set) × (add_event ctl who io' fd write cb ≡ abort)
add_event-cancel_event ctl who io io' fd a s cb found small armed accepts r w sched h =
    let known = cancel_event_registered ctl io fd a s read found armed accepts sched r in
    let same : io' ≡ cancelled io a s read = cc in
    rw same (
      ground arith,
      unfold add_event in
          ground (arith, accepts ctl_add (union (union (bit read) none_set) (bit write))),
    )

-- `epoll_wait` is handed the time until the next timer, and 5000 at most, where that time is below
-- 2 ^ 31; where its low word is 2 ^ 31 or more it is handed a negative number.
wait_timeout_lem :
    (next : ℕ)
    → (next < 2 ^ 31 → wait_timeout next ≡ pos (min next 5000))
      × (next ≢ no_timeout
          → 2 ^ 31 ≤ next % 2 ^ 32
          → wait_timeout next ≡ negsuc (2 ^ 32 - next % 2 ^ 32 - 1))
unfolding wait_timeout
wait_timeout_lem next = (λ h. ground arith, λ n h. ground arith)
