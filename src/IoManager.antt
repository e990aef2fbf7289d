-- ===== src/IoManager.antt =====
-- The event side of the I/O scheduler, src/iomanager.cc and include/iomanager.h.
-- An `FdContext *` is its address: the table `m_fdContexts` lists addresses, and the kernel hands
-- them back in `event.data.ptr`. `epoll_ctl` is a parameter that tells whether a call fails.
-- A call of `Scheduler::schedule` is one entry of `scheduled`, with the scheduler it is made on.
pub mod Idle
pub mod Calls
pub mod Events
pub mod Table
pub mod Pending
pub mod Sound
pub mod Growth
pub mod Safety
pub mod Reachable
pub mod Defects
mod Tests
use ztyco.Timer.{Func, null, is_set, u64, no_timeout}
use ztyco.Scheduler.{Task, fiber_task, func_task, Scheduler, is_stopping}
use ztyco.Base.Int.{ℤ, pos, negsuc}
use ztyco.Base.{
  ℕ, zero, suc, ◌+◌, ◌-◌, ◌*◌, ◌/◌, ◌%◌, ◌^◌, Bool, true, false, not, ◌&&◌, ◌||◌, Option, none,
  some, List, [], ◌∷◌, ◌++◌, ltb, leb, ◌==◌, if◌then◌else◌, is_some, length, get_elem?, update,
  Outcome, ok, abort, undefined, assert, deref, ◌>>=◌, ◌>>◌,
}

-- The bits of an event word that the code uses: READ = EPOLLIN, WRITE = EPOLLOUT, EPOLLERR,
-- EPOLLHUP and EPOLLET.
pub record Mask : Type 0 where
  pub rd : Bool
  pub wr : Bool
  pub err : Bool
  pub hup : Bool
  pub et : Bool

abbrev pub none_set : Mask
none_set = record { rd = false; wr = false; err = false; hup = false; et = false }

-- `a | b`, `a & b`, `~a`, `a != 0`
abbrev pub union : Mask → Mask → Mask
union a b = record {
  rd = a.rd || b.rd;
  wr = a.wr || b.wr;
  err = a.err || b.err;
  hup = a.hup || b.hup;
  et = a.et || b.et;
}

abbrev pub inter : Mask → Mask → Mask
inter a b = record {
  rd = a.rd && b.rd;
  wr = a.wr && b.wr;
  err = a.err && b.err;
  hup = a.hup && b.hup;
  et = a.et && b.et;
}

abbrev pub compl : Mask → Mask
compl a = record { rd = not a.rd; wr = not a.wr; err = not a.err; hup = not a.hup; et = not a.et }

abbrev pub any : Mask → Bool
any a = a.rd || a.wr || a.err || a.hup || a.et

-- `IOManager::Event`, without NONE: the argument of the calls.
pub data Event : Type 0 where
  read write : Event

abbrev pub bit : Event → Mask
bit read = record none_set { rd = true }
bit write = record none_set { wr = true }

abbrev pub epollet : Mask
epollet = record none_set { et = true }

pub record EventContext : Type 0 where
  pub scheduler : Option ℕ
  pub fiber : Option ℕ
  pub cb : Func

abbrev pub blank : EventContext
blank = record { scheduler = none; fiber = none; cb = null }

pub record FdContext : Type 0 where
  pub read : EventContext
  pub write : EventContext
  pub fd : ℕ
  pub events : Mask

pub record IoManager : Type 0 where
  pub contexts : ℕ → FdContext
  pub table : List ℕ
  pub fresh : ℕ
  pub pending : ℕ
  pub scheduled : List (ℕ × Task)

pub data CtlOp : Type 0 where
  ctl_add ctl_mod ctl_del : CtlOp

-- `epoll_ctl(m_epfd, op, fd, &event)`: true where it fails.
abbrev pub Ctl : Type 0
Ctl = CtlOp → ℕ → Mask → Bool

-- `FdContext::getEventContext`, and a change of what it refers to.
abbrev pub get_event_context : FdContext → Event → EventContext
get_event_context c read = c.read
get_event_context c write = c.write

abbrev pub set_event_context : FdContext → Event → EventContext → FdContext
set_event_context c read x = record c { read = x }
set_event_context c write x = record c { write = x }

abbrev pub put : IoManager → ℕ → FdContext → IoManager
put io a c = record io { contexts = update io.contexts a c }

-- `FdContext::resetEventContext` on the context of an event.
abbrev pub reset_event_context : FdContext → Event → FdContext
reset_event_context c e = set_event_context c e blank

-- The task that `triggerEvent` schedules.
abbrev pub task_of : EventContext → Task
task_of x =
    if is_set x.cb
    then func_task x.cb none
    else record { fiber = x.fiber; func = null; thread = none }

-- `FdContext::triggerEvent` on the context at `a`.
unfoldable pub trigger_event : IoManager → ℕ → Event → Outcome IoManager
trigger_event io a e = do
  let c = io.contexts a
  assert (any (inter c.events (bit e)))
  let c' = record c { events = inter c.events (compl c.events) }
  let x = get_event_context c' e
  s ← deref x.scheduler
  ok (record io {
    contexts = update io.contexts a (reset_event_context c' e);
    scheduled = io.scheduled ++ (s, task_of x) ∷ [];
  })

-- `m_fdContexts[i] = new FdContext; m_fdContexts[i]->fd = i;`
abbrev pub with_context : ℕ → IoManager → IoManager
with_context fd io = record io {
  contexts =
      update io.contexts io.fresh
        (record { read = blank; write = blank; fd = fd; events = none_set });
  fresh = suc io.fresh;
}

-- The loop of `contextResize`: `n` new contexts from the descriptor `fd` on.
pub fill : ℕ → ℕ → IoManager → IoManager
fill zero fd io = record io { table = [] }
fill (suc n) fd io =
    let rest = fill n (suc fd) (with_context fd io) in record rest { table = io.fresh ∷ rest.table }

-- `IOManager::contextResize`.
unfoldable pub context_resize : ℕ → IoManager → IoManager
unfolding fill
context_resize size io = fill size 0 io

-- The event side of a new `IOManager`: its constructor calls `contextResize(32)`.
unfoldable pub new_manager : IoManager
unfolding context_resize
new_manager = context_resize 32 (record {
  contexts = λ a. record { read = blank; write = blank; fd = a; events = none_set };
  table = [];
  fresh = 0;
  pending = 0;
  scheduled = [];
})

-- The context that `addEvent` works on: that of the table, or one of the table grown to `fd * 1.5`.
unfoldable pub context_for : IoManager → ℕ → IoManager × Option ℕ
unfolding context_resize
context_for io fd =
    if ltb fd (length io.table)
    then (io, get_elem? io.table fd)
    else (let io' = context_resize (fd * 3 / 2) io in (io', get_elem? io'.table fd))
