-- ===== src/IoManager/Calls.antt =====
-- The calls that add, delete and cancel events, src/iomanager.cc.
use ztyco.Timer.{Func, null, is_set, u64}
use ztyco.Base.{
  ℕ, ◌+◌, ◌-◌, ◌^◌, Bool, true, false, not, ◌&&◌, ◌||◌, Option, none, some, if◌then◌else◌, is_some,
  get_elem?, update, Outcome, ok, assert, deref, ◌>>=◌, ◌>>◌,
}
use ztyco.IoManager.{
  Ctl, Event, EventContext, IoManager, Mask, any, bit, compl, context_for, ctl_add, ctl_del,
  ctl_mod, epollet, get_event_context, inter, none_set, put, read, reset_event_context,
  set_event_context, trigger_event, union, write,
}

-- What `Scheduler::GetThis()` and `Fiber::GetThis()` are, and whether that fiber is in EXEC.
pub record Caller : Type 0 where
  pub scheduler : Option ℕ
  pub fiber : ℕ
  pub runs : Bool

-- What `addEvent` puts into the event's context.
abbrev pub filled : Caller → Func → EventContext
filled who cb =
    if is_set cb
    then record { scheduler = who.scheduler; fiber = none; cb = cb }
    else record { scheduler = who.scheduler; fiber = some who.fiber; cb = null }

-- `addEvent` on the context at `a`, and its result: true for 0, false for -1.
unfoldable pub add_to : Ctl → Caller → IoManager → ℕ → ℕ → Event → Func → Outcome (IoManager × Bool)
add_to ctl who io a fd e cb = do
  let c = io.contexts a
  assert (not (any (inter c.events (bit e))))
  let op = if any c.events then ctl_mod else ctl_add
  let interest = union (union (bit read) c.events) (bit e)
  (if ctl op fd interest then ok (io, false) else (do
    let x = get_event_context c e
    assert (not (is_some x.scheduler) && not (is_some x.fiber) && not (is_set x.cb))
    assert (is_set cb || who.runs)
    ok (
      record io {
        contexts =
            update io.contexts a
              (set_event_context (record c { events = union c.events (bit e) }) e (filled who cb));
        pending = u64 (io.pending + 1);
      },
      true,
    )))

-- `IOManager::addEvent`.
unfoldable pub add_event : Ctl → Caller → IoManager → ℕ → Event → Func → Outcome (IoManager × Bool)
unfolding context_for add_to
add_event ctl who io fd e cb =
    let (io', found) = context_for io fd in (do a ← deref found; add_to ctl who io' a fd e cb)

abbrev pub dec_pending : IoManager → IoManager
dec_pending io = record io { pending = u64 (io.pending + 2 ^ 64 - 1) }

-- The calls that take a context from the table return false for a descriptor beyond it.
abbrev pub on_context :
    Option ℕ → IoManager → (ℕ → Outcome (IoManager × Bool)) → Outcome (IoManager × Bool)
on_context none io f = ok (io, false)
on_context (some a) io f = f a

-- `delEvent` and `cancelEvent` up to their `epoll_ctl`, whose events are the remaining ones and
-- `extra`; `act` is the rest.
abbrev pub if_registered :
    Ctl → IoManager → ℕ → Event → Mask → (ℕ → Mask → Outcome IoManager) → Outcome (IoManager × Bool)
if_registered ctl io fd e extra act = on_context (get_elem? io.table fd) io λ a.
    let events = (io.contexts a).events in
    let left = inter events (compl (bit e)) in
    if not (any (inter events (bit e)))
    then ok (io, false)
    else if ctl (if any left then ctl_mod else ctl_del) fd (union left extra)
    then ok (io, false)
    else (do io' ← act a left; ok (io', true))

-- `IOManager::delEvent`.
unfoldable pub del_event : Ctl → IoManager → ℕ → Event → Outcome (IoManager × Bool)
del_event ctl io fd e = if_registered ctl io fd e epollet λ a left.
    ok (put (dec_pending io) a (reset_event_context (record (io.contexts a) { events = left }) e))

-- `IOManager::cancelEvent`.
unfoldable pub cancel_event : Ctl → IoManager → ℕ → Event → Outcome (IoManager × Bool)
unfolding trigger_event
cancel_event ctl io fd e =
    if_registered ctl io fd e (bit read)
      λ a left. (do io' ← trigger_event io a e; ok (dec_pending io'))

-- `if (fd_ctx->events & e) { triggerEvent(e); --m_pendingEventCount; }`
unfoldable pub trigger_if : IoManager → ℕ → Event → Outcome IoManager
unfolding trigger_event
trigger_if io a e =
    if any (inter (io.contexts a).events (bit e))
    then (do io' ← trigger_event io a e; ok (dec_pending io'))
    else ok io

-- `IOManager::cancelAll`.
unfoldable pub cancel_all : Ctl → IoManager → ℕ → Outcome (IoManager × Bool)
unfolding trigger_if
cancel_all ctl io fd = on_context (get_elem? io.table fd) io λ a.
    if not (any (io.contexts a).events)
    then ok (io, false)
    else if ctl ctl_del fd none_set
    then ok (io, false)
    else (do
      io₁ ← trigger_if io a read
      io₂ ← trigger_if io₁ a write
      assert (not (any (io₂.contexts a).events))
      ok (io₂, true))
