-- ===== src/IoManager/Events.antt =====
-- What registering, deleting and cancelling an event do, src/iomanager.cc.
use ztyco.Timer.{Func, u64}
use ztyco.Base.{
  ℕ, ◌+◌, ◌<◌, ◌^◌, ◌-◌, ◌≡◌, refl, ◌∙◌, inl, inr, Bool, true, false, some, [], ◌∷◌, ◌++◌, ◌==◌,
  if◌then◌else◌, is_some, length, get_elem?, update, arith, Bool-cases, ok,
}
use ztyco.IoManager.{
  Mask, none_set, union, inter, compl, any, Event, read, write, bit, blank, FdContext, IoManager,
  CtlOp, Ctl, ctl_add, ctl_mod, ctl_del, get_event_context, set_event_context, task_of, epollet,
  put, reset_event_context,
}
use ztyco.IoManager.Calls.{Caller, filled, add_event, del_event, cancel_event, dec_pending}

-- The context's events are READ and WRITE at most, and a registered event has its scheduler.
pub record IsArmed (c : FdContext) : Type 0 where
  pub reads : c.events.rd ≡ true → is_some c.read.scheduler ≡ true
  pub writes : c.events.wr ≡ true → is_some c.write.scheduler ≡ true
  pub no_err : c.events.err ≡ false
  pub no_hup : c.events.hup ≡ false
  pub no_et : c.events.et ≡ false

abbrev pub is_registered : FdContext → Event → Bool
is_registered c read = c.events.rd
is_registered c write = c.events.wr

-- Registering an event of a descriptor in the table: nothing changes where the kernel refuses;
-- otherwise the bit is set, the context is filled with the caller's fiber or the callback, the
-- pending count goes up by one, and no other context changes. It aborts where the event is
-- registered already, or its context is not blank.
pub add_event_lem :
    (ctl : Ctl) (who : Caller) (io : IoManager) (fd a : ℕ) (e : Event) (cb : Func)
    → get_elem? io.table fd ≡ some a
    → fd < length io.table
    → is_registered (io.contexts a) e ≡ false
    → get_event_context (io.contexts a) e ≡ blank
    → who.runs ≡ true
    → let c = io.contexts a in
      let op = if any c.events then ctl_mod else ctl_add in
      let refused = ctl op fd (union (union (bit read) c.events) (bit e)) in
      add_event ctl who io fd e cb ≡ (
        if refused
        then ok (io, false)
        else ok (
          record io {
            contexts = update io.contexts a (
                set_event_context (record c { events = union c.events (bit e) }) e (filled who cb));
            pending = u64 (io.pending + 1);
          },
          true,
        ))
unfolding add_event
add_event_lem ctl who io fd a read cb found small free clean runs = ground arith
add_event_lem ctl who io fd a write cb found small free clean runs = ground arith

-- The manager with an event of the context at `a` taken out.
abbrev deleted : IoManager → ℕ → Event → IoManager
deleted io a e = put (dec_pending io) a (
    reset_event_context
      (record (io.contexts a) { events = inter (io.contexts a).events (compl (bit e)) }) e)

-- The manager with an event of the context at `a` put in.
abbrev pub added : Caller → IoManager → ℕ → Event → Func → IoManager
added who io a e cb =
    let c = io.contexts a in
    record io {
      contexts =
          update io.contexts a
            (set_event_context (record c { events = union c.events (bit e) }) e (filled who cb));
      pending = u64 (io.pending + 1);
    }

-- The kernel takes every change of the descriptor's interest.
abbrev pub Accepts : Ctl → ℕ → Type 0
Accepts ctl fd = (op : CtlOp) (m : Mask) → ctl op fd m ≡ false

-- Deleting a registered event.
del_event_registered :
    (ctl : Ctl) (io : IoManager) (fd a : ℕ) (e : Event)
    → get_elem? io.table fd ≡ some a
    → Accepts ctl fd
    → is_registered (io.contexts a) e ≡ true
    → del_event ctl io fd e ≡ ok (deleted io a e, true)
unfolding del_event
del_event_registered ctl io fd a read found accepts reg =
    let left = inter (io.contexts a).events (compl (bit read)) in
    ground (arith, accepts (if any left then ctl_mod else ctl_del) (union left epollet))
del_event_registered ctl io fd a write found accepts reg =
    let left = inter (io.contexts a).events (compl (bit write)) in
    ground (arith, accepts (if any left then ctl_mod else ctl_del) (union left epollet))

deleted-added :
    (who : Caller) (io : IoManager) (a : ℕ) (e : Event) (cb : Func)
    → IsArmed (io.contexts a)
    → is_registered (io.contexts a) e ≡ false
    → get_event_context (io.contexts a) e ≡ blank
    → io.pending < 2 ^ 64 - 1
    → (is_registered ((added who io a e cb).contexts a) e ≡ true)
      × ((deleted (added who io a e cb) a e).pending ≡ io.pending)
      × ((b : ℕ) → (deleted (added who io a e cb) a e).contexts b ≡ io.contexts b)
deleted-added who io a read cb armed free clean l = (
  ground arith,
  ground arith,
  λ b. elim (Bool-cases (a == b)) [
    | inl same ↦ let eq : a ≡ b = ground arith in rw (← eq) (ground arith)
    | inr other ↦ ground arith
  ],
)
deleted-added who io a write cb armed free clean l = (
  ground arith,
  ground arith,
  λ b. elim (Bool-cases (a == b)) [
    | inl same ↦ let eq : a ≡ b = ground arith in rw (← eq) (ground arith)
    | inr other ↦ ground arith
  ],
)

-- On a descriptor of the table whose event is not registered, where the kernel takes the changes
-- and the caller's fiber runs, adding the event and deleting it again both succeed and give back
-- the contexts, the count of pending events and the schedule of before. The context of the event
-- is blank, and fewer than 2^64 - 1 events are pending.
pub del_event-add_event :
    (ctl : Ctl) (who : Caller) (io : IoManager) (fd a : ℕ) (e : Event) (cb : Func)
    → get_elem? io.table fd ≡ some a
    → fd < length io.table
    → IsArmed (io.contexts a)
    → io.pending < 2 ^ 64 - 1
    → Accepts ctl fd
    → is_registered (io.contexts a) e ≡ false
    → get_event_context (io.contexts a) e ≡ blank
    → who.runs ≡ true
    → (io' io'' : IoManager) × (add_event ctl who io fd e cb ≡ ok (io', true))
      × (del_event ctl io' fd e ≡ ok (io'', true))
      × (io''.pending ≡ io.pending)
      × ((b : ℕ) → io''.contexts b ≡ io.contexts b)
      × (io''.scheduled ≡ io.scheduled)
del_event-add_event ctl who io fd a e cb found small armed l accepts free clean runs =
    let back = deleted-added who io a e cb armed free clean l in
    (
      added who io a e cb,
      deleted (added who io a e cb) a e,
      add_event_lem ctl who io fd a e cb found small free clean runs
          ∙ rw
              (accepts (if any (io.contexts a).events then ctl_mod else ctl_add)
                (union (union (bit read) (io.contexts a).events) (bit e)))
              refl,
      del_event_registered ctl (added who io a e cb) fd a e found accepts (back.0),
      back.1,
      back.2,
      refl,
    )

-- The manager with an event of the context at `a` triggered.
abbrev pub cancelled : IoManager → ℕ → ℕ → Event → IoManager
cancelled io a s e =
    let c = io.contexts a in
    dec_pending (record io {
      contexts = update io.contexts a (reset_event_context (record c { events = none_set }) e);
      scheduled = io.scheduled ++ (s, task_of (get_event_context c e)) ∷ [];
    })

pub cancel_unregistered :
    (ctl : Ctl) (io : IoManager) (fd a : ℕ) (e : Event)
    → get_elem? io.table fd ≡ some a
    → IsArmed (io.contexts a)
    → is_registered (io.contexts a) e ≡ false
    → cancel_event ctl io fd e ≡ ok (io, false)
unfolding cancel_event
cancel_unregistered ctl io fd a read found armed reg = ground arith
cancel_unregistered ctl io fd a write found armed reg = ground arith

pub cancel_event_registered :
    (ctl : Ctl) (io : IoManager) (fd a s : ℕ) (e : Event)
    → get_elem? io.table fd ≡ some a
    → IsArmed (io.contexts a)
    → Accepts ctl fd
    → (get_event_context (io.contexts a) e).scheduler ≡ some s
    → is_registered (io.contexts a) e ≡ true
    → cancel_event ctl io fd e ≡ ok (cancelled io a s e, true)
unfolding cancel_event
cancel_event_registered ctl io fd a s read found armed accepts sched reg =
    let left = inter (io.contexts a).events (compl (bit read)) in
    ground (arith, accepts (if any left then ctl_mod else ctl_del) (union left (bit read)))
cancel_event_registered ctl io fd a s write found armed accepts sched reg =
    let left = inter (io.contexts a).events (compl (bit write)) in
    ground (arith, accepts (if any left then ctl_mod else ctl_del) (union left (bit read)))
