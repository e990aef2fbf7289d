-- ===== src/IoManager/Table.antt =====
-- The growth of the table of contexts, `contextResize` and its use in `addEvent`,
-- src/iomanager.cc.
use ztyco.Timer.{Func, u64}
use ztyco.IoManager.Events.{Accepts, added}
use ztyco.Base.{
  ℕ, zero, suc, ◌+◌, ◌<◌, ◌≤◌, ◌*◌, ◌/◌, ◌≡◌, ◌≢◌, refl, ap, ◌∙◌, true, false, some, length,
  get_elem?, arith, ok,
}
use ztyco.IoManager.{
  none_set, union, Event, read, write, bit, blank, FdContext, IoManager, Ctl, ctl_add, context_for,
  fill, with_context,
}
use ztyco.IoManager.Calls.{Caller, add_to, add_event, cancel_event}

abbrev pub empty_context : ℕ → FdContext
empty_context fd = record { read = blank; write = blank; fd = fd; events = none_set }

pub fill_fresh : (n fd : ℕ) (io : IoManager) → (fill n fd io).fresh ≡ io.fresh + n
unfolding fill
fill_fresh zero fd io = omega arith
fill_fresh (suc n) fd io = omega (arith, fill_fresh n (suc fd) (with_context fd io))

pub fill_pending :
    (n fd : ℕ) (io : IoManager)
    → ((fill n fd io).pending ≡ io.pending) × ((fill n fd io).scheduled ≡ io.scheduled)
unfolding fill
fill_pending zero fd io = (refl, refl)
fill_pending (suc n) fd io = fill_pending n (suc fd) (with_context fd io)

pub length-fill : (n fd : ℕ) (io : IoManager) → length (fill n fd io).table ≡ n
unfolding fill
length-fill zero fd io = refl
length-fill (suc n) fd io = ap suc (length-fill n (suc fd) (with_context fd io))

-- The contexts that there were stay as they were.
pub fill_old :
    (n fd a : ℕ) (io : IoManager) → a < io.fresh → (fill n fd io).contexts a ≡ io.contexts a
unfolding fill
fill_old zero fd a io l = refl
fill_old (suc n) fd a io l = fill_old n (suc fd) a (with_context fd io) (omega arith) ∙ ground arith

-- The new table lists the new contexts, one for each descriptor, and they are blank.
pub fill_new :
    (n fd k : ℕ) (io : IoManager)
    → k < n
    → (get_elem? (fill n fd io).table k ≡ some (io.fresh + k))
      × ((fill n fd io).contexts (io.fresh + k) ≡ empty_context (fd + k))
unfolding fill
fill_new zero fd k io l = elim l [ ]
fill_new (suc n) fd zero io l =
    (ground arith, ground (arith, fill_old n (suc fd) io.fresh (with_context fd io)))
fill_new (suc n) fd (suc k) io l =
    let ih = fill_new n (suc fd) k (with_context fd io) (omega arith) in
    (ground arith, ground arith)

abbrev grown : IoManager → ℕ → IoManager
grown io fd = fill (fd * 3 / 2) 0 io

context_for-grown :
    (io : IoManager) (fd : ℕ)
    → length io.table ≤ fd
    → 2 ≤ fd
    → context_for io fd ≡ (grown io fd, some (io.fresh + fd))
unfolding context_for
context_for-grown io fd l two = ground (arith, fill_new (fd * 3 / 2) 0 fd io)

add_to_blank :
    (ctl : Ctl) (who : Caller) (io : IoManager) (a fd k : ℕ) (e : Event) (cb : Func)
    → io.contexts a ≡ empty_context k
    → Accepts ctl fd
    → who.runs ≡ true
    → add_to ctl who io a fd e cb ≡ ok (added who io a e cb, true)
unfolding add_to
add_to_blank ctl who io a fd k read cb clean accepts runs =
    ground (arith, accepts ctl_add (union (union (bit read) none_set) (bit read)))
add_to_blank ctl who io a fd k write cb clean accepts runs =
    ground (arith, accepts ctl_add (union (union (bit read) none_set) (bit write)))

add_event-grown :
    (ctl : Ctl) (who : Caller) (io : IoManager) (fd : ℕ) (e : Event) (cb : Func)
    → length io.table ≤ fd
    → 2 ≤ fd
    → Accepts ctl fd
    → who.runs ≡ true
    → add_event ctl who io fd e cb ≡ ok (added who (grown io fd) (io.fresh + fd) e cb, true)
unfolding add_event
add_event-grown ctl who io fd e cb l two accepts runs = ground (
  arith,
  context_for-grown io fd,
  add_to_blank ctl who (grown io fd) (io.fresh + fd) fd (0 + fd) e cb
      (fill_new (fd * 3 / 2) 0 fd io (omega arith)).1 accepts runs,
)

cancel_event_blank :
    (ctl : Ctl) (io : IoManager) (fd a k : ℕ) (e : Event)
    → get_elem? io.table fd ≡ some a
    → io.contexts a ≡ empty_context k
    → cancel_event ctl io fd e ≡ ok (io, false)
unfolding cancel_event
cancel_event_blank ctl io fd a k read found clean = ground arith
cancel_event_blank ctl io fd a k write found clean = ground arith

-- Registering an event of a descriptor beyond the table, which the kernel takes from a running
-- fiber, counts one more pending event and leaves the contexts that there were as they are; but
-- afterwards no event of another descriptor of the new table can be cancelled. The descriptor is 2
-- at least.
add_event_forgets :
    (ctl : Ctl) (who : Caller) (io : IoManager) (fd : ℕ) (e : Event) (cb : Func)
    → length io.table ≤ fd
    → 2 ≤ fd
    → Accepts ctl fd
    → who.runs ≡ true
    → (io' : IoManager) × (add_event ctl who io fd e cb ≡ ok (io', true))
      × (io'.pending ≡ u64 (io.pending + 1))
      × ((a : ℕ) → a < io.fresh → io'.contexts a ≡ io.contexts a)
      × ((fd' : ℕ) (e' : Event)
          → fd' < fd * 3 / 2
          → fd' ≢ fd
          → cancel_event ctl io' fd' e' ≡ ok (io', false))
add_event_forgets ctl who io fd e cb l two accepts runs = (
  added who (grown io fd) (io.fresh + fd) e cb,
  add_event-grown ctl who io fd e cb l two accepts runs,
  ap (λ p. u64 (p + 1)) (fill_pending (fd * 3 / 2) 0 io).0,
  λ a old. ground (arith, fill_old (fd * 3 / 2) 0 a io old),
  λ fd' e' in_table other.
      let new = fill_new (fd * 3 / 2) 0 fd' io in_table in
      cancel_event_blank ctl (added who (grown io fd) (io.fresh + fd) e cb) fd' (io.fresh + fd')
        (0 + fd') e' (new.0) (ground (arith, new.1)),
)
