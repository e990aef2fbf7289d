-- ===== src/IoManager/Idle.antt =====
-- What the idle fiber does with the reports of the kernel, and stopping, src/iomanager.cc.
use ztyco.Timer.{no_timeout}
use ztyco.Scheduler.{Scheduler, is_stopping}
use ztyco.Base.Int.{ℤ, pos, negsuc}
use ztyco.Base.{
  ℕ, ◌-◌, ◌%◌, ◌^◌, Bool, true, false, not, ◌&&◌, ◌||◌, List, [], ◌∷◌, ltb, ◌==◌, if◌then◌else◌,
  Outcome, ok, ◌>>=◌,
}
use ztyco.IoManager.Calls.{dec_pending}
use ztyco.IoManager.{
  Ctl, Event, FdContext, IoManager, Mask, any, bit, compl, ctl_del, ctl_mod, epollet, inter,
  none_set, read, trigger_event, union, write,
}

-- What `epoll_wait` reports: the tickle pipe, or a context with the events on it.
pub data Report : Type 0 where
  tickle : Report
  ready : ℕ → Mask → Report

-- An error or a hang-up counts as every registered event.
abbrev pub real_events : FdContext → Mask → Mask
real_events c ev =
    let both = union (bit read) (bit write) in
    let ev' = if ev.err || ev.hup then union ev (inter both c.events) else ev in
    union (if ev'.rd then bit read else none_set) (if ev'.wr then bit write else none_set)

-- `if (real_evts & e) { triggerEvent(e); --m_pendingEventCount; }`
unfoldable pub trigger_real : Bool → IoManager → ℕ → Event → Outcome IoManager
unfolding trigger_event
trigger_real false io a e = ok io
trigger_real true io a e = do io' ← trigger_event io a e; ok (dec_pending io')

-- The turn for a context from its `real_evts` on.
unfoldable pub handle_real : Ctl → IoManager → ℕ → Mask → Outcome IoManager
unfolding trigger_real
handle_real ctl io a real =
    let c = io.contexts a in
    let left = inter c.events (compl real) in
    if not (any (inter c.events real))
    then ok io
    else if ctl (if any left then ctl_mod else ctl_del) c.fd (union left epollet)
    then ok io
    else (do io₁ ← trigger_real real.rd io a read; trigger_real real.wr io₁ a write)

-- One turn of the loop of `IOManager::idle` over the reports.
unfoldable pub handle : Ctl → IoManager → Report → Outcome IoManager
unfolding handle_real
handle ctl io tickle = ok io
handle ctl io (ready a ev) = handle_real ctl io a (real_events (io.contexts a) ev)

-- The loop.
unfoldable pub handle_all : Ctl → IoManager → List Report → Outcome IoManager
handle_all ctl io [] = ok io
handle_all ctl io (r ∷ rs) = do io' ← handle ctl io r; handle_all ctl io' rs

-- `(int)x` of a `uint64_t`.
abbrev pub to_int : ℕ → ℤ
to_int x = let w = x % 2 ^ 32 in if ltb w (2 ^ 31) then pos w else negsuc (2 ^ 32 - w - 1)

abbrev pub max_timeout : ℕ
max_timeout = 5000

-- The timeout that `idle` hands to `epoll_wait`, from what `getNextTimer` returned.
unfoldable pub wait_timeout : ℕ → ℤ
wait_timeout next = if next == no_timeout then pos max_timeout else elim (to_int next) [
  | pos n ↦ pos (if ltb n max_timeout then n else max_timeout)
  | negsuc n ↦ negsuc n
]

-- `IOManager::stopping(timeout)`, where `getNextTimer` returned `next`.
unfoldable pub io_stopping : IoManager → Scheduler → ℕ → Bool
unfolding is_stopping
io_stopping io s next = next == no_timeout && io.pending == 0 && is_stopping s
