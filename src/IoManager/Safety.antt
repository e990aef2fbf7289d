-- ===== src/IoManager/Safety.antt =====
-- No call on the I/O scheduler is undefined, and the count of pending events never falls below
-- what is registered, src/iomanager.cc.
use ztyco.Timer.{Func}
use ztyco.Base.{
  ℕ, ◌-◌, ◌^◌, ◌<◌, ◌≡◌, Bool, true, false, not, if◌then◌else◌, is_some, get_elem?, arith, Outcome,
  ok, assert, ◌>>=◌,
}
use ztyco.IoManager.{
  ctl_mod, ctl_del, Mask, none_set, union, inter, compl, any, Event, read, write, bit, IoManager,
  Ctl, epollet, reset_event_context, trigger_event, put,
}
use ztyco.IoManager.Idle.{real_events, Report, tickle, ready, handle, handle_real, trigger_real}
use ztyco.IoManager.Calls.{
  if_registered, Caller, trigger_if, dec_pending, add_event, del_event, cancel_event, cancel_all,
}
use ztyco.IoManager.Events.{is_registered}
use ztyco.IoManager.Pending.{Slack, Slack-put, Slack-dec, get_elem?-All}
use ztyco.IoManager.Growth.{add_event-IsSoundPair}
use ztyco.IoManager.Sound.{
  IsSound, IsSoundPair, bind-IsSound, bind-IsSoundPair, registered_of_any, reduced, reduced-IsArmed,
  spend-IsSound, trigger_if-IsSound, trigger_real-IsSound, guard-IsSoundPair, guard-IsSound,
  on_context-IsSoundPair, assert-IsSoundPair,
}

abbrev done : IoManager → Outcome (IoManager × Bool)
done io = ok (io, true)

module _ (ctl : Ctl) (io : IoManager) (s : Slack 0 io.fresh io) where
  if_registered-IsSoundPair :
      (fd : ℕ) (e : Event) (extra : Mask) (act : ℕ → Mask → Outcome IoManager)
      → ((a : ℕ)
          → a < io.fresh
          → is_registered (io.contexts a) e ≡ true
          → IsSound 0 io.fresh (act a (inter (io.contexts a).events (compl (bit e)))))
      → IsSoundPair io.fresh (if_registered ctl io fd e extra act)
  if_registered-IsSoundPair fd e extra act h =
      on_context-IsSoundPair io.fresh (get_elem? io.table fd) io _ s λ a found.
        let left = inter (io.contexts a).events (compl (bit e)) in
        let refused = ctl (if any left then ctl_mod else ctl_del) fd (union left extra) in
        guard-IsSoundPair io.fresh (not (any (inter (io.contexts a).events (bit e)))) io
          (if refused then ok (io, false) else act a left >>= done) s
          λ reg. guard-IsSoundPair io.fresh refused io (act a left >>= done) s λ accepted.
            bind-IsSoundPair io.fresh 0 (act a left) done
              (h a (get_elem?-All io.fresh fd a io.table s.listed found)
                (registered_of_any (io.contexts a) e reg))
              (λ io' s'. s')

  pub cancel_event-IsSoundPair :
      (fd : ℕ) (e : Event) → IsSoundPair io.fresh (cancel_event ctl io fd e)
  unfolding cancel_event
  cancel_event-IsSoundPair fd e =
      if_registered-IsSoundPair fd e (bit read)
        (λ a left. trigger_event io a e >>= λ io'. ok (dec_pending io'))
        (λ a l reg. spend-IsSound io.fresh io a e s l)

  pub del_event-IsSoundPair : (fd : ℕ) (e : Event) → IsSoundPair io.fresh (del_event ctl io fd e)
  unfolding del_event
  del_event-IsSoundPair fd e =
      if_registered-IsSoundPair fd e epollet
        (λ a left. ok (
          put (dec_pending io) a
            (reset_event_context (record (io.contexts a) { events = left }) e)))
        λ a l reg.
          let r = reduced-IsArmed io a e (s.armed a l) reg in
          Slack-dec io.fresh _ (
            Slack-put 0 1 io.fresh io a (reduced io a e) io.scheduled io.pending s l (r.0) s.bounded
              (omega (arith, r.1)))

  pub cancel_all-IsSoundPair : (fd : ℕ) → IsSoundPair io.fresh (cancel_all ctl io fd)
  unfolding cancel_all
  cancel_all-IsSoundPair fd =
      on_context-IsSoundPair io.fresh (get_elem? io.table fd) io _ s λ a found.
        let l = get_elem?-All io.fresh fd a io.table s.listed found in
        let last : IoManager → Outcome (IoManager × Bool) =
          λ io₂. assert (not (any (io₂.contexts a).events)) >>= λ _. ok (io₂, true) in
        let rest : IoManager → Outcome (IoManager × Bool) =
          λ io₁. trigger_if io₁ a write >>= last in
        guard-IsSoundPair io.fresh (not (any (io.contexts a).events)) io
          (if ctl ctl_del fd none_set then ok (io, false) else trigger_if io a read >>= rest) s
          λ reg.
            guard-IsSoundPair io.fresh (ctl ctl_del fd none_set) io (trigger_if io a read >>= rest)
              s
              λ accepted.
                bind-IsSoundPair io.fresh 0 (trigger_if io a read) rest
                  (trigger_if-IsSound io.fresh io a read s l)
                  λ io₁ s₁.
                    bind-IsSoundPair io.fresh 0 (trigger_if io₁ a write) last
                      (trigger_if-IsSound io.fresh io₁ a write s₁ l)
                      λ io₂ s₂.
                        assert-IsSoundPair io.fresh (not (any (io₂.contexts a).events)) io₂ s₂

  handle_real-IsSound :
      (a : ℕ) (real : Mask) → a < io.fresh → IsSound 0 io.fresh (handle_real ctl io a real)
  unfolding handle_real
  handle_real-IsSound a real l =
      let left = inter (io.contexts a).events (compl real) in
      let refused =
        ctl (if any left then ctl_mod else ctl_del) (io.contexts a).fd (union left epollet) in
      let rest : IoManager → Outcome IoManager = λ io₁. trigger_real real.wr io₁ a write in
      guard-IsSound io.fresh (not (any (inter (io.contexts a).events real))) io
        (if refused then ok io else trigger_real real.rd io a read >>= rest) s
        (guard-IsSound io.fresh refused io (trigger_real real.rd io a read >>= rest) s (
          bind-IsSound io.fresh 0 0 (trigger_real real.rd io a read) rest
            (trigger_real-IsSound io.fresh real.rd io a read s l)
            (λ io₁ s₁. trigger_real-IsSound io.fresh real.wr io₁ a write s₁ l)))

-- The calls on the I/O scheduler, and the report of an event on a context.
pub data Call : Type 0 where
  adding : Caller → ℕ → Event → Func → Call
  deleting : ℕ → Event → Call
  cancelling : ℕ → Event → Call
  cancelling_all : ℕ → Call
  reporting : Report → Call

abbrev pub run_call : Ctl → IoManager → Call → Outcome (IoManager × Bool)
run_call ctl io (adding who fd e cb) = add_event ctl who io fd e cb
run_call ctl io (deleting fd e) = del_event ctl io fd e
run_call ctl io (cancelling fd e) = cancel_event ctl io fd e
run_call ctl io (cancelling_all fd) = cancel_all ctl io fd
run_call ctl io (reporting r) = handle ctl io r >>= done

-- An event is registered from a scheduler's thread, and a report is on an existing context.
abbrev pub IsPossible : IoManager → Call → Type 0
IsPossible io (adding who fd e cb) = is_some who.scheduler ≡ true
IsPossible io (reporting (ready a ev)) = a < io.fresh
IsPossible io c = Unit

handle-IsSound :
    (ctl : Ctl) (io : IoManager) (r : Report)
    → Slack 0 io.fresh io
    → IsPossible io (reporting r)
    → IsSound 0 io.fresh (handle ctl io r)
unfolding handle
handle-IsSound ctl io tickle s l = s
handle-IsSound ctl io (ready a ev) s l =
    handle_real-IsSound ctl io s a (real_events (io.contexts a) ev) l

pub run_call-IsSound :
    (ctl : Ctl) (io : IoManager) (c : Call)
    → Slack 0 io.fresh io
    → io.pending < 2 ^ 64 - 1
    → IsPossible io c
    → IsSoundPair io.fresh (run_call ctl io c)
run_call-IsSound ctl io (adding who fd e cb) s room p =
    add_event-IsSoundPair ctl who p io fd e cb s room
run_call-IsSound ctl io (deleting fd e) s room p = del_event-IsSoundPair ctl io s fd e
run_call-IsSound ctl io (cancelling fd e) s room p = cancel_event-IsSoundPair ctl io s fd e
run_call-IsSound ctl io (cancelling_all fd) s room p = cancel_all-IsSoundPair ctl io s fd
run_call-IsSound ctl io (reporting r) s room p =
    bind-IsSoundPair io.fresh 0 (handle ctl io r) done (handle-IsSound ctl io r s p) (λ io' s'. s')
