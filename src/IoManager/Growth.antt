-- ===== src/IoManager/Growth.antt =====
-- `addEvent` and the growth of the table keep the books, src/iomanager.cc.
use ztyco.Timer.{Func, u64}
use ztyco.Base.{
  [], ℕ, zero, suc, ◌+◌, ◌-◌, ◌^◌, ◌*◌, ◌/◌, ◌<◌, ◌≤◌, ◌≡◌, ◌⊎◌, refl, ◌∙◌, inl, inr, Bool, true,
  false, ◌==◌, ltb, is_some, length, All, update, arith, Bool-cases, Outcome, ok, abort, undefined,
}
use ztyco.IoManager.{
  union, bit, Event, read, write, FdContext, IoManager, Ctl, fill, new_manager, context_resize,
  with_context, set_event_context,
}
use ztyco.IoManager.Calls.{Caller, add_to, add_event, filled}
use ztyco.IoManager.Events.{IsArmed, is_registered, added}
use ztyco.IoManager.Table.{fill_fresh, fill_pending, length-fill, empty_context}
use ztyco.IoManager.Pending.{
  Slack, Slack-put, bits, registered, registered-above, get_elem?-All, get_elem?-lt,
}
use ztyco.IoManager.Sound.{IsSoundPair}

abbrev nothing : IoManager
nothing = record {
  contexts = λ a. empty_context a;
  table = [];
  fresh = 0;
  pending = 0;
  scheduled = [];
}

fill-registered :
    (n fd : ℕ) (io : IoManager)
    → registered (fill n fd io).fresh (fill n fd io).contexts ≡ registered io.fresh io.contexts
unfolding fill
fill-registered zero fd io = refl
fill-registered (suc n) fd io =
    fill-registered n (suc fd) (with_context fd io)
    ∙ ground (arith, registered-above io.fresh io.fresh io.contexts (empty_context fd))

fill-IsArmed :
    (n fd : ℕ) (io : IoManager)
    → ((a : ℕ) → a < io.fresh → IsArmed (io.contexts a))
    → (a : ℕ) → a < (fill n fd io).fresh
    → IsArmed ((fill n fd io).contexts a)
unfolding fill
fill-IsArmed zero fd io h = h
fill-IsArmed (suc n) fd io h = fill-IsArmed n (suc fd) (with_context fd io) λ a l.
    elim (Bool-cases (io.fresh == a)) [
      | inl same ↦ rw same (ground arith)
      | inr other ↦ rw other (h a (ground arith))
    ]

fill-listed : (n fd : ℕ) (io : IoManager) → All (λ a. a < (fill n fd io).fresh) (fill n fd io).table
unfolding fill
fill-listed zero fd io = tt
fill-listed (suc n) fd io = (
  omega (arith, fill_fresh n (suc fd) (with_context fd io)),
  fill-listed n (suc fd) (with_context fd io),
)

Slack-fill :
    (n fd : ℕ) (io : IoManager)
    → 32 ≤ n
    → Slack 0 io.fresh io
    → Slack 0 (fill n fd io).fresh (fill n fd io)
Slack-fill n fd io big s = record {
  counted = omega (arith, s.counted, fill-registered n fd io, (fill_pending n fd io).0);
  bounded = omega (arith, s.bounded, (fill_pending n fd io).0);
  allocated = omega arith;
  armed = fill-IsArmed n fd io s.armed;
  listed = fill-listed n fd io;
  sized = omega (arith, length-fill n fd io);
}

-- A new manager is sound.
pub new_manager-Slack : Slack 0 new_manager.fresh new_manager
unfolding new_manager context_resize
new_manager-Slack = record {
  counted = omega (arith, fill-registered 32 0 nothing);
  bounded = omega (arith, (fill_pending 32 0 nothing).0);
  allocated = omega arith;
  armed = fill-IsArmed 32 0 nothing (λ a l. elim l [ ]);
  listed = fill-listed 32 0 nothing;
  sized = omega (arith, length-fill 32 0 nothing);
}

-- What `addEvent` does with the context that it found.
add_to_cases :
    (ctl : Ctl) (who : Caller) (io : IoManager) (a fd : ℕ) (e : Event) (cb : Func)
    → (add_to ctl who io a fd e cb ≡ abort)
      ⊎ (add_to ctl who io a fd e cb ≡ ok (io, false))
      ⊎ ((is_registered (io.contexts a) e ≡ false)
          × (add_to ctl who io a fd e cb ≡ ok (added who io a e cb, true)))
unfolding add_to
add_to_cases ctl who io a fd read cb = ground arith
add_to_cases ctl who io a fd write cb = ground arith

abbrev added_context : Caller → IoManager → ℕ → Event → Func → FdContext
added_context who io a e cb =
    set_event_context (record (io.contexts a) { events = union (io.contexts a).events (bit e) }) e
      (filled who cb)

added-IsArmed :
    (who : Caller) (io : IoManager) (a : ℕ) (e : Event) (cb : Func)
    → IsArmed (io.contexts a)
    → is_some who.scheduler ≡ true
    → is_registered (io.contexts a) e ≡ false
    → IsArmed (added_context who io a e cb)
      × (bits (added_context who io a e cb) ≡ 1 + bits (io.contexts a))
added-IsArmed who io a read cb v w free = (ground arith, ground arith)
added-IsArmed who io a write cb v w free = (ground arith, ground arith)

added_eq :
    (who : Caller) (io : IoManager) (a : ℕ) (e : Event) (cb : Func)
    → added who io a e cb ≡ record io {
      contexts = update io.contexts a (added_context who io a e cb);
      pending = u64 (io.pending + 1);
    }
added_eq who io a read cb = refl
added_eq who io a write cb = refl

fewer-IsSoundPair :
    (n n' : ℕ) (o : Outcome (IoManager × Bool)) → n ≤ n' → IsSoundPair n' o → IsSoundPair n o
fewer-IsSoundPair n n' (ok r) l s = record {
  counted = s.counted;
  bounded = s.bounded;
  allocated = omega (arith, s.allocated);
  armed = s.armed;
  listed = s.listed;
  sized = s.sized;
}
fewer-IsSoundPair n n' abort l s = tt
fewer-IsSoundPair n n' undefined l s = absurd s

module _ (ctl : Ctl) (who : Caller) (here : is_some who.scheduler ≡ true) where
  pub add_to-IsSoundPair :
      (n : ℕ) (io : IoManager) (a fd : ℕ) (e : Event) (cb : Func)
      → Slack 0 n io
      → a < io.fresh
      → io.pending < 2 ^ 64 - 1
      → IsSoundPair n (add_to ctl who io a fd e cb)
  add_to-IsSoundPair n io a fd e cb s l room = elim (add_to_cases ctl who io a fd e cb) [
    | inl stopped ↦ rw stopped tt
    | inr (inl refused) ↦ rw refused s
    | inr (inr (free, entered)) ↦
        let r = added-IsArmed who io a e cb (s.armed a l) here free in
        rw (entered, added_eq who io a e cb)
          (Slack-put 0 0 n io a (added_context who io a e cb) io.scheduled (u64 (io.pending + 1)) s
            l (r.0) (omega arith) (omega (arith, r.1)))
  ]

  -- `addEvent` on any descriptor, in the table or beyond it.
  pub add_event-IsSoundPair :
      (io : IoManager) (fd : ℕ) (e : Event) (cb : Func)
      → Slack 0 io.fresh io
      → io.pending < 2 ^ 64 - 1
      → IsSoundPair io.fresh (add_event ctl who io fd e cb)
  unfolding add_event
  add_event-IsSoundPair io fd e cb s room = elim (Bool-cases (ltb fd (length io.table))) [
    | inl small ↦
        let (a, found) = get_elem?-lt fd io.table (ground arith) in
        rw (small, found)
          (add_to-IsSoundPair io.fresh io a fd e cb s
            (get_elem?-All io.fresh fd a io.table s.listed found) room)
    | inr big ↦
        let n = fd * 3 / 2 in
        let io' = fill n 0 io in
        let beyond : length io.table ≤ fd = ground arith in
        let large : 32 ≤ fd = omega (arith, s.sized) in
        let s' = Slack-fill n 0 io (omega arith) s in
        let (a, found) = get_elem?-lt fd io'.table (omega (arith, length-fill n 0 io)) in
        rw (big, found)
          (fewer-IsSoundPair io.fresh io'.fresh (add_to ctl who io' a fd e cb)
            (omega (arith, fill_fresh n 0 io))
            (add_to-IsSoundPair io'.fresh io' a fd e cb s'
              (get_elem?-All io'.fresh fd a io'.table s'.listed found)
              (omega (arith, (fill_pending n 0 io).0))))
  ]
