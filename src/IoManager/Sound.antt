-- ===== src/IoManager/Sound.antt =====
-- What a call on the I/O scheduler may come to, and the parts of the calls, src/iomanager.cc.
use ztyco.Base.{
  ℕ, ◌+◌, ◌<◌, ◌≤◌, ◌≡◌, ◌⊎◌, refl, inl, inr, Bool, true, false, not, Option, none, some, [], ◌∷◌,
  ◌++◌, if◌then◌else◌, update, arith, Bool-cases, Option-cases, Outcome, ok, abort, undefined,
  assert, ◌>>=◌,
}
use ztyco.IoManager.{
  inter, compl, any, Event, read, write, bit, FdContext, IoManager, task_of, get_event_context,
  reset_event_context, trigger_event,
}
use ztyco.IoManager.Idle.{trigger_real}
use ztyco.IoManager.Calls.{on_context, trigger_if, dec_pending}
use ztyco.IoManager.Events.{IsArmed, is_registered}
use ztyco.IoManager.Pending.{Slack, Slack-put, Slack-dec, bits}

-- A call may return a sound manager, or stop at an assertion; it is not undefined.
abbrev pub IsSound : ℕ → ℕ → Outcome IoManager → Type 0
IsSound k n (ok io) = Slack k n io
IsSound k n abort = Unit
IsSound k n undefined = ⊥

abbrev pub IsSoundPair : ℕ → Outcome (IoManager × Bool) → Type 0
IsSoundPair n (ok r) = Slack 0 n (r.0)
IsSoundPair n abort = Unit
IsSoundPair n undefined = ⊥

module _ (n : ℕ) where
  pub bind-IsSound :
      (k k' : ℕ) (o : Outcome IoManager) (f : IoManager → Outcome IoManager)
      → IsSound k n o
      → ((io : IoManager) → Slack k n io → IsSound k' n (f io))
      → IsSound k' n (o >>= f)
  bind-IsSound k k' (ok io) f s h = h io s
  bind-IsSound k k' abort f s h = tt
  bind-IsSound k k' undefined f s h = absurd s

  pub bind-IsSoundPair :
      (k : ℕ) (o : Outcome IoManager) (f : IoManager → Outcome (IoManager × Bool))
      → IsSound k n o
      → ((io : IoManager) → Slack k n io → IsSoundPair n (f io))
      → IsSoundPair n (o >>= f)
  bind-IsSoundPair k (ok io) f s h = h io s
  bind-IsSoundPair k abort f s h = tt
  bind-IsSoundPair k undefined f s h = absurd s

-- The context at `a` with an event triggered.
abbrev pub spent : IoManager → ℕ → Event → FdContext
spent io a e =
    let c = io.contexts a in
    reset_event_context (record c { events = inter c.events (compl c.events) }) e

pub spent-IsArmed : (io : IoManager) (a : ℕ) (e : Event) → IsArmed (spent io a e)
spent-IsArmed io a read = ground arith
spent-IsArmed io a write = ground arith

pub trigger_cases :
    (io : IoManager) (a : ℕ) (e : Event)
    → IsArmed (io.contexts a)
    → ((is_registered (io.contexts a) e ≡ false) × (trigger_event io a e ≡ abort))
      ⊎ ((s : ℕ) × (is_registered (io.contexts a) e ≡ true)
          × (trigger_event io a e
              ≡ ok (record io {
                contexts = update io.contexts a (spent io a e);
                scheduled = io.scheduled ++ (s, task_of (get_event_context (io.contexts a) e)) ∷ [];
              })))
unfolding trigger_event
trigger_cases io a read v = elim (Bool-cases (io.contexts a).events.rd) [
  | inr e ↦ inl (e, ground arith)
  | inl e ↦ elim (Option-cases (io.contexts a).read.scheduler) [
    | inl n ↦ absurd (ground arith)
    | inr (s, h) ↦ inr (s, e, ground arith)
  ]
]
trigger_cases io a write v = elim (Bool-cases (io.contexts a).events.wr) [
  | inr e ↦ inl (e, ground arith)
  | inl e ↦ elim (Option-cases (io.contexts a).write.scheduler) [
    | inl n ↦ absurd (ground arith)
    | inr (s, h) ↦ inr (s, e, ground arith)
  ]
]

pub spent_count :
    (io : IoManager) (a : ℕ) (e : Event)
    → is_registered (io.contexts a) e ≡ true
    → 1 + bits (spent io a e) ≤ bits (io.contexts a)
spent_count io a read h = ground arith
spent_count io a write h = ground arith

pub registered_of_any :
    (c : FdContext) (e : Event)
    → not (any (inter c.events (bit e))) ≡ false
    → is_registered c e ≡ true
registered_of_any c read h = ground arith
registered_of_any c write h = ground arith

-- The context at `a` with an event deleted.
abbrev pub reduced : IoManager → ℕ → Event → FdContext
reduced io a e =
    reset_event_context
      (record (io.contexts a) { events = inter (io.contexts a).events (compl (bit e)) }) e

pub reduced-IsArmed :
    (io : IoManager) (a : ℕ) (e : Event)
    → IsArmed (io.contexts a)
    → is_registered (io.contexts a) e ≡ true
    → IsArmed (reduced io a e) × (1 + bits (reduced io a e) ≡ bits (io.contexts a))
reduced-IsArmed io a read v h = (ground arith, ground arith)
reduced-IsArmed io a write v h = (ground arith, ground arith)

module _ (n : ℕ) where
  pub trigger-IsSound :
      (io : IoManager) (a : ℕ) (e : Event)
      → Slack 0 n io
      → a < n
      → IsSound 1 n (trigger_event io a e)
  trigger-IsSound io a e s l =
      let in_use : a < io.fresh = omega (arith, s.allocated) in
      elim (trigger_cases io a e (s.armed a in_use)) [
        | inl (_, h) ↦ rw h tt
        | inr (sc, r, h) ↦ rw h (
            Slack-put 0 1 n io a (spent io a e) _ io.pending s in_use (spent-IsArmed io a e)
              s.bounded (omega (arith, spent_count io a e r)))
      ]

  pub spend-IsSound :
      (io : IoManager) (a : ℕ) (e : Event)
      → Slack 0 n io
      → a < n
      → IsSound 0 n (trigger_event io a e >>= λ io'. ok (dec_pending io'))
  spend-IsSound io a e s l =
      bind-IsSound n 1 0 (trigger_event io a e) (λ io'. ok (dec_pending io'))
        (trigger-IsSound io a e s l) (Slack-dec n)

  pub when-IsSound :
      (b : Bool) (io : IoManager) (a : ℕ) (e : Event)
      → Slack 0 n io
      → a < n
      → IsSound 0 n (if b then (trigger_event io a e >>= λ io'. ok (dec_pending io')) else ok io)
  when-IsSound true io a e s l = spend-IsSound io a e s l
  when-IsSound false io a e s l = s

  pub trigger_if-IsSound :
      (io : IoManager) (a : ℕ) (e : Event) → Slack 0 n io → a < n → IsSound 0 n (trigger_if io a e)
  unfolding trigger_if
  trigger_if-IsSound io a e s l =
      when-IsSound (any (inter (io.contexts a).events (bit e))) io a e s l

  pub trigger_real-IsSound :
      (b : Bool) (io : IoManager) (a : ℕ) (e : Event)
      → Slack 0 n io
      → a < n
      → IsSound 0 n (trigger_real b io a e)
  unfolding trigger_real
  trigger_real-IsSound true io a e s l = spend-IsSound io a e s l
  trigger_real-IsSound false io a e s l = s

  -- A guard that returns false, or goes on.
  pub guard-IsSoundPair :
      (b : Bool) (io : IoManager) (o : Outcome (IoManager × Bool))
      → Slack 0 n io
      → (b ≡ false → IsSoundPair n o)
      → IsSoundPair n (if b then ok (io, false) else o)
  guard-IsSoundPair true io o s k = s
  guard-IsSoundPair false io o s k = k refl

  pub guard-IsSound :
      (b : Bool) (io : IoManager) (o : Outcome IoManager)
      → Slack 0 n io
      → IsSound 0 n o
      → IsSound 0 n (if b then ok io else o)
  guard-IsSound true io o s k = s
  guard-IsSound false io o s k = k

  pub on_context-IsSoundPair :
      (o : Option ℕ) (io : IoManager) (f : ℕ → Outcome (IoManager × Bool))
      → Slack 0 n io
      → ((a : ℕ) → o ≡ some a → IsSoundPair n (f a))
      → IsSoundPair n (on_context o io f)
  on_context-IsSoundPair none io f s h = s
  on_context-IsSoundPair (some a) io f s h = h a refl

  pub assert-IsSoundPair :
      (b : Bool) (io : IoManager) → Slack 0 n io → IsSoundPair n (assert b >>= λ _. ok (io, true))
  assert-IsSoundPair true io s = s
  assert-IsSoundPair false io s = tt
