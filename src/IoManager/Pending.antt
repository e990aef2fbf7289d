-- ===== src/IoManager/Pending.antt =====
-- The count of pending events against what is registered, src/iomanager.cc. `m_pendingEventCount`
-- decides whether the I/O scheduler may stop.
use ztyco.Scheduler.{Task}
use ztyco.Base.{
  ℕ, zero, suc, ◌+◌, ◌^◌, ◌<◌, ◌≤◌, ◌≡◌, refl, inl, inr, some, List, [], ◌∷◌, ◌==◌, if◌then◌else◌,
  length, get_elem?, All, update, arith, Bool-cases,
}
use ztyco.IoManager.{FdContext, IoManager}
use ztyco.IoManager.Calls.{dec_pending}
use ztyco.IoManager.Events.{IsArmed}

abbrev pub bits : FdContext → ℕ
bits c = (if c.events.rd then 1 else 0) + (if c.events.wr then 1 else 0)

-- How many events the first `n` contexts have registered.
abbrev pub registered : ℕ → (ℕ → FdContext) → ℕ
registered zero f = 0
registered (suc n) f = registered n f + bits (f n)

pub registered-above :
    (n a : ℕ) (f : ℕ → FdContext) (c : FdContext)
    → n ≤ a
    → registered n (update f a c) ≡ registered n f
registered-above zero a f c l = refl
registered-above (suc n) a f c l = ground (arith, registered-above n a f c)

registered-update :
    (n a : ℕ) (f : ℕ → FdContext) (c : FdContext)
    → a < n
    → registered n (update f a c) + bits (f a) ≡ registered n f + bits c
registered-update zero a f c l = elim l [ ]
registered-update (suc n) a f c l = elim (Bool-cases (a == n)) [
  | inl same ↦ let eq : a ≡ n = ground arith in rw eq (ground (arith, registered-above n n f c))
  | inr other ↦ ground (arith, registered-update n a f c)
]

pub registered-eq :
    (n : ℕ) (f g : ℕ → FdContext) → ((a : ℕ) → a < n → f a ≡ g a) → registered n f ≡ registered n g
registered-eq zero f g e = refl
registered-eq (suc n) f g e =
    let last = e n (omega arith) in
    let ih = registered-eq n f g (λ a l. e a (omega arith)) in rw (ih, last) refl

pub bits-le-registered : (n a : ℕ) (f : ℕ → FdContext) → a < n → bits (f a) ≤ registered n f
bits-le-registered zero a f l = elim l [ ]
bits-le-registered (suc n) a f l = elim (Bool-cases (a == n)) [
  | inl same ↦ let eq : a ≡ n = ground arith in rw eq (omega arith)
  | inr other ↦ let ih = bits-le-registered n a f (ground arith) in omega arith
]

-- At least `k` pending events beyond those registered, a sound table, and `n` contexts at least.
pub record Slack (k n : ℕ) (io : IoManager) : Type 0 where
  pub counted : registered io.fresh io.contexts + k ≤ io.pending
  pub bounded : io.pending < 2 ^ 64
  pub allocated : n ≤ io.fresh
  pub armed : (a : ℕ) → a < io.fresh → IsArmed (io.contexts a)
  pub listed : All (λ a. a < io.fresh) io.table
  pub sized : 32 ≤ length io.table

pub get_elem?-All :
    (n k a : ℕ) (xs : List ℕ) → All (λ x. x < n) xs → get_elem? xs k ≡ some a → a < n
get_elem?-All n k a [] h e = cc
get_elem?-All n zero a (x ∷ xs) h e = ground arith
get_elem?-All n (suc k) a (x ∷ xs) h e = get_elem?-All n k a xs (h.1) e

pub get_elem?-lt : (k : ℕ) (xs : List ℕ) → k < length xs → (a : ℕ) × (get_elem? xs k ≡ some a)
get_elem?-lt k [] l = elim l [ ]
get_elem?-lt zero (x ∷ xs) l = (x, refl)
get_elem?-lt (suc k) (x ∷ xs) l = get_elem?-lt k xs (omega arith)

-- Changing one context.
pub Slack-put :
    (k k' n : ℕ) (io : IoManager) (a : ℕ) (c : FdContext) (sched : List (ℕ × Task)) (pending : ℕ)
    → Slack k n io
    → a < io.fresh
    → IsArmed c
    → pending < 2 ^ 64
    → io.pending + k' + bits c ≤ pending + k + bits (io.contexts a)
    → Slack k' n
        (record io { contexts = update io.contexts a c; scheduled = sched; pending = pending })
Slack-put k k' n io a c sched pending s l armed b count = record {
  counted = omega (arith, registered-update io.fresh a io.contexts c l, s.counted);
  bounded = b;
  allocated = s.allocated;
  armed = λ x lx. elim (Bool-cases (a == x)) [
    | inl same ↦ rw same armed
    | inr other ↦ rw other (s.armed x lx)
  ];
  listed = s.listed;
  sized = s.sized;
}

pub Slack-dec : (n : ℕ) (io : IoManager) → Slack 1 n io → Slack 0 n (dec_pending io)
Slack-dec n io s = record {
  counted = omega (arith, s.counted, s.bounded);
  bounded = omega arith;
  allocated = s.allocated;
  armed = s.armed;
  listed = s.listed;
  sized = s.sized;
}
