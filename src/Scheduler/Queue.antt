-- ===== src/Scheduler/Queue.antt =====
-- The queue of tasks: `scheduleNoLock` and the search of `Scheduler::run`, src/scheduler.cc and
-- include/scheduler.h.
use mathlib.Core.List.{append_assoc, append-nil}
use ztyco.Base.{
  ℕ, ◌≡◌, ◌⊎◌, refl, ap, ◌∙◌, inl, inr, Bool, true, false, not, ◌&&◌, ◌||◌, Option, none, some,
  List, [], ◌∷◌, ◌++◌, is_empty, All, arith, Bool-cases,
}
use ztyco.Scheduler.{
  Task, Scheduler, is_valid, schedule_no_lock, schedule_from, schedule_all, is_elsewhere, pick,
}

-- What a search of `ts` by the thread `me` may come to.
abbrev pub Picks : ℕ → List Task → Option Task × List Task × Bool → Type 0
Picks me ts r =
    ((r.0 ≡ none) × (r.1 ≡ ts) × All (λ t. is_elsewhere me t ≡ true) ts)
    ⊎ ((t : Task) × (before after : List Task) × (r.0 ≡ some t)
        × (ts ≡ before ++ t ∷ after)
        × (r.1 ≡ before ++ after)
        × All (λ x. is_elsewhere me x ≡ true) before
        × (is_elsewhere me t ≡ false))

-- The search takes the first task that the thread may run and nothing else, leaves the others in
-- their order, and asks for a tickle exactly where it leaves a task.
pub pick-Picks :
    (me : ℕ) (ts : List Task)
    → Picks me ts (pick me ts) × ((pick me ts).2 ≡ not (is_empty (pick me ts).1))
unfolding pick
pick-Picks me [] = (inl (refl, refl, tt), refl)
pick-Picks me (t ∷ ts) = elim (Bool-cases (is_elsewhere me t)) [
  | inr here ↦ rw here (inr (t, [], ts, refl, refl, refl, tt, here), refl)
  | inl there ↦ rw there (elim (pick-Picks me ts).0 [
    | inl (e, same, away) ↦ (inl (e, ap (◌∷◌ t) same, (refl, away)), refl)
    | inr (x, before, after, e, split, rest, away, mine) ↦ (
      inr (x, t ∷ before, after, e, ap (◌∷◌ t) split, ap (◌∷◌ t) rest, (there, away), mine),
      refl,
    )
  ])
]

not_empty_append : (ts : List Task) (t : Task) → is_empty (ts ++ t ∷ []) ≡ false
not_empty_append [] t = refl
not_empty_append (x ∷ ts) t = refl

schedule_from-tasks :
    (s : Scheduler) (need : Bool) (ts : List Task)
    → All (λ t. is_valid t ≡ true) ts
    → ((schedule_from s need ts).0 ≡ record s { tasks = s.tasks ++ ts })
      × ((schedule_from s need ts).1 ≡ (need || (is_empty s.tasks && not (is_empty ts))))
unfolding schedule_from schedule_no_lock
schedule_from-tasks s need [] v = (rw (append-nil s.tasks) refl, ground arith)
schedule_from-tasks s need (t ∷ ts) v =
    let s' = record s { tasks = s.tasks ++ t ∷ [] } in
    let ih = schedule_from-tasks s' (is_empty s.tasks || need) ts (v.1) in
    rw (v.0, schedule_from)
      (
        ih.0 ∙ ap (λ l. record s { tasks = l }) (append_assoc s.tasks (t ∷ []) ts),
        ih.1 ∙ ground (arith, not_empty_append s.tasks t),
      )

-- A batch of valid tasks goes to the end of the queue in its order, and asks for a tickle exactly
-- where the queue was empty and the batch is not.
pub schedule_all_lem :
    (s : Scheduler) (ts : List Task)
    → All (λ t. is_valid t ≡ true) ts
    → ((schedule_all s ts).0 ≡ record s { tasks = s.tasks ++ ts })
      × ((schedule_all s ts).1 ≡ (is_empty s.tasks && not (is_empty ts)))
unfolding schedule_all
schedule_all_lem s ts v = schedule_from-tasks s false ts v
