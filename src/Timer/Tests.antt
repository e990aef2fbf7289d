-- ===== src/Timer/Tests.antt =====
-- Runs of the timer queue, and its theorems at concrete managers, src/timer.cc.
use ztyco.Base.{ℕ, ◌+◌, ◌≡◌, refl, true, false, some, [], ◌∷◌, map, ◌==◌}
use ztyco.Timer.{
  Timer, Manager, null, user, on_timer, invoke, init, add_timer, get_next_timer, list_expired_cb,
}
use ztyco.Timer.Expiry.{taken}
use ztyco.Timer.Invariant.{Inv, cancels, step, step-Inv, init-Inv, add_timer-Inv}
use ztyco.Timer.Laws.{list_expired_cb_lem, get_next_timer_lem}

abbrev blank : ℕ → Timer
blank a = record { recurring = false; ms = 0; next = 0; cb = null }

abbrev epoch : ℕ
epoch = 5_000_000

-- A recurring timer at 8 with period 20, then a one-shot timer at 4 with delay 10.
abbrev one_timer : Manager
one_timer = (add_timer (init blank epoch) 8 20 (user 1) true epoch).0

abbrev two_timers : Manager
two_timers = (add_timer one_timer 4 10 (user 2) false epoch).0

one_timer-Inv : Inv one_timer
unfolding init
one_timer-Inv =
    add_timer-Inv _ 8 20 epoch (user 1) true (init-Inv blank epoch (λ a. refl)) refl refl

two_timers-Inv : Inv two_timers
unfolding init add_timer
two_timers-Inv = add_timer-Inv one_timer 4 10 epoch (user 2) false one_timer-Inv refl refl

two_timers_order : two_timers.timers ≡ 4 ∷ 8 ∷ []
unfolding init add_timer
two_timers_order = refl

-- The condition of a timer decides whether its callback runs.
condition_gone : invoke (λ w. w == 3) (on_timer 2 (user 7)) ≡ []
unfolding invoke
condition_gone = refl

-- At 15 past only the one-shot timer goes; at 20 past both do, the recurring one coming back.
expired_at_15 : (list_expired_cb two_timers 99 (epoch + 15)).1 ≡ user 2 ∷ []
unfolding init add_timer list_expired_cb
expired_at_15 = refl

back_at_20 : (list_expired_cb two_timers 99 (epoch + 20)).0.timers ≡ 8 ∷ []
unfolding init add_timer list_expired_cb
back_at_20 = refl

list_expired_cb_lem_example :
    (list_expired_cb two_timers 99 (epoch + 15)).1
    ≡ map (λ a. (two_timers.heap a).cb) (taken two_timers (epoch + 15))
unfolding init add_timer
list_expired_cb_lem_example = (list_expired_cb_lem two_timers 99 (epoch + 15) two_timers-Inv refl).0

get_next_timer_lem_example :
    (get_next_timer two_timers epoch).0 ≡ record two_timers { tickled = false }
get_next_timer_lem_example = (get_next_timer_lem two_timers epoch two_timers-Inv).1

step-Inv_example : (m' : Manager) × (step two_timers (cancels 8 epoch) ≡ some m') × Inv m'
step-Inv_example = step-Inv two_timers (cancels 8 epoch) two_timers-Inv tt
