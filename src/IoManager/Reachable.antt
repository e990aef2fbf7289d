-- ===== src/IoManager/Reachable.antt =====
-- The I/O schedulers that the calls lead to, and when one may stop, src/iomanager.cc.
use ztyco.Timer.{no_timeout}
use ztyco.Scheduler.{Scheduler}
use ztyco.Base.{ℕ, ◌-◌, ◌^◌, ◌<◌, ◌≡◌, Bool, true, false, subst, arith, ok}
use ztyco.IoManager.{Event, read, write, IoManager, Ctl, new_manager}
use ztyco.IoManager.Idle.{io_stopping}
use ztyco.IoManager.Events.{is_registered}
use ztyco.IoManager.Pending.{Slack, bits-le-registered}
use ztyco.IoManager.Growth.{new_manager-Slack}
use ztyco.IoManager.Sound.{IsSoundPair}
use ztyco.IoManager.Safety.{Call, run_call, IsPossible, run_call-IsSound}

-- A manager that a sequence of calls and reports leads to from a new one, each from a scheduler's
-- thread or on an existing context, with fewer than 2 ^ 64 - 1 events pending.
pub data IsReachable : IoManager → Type 0 where
  created : IsReachable new_manager
  called :
      (ctl : Ctl) (c : Call) (io io' : IoManager) (b : Bool)
      → IsReachable io
      → io.pending < 2 ^ 64 - 1
      → IsPossible io c
      → run_call ctl io c ≡ ok (io', b)
      → IsReachable io'

full : (n : ℕ) (io : IoManager) → Slack 0 n io → Slack 0 io.fresh io
full n io s = record {
  counted = s.counted;
  bounded = s.bounded;
  allocated = omega arith;
  armed = s.armed;
  listed = s.listed;
  sized = s.sized;
}

pub IsReachable-Slack : (io : IoManager) → IsReachable io → Slack 0 io.fresh io
IsReachable-Slack _ created = new_manager-Slack
IsReachable-Slack _ (called ctl c io io' b r room p h) =
    full io.fresh io'
      (subst (IsSoundPair io.fresh) h (run_call-IsSound ctl io c (IsReachable-Slack io r) room p))

-- Where a reachable I/O scheduler reports that it may stop, no context has an event registered,
-- and `getNextTimer` found no timer.
pub io_stopping_lem :
    (io : IoManager) (sch : Scheduler) (next : ℕ)
    → IsReachable io
    → io_stopping io sch next ≡ true
    → (next ≡ no_timeout)
      × ((a : ℕ) (e : Event) → a < io.fresh → is_registered (io.contexts a) e ≡ false)
unfolding io_stopping
io_stopping_lem io sch next r h = (ground arith, λ a e l. unarmed a e l)
  where
    s : Slack 0 io.fresh io
    s = IsReachable-Slack io r

    none_pending : io.pending ≡ 0
    none_pending = ground arith

    unarmed : (a : ℕ) (e : Event) → a < io.fresh → is_registered (io.contexts a) e ≡ false
    unarmed a read l =
        let b = bits-le-registered io.fresh a io.contexts l in
        ground (arith, s.counted, none_pending)
    unarmed a write l =
        let b = bits-le-registered io.fresh a io.contexts l in
        ground (arith, s.counted, none_pending)
