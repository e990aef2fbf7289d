-- ===== src/Hook/Io.antt =====
-- What the hooked input, output, sleep and connect calls do, src/hook.cc.
use ztyco.IoManager.{IoManager}
use ztyco.FdManager.Laws.{get_entry}
use ztyco.FdManager.{entry, change, Sys, FdManager, Side, get_nat, get_timeout, no_limit}
use ztyco.Base.{
  ℕ, suc, ◌+◌, ◌-◌, ◌*◌, ◌/◌, ◌^◌, ◌<◌, ◌≤◌, ◌≡◌, ◌≢◌, refl, ap, ◌∙◌, inl, inr, Bool, true, false,
  not, ◌&&◌, Option, none, some, List, [], ◌∷◌, ◌++◌, ◌==◌, if◌then◌else◌, All, arith, Bool-cases,
  length,
}
use ztyco.Hook.{
  IoCall, side_of, io_call, World, Reply, done, interrupted, again, failed, Wait, Act, arm, disarm,
  register, yield, Result, came, timed_out, blocked, armed, disarmed, io_loop, direct, with_ctx,
  do_io, sleep_ms, nanosleep_ms,
}
use ztyco.Hook.Calls.{ioctl_fionbio}
use ztyco.Hook.Connect.{einprogress, connect_wait, connect_with_timeout}

-- How many timers the acts leave armed, from `n` on; a cancelled timer was armed.
abbrev pub open_timers : ℕ → List Act → ℕ
open_timers n [] = n
open_timers n (arm t ∷ acts) = open_timers (n + 1) acts
open_timers n (disarm ∷ acts) = open_timers (n - 1) acts
open_timers n (register ∷ acts) = open_timers n acts
open_timers n (yield ∷ acts) = open_timers n acts

abbrev pub is_blocked : Result → Bool
is_blocked blocked = true
is_blocked _ = false

abbrev pub is_timed_out : Result → Bool
is_timed_out timed_out = true
is_timed_out _ = false

open_timers-append :
    (n : ℕ) (xs ys : List Act) → open_timers n (xs ++ ys) ≡ open_timers (open_timers n xs) ys
open_timers-append n [] ys = refl
open_timers-append n (arm t ∷ xs) ys = open_timers-append (n + 1) xs ys
open_timers-append n (disarm ∷ xs) ys = open_timers-append (n - 1) xs ys
open_timers-append n (register ∷ xs) ys = open_timers-append n xs ys
open_timers-append n (yield ∷ xs) ys = open_timers-append n xs ys

-- One wait cancels the timer that it armed.
wait_balance :
    (timeout n : ℕ)
    → (open_timers n (armed timeout ++ register ∷ disarmed timeout) ≡ n)
      × (open_timers n (armed timeout ++ register ∷ yield ∷ disarmed timeout) ≡ n)
wait_balance timeout n = (ground arith, ground arith)

-- However the loop of a hooked call returns, it leaves the timers that were armed before and no
-- other; and it only times out where its descriptor has a timeout.
pub io_loop_timers :
    (timeout n : ℕ) (rs : List Reply) (ws : List Wait)
    → (is_blocked ((io_loop timeout rs ws).1) ≡ false
        → open_timers n ((io_loop timeout rs ws).0) ≡ n)
      × (is_timed_out ((io_loop timeout rs ws).1) ≡ true → timeout ≢ no_limit)
unfolding io_loop
io_loop_timers timeout n [] ws = (λ h. refl, λ h. ground arith)
io_loop_timers timeout n (done v ∷ rs) ws = (λ h. refl, λ h. ground arith)
io_loop_timers timeout n (failed e ∷ rs) ws = (λ h. refl, λ h. ground arith)
io_loop_timers timeout n (interrupted ∷ rs) ws = io_loop_timers timeout n rs ws
io_loop_timers timeout n (again ∷ rs) [] = (λ h. ground arith, λ h. ground arith)
io_loop_timers timeout n (again ∷ rs) (w ∷ ws) =
    let ih = io_loop_timers timeout n rs ws in
    let b = wait_balance timeout n in
    let wait = armed timeout ++ register ∷ yield ∷ disarmed timeout in
    elim (Bool-cases w.refused) [
      | inl r ↦ rw r (λ h. b.0, λ h. ground arith)
      | inr a ↦ elim (Bool-cases (not (timeout == no_limit) && w.expired)) [
        | inl t ↦ rw (a, t) (λ h. b.1, λ h. ground arith)
        | inr o ↦
            rw (a, o)
              (
                λ h.
                    open_timers-append n wait ((io_loop timeout rs ws).0)
                    ∙ ap (λ m. open_timers m ((io_loop timeout rs ws).0)) (b.1)
                    ∙ ih.0 h,
                ih.1,
              )
      ]
    ]

-- The first reply that is neither EINTR nor EAGAIN.
abbrev pub first_final : List Reply → Option Reply
first_final [] = none
first_final (done n ∷ rs) = some (done n)
first_final (failed e ∷ rs) = some (failed e)
first_final (interrupted ∷ rs) = first_final rs
first_final (again ∷ rs) = first_final rs

-- How often the call would have had to wait.
abbrev pub waits : List Reply → ℕ
waits [] = 0
waits (done n ∷ rs) = 0
waits (failed e ∷ rs) = 0
waits (interrupted ∷ rs) = waits rs
waits (again ∷ rs) = suc (waits rs)

-- The event comes, before any timer.
abbrev pub IsServed : Wait → Type 0
IsServed w = (w.refused ≡ false) × (w.expired ≡ false)

io_loop_final :
    (timeout : ℕ) (rs : List Reply) (ws : List Wait) (r : Reply)
    → first_final rs ≡ some r
    → waits rs ≤ length ws
    → All IsServed ws
    → (io_loop timeout rs ws).1 ≡ came r
unfolding io_loop
io_loop_final timeout [] ws r h l s = cc
io_loop_final timeout (done n ∷ rs) ws r h l s = ground arith
io_loop_final timeout (failed e ∷ rs) ws r h l s = ground arith
io_loop_final timeout (interrupted ∷ rs) ws r h l s = io_loop_final timeout rs ws r h l s
io_loop_final timeout (again ∷ rs) [] r h l s = elim l [ ]
io_loop_final timeout (again ∷ rs) (w ∷ ws) r h l s =
    let ih = io_loop_final timeout rs ws r h (omega arith) (s.1) in ground arith

-- Every context is open.
abbrev pub AllOpen : FdManager → Type 0
AllOpen m = (a : ℕ) → (m.ctxs a).is_closed ≡ false

-- Whether a call on a context waits for its event: it is a socket that the program did not make
-- non-blocking.
abbrev pub waits_on : FdManager → Option ℕ → Bool
waits_on m none = false
waits_on m (some a) = (m.ctxs a).is_socket && not (m.ctxs a).user_nonblock

with_ctx_final :
    {K : Type 0} (w : World K) (io : IoManager) (side : Side) (rs : List Reply) (ws : List Wait)
    (r : Reply) (p : Option ℕ)
    → AllOpen w.mgr
    → w.io ≡ some io
    → first_final rs ≡ some r
    → waits rs ≤ length ws
    → All IsServed ws
    → (waits_on w.mgr p ≡ true → (with_ctx w side rs ws p).1 ≡ came r)
      × (waits_on w.mgr p ≡ false → with_ctx w side rs ws p ≡ direct rs)
with_ctx_final w io side rs ws r none o h f l s = (λ y. cc, λ n. refl)
with_ctx_final w io side rs ws r (some a) o h f l s =
    let loop = io_loop_final (get_timeout (w.mgr.ctxs a) side) rs ws r f l s in
    (λ y. ground (arith, o a), λ n. ground (arith, o a))

-- Where the world serves every wait in time, and the hooks are on: a call of `read`, `recv`,
-- `write` and the others, on a socket that the program left blocking, returns the first reply that
-- is neither EINTR nor EAGAIN, however often it had to wait before; on any other descriptor it is
-- the original call. The thread has an `IOManager`, and no context is closed.
pub io_call_lem :
    {K : Type 0} (sys : Sys K) (w : World K) (io : IoManager) (call : IoCall) (fd : ℕ)
    (rs : List Reply) (ws : List Wait) (r : Reply)
    → w.enabled ≡ true
    → AllOpen w.mgr
    → w.io ≡ some io
    → first_final rs ≡ some r
    → waits rs ≤ length ws
    → All IsServed ws
    → (waits_on w.mgr (entry w.mgr fd) ≡ true → (io_call sys w call fd rs ws).1 ≡ came r)
      × (waits_on w.mgr (entry w.mgr fd) ≡ false → io_call sys w call fd rs ws ≡ direct rs)
unfolding io_call do_io
io_call_lem sys w io call fd rs ws r on o h f l s =
    rw (on, get_entry sys w.kernel w.mgr fd)
      (with_ctx_final w io (side_of call) rs ws r (entry w.mgr fd) o h f l s)

-- A program that makes its socket non-blocking by `ioctl` gets the original call's one reply from
-- then on, and one that makes it blocking again is hooked again.
pub io_call-ioctl :
    {K : Type 0} (sys : Sys K) (w : World K) (io : IoManager) (call : IoCall) (fd a : ℕ) (v : Bool)
    (rs : List Reply) (ws : List Wait)
    → w.enabled ≡ true
    → w.io ≡ some io
    → entry w.mgr fd ≡ some a
    → (w.mgr.ctxs a).is_closed ≡ false
    → (w.mgr.ctxs a).is_socket ≡ true
    → io_call sys (ioctl_fionbio sys w fd v) call fd rs ws
      ≡ (if v then direct rs else io_loop (get_timeout (w.mgr.ctxs a) (side_of call)) rs ws)
unfolding io_call do_io ioctl_fionbio
io_call-ioctl sys w io call fd a v rs ws on h there o s =
    let m' = change w.mgr a (record (w.mgr.ctxs a) { user_nonblock = v }) in
    rw (get_entry sys w.kernel w.mgr fd, there) (ground (arith, get_entry sys w.kernel m' fd))

-- `sleep` waits the seconds that it is given up to 4294967, just under fifty days; beyond, the
-- product wraps around and it waits less. `nanosleep` waits the whole milliseconds of what it is
-- given as long as those are below 2 ^ 31; from there to 2 ^ 32 it waits for more than 500 million
-- years.
sleep_ms_lem :
    (seconds sec nsec : ℕ)
    → (seconds ≤ 4294967 → sleep_ms seconds ≡ seconds * 1000)
      × (4294968 ≤ seconds → sleep_ms seconds < seconds * 1000)
      × (sec * 1000 + nsec / 1000000 < 2 ^ 31 → nanosleep_ms sec nsec ≡ sec * 1000 + nsec / 1000000)
      × (2 ^ 31 ≤ sec * 1000 + nsec / 1000000
          → sec * 1000 + nsec / 1000000 < 2 ^ 32
          → 2 ^ 64 - 2 ^ 31 ≤ nanosleep_ms sec nsec)
unfolding sleep_ms nanosleep_ms
sleep_ms_lem seconds sec nsec =
    (λ h. omega arith, λ h. omega arith, λ h. ground arith, λ a b. ground arith)

-- On a known, open socket with the hooks on, a `connect` that is under way returns EINPROGRESS at
-- once, with no event registered and no timer armed. Where the program made the socket
-- non-blocking and the connection fails in another way, the call registers the event and waits.
connect_under_way :
    {K : Type 0} (sys : Sys K) (w : World K) (io : IoManager) (fd a timeout e : ℕ) (wait : Wait)
    (so_error : Option ℕ)
    → w.enabled ≡ true
    → w.io ≡ some io
    → (get_nat sys w.kernel w.mgr fd false).2 ≡ some a
    → (w.mgr.ctxs a).is_closed ≡ false
    → (w.mgr.ctxs a).is_socket ≡ true
    → (connect_with_timeout sys w fd timeout (failed einprogress) wait so_error
        ≡ ([], came (failed einprogress)))
      × ((w.mgr.ctxs a).user_nonblock ≡ true
          → e ≢ einprogress
          → connect_with_timeout sys w fd timeout (failed e) wait so_error
            ≡ connect_wait (some io) timeout wait so_error)
unfolding connect_with_timeout
connect_under_way sys w io fd a timeout e wait so_error on h found o s =
    (ground arith, λ u n. ground arith)
