-- ===== src/Hook.antt =====
-- The hooked system calls, src/hook.cc.
-- What the world answers is a script: the replies of the original call, one for each time it is
-- called, and for each wait whether the event is refused and whether the timer goes off first.
-- What a call does to the I/O scheduler is a list of acts. Descriptors are not negative.
pub mod Calls
pub mod Connect
pub mod Io
pub mod Files
mod Tests
use ztyco.Base.Int.{ℤ, pos, negsuc}
use ztyco.IoManager.{IoManager, Ctl}
use ztyco.IoManager.Calls.{cancel_all}
use ztyco.FdManager.{
  Sys, FdCtx, FdManager, Side, receiving, sending, get_nat, del, change, has_nonblock,
  with_nonblock, without_nonblock, no_limit, set_timeout, get_timeout,
}
use ztyco.Base.{
  ℕ, ◌+◌, ◌-◌, ◌*◌, ◌/◌, ◌%◌, ◌^◌, Bool, true, false, not, ◌&&◌, ◌||◌, Option, none, some, List, [],
  ◌∷◌, ◌++◌, ltb, ◌==◌, if◌then◌else◌, Outcome, ok, abort, undefined, ◌>>=◌, deref,
}

-- What the hooks stand on: `t_hook_enable`, the kernel, the table of descriptors, and the calling
-- thread's `IOManager`, if it has one.
pub record World (K : Type 0) : Type 0 where
  pub enabled : Bool
  pub kernel : K
  pub mgr : FdManager
  pub io : Option IoManager

-- What the original call returns: a number, or -1 with `errno` EINTR, EAGAIN or another.
pub data Reply : Type 0 where
  done : ℕ → Reply
  interrupted : Reply
  again : Reply
  failed : ℕ → Reply

pub record Wait : Type 0 where
  pub refused : Bool
  pub expired : Bool

-- A condition timer is armed, cancelled, the event registered, the fiber put on hold.
pub data Act : Type 0 where
  arm : ℕ → Act
  disarm : Act
  register : Act
  yield : Act

-- What a hooked call comes to: what the original call returned; -1 with ETIMEDOUT, with EBADF, or
-- because `addEvent` failed; the script ends while it waits; a null `IOManager` is used;
-- `getsockopt` fails.
pub data Result : Type 0 where
  came : Reply → Result
  timed_out bad_fd refused blocked crashed no_status : Result

-- The acts of one wait around the event: `timer` is armed before and cancelled after.
abbrev pub armed : ℕ → List Act
armed timeout = if timeout == no_limit then [] else arm timeout ∷ []

abbrev pub disarmed : ℕ → List Act
disarmed timeout = if timeout == no_limit then [] else disarm ∷ []

abbrev pub before : List Act → List Act × Result → List Act × Result
before acts (more, r) = (acts ++ more, r)

-- `do_io` from `retry` on.
pub io_loop : ℕ → List Reply → List Wait → List Act × Result
io_loop timeout [] ws = ([], blocked)
io_loop timeout (done n ∷ rs) ws = ([], came (done n))
io_loop timeout (failed e ∷ rs) ws = ([], came (failed e))
io_loop timeout (interrupted ∷ rs) ws = io_loop timeout rs ws
io_loop timeout (again ∷ rs) [] = (armed timeout ++ register ∷ yield ∷ [], blocked)
io_loop timeout (again ∷ rs) (w ∷ ws) =
    let rest = io_loop timeout rs ws in
    if w.refused
    then (armed timeout ++ register ∷ disarmed timeout, refused)
    else if not (timeout == no_limit) && w.expired
    then (armed timeout ++ register ∷ yield ∷ disarmed timeout, timed_out)
    else before (armed timeout ++ register ∷ yield ∷ disarmed timeout) rest

-- The loop on a thread without an `IOManager`: the first wait uses a null pointer.
pub io_alone : List Reply → Result
io_alone [] = blocked
io_alone (done n ∷ rs) = came (done n)
io_alone (failed e ∷ rs) = came (failed e)
io_alone (interrupted ∷ rs) = io_alone rs
io_alone (again ∷ rs) = crashed

-- The original call, called once.
abbrev pub direct : List Reply → List Act × Result
direct [] = ([], blocked)
direct (r ∷ rs) = ([], came r)

abbrev pub hooked : Option IoManager → ℕ → List Reply → List Wait → List Act × Result
hooked none timeout rs ws = ([], io_alone rs)
hooked (some io) timeout rs ws = io_loop timeout rs ws

-- `do_io` with the context that `FdManager::get` returns.
abbrev pub with_ctx :
    {K : Type 0} → World K → Side → List Reply → List Wait → Option ℕ → List Act × Result
with_ctx w side rs ws none = direct rs
with_ctx w side rs ws (some a) =
    let c = w.mgr.ctxs a in
    if c.is_closed
    then ([], bad_fd)
    else if not c.is_socket || c.user_nonblock
    then direct rs
    else hooked w.io (get_timeout c side) rs ws

-- `do_io`
unfoldable pub do_io :
    {K : Type 0} → Sys K → World K → ℕ → Side → List Reply → List Wait → List Act × Result
unfolding io_loop io_alone
do_io sys w fd side rs ws =
    if not w.enabled
    then direct rs
    else with_ctx w side rs ws ((get_nat sys w.kernel w.mgr fd false).2)

-- The calls that are `do_io` of an original call, and the side of the socket that each waits on.
pub data IoCall : Type 0 where
  read readv recv recvfrom recvmsg : IoCall
  write writev send sendto sendmsg : IoCall

abbrev pub side_of : IoCall → Side
side_of read = receiving
side_of readv = receiving
side_of recv = receiving
side_of recvfrom = receiving
side_of recvmsg = receiving
side_of write = sending
side_of writev = sending
side_of send = sending
side_of sendto = sending
side_of sendmsg = sending

unfoldable pub io_call :
    {K : Type 0} → Sys K → World K → IoCall → ℕ → List Reply → List Wait → List Act × Result
io_call sys w call fd rs ws = do_io sys w fd (side_of call) rs ws

-- The milliseconds that `sleep`, `usleep` and `nanosleep` hand to `addTimer`, a `uint64_t`: an
-- `unsigned` product, a quotient, and an `int` of the seconds and nanoseconds.
unfoldable pub sleep_ms : ℕ → ℕ
sleep_ms seconds = seconds * 1000 % 2 ^ 32

unfoldable pub usleep_ms : ℕ → ℕ
usleep_ms usec = usec / 1000

unfoldable pub nanosleep_ms : ℕ → ℕ → ℕ
nanosleep_ms sec nsec =
    let x = (sec * 1000 + nsec / 1000 / 1000) % 2 ^ 32 in
    if ltb x (2 ^ 31) then x else 2 ^ 64 - 2 ^ 32 + x
