-- ===== src/Hook/Calls.antt =====
-- `socket`, `close`, `fcntl`, `ioctl` and `setsockopt`, src/hook.cc.
use ztyco.Base.Int.{ℤ, pos, negsuc}
use ztyco.IoManager.{IoManager, Ctl}
use ztyco.IoManager.Calls.{cancel_all}
use ztyco.FdManager.{
  Sys, Side, get_nat, del, change, has_nonblock, with_nonblock, without_nonblock, set_timeout,
}
use ztyco.Base.{
  ℕ, ◌+◌, ◌*◌, ◌/◌, ◌%◌, ◌^◌, Bool, true, false, not, ◌||◌, Option, none, some, if◌then◌else◌,
  Outcome, ok, ◌>>=◌,
}
use ztyco.Hook.{World}

-- `socket`: the number that it returns.
abbrev pub socket_made : {K : Type 0} → Sys K → World K → K × ℤ → World K × ℤ
socket_made sys w (k, negsuc n) = (record w { kernel = k }, negsuc n)
socket_made sys w (k, pos fd) =
    let (k', m, a) = get_nat sys k w.mgr fd true in (record w { kernel = k'; mgr = m }, pos fd)

unfoldable pub socket : {K : Type 0} → Sys K → World K → World K × ℤ
socket sys w =
    let (k, r) = sys.socket w.kernel in
    if not w.enabled then (record w { kernel = k }, r) else socket_made sys w (k, r)

-- `close`: with a context, its events are cancelled and it is dropped before the original call.
abbrev pub cancel_for : Ctl → Option IoManager → ℕ → Outcome (Option IoManager)
cancel_for ctl none fd = ok none
cancel_for ctl (some io) fd = do (io', b) ← cancel_all ctl io fd; ok (some io')

abbrev pub original_close : {K : Type 0} → Sys K → World K → ℕ → Outcome (World K × ℕ)
original_close sys w fd = let (k, r) = sys.close w.kernel fd in ok (record w { kernel = k }, r)

abbrev pub close_ctx : {K : Type 0} → Sys K → Ctl → World K → ℕ → Option ℕ → Outcome (World K × ℕ)
close_ctx sys ctl w fd none = original_close sys w fd
close_ctx sys ctl w fd (some a) = do
  io' ← cancel_for ctl w.io fd
  original_close sys (record w { io = io'; mgr = del w.mgr fd }) fd

unfoldable pub close : {K : Type 0} → Sys K → Ctl → World K → ℕ → Outcome (World K × ℕ)
close sys ctl w fd =
    if not w.enabled
    then original_close sys w fd
    else close_ctx sys ctl w fd ((get_nat sys w.kernel w.mgr fd false).2)

-- `fcntl(fd, F_SETFL, arg)`
abbrev pub original_setfl : {K : Type 0} → Sys K → World K → ℕ → ℕ → World K × ℕ
original_setfl sys w fd arg = let (k, r) = sys.setfl w.kernel fd arg in (record w { kernel = k }, r)

abbrev pub setfl_ctx : {K : Type 0} → Sys K → World K → ℕ → ℕ → Option ℕ → World K × ℕ
setfl_ctx sys w fd arg none = original_setfl sys w fd arg
setfl_ctx sys w fd arg (some a) =
    let c = w.mgr.ctxs a in
    if c.is_closed || not c.is_socket
    then original_setfl sys w fd arg
    else original_setfl sys
        (record w { mgr = change w.mgr a (record c { user_nonblock = has_nonblock arg }) }) fd
        (if c.sys_nonblock then with_nonblock arg else without_nonblock arg)

unfoldable pub fcntl_setfl : {K : Type 0} → Sys K → World K → ℕ → ℕ → World K × ℕ
fcntl_setfl sys w fd arg = setfl_ctx sys w fd arg ((get_nat sys w.kernel w.mgr fd false).2)

-- `fcntl(fd, F_GETFL)`
abbrev pub getfl_ctx : {K : Type 0} → World K → ℕ → Option ℕ → ℕ
getfl_ctx w arg none = arg
getfl_ctx w arg (some a) =
    let c = w.mgr.ctxs a in
    if c.is_closed || not c.is_socket
    then arg
    else if c.user_nonblock
    then with_nonblock arg
    else without_nonblock arg

unfoldable pub fcntl_getfl : {K : Type 0} → Sys K → World K → ℕ → ℕ
fcntl_getfl sys w fd = getfl_ctx w (sys.getfl w.kernel fd) ((get_nat sys w.kernel w.mgr fd false).2)

-- What `setsockopt` records of SO_RCVTIMEO and SO_SNDTIMEO, before the original call.
abbrev pub note_timeout : {K : Type 0} → World K → Side → ℕ → ℕ → Option ℕ → World K
note_timeout w side sec usec none = w
note_timeout w side sec usec (some a) = record w {
  mgr = change w.mgr a (set_timeout (w.mgr.ctxs a) side ((sec * 1000 + usec / 1000) % 2 ^ 64));
}

unfoldable pub setsockopt_timeout : {K : Type 0} → Sys K → World K → ℕ → Side → ℕ → ℕ → World K
setsockopt_timeout sys w fd side sec usec =
    if not w.enabled
    then w
    else note_timeout w side sec usec ((get_nat sys w.kernel w.mgr fd false).2)

-- What `ioctl` notes of FIONBIO, before the original call: whether `*(int *)arg` is not 0.
abbrev pub note_nonblock : {K : Type 0} → World K → Bool → Option ℕ → World K
note_nonblock w v none = w
note_nonblock w v (some a) =
    let c = w.mgr.ctxs a in
    if c.is_closed || not c.is_socket
    then w
    else record w { mgr = change w.mgr a (record c { user_nonblock = v }) }

unfoldable pub ioctl_fionbio : {K : Type 0} → Sys K → World K → ℕ → Bool → World K
ioctl_fionbio sys w fd v = note_nonblock w v ((get_nat sys w.kernel w.mgr fd false).2)
