-- ===== src/Hook/Connect.antt =====
-- `connect_with_timeout`, src/hook.cc.
use ztyco.IoManager.{IoManager}
use ztyco.FdManager.{Sys, get_nat, no_limit}
use ztyco.Base.{ℕ, false, not, ◌&&◌, Option, none, some, List, [], ◌∷◌, ◌++◌, ◌==◌, if◌then◌else◌}
use ztyco.Hook.{
  Act, Reply, Result, Wait, World, armed, bad_fd, came, crashed, disarmed, done, failed, no_status,
  register, timed_out, yield,
}

abbrev pub einprogress : ℕ
einprogress = 115

-- `connect_with_timeout` from its use of the `IOManager` on; `so_error` is what `getsockopt` gives
-- for SO_ERROR, `none` where it fails.
abbrev pub connect_result : Option ℕ → Result
connect_result none = no_status
connect_result (some e) = if e == 0 then came (done 0) else came (failed e)

abbrev pub connect_wait : Option IoManager → ℕ → Wait → Option ℕ → List Act × Result
connect_wait none timeout w so_error = ([], crashed)
connect_wait (some io) timeout w so_error =
    if w.refused
    then (armed timeout ++ register ∷ disarmed timeout, connect_result so_error)
    else if not (timeout == no_limit) && w.expired
    then (armed timeout ++ register ∷ yield ∷ disarmed timeout, timed_out)
    else (armed timeout ++ register ∷ yield ∷ disarmed timeout, connect_result so_error)

-- The reply of the original `connect`: EINTR and EAGAIN are errors like the others.
abbrev pub connect_reply : Option IoManager → ℕ → Wait → Option ℕ → Reply → List Act × Result
connect_reply io timeout w so_error (done n) = ([], came (done n))
connect_reply io timeout w so_error (failed e) =
    if e == einprogress then ([], came (failed e)) else connect_wait io timeout w so_error
connect_reply io timeout w so_error r = connect_wait io timeout w so_error

abbrev pub connect_ctx :
    {K : Type 0} → World K → ℕ → Reply → Wait → Option ℕ → Option ℕ → List Act × Result
connect_ctx w timeout r wait so_error none = ([], bad_fd)
connect_ctx w timeout r wait so_error (some a) =
    let c = w.mgr.ctxs a in
    if c.is_closed
    then ([], bad_fd)
    else if not c.is_socket
    then ([], came r)
    else if not c.user_nonblock
    then ([], came r)
    else connect_reply w.io timeout wait so_error r

-- `connect_with_timeout`
unfoldable pub connect_with_timeout :
    {K : Type 0} → Sys K → World K → ℕ → ℕ → Reply → Wait → Option ℕ → List Act × Result
connect_with_timeout sys w fd timeout r wait so_error =
    if not w.enabled
    then ([], came r)
    else connect_ctx w timeout r wait so_error ((get_nat sys w.kernel w.mgr fd false).2)
