-- ===== src/Hook/Files.antt =====
-- The hooked calls that keep the table of descriptors in step, src/hook.cc.
use ztyco.IoManager.{IoManager, any}
use ztyco.FdManager.{
  Sys, Side, receiving, sending, entry, get_nat, look_then, look, make, new_ctx, change, no_limit,
  set_timeout,
}
use ztyco.FdManager.Laws.{get_entry, make-entry}
use ztyco.FdManager.Table.{IsTable}
use ztyco.Base.Int.{pos}
use ztyco.Base.{
  ℕ, ◌+◌, ◌*◌, ◌/◌, ◌%◌, ◌^◌, ◌≡◌, Bool, true, false, not, none, some, List, arith, assert, Outcome,
  ok, ◌>>=◌,
}
use ztyco.Hook.{World, Reply, Wait, io_loop, do_io}
use ztyco.Hook.Calls.{socket, setsockopt_timeout}

-- On a hooked socket, after a timeout is set for a side, a call of that side waits with that
-- timeout in milliseconds, zero included.
do_io-setsockopt :
    {K : Type 0} (sys : Sys K) (w : World K) (io : IoManager) (fd a sec usec : ℕ) (side : Side)
    (rs : List Reply) (ws : List Wait)
    → w.enabled ≡ true
    → w.io ≡ some io
    → entry w.mgr fd ≡ some a
    → (w.mgr.ctxs a).is_closed ≡ false
    → (w.mgr.ctxs a).is_socket ≡ true
    → (w.mgr.ctxs a).user_nonblock ≡ false
    → do_io sys (setsockopt_timeout sys w fd side sec usec) fd side rs ws
      ≡ io_loop ((sec * 1000 + usec / 1000) % 2 ^ 64) rs ws
unfolding do_io setsockopt_timeout
do_io-setsockopt sys w io fd a sec usec receiving rs ws on h there open_ socket_ user =
    let m' =
      change w.mgr a (set_timeout (w.mgr.ctxs a) receiving ((sec * 1000 + usec / 1000) % 2 ^ 64)) in
    rw (on, get_entry sys w.kernel w.mgr fd, there) (ground (arith, get_entry sys w.kernel m' fd))
do_io-setsockopt sys w io fd a sec usec sending rs ws on h there open_ socket_ user =
    let m' =
      change w.mgr a (set_timeout (w.mgr.ctxs a) sending ((sec * 1000 + usec / 1000) % 2 ^ 64)) in
    rw (on, get_entry sys w.kernel w.mgr fd, there) (ground (arith, get_entry sys w.kernel m' fd))

-- The end of `cancelAll`.
abbrev last_check : ℕ → IoManager → Outcome (IoManager × Bool)
last_check a io = assert (not (any (io.contexts a).events)) >>= λ _. ok (io, true)

-- A socket made with the hooks on, on a descriptor that the table does not know, has a context in
-- the table: hooked, with no timeout, and not in the program's own non-blocking mode.
pub get-socket :
    {K : Type 0} (sys : Sys K) (w : World K) (k : K) (fd : ℕ)
    → w.enabled ≡ true
    → IsTable w.mgr
    → entry w.mgr fd ≡ none
    → sys.socket w.kernel ≡ (k, pos fd)
    → sys.fstat k fd ≡ some true
    → let w' = (socket sys w).0 in
      (entry w'.mgr fd ≡ some w.mgr.fresh)
      × (w'.mgr.ctxs w.mgr.fresh ≡ record {
        is_init = true;
        is_socket = true;
        sys_nonblock = true;
        user_nonblock = false;
        is_closed = false;
        fd = fd;
        recv_timeout = no_limit;
        send_timeout = no_limit;
      })
unfolding socket get_nat look look_then
get-socket sys w k fd on t unknown made is_sock_ =
    let c = (new_ctx sys k fd).1 in
    let e = make-entry w.mgr fd c t in (ground (arith, e.0), unfold new_ctx make in ground arith)
