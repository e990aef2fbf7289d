-- ===== src/Socket/Ops.antt =====
-- Connecting, binding, listening, sending and receiving, src/socket.cc.
use ztyco.Base.Int.{ℤ, pos, negsuc}
use ztyco.FdManager.{Sys, Side, get, get_timeout}
use ztyco.IoManager.{Event, Ctl}
use ztyco.IoManager.Calls.{cancel_event, cancel_all}
use ztyco.Hook.{World}
use ztyco.Hook.Calls.{setsockopt_timeout}
use ztyco.Base.{
  ℕ, ◌+◌, ◌-◌, ◌*◌, ◌/◌, ◌%◌, ◌^◌, Bool, true, false, not, Option, none, some, ◌==◌, ltb,
  if◌then◌else◌, is_some, Str, Outcome, ok, ◌>>=◌, deref,
}
use ztyco.Socket.{
  Addr, Net, Socket, tcp, udp, af_unix, new_socket, new_sock, ensure, get_local, get_remote, close,
}

-- The seconds of a number of milliseconds that is not negative: they are an `int`, which as a `time_t`
-- keeps its sign.
abbrev pub seconds : ℕ → ℕ
seconds v = let s = v / 1000 % 2 ^ 32 in if ltb s (2 ^ 31) then s else s + (2 ^ 64 - 2 ^ 32)

module _ {K : Type 0} (sys : Sys K) (ctl : Ctl) (net : Net K) where
  -- `Socket::connect` from the call of the kernel on. One with a timeout closes the socket where it
  -- fails.
  abbrev pub connect_fd : World K → Socket → Addr → Option ℕ → ℕ → Outcome (World K × Socket × Bool)
  unfolding close
  connect_fd w x addr timeout fd =
      let (k, good) = net.connect w.kernel fd addr timeout in
      let w' = record w { kernel = k } in
      let y = record x { is_connected = true } in
      if good
      then ok (w', get_local sys ctl net w' (get_remote sys ctl net w' y), true)
      else if is_some timeout
      then (do (w'', z, b) ← close sys ctl net w' x; ok (w'', z, false))
      else ok (w', x, false)

  abbrev pub connect_at :
      World K → Socket → Addr → Option ℕ → Option ℕ → Outcome (World K × Socket × Bool)
  unfolding close
  connect_at w x addr timeout none = ok (w, x, false)
  connect_at w x addr timeout (some fd) =
      if addr.family == x.family then connect_fd w x addr timeout fd else ok (w, x, false)

  unfoldable pub connect : World K → Socket → Addr → Option ℕ → Outcome (World K × Socket × Bool)
  unfolding new_sock close
  connect w x addr timeout =
      let (w', y) = ensure sys ctl net w (record x { remote = some addr }) in
      connect_at w' y addr timeout y.sock

  -- `Socket::reconnect`
  abbrev pub reconnect_to :
      World K → Socket → Option ℕ → Option Addr → Outcome (World K × Socket × Bool)
  unfolding connect
  reconnect_to w x timeout none = ok (w, x, false)
  reconnect_to w x timeout (some addr) = connect w (record x { local = none }) addr timeout

  unfoldable pub reconnect : World K → Socket → Option ℕ → Outcome (World K × Socket × Bool)
  unfolding connect
  reconnect w x timeout = reconnect_to w x timeout x.remote

  -- Before a local address is bound: where a socket of its own connects to it, another program
  -- listens there; otherwise the path is removed. The other socket is closed.
  abbrev pub try_path : World K → Addr → Option Str → Outcome (World K × Bool)
  unfolding connect
  try_path w addr none = ok (w, true)
  try_path w addr (some path) = do
    (w1, other, taken) ← connect w (new_socket af_unix tcp) addr none
    (w2, gone, b) ←
        close sys ctl net (if taken then w1 else record w1 { kernel = net.unlink w1.kernel path })
          other
    ok (w2, not taken)

  abbrev pub bind_fd : World K → Socket → Addr → ℕ → Outcome (World K × Socket × Bool)
  bind_fd w x addr fd =
      let (k, good) = net.bind w.kernel fd addr in
      let w' = record w { kernel = k } in
      ok (w', (if good then get_local sys ctl net w' x else x), good)

  abbrev pub bind_at : World K → Socket → Addr → Option ℕ → Outcome (World K × Socket × Bool)
  unfolding connect
  bind_at w x addr none = ok (w, x, false)
  bind_at w x addr (some fd) =
      if addr.family == x.family
      then (do
        (w', free) ← try_path w addr addr.path
        if free then bind_fd w' x addr fd else ok (w', x, false))
      else ok (w, x, false)

  -- `Socket::bind`
  unfoldable pub bind : World K → Socket → Addr → Outcome (World K × Socket × Bool)
  unfolding new_sock connect
  bind w x addr =
      let (w', y) = ensure sys ctl net w (record x { local = some addr }) in
      bind_at w' y addr y.sock

  -- `Socket::listen`
  abbrev pub listen_at : World K → ℕ → Option ℕ → World K × Bool
  listen_at w backlog none = (w, false)
  listen_at w backlog (some fd) =
      let (k, good) = net.listen w.kernel fd backlog in (record w { kernel = k }, good)

  unfoldable pub listen : World K → Socket → ℕ → World K × Bool
  listen w x backlog = listen_at w backlog x.sock

  -- `CreateTCPSocket` and `CreateUDPSocket`, of a family; the second has its descriptor at once.
  abbrev pub create_tcp : ℕ → Socket
  create_tcp family = new_socket family tcp

  unfoldable pub create_udp : World K → ℕ → World K × Socket
  unfolding new_sock
  create_udp w family =
      let (w', x) = new_sock sys ctl net w (new_socket family udp) in
      (w', record x { is_connected = true })

  -- `Socket::getError`: SO_ERROR is overwritten where it can be read.
  unfoldable pub get_error : World K → ℕ → ℕ
  get_error w fd = elim (net.so_error w.kernel fd) [ none ↦ 0 | some e ↦ net.errno w.kernel ]

  -- `setRecvTimeout` and `setSendTimeout`.
  unfoldable pub set_side_timeout : World K → Side → ℕ → ℕ → World K
  unfolding setsockopt_timeout
  set_side_timeout w side fd v = setsockopt_timeout sys w fd side (seconds v) (v % 1000 * 1000)

  -- `getRecvTimeout` and `getSendTimeout`: `none` is -1.
  abbrev pub side_timeout_of : World K → Side → Option ℕ → Option ℕ
  side_timeout_of w side none = none
  side_timeout_of w side (some a) = some (get_timeout (w.mgr.ctxs a) side)

  abbrev pub sock_number : Option ℕ → ℤ
  sock_number none = negsuc 0
  sock_number (some fd) = pos fd

  unfoldable pub get_side_timeout : World K → Side → Socket → Outcome (Option ℕ)
  unfolding get
  get_side_timeout w side x = do
    (k, m, a) ← get sys w.kernel w.mgr (sock_number x.sock) false
    ok (side_timeout_of w side a)

  -- `cancelRead`, `cancelWrite`, `cancelAccept` and `cancelAll`, on the thread's I/O scheduler.
  unfoldable pub cancel_side : World K → Socket → Event → Outcome (World K × Bool)
  cancel_side w x e = do
    io ← deref w.io
    fd ← deref x.sock
    (io', b) ← cancel_event ctl io fd e
    ok (record w { io = some io' }, b)

  unfoldable pub cancel_every : World K → Socket → Outcome (World K × Bool)
  cancel_every w x = do
    io ← deref w.io
    fd ← deref x.sock
    (io', b) ← cancel_all ctl io fd
    ok (record w { io = some io' }, b)

-- What `send`, `sendTo`, `recv` and `recvFrom` come to: -1 at once, or a system call on a descriptor
-- with a length.
pub data Transfer : Type 0 where
  refused : Transfer
  passed : Option ℕ → ℕ → Transfer

-- `send`, `sendTo` and `recv` of a buffer of a length, and the four with an array of buffers.
unfoldable pub transfer : Socket → ℕ → Transfer
transfer x len = if x.is_connected then passed x.sock len else refused

-- `recvFrom` of a buffer: a local variable of the name of the parameter hides it, and the length
-- that is passed is that of the address.
unfoldable pub recv_from : Socket → ℕ → ℕ → Transfer
recv_from x len addr_len =
    let len' = addr_len in if x.is_connected then passed x.sock len' else refused
