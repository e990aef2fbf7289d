-- ===== src/TcpServer.antt =====
-- The TCP server, src/tcpserver.cc and include/tcpserver.h, over the sockets and the world of the
-- hooked calls. What is scheduled on the two schedulers is a list of jobs; the job that `stop`
-- schedules is `stopped`, and `accept_round` is one turn of the loop of `startAccept`. A job has its
-- socket as it was when the job was scheduled.
pub mod Binding
pub mod Returns
mod Tests
use ztyco.FdManager.{Sys, receiving}
use ztyco.IoManager.{Ctl}
use ztyco.Hook.{World}
use ztyco.Socket.{Addr, Net, Socket, close, accept}
use ztyco.Socket.Ops.{bind, listen, create_tcp, cancel_every, set_side_timeout}
use ztyco.Base.{
  ℕ, Bool, true, false, not, Option, none, some, List, [], ◌∷◌, ◌++◌, map, if◌then◌else◌, is_empty,
  Outcome, ok, ◌>>=◌,
}

-- A job of a scheduler: `startAccept` of a socket, `handleClient` of one, or the end of `stop`.
pub data Job : Type 0 where
  accepting : Socket → Job
  handling : Socket → Job
  stopping : Job

-- `TcpServer`, with the jobs given to its schedulers so far.
pub record TcpServer : Type 0 where
  pub socks : List Socket
  pub recv_timeout : ℕ
  pub is_stop : Bool
  pub io_jobs : List Job
  pub accept_jobs : List Job

-- SOMAXCONN, the default of `listen`.
abbrev pub backlog : ℕ
backlog = 4096

-- `TcpServer::TcpServer`, with the configured timeout.
abbrev pub new_server : ℕ → TcpServer
new_server timeout = record {
  socks = [];
  recv_timeout = timeout;
  is_stop = true;
  io_jobs = [];
  accept_jobs = [];
}

-- `TcpServer::start` and `stop`
unfoldable pub start : TcpServer → TcpServer
start s =
    if s.is_stop
    then record s { is_stop = false; accept_jobs = s.accept_jobs ++ map accepting s.socks }
    else s

unfoldable pub stop : TcpServer → TcpServer
stop s = record s { is_stop = true; accept_jobs = s.accept_jobs ++ stopping ∷ [] }

module _ {K : Type 0} (sys : Sys K) (ctl : Ctl) (net : Net K) where
  -- One address of `bind`: a socket that is bound and listens, or none. A socket that is given up is
  -- closed by its destructor.
  abbrev pub given_up : World K → Socket → Outcome (World K × Option Socket)
  unfolding close
  given_up w x = do (w', y, b) ← close sys ctl net w x; ok (w', none)

  abbrev pub listening : World K → Socket → Outcome (World K × Option Socket)
  unfolding listen close
  listening w x =
      let (w', good) = listen sys ctl net w x backlog in
      if good then ok (w', some x) else given_up w' x

  unfoldable pub bind_one : World K → Addr → Outcome (World K × Option Socket)
  unfolding bind listen close
  bind_one w addr = do
    (w', x, good) ← bind sys ctl net w (create_tcp sys ctl net addr.family) addr
    if good then listening w' x else given_up w' x

  -- The loop over the addresses, with `m_socks` and `fails` so far.
  abbrev pub noted : List Socket × List Addr → Addr → Option Socket → List Socket × List Addr
  noted (socks, fails) addr none = (socks, fails ++ addr ∷ [])
  noted (socks, fails) addr (some x) = (socks ++ x ∷ [], fails)

  unfoldable pub bind_each :
      World K → List Addr → List Socket × List Addr → Outcome (World K × List Socket × List Addr)
  unfolding bind_one
  bind_each w [] (socks, fails) = ok (w, socks, fails)
  bind_each w (addr ∷ rest) so_far = do
    (w', r) ← bind_one w addr
    bind_each w' rest (noted so_far addr r)

  -- `close` of every socket: a socket that leaves `m_socks` is closed.
  unfoldable pub close_each : World K → List Socket → Outcome (World K)
  unfolding close
  close_each w [] = ok w
  close_each w (x ∷ rest) = do (w', y, b) ← close sys ctl net w x; close_each w' rest

  abbrev pub cleared :
      TcpServer → List Addr → Outcome (World K) → Outcome (World K × TcpServer × List Addr × Bool)
  cleared s fails closed = do w ← closed; ok (w, record s { socks = [] }, fails, false)

  -- `TcpServer::bind`: with the failed addresses, `fails` empty before.
  unfoldable pub bind_all :
      World K → TcpServer → List Addr → Outcome (World K × TcpServer × List Addr × Bool)
  unfolding bind_each close_each
  bind_all w s addrs = do
    (w', socks, fails) ← bind_each w addrs (s.socks, [])
    if is_empty fails
        then ok (w', record s { socks = socks }, fails, true)
        else cleared s fails (close_each w' socks)

  -- One turn of the loop of `TcpServer::startAccept`, from the accepted socket on; a null pointer is
  -- only logged.
  abbrev pub limited : World K → Option ℕ → ℕ → World K
  unfolding set_side_timeout
  limited w none v = w
  limited w (some fd) v = set_side_timeout sys ctl net w receiving fd v

  abbrev pub handed : TcpServer → World K × Option Socket → World K × TcpServer
  unfolding set_side_timeout
  handed s (w, none) = (w, s)
  handed s (w, some client) = (
    limited w client.sock s.recv_timeout,
    record s { io_jobs = s.io_jobs ++ handling client ∷ [] },
  )

  unfoldable pub accept_round : World K → TcpServer → Socket → World K × TcpServer
  unfolding accept set_side_timeout
  accept_round w s x = if s.is_stop then (w, s) else handed s (accept sys ctl net w x)

  -- The job that `stop` schedules.
  unfoldable pub stop_each : World K → List Socket → Outcome (World K)
  unfolding close cancel_every
  stop_each w [] = ok w
  stop_each w (x ∷ rest) = do
    (w', b) ← cancel_every sys ctl net w x
    (w'', y, c) ← close sys ctl net w' x
    stop_each w'' rest

  unfoldable pub stopped : World K → TcpServer → Outcome (World K × TcpServer)
  unfolding stop_each
  stopped w s = do w' ← stop_each w s.socks; ok (w', record s { socks = [] })
