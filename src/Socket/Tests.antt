-- ===== src/Socket/Tests.antt =====
-- Tests and instances for the sockets, src/socket.cc.
use ztyco.IoManager.{IoManager, Ctl, none_set, blank}
use ztyco.FdManager.{Sys, FdCtx, receiving, no_limit}
use ztyco.Base.Int.{pos, negsuc}
use ztyco.Base.{Bool, ℕ, ◌≡◌, refl, true, false, none, some, [], ◌∷◌, ok, arith}
use ztyco.Hook.{World}
use ztyco.Socket.{Addr, Net, Socket, new_socket, tcp}
use ztyco.Socket.Ops.{create_udp, set_side_timeout, get_side_timeout, get_error, recv_from, passed}
use ztyco.Socket.Returns.{run_returns}
use ztyco.Socket.State.{is_sound, connects, run}
use ztyco.Socket.Timeouts.{get_side_timeout-set_side_timeout}

abbrev sys : Sys ℕ
sys = record {
  fstat = λ k fd. some true;
  getfl = λ k fd. k;
  setfl = λ k fd v. (v, 0);
  close = λ k fd. (k, 0);
  socket = λ k. (k, pos 1);
}

-- No descriptor can be made.
abbrev full : Sys ℕ
full = record sys { socket = λ k. (k, negsuc 0) }

abbrev ctl : Ctl
ctl op fd m = false

-- A kernel where everything succeeds, and that accepts descriptor 5.
abbrev net : Net ℕ
net = record {
  bind = λ k fd a. (k, true);
  listen = λ k fd n. (k, true);
  connect = λ k fd a t. (k, true);
  accept = λ k fd. (k, some 5);
  set_opt = λ k fd o. (k, true);
  sock_name = λ k fd. none;
  peer_name = λ k fd. none;
  unlink = λ k path. k;
  so_error = λ k fd. some 111;
  errno = λ k. 0;
}

abbrev ctx : FdCtx
ctx = record {
  is_init = true;
  is_socket = true;
  sys_nonblock = true;
  user_nonblock = false;
  is_closed = false;
  fd = 0;
  recv_timeout = no_limit;
  send_timeout = no_limit;
}

abbrev io : IoManager
io = record {
  contexts = λ a. record { read = blank; write = blank; fd = a; events = none_set };
  table = 0 ∷ 1 ∷ [];
  fresh = 2;
  pending = 0;
  scheduled = [];
}

-- Descriptor 0 is known, and 1 is free.
abbrev world : World ℕ
world = record {
  enabled = true;
  kernel = 7;
  mgr = record { ctxs = λ a. ctx; fresh = 1; datas = some 0 ∷ none ∷ [] };
  io = some io;
}

abbrev far : Addr
far = record { id = 9; family = 2; path = none }

abbrev on_zero : Socket
on_zero = record (new_socket 2 tcp) { sock = some 0 }

-- A datagram socket that could not be made is connected all the same, and then not sound.
udp_unsound : is_sound ((create_udp full ctl net world 2).1) ≡ false
unfolding create_udp
udp_unsound = refl

-- The status that the kernel has is not returned.
get_error_runs : get_error sys ctl net world 0 ≡ 0
unfolding get_error
get_error_runs = refl

-- A buffer of 100 for an address of 16 receives at most 16.
recv_from_runs : recv_from (record on_zero { is_connected = true }) 100 16 ≡ passed (some 0) 16
unfolding recv_from
recv_from_runs = refl

get_side_timeout-set_side_timeout_example :
    get_side_timeout sys ctl net
      (set_side_timeout sys ctl net world receiving 0 1234)
      receiving
      on_zero
    ≡ ok (some 1234)
get_side_timeout-set_side_timeout_example =
    get_side_timeout-set_side_timeout sys ctl net world receiving on_zero 0 0 1234 refl refl refl
      (omega arith)

-- A thread without the hooks.
abbrev plain : World ℕ
plain = record world { enabled = false }

run_returns_example :
    (r : World ℕ × Socket × Bool) × (run sys ctl net (connects far none) plain (new_socket 2 tcp)
      ≡ ok r)
    × (is_sound r.1 ≡ true)
run_returns_example = run_returns sys ctl net (connects far none) plain (new_socket 2 tcp) refl refl
