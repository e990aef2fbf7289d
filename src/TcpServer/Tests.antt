-- ===== src/TcpServer/Tests.antt =====
-- Tests and instances for the TCP server, src/tcpserver.cc.
use ztyco.IoManager.{Ctl}
use ztyco.FdManager.{Sys, new_manager}
use ztyco.Base.Int.{pos}
use ztyco.Base.{ℕ, ◌≡◌, refl, true, false, none, some, [], ◌∷◌, ok, ◌==◌}
use ztyco.Hook.{World}
use ztyco.Hook.Calls as H
use ztyco.Socket.{Addr, Net, close}
use ztyco.Socket.Ops.{bind, listen}
use ztyco.TcpServer.{TcpServer, new_server, bind_all, bind_one, bind_each, close_each}

abbrev sys : Sys ℕ
sys = record {
  fstat = λ k fd. some true;
  getfl = λ k fd. k;
  setfl = λ k fd v. (v, 0);
  close = λ k fd. (k, 0);
  socket = λ k. (k, pos 3);
}

abbrev ctl : Ctl
ctl op fd m = false

-- Only address 1 can be bound.
abbrev net : Net ℕ
net = record {
  bind = λ k fd a. (k, a.id == 1);
  listen = λ k fd n. (k, true);
  connect = λ k fd a t. (k, false);
  accept = λ k fd. (k, none);
  set_opt = λ k fd o. (k, true);
  sock_name = λ k fd. none;
  peer_name = λ k fd. none;
  unlink = λ k path. k;
  so_error = λ k fd. none;
  errno = λ k. 98;
}

abbrev world : World ℕ
world = record { enabled = false; kernel = 0; mgr = new_manager; io = none }

abbrev address : ℕ → Addr
address n = record { id = n; family = 2; path = none }

-- One of two addresses fails, and the socket of the other is gone.
one_fails :
    bind_all sys ctl net world (new_server 120000) (address 1 ∷ address 2 ∷ [])
    ≡ ok (world, new_server 120000, address 2 ∷ [], false)
unfolding bind_all bind_each bind_one close_each bind listen close H.socket H.close
one_fails = refl
