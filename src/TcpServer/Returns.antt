-- ===== src/TcpServer/Returns.antt =====
-- On a thread without the hooks, the server's `bind` returns: src/tcpserver.cc.
use ztyco.Socket.{Socket}
use ztyco.Socket.Returns.{Returns}
use ztyco.TcpServer.{TcpServer}
